-- ===== src/Net/Body.antt =====
-- electron/net/ssrf.ts: the body of a response, as `performRequest` collects it from the chunks that
-- arrive. A chunk is its bytes.
pub mod Bounded
use zch_coding_agent.Base.{ℕ, ◌+◌, ◌-◌, Bool, true, false, List, [], ◌∷◌, ◌++◌, ltb, length}
use zch_coding_agent.Base.{take}

pub record BodyState : Type 0 where
  pub chunks : List ℕ
  pub total : ℕ
  pub truncated : Bool

abbrev pub empty_body : BodyState
empty_body = record { chunks = []; total = 0; truncated = false }

-- What a chunk adds, given whether the body is cut already and whether the chunk goes over the limit.
-- The chunks that are kept stand one after the other, as `Buffer.concat` puts them.
abbrev pub collect : ℕ → BodyState → List ℕ → (cut : Bool) → (over : Bool) → BodyState
collect max_bytes s chunk true over = s
collect max_bytes s chunk false true =
    let total = s.total + length chunk in
    record {
      chunks = s.chunks ++ take (length chunk - (total - max_bytes)) chunk;
      total = total;
      truncated = true;
    }
collect max_bytes s chunk false false = record {
  chunks = s.chunks ++ chunk;
  total = s.total + length chunk;
  truncated = false;
}

-- One `data` event.
unfoldable pub on_data : ℕ → BodyState → List ℕ → BodyState
on_data max_bytes s chunk =
    collect max_bytes s chunk s.truncated (ltb max_bytes (s.total + length chunk))

abbrev pub read_body : ℕ → BodyState → List (List ℕ) → BodyState
read_body max_bytes s [] = s
read_body max_bytes s (chunk ∷ rest) = read_body max_bytes (on_data max_bytes s chunk) rest

abbrev pub concat : List (List ℕ) → List ℕ
concat [] = []
concat (chunk ∷ rest) = chunk ++ concat rest
