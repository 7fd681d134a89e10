-- ===== src/Swarm/Results.antt =====
-- electron/swarm/job-validation.ts: `boundResult`, which cuts the texts of a job's result until the
-- whole fits. The search keeps the source's `upper` plus one, which does not go below 0.
pub mod Bound
pub mod Cut
use zch_coding_agent.Base.{
  ℕ, zero, suc, ◌+◌, ◌-◌, ◌/◌, max, Bool, true, false, not, ◌&&◌, ◌||◌, Option, none, some, List,
  [], ◌∷◌, map, ltb, leb, if◌then◌else◌, length, ◌==◌, nat_eq, string_eq, option_eq,
}
use zch_coding_agent.Base.{take}
use zch_coding_agent.Json.{JsonValue}

-- One worker's result: its own text, or the message of its error, beside what is not cut.
pub record SwarmAgentResult : Type 0 where
  pub fields : JsonValue
  pub response : Option (List ℕ)
  pub error_message : Option (List ℕ)
  pub truncated : Bool

pub record SwarmRunResult : Type 0 where
  pub summary : JsonValue
  pub results : List SwarmAgentResult

-- The platform: `Buffer.from(text, 'utf8')`, `TextDecoder`, and the bytes of `JSON.stringify`.
pub record Platform : Type 0 where
  pub encode : List ℕ → List ℕ
  pub decode : List ℕ → List ℕ
  pub json_bytes : SwarmRunResult → ℕ

abbrev pub max_swarm_result_bytes : ℕ
max_swarm_result_bytes = 2_000_000

unfoldable pub truncate_utf8 : Platform → List ℕ → ℕ → List ℕ
truncate_utf8 p value maximum =
    let bytes = p.encode value in
    if leb (length bytes) maximum then value else p.decode (take maximum bytes)

abbrev pub original : SwarmAgentResult → List ℕ
original entry = elim entry.response [
  | some text ↦ text
  | none ↦ elim entry.error_message [ some message ↦ message | none ↦ [] ]
]

-- The text goes where the original was.
unfoldable pub with_text : List ℕ → Bool → SwarmAgentResult → SwarmAgentResult
with_text text truncated entry = elim entry.response [
  | some old ↦ record entry { response = some text; truncated = truncated }
  | none ↦ elim entry.error_message [
    | some old ↦ record entry { error_message = some text; truncated = truncated }
    | none ↦ record entry { truncated = truncated }
  ]
]

abbrev pub same_text : List ℕ → List ℕ → Bool
same_text [] [] = true
same_text (c ∷ s) (d ∷ t) = c == d && same_text s t
same_text _ _ = false

unfoldable pub cut_entry : Platform → ℕ → SwarmAgentResult → SwarmAgentResult
cut_entry p maximum entry =
    let text = truncate_utf8 p (original entry) maximum in
    with_text text (entry.truncated || not (same_text text (original entry))) entry

unfoldable pub empty_entry : SwarmAgentResult → SwarmAgentResult
empty_entry entry = with_text [] true entry

unfoldable pub candidate : Platform → SwarmRunResult → ℕ → SwarmRunResult
candidate p result maximum = record result { results = map (cut_entry p maximum) result.results }

unfoldable pub empty_text : SwarmRunResult → SwarmRunResult
empty_text result = record result { results = map empty_entry result.results }

abbrev pub fits : Platform → SwarmRunResult → Bool
fits p result = leb (p.json_bytes result) max_swarm_result_bytes

-- `Math.max(0, ...originals.map((value) => Buffer.byteLength(value, 'utf8')))`.
abbrev pub longest : Platform → List SwarmAgentResult → ℕ
longest p [] = 0
longest p (entry ∷ entries) = max (length (p.encode (original entry))) (longest p entries)

-- The loop of the search, from `lower` up to below `above`. Every round brings them closer.
unfoldable pub search :
    Platform → SwarmRunResult → (fuel lower above : ℕ) → SwarmRunResult → SwarmRunResult
search p result zero lower above bounded = bounded
search p result (suc fuel) lower above bounded =
    let per_response = (lower + (above - 1)) / 2 in
    let larger = search p result fuel (suc per_response) above (candidate p result per_response) in
    let smaller = search p result fuel lower per_response bounded in
    if ltb lower above
    then if fits p (candidate p result per_response) then larger else smaller
    else bounded

unfoldable pub bound_result : Platform → SwarmRunResult → SwarmRunResult
bound_result p result =
    let above = suc (longest p result.results) in
    if fits p result then result else search p result above 0 above (empty_text result)
