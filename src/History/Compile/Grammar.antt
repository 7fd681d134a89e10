-- ===== src/History/Compile/Grammar.antt =====
-- What a history that compiles looks like, stated without the compiler's loop.
use zch_coding_agent.Base.{
  ℕ, ◌<◌, ◌≡◌, ◌⊎◌, Bool, false, none, some, List, [], ◌∷◌, ◌++◌, nat_eq, string_eq, String,
}
use zch_coding_agent.Base.Preds.{All}
use zch_coding_agent.Message.{MessageRecord, Platform, contains}
use zch_coding_agent.History.Compile.{result_call, turn_calls, history_epoch_anchor_boundary}
use zch_coding_agent.History.Compile.Steps.{Accepted}

-- Each record comes later than the one before it.
abbrev pub Ascending : ℕ → List MessageRecord → Type 0
Ascending n [] = Unit
Ascending n (r ∷ rs) = (n < r.seq) × Ascending r.seq rs

-- No name of the list is in `seen`, and none is there twice.
abbrev pub AllNew : List String → List String → Type 0
AllNew seen [] = Unit
AllNew seen (s ∷ ss) = (contains s seen ≡ false) × AllNew (s ∷ seen) ss

abbrev pub record_ids : List MessageRecord → List String
record_ids [] = []
record_ids (r ∷ rs) = r.id ∷ record_ids rs

-- The calls of all assistant turns, in order.
abbrev pub all_calls : List MessageRecord → List String
all_calls [] = []
all_calls (r ∷ rs) = turn_calls r.body ++ all_calls rs

-- The boundaries of the epoch anchors, in order.
abbrev pub boundaries : List MessageRecord → List ℕ
boundaries [] = []
boundaries (r ∷ rs) = elim (history_epoch_anchor_boundary r.body) [
  | none ↦ boundaries rs
  | some b ↦ b ∷ boundaries rs
]

-- There is at most one anchor, and every record comes after its boundary.
abbrev pub Anchored : List MessageRecord → Type 0
Anchored rs = (boundaries rs ≡ []) ⊎ ((b : ℕ) × (boundaries rs ≡ b ∷ []) × All (λ r. b < r.seq) rs)

-- A prefix of the records answers the calls `cs`, in their order; `rest` is what follows.
abbrev pub Answers : List String → List MessageRecord → List MessageRecord → Type 0
Answers [] rs rest = rs ≡ rest
Answers (c ∷ cs) [] rest = ⊥
Answers (c ∷ cs) (r ∷ rs) rest = (result_call r.body ≡ some c) × Answers cs rs rest

-- Records that are neither results nor turns with calls stand alone; a turn with calls is
-- followed at once by the results of its calls, in their order.
pub data Turns : List MessageRecord → Type 0 where
  finished : Turns []
  alone :
      {r : MessageRecord} {rs : List MessageRecord}
      → result_call r.body ≡ none
      → turn_calls r.body ≡ []
      → Turns rs
      → Turns (r ∷ rs)
  batch :
      {r : MessageRecord} {rs : List MessageRecord} (c : String) (cs : List String)
      (rest : List MessageRecord)
      → result_call r.body ≡ none
      → turn_calls r.body ≡ c ∷ cs
      → Answers (c ∷ cs) rs rest
      → Turns rest
      → Turns (r ∷ rs)

-- A history as a provider can be given it.
pub record IsCanonical (p : Platform) (schema_valid : MessageRecord → Bool) (session : String)
    (rs : List MessageRecord) : Type 0 where
  pub accepted : All (Accepted p schema_valid) rs
  pub one_session : All (λ r. r.session_id ≡ session) rs
  pub ascending : Ascending 0 rs
  pub distinct_ids : AllNew [] (record_ids rs)
  pub anchored : Anchored rs
  pub turns : Turns rs
  pub distinct_calls : AllNew [] (all_calls rs)
