-- ===== src/Patch.antt =====
-- electron/tools/text-patch.ts, from the parsed hunks on: where a hunk's old lines stand in a file,
-- and what the hunks make of it. A line is a `String`; the messages of the errors are left out.
pub mod Unique
pub mod Apply
use zch_coding_agent.Base.{
  ℕ, zero, suc, ◌+◌, ◌-◌, Bool, true, false, ◌&&◌, Option, none, some, List, [], ◌∷◌, ◌++◌, leb,
  if◌then◌else◌, length, ◌==◌, nat_eq, string_eq, Result, ok, err, ◌>>=◌, ◌>>◌, String,
}
use zch_coding_agent.Base.{take, drop}

pub record ParsedHunk : Type 0 where
  pub old_start : ℕ
  pub old_lines : List String
  pub new_lines : List String
  pub added_lines : ℕ
  pub removed_lines : ℕ

pub data Found : Type 0 where
  nowhere : Found
  unique : (position : ℕ) → Found
  multiple : Found

-- `expected.every(...)` from some line on.
unfoldable pub starts_with : List String → List String → Bool
starts_with [] lines = true
starts_with (e ∷ expected) [] = false
starts_with (e ∷ expected) (l ∷ lines) = l == e && starts_with expected lines

unfoldable pub matching_sequence_at : List String → ℕ → List String → Bool
matching_sequence_at lines start expected =
    leb (start + length expected) (length lines) && starts_with expected (drop start lines)

-- The loop of `findUniqueSequence` from an index on, with the number of rounds left and the
-- position found.
unfoldable pub search : List String → List String → (index rounds : ℕ) → Option ℕ → Found
search lines expected index zero none = nowhere
search lines expected index zero (some position) = unique position
search lines expected index (suc rounds) found =
    let skip = search lines expected (suc index) rounds found in
    let take_it = search lines expected (suc index) rounds (some index) in
    if matching_sequence_at lines index expected
    then elim found [ none ↦ take_it | some position ↦ multiple ]
    else skip

abbrev pub is_nil {ℓ} : {A : Type ℓ} → List A → Bool
is_nil [] = true
is_nil (x ∷ xs) = false

unfoldable pub find_unique_sequence : List String → List String → Found
find_unique_sequence lines expected =
    if is_nil expected
    then nowhere
    else search lines expected 0 (suc (length lines) - length expected) none

pub data PatchError : Type 0 where
  matches_multiple does_not_match : PatchError

-- `splice(position, oldLines.length, ...newLines)`.
unfoldable pub splice : List String → ℕ → ℕ → List String → List String
splice lines position deleted inserted =
    take position lines ++ inserted ++ drop (position + deleted) lines

-- The loop over the hunks: the lines, and the added and the removed lines so far.
unfoldable pub apply_hunk : List String → ParsedHunk → Result PatchError (List String)
apply_hunk lines hunk = elim (find_unique_sequence lines hunk.old_lines) [
  | multiple ↦ err matches_multiple
  | nowhere ↦ err does_not_match
  | unique position ↦ ok (splice lines position (length hunk.old_lines) hunk.new_lines)
]

pub apply_hunks :
    List String → List ParsedHunk → (added removed : ℕ) → Result PatchError (List String × ℕ × ℕ)
apply_hunks lines [] added removed = ok (lines, added, removed)
apply_hunks lines (hunk ∷ hunks) added removed = do
  next ← apply_hunk lines hunk
  apply_hunks next hunks (added + hunk.added_lines) (removed + hunk.removed_lines)
