-- ===== src/Tests/PatchTest.antt =====
-- A hunk on a file of three lines.
use zch_coding_agent.Base.{ℕ, ◌≡◌, refl, ◌↔◌, false, List, [], ◌∷◌, nat_eq, string_eq, ok, String}
use zch_coding_agent.Patch.{
  ParsedHunk, unique, starts_with, matching_sequence_at, search, is_nil, find_unique_sequence,
  splice, apply_hunk,
}
use zch_coding_agent.Patch.Unique.{IsAt, find_unique_sequence-IsAt_iff}
use zch_coding_agent.Patch.Apply.{Replaces, apply_hunk-Replaces}

abbrev lines : List String
lines = "a" ∷ "b" ∷ "c" ∷ []

abbrev hunk : ParsedHunk
hunk = record {
  old_start = 1;
  old_lines = "b" ∷ "c" ∷ [];
  new_lines = "b" ∷ "d" ∷ "e" ∷ [];
  added_lines = 2;
  removed_lines = 1;
}

find_unique_sequence-IsAt_iff_example : (find_unique_sequence lines ("b" ∷ []) ≡ unique 1) ↔ (
    (is_nil {A = String} ("b" ∷ []) ≡ false)
    × IsAt lines ("b" ∷ []) 1
    × ((j : ℕ) → IsAt lines ("b" ∷ []) j → j ≡ 1))
find_unique_sequence-IsAt_iff_example = find_unique_sequence-IsAt_iff lines ("b" ∷ []) 1

applied : apply_hunk lines hunk ≡ ok ("a" ∷ "b" ∷ "d" ∷ "e" ∷ [])
unfolding apply_hunk find_unique_sequence search matching_sequence_at starts_with splice
applied = refl

apply_hunk-Replaces_example : Replaces hunk lines ("a" ∷ "b" ∷ "d" ∷ "e" ∷ [])
apply_hunk-Replaces_example = apply_hunk-Replaces lines hunk ("a" ∷ "b" ∷ "d" ∷ "e" ∷ []) applied
