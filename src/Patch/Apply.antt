-- ===== src/Patch/Apply.antt =====
-- What a hunk does to a file.
use zch_coding_agent.Base.{
  ℕ, ◌+◌, ◌≡◌, refl, sym, ap, ◌∙◌, ◌⊎◌, inl, inr, List, [], ◌∷◌, ◌++◌, append_assoc, arith, length,
  nat_eq, string_eq, ok, String,
}
use zch_coding_agent.Base.{take, drop, drop-drop, drop_eq}
use zch_coding_agent.Patch.{
  ParsedHunk, Found, nowhere, unique, multiple, find_unique_sequence, splice, apply_hunk,
}
use zch_coding_agent.Patch.Unique.{IsAt, drop-length, find_unique_sequence-IsAt_iff}

take-length : (xs ys : List String) → take (length xs) (xs ++ ys) ≡ xs
take-length [] ys = refl
take-length (x ∷ xs) ys = ap (λ t. x ∷ t) (take-length xs ys)

splice-append :
    (before old after new : List String)
    → splice (before ++ (old ++ after)) (length before) (length old) new ≡ before ++ (new ++ after)
unfolding splice
splice-append before old after new =
    let rest : drop (length before + length old) (before ++ (old ++ after)) ≡ after =
      drop_eq (before ++ (old ++ after)) (omega arith)
      ∙ sym (drop-drop (length old) (length before) (before ++ (old ++ after)))
      ∙ ap (drop (length old)) (drop-length before (old ++ after))
      ∙ drop-length old after in
    rw (take-length before (old ++ after), rest) (append_assoc before new after)

Found-cases : (f : Found) → ((k : ℕ) × (f ≡ unique k)) ⊎ (f ≡ nowhere) ⊎ (f ≡ multiple)
Found-cases (unique k) = inl (k, refl)
Found-cases nowhere = inr (inl refl)
Found-cases multiple = inr (inr refl)

-- What a hunk may do to a file: its old lines become its new ones, in the only place where they stand.
pub Replaces : ParsedHunk → List String → List String → Type 0
Replaces hunk lines next =
    (before : List String) × (after : List String) × (lines ≡ before ++ (hunk.old_lines ++ after))
    × (next ≡ before ++ (hunk.new_lines ++ after))
    × ((j : ℕ) → IsAt lines hunk.old_lines j → j ≡ length before)

-- A hunk that applies turns its old lines into its new ones in the only place where they stand, and
-- leaves every line before and after them as it was.
pub apply_hunk-Replaces :
    (lines : List String) (hunk : ParsedHunk) (next : List String)
    → apply_hunk lines hunk ≡ ok next
    → Replaces hunk lines next
unfolding apply_hunk Replaces IsAt
apply_hunk-Replaces lines hunk next h =
    elim (Found-cases (find_unique_sequence lines hunk.old_lines)) [
      | inr (inl none_found) ↦ absurd (ground arith)
      | inr (inr many) ↦ absurd (ground arith)
      | inl (k, found) ↦
          let (some_line, (before, after, same, count), only) =
            (find_unique_sequence-IsAt_iff lines hunk.old_lines k).0 found in
          let made : splice lines k (length hunk.old_lines) hunk.new_lines ≡ next = ground arith in
          (
            before,
            after,
            same,
            sym made
                ∙ ap (λ ls. splice ls k (length hunk.old_lines) hunk.new_lines) same
                ∙ ap
                    (λ n.
                      splice (before ++ (hunk.old_lines ++ after)) n (length hunk.old_lines)
                        hunk.new_lines)
                    (sym count)
                ∙ splice-append before hunk.old_lines after hunk.new_lines,
            λ j at. only j at ∙ sym count,
          )
    ]
