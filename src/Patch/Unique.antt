-- ===== src/Patch/Unique.antt =====
-- A hunk goes where its old lines stand, if they stand in one place only.
use zch_coding_agent.Base.{
  ℕ, zero, suc, ◌+◌, ◌-◌, ◌≤◌, ◌<◌, ◌≡◌, refl, sym, ap, ap₂, ◌∙◌, subst, ◌↔◌, inl, inr, Bool, true,
  false, none, some, List, [], ◌∷◌, ◌++◌, arith, leb, leb→le, Bool-cases, length, length-append,
  ◌==◌, nat_eq, string_eq, ==_refl, String,
}
use zch_coding_agent.Base.{take, drop, take-append-drop, length-take}
use zch_coding_agent.Patch.{
  unique, starts_with, matching_sequence_at, search, is_nil, find_unique_sequence,
}

-- The lines have the expected ones at a position.
unfoldable pub IsAt : List String → List String → ℕ → Type 0
IsAt lines expected position =
    (before : List String) × (after : List String) × (lines ≡ before ++ (expected ++ after))
    × (length before ≡ position)

starts_with-split :
    (expected lines : List String)
    → starts_with expected lines ≡ true
    → (after : List String) × (lines ≡ expected ++ after)
unfolding starts_with
starts_with-split [] lines h = (lines, refl)
starts_with-split (e ∷ expected) [] h = absurd cc
starts_with-split (e ∷ expected) (l ∷ lines) h =
    let (after, same) = starts_with-split expected lines (ground arith) in
    (after, ap₂ ◌∷◌ ((string_eq.same_iff l e).0 (ground arith)) same)

split-starts_with : (expected after : List String) → starts_with expected (expected ++ after) ≡ true
unfolding starts_with
split-starts_with [] after = refl
split-starts_with (e ∷ expected) after = rw (==_refl e, split-starts_with expected after) refl

pub drop-length : (xs ys : List String) → drop (length xs) (xs ++ ys) ≡ ys
drop-length [] ys = refl
drop-length (x ∷ xs) ys = drop-length xs ys

matching→IsAt :
    (lines expected : List String) (position : ℕ)
    → matching_sequence_at lines position expected ≡ true
    → IsAt lines expected position
unfolding matching_sequence_at IsAt
matching→IsAt lines expected position h =
    let (after, same) = starts_with-split expected (drop position lines) (ground arith) in
    (
      take position lines,
      after,
      sym (take-append-drop position lines) ∙ ap (λ t. take position lines ++ t) same,
      length-take position lines
          ∙ omega (arith, leb→le (position + length expected) (length lines) (ground arith)),
    )

le→leb : (a b : ℕ) → a ≤ b → leb a b ≡ true
le→leb a b h = ground arith

IsAt→matching :
    (lines expected : List String) (position : ℕ)
    → IsAt lines expected position
    → matching_sequence_at lines position expected ≡ true
unfolding matching_sequence_at IsAt
IsAt→matching lines expected position (before, after, same, count) =
    let size =
      ap length same
      ∙ length-append before (expected ++ after)
      ∙ ap (λ n. length before + n) (length-append expected after) in
    let rest : drop position lines ≡ expected ++ after =
      sym (ap (λ n. drop n lines) count)
      ∙ ap (drop (length before)) same
      ∙ drop-length before (expected ++ after) in
    let fits : leb (position + length expected) (length lines) ≡ true =
      le→leb (position + length expected) (length lines) (omega (arith, size, count)) in
    rw (fits, rest) (split-starts_with expected after)

false-true : ¬ (false ≡ true)
false-true h = absurd cc

module _ (lines expected : List String) where
  abbrev is_hit : ℕ → Bool
  is_hit j = matching_sequence_at lines j expected

  -- No match from an index on, for a number of rounds; and `k` as the one match.
  abbrev Misses : ℕ → ℕ → Type 0
  Misses index rounds = (j : ℕ) → index ≤ j → j < index + rounds → is_hit j ≡ false

  abbrev Only : ℕ → ℕ → ℕ → Type 0
  Only index rounds k =
      (index ≤ k)
      × (k < index + rounds)
      × (is_hit k ≡ true)
      × ((j : ℕ) → index ≤ j → j < index + rounds → is_hit j ≡ true → j ≡ k)

  search-found :
      (index rounds p k : ℕ)
      → search lines expected index rounds (some p) ≡ unique k
      → (p ≡ k) × Misses index rounds
  unfolding search
  search-found index zero p k h = (ground arith, λ j le lt. absurd (omega arith))
  search-found index (suc rounds) p k h = elim (Bool-cases (is_hit index)) [
    | inl hit ↦ absurd (ground arith)
    | inr miss ↦
        let (same, misses) = search-found (suc index) rounds p k (ground arith) in
        (
          same,
          λ j le lt. elim (Bool-cases (j == index)) [
            | inl e ↦ subst (λ i. is_hit i ≡ false) (sym ((nat_eq.same_iff j index).0 e)) miss
            | inr e ↦ misses j (ground arith) (omega arith)
          ],
        )
  ]

  search-none :
      (index rounds k : ℕ)
      → search lines expected index rounds none ≡ unique k
      → Only index rounds k
  unfolding search
  search-none index zero k h = absurd (ground arith)
  search-none index (suc rounds) k h = elim (Bool-cases (is_hit index)) [
    | inl hit ↦
        let (same, misses) = search-found (suc index) rounds index k (ground arith) in
        (
          omega arith,
          omega arith,
          subst (λ i. is_hit i ≡ true) same hit,
          λ j le lt at. elim (Bool-cases (j == index)) [
            | inl e ↦ (nat_eq.same_iff j index).0 e ∙ same
            | inr e ↦ absurd (false-true (sym (misses j (ground arith) (omega arith)) ∙ at))
          ],
        )
    | inr miss ↦
        let (le, lt, hit, only) = search-none (suc index) rounds k (ground arith) in
        (
          omega arith,
          omega arith,
          hit,
          λ j from to at. elim (Bool-cases (j == index)) [
            | inl e ↦ absurd (
                false-true
                  (sym miss ∙ subst (λ i. is_hit i ≡ true) ((nat_eq.same_iff j index).0 e) at))
            | inr e ↦ only j (ground arith) (omega arith) at
          ],
        )
  ]

  Misses-search :
      (index rounds p : ℕ)
      → Misses index rounds
      → search lines expected index rounds (some p) ≡ unique p
  unfolding search
  Misses-search index zero p misses = refl
  Misses-search index (suc rounds) p misses =
      rw (search, misses index (omega arith) (omega arith))
        (Misses-search (suc index) rounds p (λ j le lt. misses j (omega arith) (omega arith)))

  later-hit : (index k : ℕ) → index ≤ k → is_hit index ≡ false → is_hit k ≡ true → suc index ≤ k
  later-hit index k le miss hit = elim (Bool-cases (index == k)) [
    | inl e ↦ absurd (
        false-true
          (sym miss ∙ subst (λ i. is_hit i ≡ true) (sym ((nat_eq.same_iff index k).0 e)) hit))
    | inr e ↦ ground arith
  ]

  Only-search :
      (index rounds k : ℕ)
      → Only index rounds k
      → search lines expected index rounds none ≡ unique k
  unfolding search
  Only-search index zero k (le, lt, hit, only) = absurd (omega arith)
  Only-search index (suc rounds) k (le, lt, hit, only) = elim (Bool-cases (is_hit index)) [
    | inl first ↦
        let same = only index (omega arith) (omega arith) first in
        rw (search, first)
          (Misses-search (suc index) rounds index (λ j from to. elim (Bool-cases (is_hit j)) [
            | inl at ↦
                let again = only j (omega arith) (omega arith) at in
                absurd (omega (arith, again, same))
            | inr miss ↦ miss
          ])
            ∙ ap unique same)
    | inr miss ↦
        let later : suc index ≤ k = later-hit index k le miss hit in
        rw (search, miss)
          (Only-search (suc index) rounds k
            (later, omega arith, hit, λ j from to at. only j (omega arith) (omega arith) at))
  ]

IsAt-below :
    (lines expected : List String) (k : ℕ)
    → IsAt lines expected k
    → k < 0 + (suc (length lines) - length expected)
unfolding IsAt
IsAt-below lines expected k (before, after, same, count) =
    let size =
      ap length same
      ∙ length-append before (expected ++ after)
      ∙ ap (λ n. length before + n) (length-append expected after) in
    omega (arith, size, count)

-- The search gives a position exactly when there are lines to be found, they stand there, and they
-- stand nowhere else.
pub find_unique_sequence-IsAt_iff :
    (lines expected : List String) (k : ℕ)
    → (find_unique_sequence lines expected ≡ unique k) ↔ (
        (is_nil expected ≡ false)
        × IsAt lines expected k
        × ((j : ℕ) → IsAt lines expected j → j ≡ k))
unfolding find_unique_sequence
find_unique_sequence-IsAt_iff lines expected k = (
  λ h. elim (Bool-cases (is_nil expected)) [
    | inl e ↦ absurd (ground arith)
    | inr e ↦
        let (le, lt, hit, only) =
          search-none lines expected 0 (suc (length lines) - length expected) k (ground arith) in
        (
          e,
          matching→IsAt lines expected k hit,
          λ j at.
              only j (omega arith) (IsAt-below lines expected j at)
                (IsAt→matching lines expected j at),
        )
  ],
  λ (e, at, only). rw e (
      Only-search lines expected 0 (suc (length lines) - length expected) k (
        omega arith,
        IsAt-below lines expected k at,
        IsAt→matching lines expected k at,
        λ j from to hit. only j (matching→IsAt lines expected j hit),
      )),
)
