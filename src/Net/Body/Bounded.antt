-- ===== src/Net/Body/Bounded.antt =====
-- The body, beside everything that arrives.
use zch_coding_agent.Base.{
  ℕ, zero, suc, ◌+◌, ◌-◌, ◌≤◌, ◌<◌, ◌≡◌, refl, sym, ap, ap₂, ◌∙◌, subst, inl, inr, Bool, true,
  false, List, [], ◌∷◌, ◌++◌, append-nil, append_assoc, arith, ltb, lt→ltb, Bool-cases, length,
  length-append, nat_eq, string_eq, option_eq,
}
use zch_coding_agent.Base.{take}
use zch_coding_agent.Net.Body.{collect, BodyState, empty_body, on_data, read_body, concat}

take_eq {ℓ} : {A : Type ℓ} {n m : ℕ} (xs : List A) → n ≡ m → take n xs ≡ take m xs
take_eq xs e = ap (λ k. take k xs) e

take_all {ℓ} : {A : Type ℓ} (n : ℕ) (xs : List A) → length xs ≤ n → take n xs ≡ xs
take_all zero [] h = refl
take_all (suc n) [] h = refl
take_all zero (x ∷ xs) h = absurd (omega arith)
take_all (suc n) (x ∷ xs) h = ap (λ r. x ∷ r) (take_all n xs (omega arith))

take-append_left {ℓ} :
    {A : Type ℓ} (n : ℕ) (xs ys : List A) → n ≤ length xs → take n (xs ++ ys) ≡ take n xs
take-append_left zero xs ys h = refl
take-append_left (suc n) [] ys h = absurd (omega arith)
take-append_left (suc n) (x ∷ xs) ys h = ap (λ r. x ∷ r) (take-append_left n xs ys (omega arith))

take-append_right {ℓ} :
    {A : Type ℓ} (n : ℕ) (xs ys : List A)
    → length xs ≤ n
    → take n (xs ++ ys) ≡ xs ++ take (n - length xs) ys
take-append_right n [] ys h = take_eq ys (omega arith)
take-append_right zero (x ∷ xs) ys h = absurd (omega arith)
take-append_right (suc n) (x ∷ xs) ys h =
    ap (λ r. x ∷ r)
      (take-append_right n xs ys (omega arith) ∙ ap (λ r. xs ++ r) (take_eq ys (omega arith)))

within : (a b : ℕ) → b ≤ a → ltb a b ≡ false
within a b h = ground arith

module _ (max_bytes : ℕ) where
  -- The body is the start of these bytes, and it is cut where there are more of them than fit.
  abbrev pub IsStartOf : List ℕ → BodyState → Type 0
  IsStartOf bytes s =
      (s.chunks ≡ take max_bytes bytes) × (s.truncated ≡ ltb max_bytes (length bytes))

  on_data-collect :
      (s : BodyState) (chunk : List ℕ) (cut over : Bool)
      → s.truncated ≡ cut
      → ltb max_bytes (s.total + length chunk) ≡ over
      → on_data max_bytes s chunk ≡ collect max_bytes s chunk cut over
  unfolding on_data
  on_data-collect s chunk cut over e f = ap₂ (collect max_bytes s chunk) e f

  cut_stays :
      (s : BodyState) (chunks : List (List ℕ))
      → s.truncated ≡ true
      → read_body max_bytes s chunks ≡ s
  cut_stays s [] h = refl
  cut_stays s (chunk ∷ rest) h =
      ap (λ r. read_body max_bytes r rest) (on_data-collect s chunk true _ h refl)
      ∙ cut_stays s rest h

  -- The chunk that goes over the limit fills the body up to it.
  filled_up :
      (s : BodyState) (chunk rest : List ℕ)
      → s.total ≡ length s.chunks
      → s.total ≤ max_bytes
      → max_bytes < s.total + length chunk
      → IsStartOf (s.chunks ++ (chunk ++ rest)) (collect max_bytes s chunk false true)
  filled_up s chunk rest t fits over = (
    sym (
        take-append_right max_bytes s.chunks (chunk ++ rest) (omega arith)
        ∙ ap (λ r. s.chunks ++ r)
            (take-append_left (max_bytes - length s.chunks) chunk rest (omega arith)
              ∙ take_eq chunk (omega arith))),
    sym (
        lt→ltb max_bytes (length (s.chunks ++ (chunk ++ rest)))
          (omega (arith, length-append s.chunks (chunk ++ rest), length-append chunk rest))),
  )

  read_on :
      (s : BodyState) (chunks : List (List ℕ))
      → s.truncated ≡ false
      → s.total ≡ length s.chunks
      → s.total ≤ max_bytes
      → IsStartOf (s.chunks ++ concat chunks) (read_body max_bytes s chunks)
  read_on s [] h t fits =
      subst (λ bytes. IsStartOf bytes s) (sym (append-nil s.chunks))
        (
          sym (take_all max_bytes s.chunks (omega arith)),
          h ∙ sym (within max_bytes (length s.chunks) (omega arith)),
        )
  read_on s (chunk ∷ rest) h t fits = elim (Bool-cases (ltb max_bytes (s.total + length chunk))) [
    | inl over ↦
        let step = on_data-collect s chunk false true h over in
        let stays = cut_stays (collect max_bytes s chunk false true) rest refl in
        subst (IsStartOf (s.chunks ++ (chunk ++ concat rest)))
          (sym (ap (λ r. read_body max_bytes r rest) step ∙ stays))
          (filled_up s chunk (concat rest) t fits (ground arith))
    | inr under ↦
        let step = on_data-collect s chunk false false h under in
        let next = collect max_bytes s chunk false false in
        let later =
          read_on next rest refl (omega (arith, length-append s.chunks chunk)) (ground arith) in
        subst (IsStartOf (s.chunks ++ (chunk ++ concat rest)))
          (sym (ap (λ r. read_body max_bytes r rest) step))
          (subst (λ bytes. IsStartOf bytes (read_body max_bytes next rest))
            (append_assoc s.chunks chunk (concat rest)) later)
  ]

  -- Whatever the chunks are, the body that is handed on is the first `max_bytes` bytes of everything
  -- that arrives, and it is marked as truncated exactly when more than that arrives.
  pub read_body-IsStartOf :
      (chunks : List (List ℕ)) → IsStartOf (concat chunks) (read_body max_bytes empty_body chunks)
  read_body-IsStartOf chunks = read_on empty_body chunks refl refl (omega arith)
