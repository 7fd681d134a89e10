-- ===== src/Permission/Policy/Rules.antt =====
-- The rule that a call meets is the first of the remembered rules that matches it.
use zch_coding_agent.Base.{
  ◌≡◌, refl, subst, inl, inr, Bool, true, false, some, List, [], ◌∷◌, arith, Bool-cases, nat_eq,
  string_eq,
}
use zch_coding_agent.Permission.Policy.{find}

-- `x` is the first item of the list that passes the test.
pub data First {ℓ} {A : Type ℓ} (test : A → Bool) (x : A) : List A → Type ℓ where
  here : {xs : List A} → test x ≡ true → First test x (x ∷ xs)
  later : {y : A} {xs : List A} → test y ≡ false → First test x xs → First test x (y ∷ xs)

pub find-First {ℓ} :
    {A : Type ℓ} (test : A → Bool) (xs : List A) {x : A} → find test xs ≡ some x → First test x xs
find-First test [] h = absurd cc
find-First {A = A} test (y ∷ xs) {x} h = elim (Bool-cases (test y)) [
  | inl e ↦ let same : y ≡ x = ground (arith) in subst (λ z. First test z (y ∷ xs)) same (here e)
  | inr e ↦ later e (find-First test xs (ground arith))
]

pub First-find {ℓ} :
    {A : Type ℓ} (test : A → Bool) {x : A} {xs : List A} → First test x xs → find test xs ≡ some x
First-find test (here e) = rw e refl
First-find test (later e f) = rw e (First-find test f)
