-- ===== src/Base/Results.antt =====
-- Results of code that can throw: `ok` or `err` with the thrown error.
use mathlib.Core.Path.{◌≡◌, refl}
use mathlib.Core.Bool.{Bool, true, false, not}
use mathlib.Core.Logic.{◌⊎◌, inl, inr}

pub data Result {ℓ κ} (E : Type κ) (A : Type ℓ) : Type (ℓ ⊔ κ) where
  ok : A → Result E A
  err : E → Result E A

infixl 5 ◌>>=◌ ◌>>◌
abbrev pub ◌>>=◌ {ℓ κ μ} :
    {E : Type κ} {A : Type ℓ} {B : Type μ} → Result E A → (A → Result E B) → Result E B
err e >>= next = err e
ok a >>= next = next a

abbrev pub ◌>>◌ {ℓ κ} : {E : Type κ} {B : Type ℓ} → Result E (Unit {0}) → Result E B → Result E B
first >> rest = first >>= λ done. rest

-- `if (test) throw e`.
abbrev pub throw_if {κ} : {E : Type κ} → Bool → E → Result E (Unit {0})
throw_if true e = err e
throw_if false e = ok tt

pub Result-cases {ℓ κ} :
    {E : Type κ} {A : Type ℓ} (r : Result E A) → ((a : A) × (r ≡ ok a)) ⊎ ((e : E) × (r ≡ err e))
Result-cases (ok a) = inl (a, refl)
Result-cases (err e) = inr (e, refl)

pub >>=-eq-ok {ℓ κ μ} :
    {E : Type κ} {A : Type ℓ} {B : Type μ} (first : Result E A) (next : A → Result E B) {out : B}
    → (first >>= next) ≡ ok out
    → (mid : A) × (first ≡ ok mid) × (next mid ≡ ok out)
>>=-eq-ok (err e) next thrown = absurd cc
>>=-eq-ok (ok mid) next done = (mid, refl, done)

pub throw_if-eq-ok {ℓ κ} :
    {E : Type κ} {A : Type ℓ} (b : Bool) (e : E) (k : Result E A) {a : A}
    → (throw_if b e >> k) ≡ ok a
    → (b ≡ false) × (k ≡ ok a)
throw_if-eq-ok true e k h = cc
throw_if-eq-ok false e k h = (refl, h)

pub ok_injective {ℓ κ} :
    {E : Type κ} {A : Type ℓ} {a b : A} → (let r : Result E A = ok a in r) ≡ ok b → a ≡ b
ok_injective e = cc

-- A check of a condition that holds.
pub throw_if-not {ℓ κ} :
    {E : Type κ} {A : Type ℓ} (b : Bool) (e : E) (k : Result E A) {a : A}
    → (throw_if (not b) e >> k) ≡ ok a
    → (b ≡ true) × (k ≡ ok a)
throw_if-not true e k h = (refl, h)
throw_if-not false e k h = absurd cc
