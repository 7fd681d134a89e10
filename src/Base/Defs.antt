-- ===== src/Base/Defs.antt =====
-- Boolean equality as an interface, with its instances for numbers and texts.
use Prim.Native.Nat.{ℕ}
use Prim.Native.String.{String}
use mathlib.Core.Path.{◌≡◌}
use mathlib.Core.Logic.{◌↔◌}
use mathlib.Core.Bool.{Bool, true, false}
use mathlib.Core.Option.{Option, none, some}
use native.Mathlib.Omega.{arith}
use text.Mathlib.Text.{◌==◌ as str_eq}
use text.Mathlib.TextEquality.{eq_iff}
use zch_coding_agent.Base.Tests.{nat_eq_test, nat_eq_test_iff}

pub record Eq {ℓ} (A : Type ℓ) : Type ℓ where
  pub same_as : A → A → Bool
  pub same_iff : (a b : A) → (same_as a b ≡ true) ↔ (a ≡ b)

infix 50 ◌==◌
abbrev pub ◌==◌ {ℓ} : {A : Type ℓ} ⦃e : Eq A⦄ → A → A → Bool
◌==◌ ⦃e⦄ = e.same_as

instance abbrev pub nat_eq : Eq ℕ
nat_eq = record { same_as = nat_eq_test; same_iff = nat_eq_test_iff }

instance abbrev pub string_eq : Eq String
string_eq = record { same_as = str_eq; same_iff = eq_iff }

pub ==_refl {ℓ} : {A : Type ℓ} ⦃e : Eq A⦄ (a : A) → (a == a) ≡ true
==_refl ⦃e⦄ a = ground (arith, e.same_iff a a)

-- Two options are the same when both are absent or both hold the same value.
abbrev pub same_option {ℓ} : {A : Type ℓ} ⦃e : Eq A⦄ → Option A → Option A → Bool
same_option none none = true
same_option ⦃e⦄ (some a) (some b) = e.same_as a b
same_option _ _ = false

pub same_option_iff {ℓ} :
    {A : Type ℓ} ⦃e : Eq A⦄ (a b : Option A) → (same_option a b ≡ true) ↔ (a ≡ b)
same_option_iff none none = ground arith
same_option_iff none (some b) = ground arith
same_option_iff (some a) none = ground arith
same_option_iff ⦃e⦄ (some a) (some b) = ground (arith, e.same_iff a b)

instance abbrev pub option_eq {ℓ} : {A : Type ℓ} ⦃e : Eq A⦄ → Eq (Option A)
option_eq = record { same_as = same_option; same_iff = same_option_iff }
