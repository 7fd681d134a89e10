-- ===== src/Base/Maps.antt =====
-- JavaScript's `Map`: entries in insertion order, a write to a present key keeps its place.
use mathlib.Core.Path.{◌≡◌, refl}
use mathlib.Core.Option.{Option, none, some}
use mathlib.Core.List.{List, [], ◌∷◌}
use native.Mathlib.Omega.{arith}
use zch_coding_agent.Base.Tests.{if◌then◌else◌}
use zch_coding_agent.Base.Defs.{Eq, ◌==◌}

module _ {ℓ κ} {K : Type ℓ} {V : Type κ} ⦃e : Eq K⦄ where
  unfoldable pub lookup : K → List (K × V) → Option V
  lookup key [] = none
  lookup key ((other, value) ∷ rest) = if other == key then some value else lookup key rest

  unfoldable pub insert : K → V → List (K × V) → List (K × V)
  insert key value [] = (key, value) ∷ []
  insert key value ((other, old) ∷ rest) =
      if other == key then (key, value) ∷ rest else (other, old) ∷ insert key value rest

  -- Every entry of the key goes, which is the one entry that a `Map` has.
  unfoldable pub delete : K → List (K × V) → List (K × V)
  delete key [] = []
  delete key ((other, old) ∷ rest) =
      if other == key then delete key rest else (other, old) ∷ delete key rest

  pub lookup-insert :
      (key other : K) (value : V) (rest : List (K × V))
      → lookup other (insert key value rest)
        ≡ (if key == other then some value else lookup other rest)
  unfolding lookup insert
  lookup-insert key other value [] = refl
  lookup-insert key other value ((i, old) ∷ rest) = ground (
    arith,
    e.same_iff key other,
    e.same_iff i key,
    e.same_iff i other,
    lookup-insert key other value rest,
  )

  pub lookup-delete :
      (key other : K) (rest : List (K × V))
      → lookup other (delete key rest) ≡ (if key == other then none else lookup other rest)
  unfolding lookup delete
  lookup-delete key other [] = ground arith
  lookup-delete key other ((i, old) ∷ rest) = ground (
    arith,
    e.same_iff key other,
    e.same_iff i key,
    e.same_iff i other,
    lookup-delete key other rest,
  )
