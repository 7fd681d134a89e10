-- ===== src/Permission/Policy/Escalation.antt =====
-- More risk never lets more run.
use zch_coding_agent.Base.{
  ℕ, ◌≤◌, ◌≡◌, refl, ap, inl, inr, Bool, true, false, ◌&&◌, ◌||◌, List, [], ◌∷◌, ◌++◌, arith,
  Bool-cases, nat_eq, string_eq,
}
use zch_coding_agent.Permission.Policy.{
  Risk, low, review_risk, high, Severity, info, warning, danger, ApprovedBy, by_readonly, by_policy,
  by_remembered, by_yolo, allow, PolicyInput, Platform, matches,
  is_auto_allowed_workspace_file_mutation, is_high, any_danger, evaluate_policy,
}
use zch_coding_agent.Permission.Policy.Outcome.{IsCalm, Meets, IsAllowed, evaluate_policy-allow_iff}

-- The input with another risk and other signals.
unfoldable pub with_risk : Risk → List Severity → PolicyInput → PolicyInput
with_risk risk signals i = record i { effective_risk = risk; policy_signals = signals }

abbrev pub severity : Risk → ℕ
severity low = 0
severity review_risk = 1
severity high = 2

high-below : (r r' : Risk) → severity r ≤ severity r' → is_high r' ≡ false → is_high r ≡ false
high-below low r' le h = refl
high-below review_risk r' le h = refl
high-below high low le h = absurd (omega arith)
high-below high review_risk le h = absurd (omega arith)
high-below high high le h = absurd cc

low-below : (r r' : Risk) → severity r ≤ severity r' → r' ≡ low → r ≡ low
low-below low r' le h = refl
low-below review_risk r' le h = absurd (omega (arith, ap severity h))
low-below high r' le h = absurd (omega (arith, ap severity h))

danger-below : (s t : List Severity) → any_danger (s ++ t) ≡ false → any_danger s ≡ false
danger-below [] t h = refl
danger-below (info ∷ s) t h = danger-below s t h
danger-below (warning ∷ s) t h = danger-below s t h
danger-below (danger ∷ s) t h = absurd cc

calm-below :
    (builtin : Bool) (r r' : Risk) (s t : List Severity)
    → severity r ≤ severity r'
    → (builtin && (is_high r' || any_danger (s ++ t))) ≡ false
    → (builtin && (is_high r || any_danger s)) ≡ false
calm-below false r r' s t le h = refl
calm-below true r r' s t le h = elim (Bool-cases (is_high r')) [
  | inl e ↦ absurd (ground arith)
  | inr e ↦ rw (high-below r r' le e, danger-below s t (ground arith)) refl
]

IsAllowed-below :
    (p : Platform) (i : PolicyInput) (r r' : Risk) (s t : List Severity) (by : ApprovedBy)
    → severity r ≤ severity r'
    → IsAllowed p (with_risk r' (s ++ t) i) by
    → IsAllowed p (with_risk r s i) by
unfolding with_risk IsAllowed IsCalm Meets matches is_auto_allowed_workspace_file_mutation
IsAllowed-below p i r r' s t by_readonly le (e, low_risk) = (e, low-below r r' le low_risk)
IsAllowed-below p i r r' s t by_yolo le h = h
IsAllowed-below p i r r' s t by_policy le (e, m, inl scratch) = (e, m, inl scratch)
IsAllowed-below p i r r' s t by_policy le (e, m, inr (a, calm, file, every)) =
    (e, m, inr (a, calm-below i.builtin_policies r r' s t le calm, file, every))
IsAllowed-below p i r r' s t by_remembered le (e, m, scratch, calm, file, met) =
    (e, m, scratch, calm-below i.builtin_policies r r' s t le calm, file, met)

-- More risk and more signals never let more run: what is approved at a risk and with signals is
-- approved in the same way at any lower risk and with the first of the signals alone.
pub evaluate_policy-escalates :
    (p : Platform) (i : PolicyInput) (r r' : Risk) (s t : List Severity) (by : ApprovedBy)
    → severity r ≤ severity r'
    → evaluate_policy p (with_risk r' (s ++ t) i) ≡ allow by
    → evaluate_policy p (with_risk r s i) ≡ allow by
evaluate_policy-escalates p i r r' s t by le h =
    (evaluate_policy-allow_iff p (with_risk r s i) by).1 (
      IsAllowed-below p i r r' s t by le
        ((evaluate_policy-allow_iff p (with_risk r' (s ++ t) i) by).0 h))
