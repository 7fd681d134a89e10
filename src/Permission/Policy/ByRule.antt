-- ===== src/Permission/Policy/ByRule.antt =====
-- What the rule that a call meets makes of it.
use zch_coding_agent.Base.{
  ◌≡◌, refl, sym, ap, ◌∙◌, ◌⊎◌, inl, inr, Bool, true, false, Option, none, some, arith,
  if◌then◌else◌, nat_eq, string_eq,
}
use zch_coding_agent.Permission.Policy.{
  RuleEffect, allow_rule, review_rule, RememberedRule, ApprovedBy, by_readonly, by_policy,
  by_remembered, by_yolo, allow, by_rule,
}

-- The part of the input that `by_rule` sees.
abbrev pub ByRule : Option RememberedRule → Bool → ApprovedBy → Type 0
ByRule found file by_policy =
    (file ≡ true) × ((rule : RememberedRule) → found ≡ some rule → rule.effect ≡ allow_rule)
ByRule found file by_remembered =
    (file ≡ false) × ((rule : RememberedRule) × (found ≡ some rule) × (rule.effect ≡ allow_rule))
ByRule found file _ = ⊥

RuleEffect-cases : (e : RuleEffect) → (e ≡ allow_rule) ⊎ (e ≡ review_rule)
RuleEffect-cases allow_rule = inl refl
RuleEffect-cases review_rule = inr refl

abbrev effect_of : Option RememberedRule → RuleEffect
effect_of none = review_rule
effect_of (some rule) = rule.effect

allowed :
    (rule : RememberedRule) (file : Bool) (by : ApprovedBy)
    → rule.effect ≡ allow_rule
    → (if file then allow by_policy else allow by_remembered) ≡ allow by
    → ByRule (some rule) file by
allowed rule true by_policy e h = (refl, λ r same. ap (λ o. effect_of o) (sym same) ∙ e)
allowed rule false by_remembered e h = (refl, (rule, refl, e))
allowed rule true by_remembered e h = absurd cc
allowed rule true by_readonly e h = absurd cc
allowed rule true by_yolo e h = absurd cc
allowed rule false by_policy e h = absurd cc
allowed rule false by_readonly e h = absurd cc
allowed rule false by_yolo e h = absurd cc

by_rule-some :
    (rule : RememberedRule) (file : Bool)
    → rule.effect ≡ allow_rule
    → by_rule (some rule) file ≡ (if file then allow by_policy else allow by_remembered)
unfolding by_rule
by_rule-some rule file e = rw e refl

pub by_rule-allow :
    (found : Option RememberedRule) (file : Bool) (by : ApprovedBy)
    → by_rule found file ≡ allow by
    → ByRule found file by
unfolding by_rule
by_rule-allow none true by_policy h = (refl, λ rule e. absurd cc)
by_rule-allow none true by_readonly h = absurd cc
by_rule-allow none true by_remembered h = absurd cc
by_rule-allow none true by_yolo h = absurd cc
by_rule-allow none false by h = absurd cc
by_rule-allow (some rule) file by h = elim (RuleEffect-cases rule.effect) [
  | inl e ↦ allowed rule file by e (sym (by_rule-some rule file e) ∙ h)
  | inr e ↦ ground arith
]

pub allow-by_rule :
    (found : Option RememberedRule) (file : Bool) (by : ApprovedBy)
    → ByRule found file by
    → by_rule found file ≡ allow by
unfolding by_rule
allow-by_rule none true by_policy h = refl
allow-by_rule none false by_policy h = ground arith
allow-by_rule (some rule) file by_policy (f, a) = rw (a rule refl, f) refl
allow-by_rule found file by_remembered (f, (rule, e, a)) = rw (f, e, a) refl
allow-by_rule found file by_readonly h = absurd h
allow-by_rule found file by_yolo h = absurd h
