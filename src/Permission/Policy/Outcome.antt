-- ===== src/Permission/Policy/Outcome.antt =====
-- Which calls run without a question.
use zch_coding_agent.Base.{
  ◌≡◌, refl, sym, ap, ◌∙◌, subst, ◌≢◌, ◌↔◌, ◌⊎◌, inl, inr, Bool, true, false, ◌&&◌, ◌||◌, some,
  arith, if◌then◌else◌, Bool-cases, nat_eq, string_eq,
}
use zch_coding_agent.Permission.Policy.{
  PermissionMode, readonly, auto, confirm, yolo, Risk, low, review_risk, high, allow_rule,
  RememberedRule, ApprovedBy, by_readonly, by_policy, by_remembered, by_yolo, PolicyOutcome, allow,
  PolicyInput, Platform, has_side_effects, matches, matching_rule,
  is_auto_allowed_workspace_file_mutation, is_high, any_danger, without_effects, evaluate_auto,
  with_effects, evaluate_policy,
}
use zch_coding_agent.Permission.Policy.ByRule.{ByRule, by_rule-allow, allow-by_rule}
use zch_coding_agent.Permission.Policy.Rules.{First, find-First, First-find}

-- Builtin policies see neither a high risk nor a danger.
unfoldable pub IsCalm : PolicyInput → Type 0
IsCalm i = (i.builtin_policies && (is_high i.effective_risk || any_danger i.policy_signals)) ≡ false

-- The rule that the call meets.
unfoldable pub Meets : Platform → PolicyInput → RememberedRule → Type 0
Meets p i rule = First (matches p i) rule i.remembered_rules

-- What each kind of approval takes.
unfoldable pub IsAllowed : Platform → PolicyInput → ApprovedBy → Type 0
IsAllowed p i by_readonly = (has_side_effects i.effects ≡ false) × (i.effective_risk ≡ low)
IsAllowed p i by_yolo =
    (has_side_effects i.effects ≡ true) × (i.mode ≡ yolo) × (i.scratch_mutation ≡ false)
IsAllowed p i by_policy =
    (has_side_effects i.effects ≡ true)
    × (i.mode ≢ readonly)
    × ((i.scratch_mutation ≡ true)
        ⊎ ((i.mode ≡ auto)
            × IsCalm i
            × (is_auto_allowed_workspace_file_mutation i ≡ true)
            × ((rule : RememberedRule) → Meets p i rule → rule.effect ≡ allow_rule)))
IsAllowed p i by_remembered =
    (has_side_effects i.effects ≡ true)
    × (i.mode ≡ auto)
    × (i.scratch_mutation ≡ false)
    × IsCalm i
    × (is_auto_allowed_workspace_file_mutation i ≡ false)
    × ((rule : RememberedRule) × Meets p i rule × (rule.effect ≡ allow_rule))

-- The same for the calls in the mode `auto`.
auto-allow :
    (p : Platform) (i : PolicyInput) (by : ApprovedBy)
    → evaluate_auto p i ≡ allow by
    → IsCalm i × ByRule (matching_rule p i) (is_auto_allowed_workspace_file_mutation i) by
unfolding evaluate_auto IsCalm
auto-allow p i by h =
    elim (Bool-cases
      (i.builtin_policies && (is_high i.effective_risk || any_danger i.policy_signals))) [
        | inl e ↦ ground arith
        | inr e ↦ (
          e,
          by_rule-allow (matching_rule p i) (is_auto_allowed_workspace_file_mutation i) by
              (ground arith),
        )
      ]

allow-auto :
    (p : Platform) (i : PolicyInput) (by : ApprovedBy)
    → IsCalm i
    → ByRule (matching_rule p i) (is_auto_allowed_workspace_file_mutation i) by
    → evaluate_auto p i ≡ allow by
unfolding evaluate_auto IsCalm
allow-auto p i by calm h =
    rw calm (allow-by_rule (matching_rule p i) (is_auto_allowed_workspace_file_mutation i) by h)

-- The rule found is the rule met.
found→meets :
    (p : Platform) (i : PolicyInput) {rule : RememberedRule}
    → matching_rule p i ≡ some rule
    → Meets p i rule
unfolding matching_rule Meets
found→meets p i h = find-First (matches p i) i.remembered_rules h

meets→found :
    (p : Platform) (i : PolicyInput) {rule : RememberedRule}
    → Meets p i rule
    → matching_rule p i ≡ some rule
unfolding matching_rule Meets
meets→found p i h = First-find (matches p i) h

scratch-cases :
    (s : Bool) (o : PolicyOutcome) (by : ApprovedBy)
    → (if s then allow by_policy else o) ≡ allow by
    → ((s ≡ true) × (by ≡ by_policy)) ⊎ ((s ≡ false) × (o ≡ allow by))
scratch-cases true o by_policy h = inl (refl, refl)
scratch-cases true o by_readonly h = absurd cc
scratch-cases true o by_remembered h = absurd cc
scratch-cases true o by_yolo h = absurd cc
scratch-cases false o by h = inr (refl, h)

module _ (p : Platform) (i : PolicyInput) (effects : has_side_effects i.effects ≡ true) where
  scratch-IsAllowed :
      (by : ApprovedBy)
      → i.mode ≢ readonly
      → i.scratch_mutation ≡ true
      → by ≡ by_policy
      → IsAllowed p i by
  unfolding IsAllowed
  scratch-IsAllowed by m s b = subst (IsAllowed p i) (sym b) (effects, m, inl s)

  auto-IsAllowed :
      (by : ApprovedBy)
      → i.mode ≡ auto
      → i.scratch_mutation ≡ false
      → IsCalm i
      → ByRule (matching_rule p i) (is_auto_allowed_workspace_file_mutation i) by
      → IsAllowed p i by
  unfolding IsAllowed
  auto-IsAllowed by_policy m s calm (file, every) = (
    effects,
    (λ r. absurd cc),
    inr (m, calm, file, λ rule meets. every rule (meets→found p i meets)),
  )
  auto-IsAllowed by_remembered m s calm (file, (rule, found, e)) =
      (effects, m, s, calm, file, (rule, found→meets p i found, e))
  auto-IsAllowed by_readonly m s calm h = absurd h
  auto-IsAllowed by_yolo m s calm h = absurd h

  yolo-IsAllowed :
      (by : ApprovedBy)
      → i.mode ≡ yolo
      → i.scratch_mutation ≡ false
      → allow by_yolo ≡ allow by
      → IsAllowed p i by
  unfolding IsAllowed
  yolo-IsAllowed by_yolo m s o = (effects, m, s)
  yolo-IsAllowed by_policy m s o = absurd cc
  yolo-IsAllowed by_remembered m s o = absurd cc
  yolo-IsAllowed by_readonly m s o = absurd cc

  with_effects-IsAllowed :
      (mode : PermissionMode) (by : ApprovedBy)
      → i.mode ≡ mode
      → with_effects p i mode ≡ allow by
      → IsAllowed p i by
  with_effects-IsAllowed readonly by m h = absurd cc
  with_effects-IsAllowed confirm by m h = elim (scratch-cases i.scratch_mutation _ by h) [
    | inl (s, b) ↦ scratch-IsAllowed by (λ r. absurd cc) s b
    | inr (s, o) ↦ absurd cc
  ]
  with_effects-IsAllowed auto by m h = elim (scratch-cases i.scratch_mutation _ by h) [
    | inl (s, b) ↦ scratch-IsAllowed by (λ r. absurd cc) s b
    | inr (s, o) ↦ let (calm, rule) = auto-allow p i by o in auto-IsAllowed by m s calm rule
  ]
  with_effects-IsAllowed yolo by m h = elim (scratch-cases i.scratch_mutation _ by h) [
    | inl (s, b) ↦ scratch-IsAllowed by (λ r. absurd cc) s b
    | inr (s, o) ↦ yolo-IsAllowed by m s o
  ]

without_effects-IsAllowed :
    (p : Platform) (i : PolicyInput) (risk : Risk) (by : ApprovedBy)
    → has_side_effects i.effects ≡ false
    → i.effective_risk ≡ risk
    → without_effects risk ≡ allow by
    → IsAllowed p i by
unfolding IsAllowed
without_effects-IsAllowed p i low by_readonly e r h = (e, r)
without_effects-IsAllowed p i low by_policy e r h = absurd cc
without_effects-IsAllowed p i low by_remembered e r h = absurd cc
without_effects-IsAllowed p i low by_yolo e r h = absurd cc
without_effects-IsAllowed p i review_risk by e r h = absurd cc
without_effects-IsAllowed p i high by e r h = absurd cc

allow→IsAllowed :
    (p : Platform) (i : PolicyInput) (by : ApprovedBy)
    → evaluate_policy p i ≡ allow by
    → IsAllowed p i by
unfolding evaluate_policy
allow→IsAllowed p i by h = elim (Bool-cases (has_side_effects i.effects)) [
  | inl e ↦ with_effects-IsAllowed p i e i.mode by refl (ground arith)
  | inr e ↦ without_effects-IsAllowed p i i.effective_risk by e refl (ground arith)
]

scratch-allow :
    (p : Platform) (i : PolicyInput) (mode : PermissionMode)
    → mode ≢ readonly
    → i.scratch_mutation ≡ true
    → with_effects p i mode ≡ allow by_policy
scratch-allow p i readonly m s = absurd (m refl)
scratch-allow p i auto m s = rw s refl
scratch-allow p i confirm m s = rw s refl
scratch-allow p i yolo m s = rw s refl

if-false : {A : Type 0} (s : Bool) (x y : A) → s ≡ false → (if s then x else y) ≡ y
if-false s x y h = rw h refl

auto-outcome :
    (p : Platform) (i : PolicyInput) (mode : PermissionMode)
    → mode ≡ auto
    → i.scratch_mutation ≡ false
    → with_effects p i mode ≡ evaluate_auto p i
auto-outcome p i mode m s =
    ap (with_effects p i) m ∙ if-false i.scratch_mutation (allow by_policy) (evaluate_auto p i) s

IsAllowed→allow :
    (p : Platform) (i : PolicyInput) (by : ApprovedBy)
    → IsAllowed p i by
    → evaluate_policy p i ≡ allow by
unfolding evaluate_policy IsAllowed
IsAllowed→allow p i by_readonly (e, r) = rw (e, r) refl
IsAllowed→allow p i by_yolo (e, m, s) = rw (e, m, s) refl
IsAllowed→allow p i by_policy (e, m, inl s) = rw e (scratch-allow p i i.mode m s)
IsAllowed→allow p i by_policy (e, m, inr (a, calm, file, every)) =
    elim (Bool-cases i.scratch_mutation) [
      | inl s ↦ rw e (scratch-allow p i i.mode m s)
      | inr s ↦
          let met =
            allow-auto p i by_policy calm
              (file, λ rule found. every rule (found→meets p i found)) in
          rw e (auto-outcome p i i.mode a s ∙ met)
    ]
IsAllowed→allow p i by_remembered (e, m, s, calm, file, (rule, meets, fine)) =
    let met = allow-auto p i by_remembered calm (file, (rule, meets→found p i meets, fine)) in
    rw e (auto-outcome p i i.mode m s ∙ met)

-- A call runs without a question in these cases and no others. With no side effects, at low risk.
-- With side effects, never in the mode `readonly`, and else: on scratch files; in the mode `yolo`;
-- and in the mode `auto`, where builtin policies see no high risk and no danger, as a builtin file
-- tool that meets no rule that asks for review, or by a remembered rule that allows it and is the
-- first rule that matches the tool, the workspace, the date and the arguments.
pub evaluate_policy-allow_iff :
    (p : Platform) (i : PolicyInput) (by : ApprovedBy)
    → (evaluate_policy p i ≡ allow by) ↔ IsAllowed p i by
evaluate_policy-allow_iff p i by = (allow→IsAllowed p i by, IsAllowed→allow p i by)
