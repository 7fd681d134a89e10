-- ===== src/Permission/Pipeline/Limits.antt =====
-- The modes and the risks that no answer to the pipeline's questions changes.
use zch_coding_agent.Base.{
  ◌≡◌, refl, sym, subst, ◌⊎◌, inl, inr, true, false, none, some, List, Option-cases, nat_eq,
  string_eq, option_eq, Result, ok,
}
use zch_coding_agent.Permission.Policy.{
  Platform, PolicyInput, deny, review, Reason, readonly_mode, deterministic, confirm_mode,
  evaluate_policy, evaluate_auto, readonly, auto, confirm, has_side_effects, high, Risk,
}
use zch_coding_agent.Permission.Call.{Approver, the_policy, the_model, the_human, Host}
use zch_coding_agent.Permission.Pipeline.{
  PolicySignal, ToolResourcePlan, Thrown, HookResult, raise_high, raised_risk, all_signals,
  PermissionPipelineInput, plan_call, policy_input, authorize,
}
use zch_coding_agent.Permission.Pipeline.Gates.{approver_of, Follows, authorize-approver_iff}

evaluate_policy-readonly :
    (p : Platform) (j : PolicyInput)
    → j.mode ≡ readonly
    → has_side_effects j.effects ≡ true
    → evaluate_policy p j ≡ deny readonly_mode
unfolding evaluate_policy
evaluate_policy-readonly p j m e = rw (evaluate_policy, e, m) refl

evaluate_policy-confirm :
    (p : Platform) (j : PolicyInput)
    → j.mode ≡ confirm
    → has_side_effects j.effects ≡ true
    → j.scratch_mutation ≡ false
    → evaluate_policy p j ≡ review confirm_mode
unfolding evaluate_policy
evaluate_policy-confirm p j m e s = rw (evaluate_policy, e, m, s) refl

evaluate_policy-high :
    (p : Platform) (j : PolicyInput)
    → j.mode ≡ auto
    → has_side_effects j.effects ≡ true
    → j.scratch_mutation ≡ false
    → j.builtin_policies ≡ true
    → j.effective_risk ≡ high
    → evaluate_policy p j ≡ review deterministic
unfolding evaluate_policy evaluate_auto
evaluate_policy-high p j m e s b r = rw (evaluate_policy, e, m, s, evaluate_auto, b, r) refl

deny-Follows :
    (p : Platform) (h : Host) (i : PermissionPipelineInput) (s : List PolicySignal) (r : Reason)
    (by : Approver)
    → Follows p h i s (deny r) by
    → ⊥
deny-Follows p h i s r (the_policy b) e = absurd cc
deny-Follows p h i s r the_model ((q, e), safe) = absurd cc
deny-Follows p h i s r the_human (inl ((q, e), says)) = absurd cc
deny-Follows p h i s r the_human (inr ((q, e), unsafe, says)) = absurd cc

review-Follows :
    (p : Platform) (h : Host) (i : PermissionPipelineInput) (s : List PolicySignal) (r : Reason)
    (by : Approver)
    → Follows p h i s (review r) by
    → by ≡ the_human
review-Follows p h i s r (the_policy b) e = absurd cc
review-Follows p h i s r the_model ((q, e), safe) = absurd cc
review-Follows p h i s r the_human f = refl

-- In the mode `readonly` no tool with side effects is authorized, whatever the plan, the hook, the
-- rules, the approval model and the person say.
pub authorize-readonly :
    (p : Platform) (h : Host) (i : PermissionPipelineInput)
    → i.mode ≡ readonly
    → has_side_effects i.definition.effects ≡ true
    → approver_of (authorize p h i) ≡ none
unfolding policy_input
authorize-readonly p h i m e = elim (Option-cases (approver_of (authorize p h i))) [
  | inl n ↦ n
  | inr (by, a) ↦
      let (plan, planned, unblocked, follows) = (authorize-approver_iff p h i by).0 a in
      let hook = i.before_tool_call i.definition.default_risk in
      absurd (
        deny-Follows p h i (all_signals i plan hook) readonly_mode by (
          subst (λ o. Follows p h i (all_signals i plan hook) o by)
            (evaluate_policy-readonly p (policy_input i plan hook) m e) follows))
]

same_plan :
    {r : Result Thrown ToolResourcePlan} {a b : ToolResourcePlan} → r ≡ ok a → r ≡ ok b → a ≡ b
same_plan e f = cc

raised_risk-high :
    (base : Risk) (hook : HookResult) → hook.risk ≡ raise_high → raised_risk base (some hook) ≡ high
unfolding raised_risk
raised_risk-high base hook e = rw e refl

-- The outcome of a call of high risk, off the scratch files, where a person is asked.
high_outcome :
    (p : Platform) (j : PolicyInput)
    → (j.mode ≡ confirm) ⊎ ((j.mode ≡ auto) × (j.builtin_policies ≡ true))
    → has_side_effects j.effects ≡ true
    → j.scratch_mutation ≡ false
    → j.effective_risk ≡ high
    → (r : Reason) × (evaluate_policy p j ≡ review r)
high_outcome p j (inl m) e s r = (confirm_mode, evaluate_policy-confirm p j m e s)
high_outcome p j (inr (m, b)) e s r = (deterministic, evaluate_policy-high p j m e s b r)

-- Where a plugin's hook raises the risk to high, nobody but a person authorizes a call of a tool with
-- side effects that is not confined to scratch files: in the mode `confirm`, and in the mode `auto`
-- with the builtin policies on.
pub authorize-raised :
    (p : Platform) (h : Host) (i : PermissionPipelineInput) (plan : ToolResourcePlan)
    (hook : HookResult) (by : Approver)
    → (i.mode ≡ confirm) ⊎ ((i.mode ≡ auto) × (i.builtin_policies ≡ true))
    → has_side_effects i.definition.effects ≡ true
    → plan_call i ≡ ok plan
    → plan.scratch_mutation ≡ false
    → i.before_tool_call i.definition.default_risk ≡ some hook
    → hook.risk ≡ raise_high
    → approver_of (authorize p h i) ≡ some by
    → by ≡ the_human
unfolding policy_input
authorize-raised p h i plan hook by mode e planned s hooked r a =
    let (found, found_planned, unblocked, follows) = (authorize-approver_iff p h i by).0 a in
    let scratch = subst (λ q. q.scratch_mutation ≡ false) (same_plan planned found_planned) s in
    let risk =
      subst (λ o. raised_risk i.definition.default_risk o ≡ high) (sym hooked)
        (raised_risk-high i.definition.default_risk hook r) in
    let signals = all_signals i found (i.before_tool_call i.definition.default_risk) in
    let (reason, outcome) =
      high_outcome p (policy_input i found (i.before_tool_call i.definition.default_risk)) mode e
        scratch risk in
    review-Follows p h i signals reason by (subst (λ o. Follows p h i signals o by) outcome follows)
