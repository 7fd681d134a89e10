-- ===== src/Permission/Pipeline/Gates.antt =====
-- The gates of the pipeline, one after the other, and what passes each.
use zch_coding_agent.Base.{
  ◌≡◌, refl, sym, ap, ◌∙◌, subst, ◌↔◌, ◌⊎◌, inl, inr, Bool, true, false, ◌&&◌, Option, none, some,
  List, ◌++◌, arith, Bool-cases, some_injective, nat_eq, string_eq, option_eq, ok, err,
  Result-cases,
}
use zch_coding_agent.Permission.Policy.{
  Platform, PolicyOutcome, allow, deny, review, model, Reason, evaluate_policy,
}
use zch_coding_agent.Permission.Call.{
  Approver, the_policy, the_model, the_human, Host, issue_approved_call,
}
use zch_coding_agent.Permission.Remember.{RememberApprovalInput}
use zch_coding_agent.Permission.Pipeline.{
  PolicySignal, ToolResourcePlan, Thrown, HookResult, AutoApproverResult, HumanDecision, allow_it,
  deny_it, cancel_it, PermissionPipelineInput, Message, said, because, AuthorizationResult,
  authorized, refused, plan_call, blocks, all_signals, policy_input, request_of, by_person,
  ask_person, ask_model, auto_signals, evaluate_auto_approver, follow, authorize_planned, authorize,
}

none-some : {A : Type 0} {a : A} → none ≡ some a → ⊥
none-some e = absurd cc

abbrev pub approver_of : AuthorizationResult → Option Approver
approver_of (authorized call signals rule auto) = some call.approved_by
approver_of (refused result signals auto) = none

module _ (p : Platform) (h : Host) (i : PermissionPipelineInput) where
  -- The person, asked with these signals, allows the call.
  abbrev pub PersonAllows : List PolicySignal → Type 0
  PersonAllows signals =
      (remember : Option RememberApprovalInput) × (i.request_human_approval
          (request_of p h i signals)
        ≡ allow_it remember)

  -- The approval model's answer, as far as it counts.
  abbrev pub says_safe : List PolicySignal → Bool
  says_safe signals =
      let answer = evaluate_auto_approver i.auto_approver signals in answer.safe && answer.valid

  -- What approves a call on which the policy's outcome is this.
  abbrev pub Follows : List PolicySignal → PolicyOutcome → Approver → Type 0
  Follows signals outcome (the_policy by) = outcome ≡ allow by
  Follows signals outcome the_model =
      ((reason : Reason) × (outcome ≡ model reason)) × (says_safe signals ≡ true)
  Follows signals outcome the_human =
      (((reason : Reason) × (outcome ≡ review reason)) × PersonAllows signals)
      ⊎ (((reason : Reason) × (outcome ≡ model reason))
          × (says_safe signals ≡ false)
          × PersonAllows (signals ++ auto_signals (evaluate_auto_approver i.auto_approver signals)))

  by_person_iff :
      (s : List PolicySignal) (m : Message) (auto : Option AutoApproverResult) (d : HumanDecision)
      (by : Approver)
      → (approver_of (by_person p h i s m auto d) ≡ some by)
        ↔ ((by ≡ the_human) × ((r : Option RememberApprovalInput) × (d ≡ allow_it r)))
  unfolding issue_approved_call
  by_person_iff s m auto (allow_it r) by = ((λ e. (cc, (r, refl))), λ e. ap some (sym e.0))
  by_person_iff s m auto deny_it by = ((λ e. absurd cc), λ e. absurd cc)
  by_person_iff s m auto cancel_it by = ((λ e. absurd cc), λ e. absurd cc)

  ask_person_iff :
      (s : List PolicySignal) (m : Message) (auto : Option AutoApproverResult) (by : Approver)
      → (approver_of (ask_person p h i s m auto) ≡ some by) ↔ ((by ≡ the_human) × PersonAllows s)
  unfolding ask_person
  ask_person_iff s m auto by =
      by_person_iff s m auto (i.request_human_approval (request_of p h i s)) by

  ask_model_iff :
      (s : List PolicySignal) (a : AutoApproverResult) (by : Approver)
      → (approver_of (ask_model p h i s a) ≡ some by) ↔ (
          ((by ≡ the_model) × ((a.safe && a.valid) ≡ true))
          ⊎ ((by ≡ the_human) × ((a.safe && a.valid) ≡ false) × PersonAllows (s ++ auto_signals a)))
  unfolding ask_model issue_approved_call
  ask_model_iff s a by =
      let asked = ask_person_iff (s ++ auto_signals a) (said a.note) (some a) by in
      elim (Bool-cases (a.safe && a.valid)) [
        | inl e ↦ rw (ask_model, e) ground arith
        | inr e ↦ rw (ask_model, e) ground arith
      ]

  follow→Follows :
      (s : List PolicySignal) (o : PolicyOutcome) (by : Approver)
      → approver_of (follow p h i s o) ≡ some by
      → Follows s o by
  unfolding issue_approved_call
  follow→Follows s (deny r) by e = absurd cc
  follow→Follows s (allow b) by e = subst (Follows s (allow b)) (some_injective e) refl
  follow→Follows s (review r) by e =
      let (human, says) = (ask_person_iff s (because r) none by).0 e in
      subst (Follows s (review r)) (sym human) (inl ((r, refl), says))
  follow→Follows s (model r) by e =
      elim ((ask_model_iff s (evaluate_auto_approver i.auto_approver s) by).0 e) [
        | inl (m, safe) ↦ subst (Follows s (model r)) (sym m) ((r, refl), safe)
        | inr (m, unsafe, says) ↦
            subst (Follows s (model r)) (sym m) (inr ((r, refl), unsafe, says))
      ]

  Follows→follow :
      (s : List PolicySignal) (o : PolicyOutcome) (by : Approver)
      → Follows s o by
      → approver_of (follow p h i s o) ≡ some by
  unfolding issue_approved_call
  Follows→follow s o (the_policy b) e =
      subst (λ x. approver_of (follow p h i s x) ≡ some (the_policy b)) (sym e) refl
  Follows→follow s o the_model ((r, e), safe) =
      subst (λ x. approver_of (follow p h i s x) ≡ some the_model) (sym e)
        ((ask_model_iff s (evaluate_auto_approver i.auto_approver s) the_model).1
          (inl (refl, safe)))
  Follows→follow s o the_human (inl ((r, e), says)) =
      subst (λ x. approver_of (follow p h i s x) ≡ some the_human) (sym e)
        ((ask_person_iff s (because r) none the_human).1 (refl, says))
  Follows→follow s o the_human (inr ((r, e), unsafe, says)) =
      subst (λ x. approver_of (follow p h i s x) ≡ some the_human) (sym e)
        ((ask_model_iff s (evaluate_auto_approver i.auto_approver s) the_human).1
          (inr (refl, unsafe, says)))

  abbrev hook_of : Option HookResult
  hook_of = i.before_tool_call i.definition.default_risk

  -- The call has a plan, no hook blocks it, and what the policy says of it is followed.
  abbrev pub Passes : Approver → Type 0
  Passes by =
      (plan : ToolResourcePlan) × (plan_call i ≡ ok plan)
      × (blocks hook_of ≡ false)
      × Follows (all_signals i plan hook_of) (evaluate_policy p (policy_input i plan hook_of)) by

  authorize-failed :
      {error : Thrown} → plan_call i ≡ err error → approver_of (authorize p h i) ≡ none
  unfolding authorize
  authorize-failed e = rw (authorize, e) refl

  authorize-blocked :
      {plan : ToolResourcePlan}
      → plan_call i ≡ ok plan
      → blocks hook_of ≡ true
      → approver_of (authorize p h i) ≡ none
  unfolding authorize authorize_planned
  authorize-blocked e b = rw (authorize, e, authorize_planned, b) refl

  authorize-follow :
      {plan : ToolResourcePlan}
      → plan_call i ≡ ok plan
      → blocks hook_of ≡ false
      → authorize p h i
        ≡ follow p h i
            (all_signals i plan hook_of)
            (evaluate_policy p (policy_input i plan hook_of))
  unfolding authorize authorize_planned
  authorize-follow e b = rw (authorize, e, authorize_planned, b) refl

  authorize→Passes : (by : Approver) → approver_of (authorize p h i) ≡ some by → Passes by
  authorize→Passes by e = elim (Result-cases (plan_call i)) [
    | inr (error, failed) ↦ absurd (none-some (sym (authorize-failed failed) ∙ e))
    | inl (plan, planned) ↦ elim (Bool-cases (blocks hook_of)) [
      | inl blocked ↦ absurd (none-some (sym (authorize-blocked planned blocked) ∙ e))
      | inr unblocked ↦ (
        plan,
        planned,
        unblocked,
        follow→Follows _ _ by (sym (ap approver_of (authorize-follow planned unblocked)) ∙ e),
      )
    ]
  ]

  Passes→authorize : (by : Approver) → Passes by → approver_of (authorize p h i) ≡ some by
  Passes→authorize by (plan, planned, unblocked, follows) =
      ap approver_of (authorize-follow planned unblocked) ∙ Follows→follow _ _ by follows

  -- A call is authorized by these and no others, and only where its plan can be made and no hook
  -- blocks it. By the policy, on the ground that the policy's outcome names. By the approval model,
  -- where the outcome leaves the call to it and it gives a valid answer that the call is safe. By a
  -- person who allows it, where the outcome asks for a review, or leaves the call to the model and
  -- the model is absent, gives no valid answer, or finds a danger.
  pub authorize-approver_iff :
      (by : Approver) → (approver_of (authorize p h i) ≡ some by) ↔ Passes by
  authorize-approver_iff by = (authorize→Passes by, Passes→authorize by)
