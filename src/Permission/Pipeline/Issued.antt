-- ===== src/Permission/Pipeline/Issued.antt =====
-- The call and the rule that an authorization hands on.
use zch_coding_agent.Base.{
  ℕ, ◌≡◌, refl, sym, ap, subst, ◌≢◌, ◌↔◌, Bool, true, false, ◌&&◌, Option, none, some, List, [],
  ◌++◌, if◌then◌else◌, nat_eq, string_eq, option_eq, ok, err, String,
}
use zch_coding_agent.Json.{JsonValue}
use zch_coding_agent.Permission.Policy.{
  Platform, PolicyInput, RememberedRule, allow_rule, PolicyOutcome, allow, deny, review, model,
  unexpired, matches,
}
use zch_coding_agent.Permission.Call.{
  Approver, the_policy, the_model, the_human, Owner, ApprovedToolCall, Host, create_args_hash,
  comparable_path, issue_approved_call, revalidate_approved_tool_call,
}
use zch_coding_agent.Permission.Call.Seal.{with_args, revalidate-issued_iff}
use zch_coding_agent.Permission.Remember.{
  RememberApprovalInput, remember_arg_constraints, remembered_rule,
}
use zch_coding_agent.Permission.Remember.Replay.{remembered_rule-matches}
use zch_coding_agent.Permission.Pipeline.{
  PolicySignal, AutoApproverResult, HumanDecision, allow_it, deny_it, cancel_it,
  PermissionPipelineInput, Message, AuthorizationResult, authorized, refused, plan_call, blocks,
  request_of, rule_of, by_person, ask_person, ask_model, auto_signals, evaluate_auto_approver,
  follow, authorize_planned, structured_failure, authorize, said, because,
}

module _ (p : Platform) (h : Host) (i : PermissionPipelineInput) where
  -- A rule made from this call by a person's answer.
  abbrev IsRuleOf : Option RememberedRule → Type 0
  IsRuleOf none = Unit
  IsRuleOf (some rule) =
      (remember : RememberApprovalInput) × (c : JsonValue) × (remember_arg_constraints i.call
        ≡ some c)
      × (rule ≡ remembered_rule h i.call i.owner.workspace remember c)

  abbrev IsIssued : AuthorizationResult → Type 0
  IsIssued (refused result signals auto) = Unit
  IsIssued (authorized call signals rule auto) =
      ((by : Approver) × (call ≡ issue_approved_call p h i.owner i.call by)) × IsRuleOf rule

  rule_of-IsRuleOf :
      (r : Option RememberApprovalInput) (c : Option JsonValue)
      → remember_arg_constraints i.call ≡ c
      → IsRuleOf (rule_of h i r c)
  rule_of-IsRuleOf (some r) (some c) e = (r, c, e, refl)
  rule_of-IsRuleOf (some r) none e = tt
  rule_of-IsRuleOf none c e = tt

  by_person-IsIssued :
      (s : List PolicySignal) (m : Message) (auto : Option AutoApproverResult) (d : HumanDecision)
      → IsIssued (by_person p h i s m auto d)
  by_person-IsIssued s m auto (allow_it r) =
      ((the_human, refl), rule_of-IsRuleOf r (remember_arg_constraints i.call) refl)
  by_person-IsIssued s m auto deny_it = tt
  by_person-IsIssued s m auto cancel_it = tt

  ask_person-IsIssued :
      (s : List PolicySignal) (m : Message) (auto : Option AutoApproverResult)
      → IsIssued (ask_person p h i s m auto)
  unfolding ask_person
  ask_person-IsIssued s m auto =
      by_person-IsIssued s m auto (i.request_human_approval (request_of p h i s))

  either-IsIssued :
      (b : Bool) (x y : AuthorizationResult)
      → IsIssued x
      → IsIssued y
      → IsIssued (if b then x else y)
  either-IsIssued true x y k l = k
  either-IsIssued false x y k l = l

  ask_model-IsIssued :
      (s : List PolicySignal) (a : AutoApproverResult) → IsIssued (ask_model p h i s a)
  unfolding ask_model
  ask_model-IsIssued s a =
      either-IsIssued (a.safe && a.valid) _ _ ((the_model, refl), tt)
        (ask_person-IsIssued (s ++ auto_signals a) (said a.note) (some a))

  follow-IsIssued : (s : List PolicySignal) (o : PolicyOutcome) → IsIssued (follow p h i s o)
  follow-IsIssued s (deny r) = tt
  follow-IsIssued s (allow by) = ((the_policy by, refl), tt)
  follow-IsIssued s (review r) = ask_person-IsIssued s (because r) none
  follow-IsIssued s (model r) = ask_model-IsIssued s (evaluate_auto_approver i.auto_approver s)

  authorize-IsIssued : IsIssued (authorize p h i)
  unfolding authorize authorize_planned
  authorize-IsIssued =
      elim (plan_call i)
        as (λ r. IsIssued (elim r [
          | err error ↦ refused (structured_failure error) [] none
          | ok plan ↦ authorize_planned p h i plan (i.before_tool_call i.definition.default_risk)
        ])) [
          | err error ↦ tt
          | ok plan ↦
              either-IsIssued (blocks (i.before_tool_call i.definition.default_risk)) _ _ tt
                (follow-IsIssued _ _)
        ]

  issued :
      (r : AuthorizationResult) (a : ApprovedToolCall) (s : List PolicySignal)
      → {rule : Option RememberedRule} {auto : Option AutoApproverResult} → IsIssued r
      → r ≡ authorized a s rule auto
      → IsIssued (authorized a s rule auto)
  issued r a s d e = subst IsIssued e d

  -- The call that an authorization carries, shown later with any arguments in any context, is accepted
  -- exactly when the session and the run are those it was authorized for, the arguments have the digest
  -- of the authorized ones, and the workspace and the temporary root are the same resolved paths. The
  -- host's `path.resolve` gives a path that it resolves to itself and that is not empty, and the
  -- workspace is not empty.
  pub authorize-revalidate_iff :
      (call : ApprovedToolCall) (signals : List PolicySignal) (rule : Option RememberedRule)
      (auto : Option AutoApproverResult) (args : JsonValue) (context : Owner)
      → ((path : String) → h.resolve (h.resolve path) ≡ h.resolve path)
      → ((path : String) → h.resolve path ≢ "")
      → i.owner.workspace ≢ ""
      → authorize p h i ≡ authorized call signals rule auto
      → (revalidate_approved_tool_call p h (with_args args call) context ≡ ok tt) ↔ (
          (i.owner.session_id ≡ context.session_id)
          × (i.owner.run_id ≡ context.run_id)
          × (create_args_hash p h i.call.args ≡ create_args_hash p h args)
          × (comparable_path h (some i.owner.workspace)
              ≡ comparable_path h (some context.workspace))
          × (comparable_path h i.owner.session_temp_root
              ≡ comparable_path h context.session_temp_root))
  authorize-revalidate_iff call signals rule auto args context again named filled e =
      let ((by, made), _) = issued (authorize p h i) call signals authorize-IsIssued e in
      rw made (revalidate-issued_iff h again named p i.owner context i.call by args filled)

  -- A rule that a person leaves when they allow a call fits every later call of the same tool with the
  -- same arguments in the same workspace for as long as the rule is in date, and it allows.
  pub authorize-remembers :
      (call : ApprovedToolCall) (signals : List PolicySignal) (rule : RememberedRule)
      (auto : Option AutoApproverResult) (j : PolicyInput)
      → authorize p h i ≡ authorized call signals (some rule) auto
      → j.tool_id ≡ i.call.tool_id
      → j.args ≡ i.call.args
      → j.workspace ≡ i.owner.workspace
      → unexpired p (elim j.now [ none ↦ p.clock | some t ↦ t ]) rule.expires_at ≡ true
      → (matches p j rule ≡ true) × (rule.effect ≡ allow_rule)
  unfolding remembered_rule
  authorize-remembers call signals rule auto j e tool args same fresh =
      let (_, (remember, c, constraints, made)) =
        issued (authorize p h i) call signals authorize-IsIssued e in
      let now : ℕ = elim j.now [ none ↦ p.clock | some t ↦ t ] in
      let in_date = subst (λ r. unexpired p now r.expires_at ≡ true) made fresh in
      let fits = remembered_rule-matches p h i.call j remember constraints tool args in_date in
      (
        subst (λ r. matches p j r ≡ true) (sym made)
            (subst (λ w. matches p j (remembered_rule h i.call w remember c) ≡ true) same fits),
        ap (λ r. r.effect) made,
      )
