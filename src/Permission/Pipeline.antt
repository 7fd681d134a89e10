-- ===== src/Permission/Pipeline.antt =====
-- electron/permission/permission-pipeline.ts: `PermissionPipeline.authorize`, the gates that a tool
-- call passes. The plan of the call's resources, the plugins' hook, the approval model and the person
-- are the functions of the input that the source awaits.
pub mod Gates
pub mod Limits
pub mod Issued
use zch_coding_agent.Base.{
  ◌+◌, Bool, true, false, not, ◌&&◌, Option, none, some, List, [], ◌∷◌, ◌++◌, map, if◌then◌else◌,
  Result, ok, err, ◌>>=◌, ◌>>◌, String,
}
use zch_coding_agent.Base.Text.{trim, is_blank}
use zch_coding_agent.Json.{JsonValue}
use zch_coding_agent.Permission.Policy.{
  Platform, Severity, warning, danger, RememberedRule, PolicyInput, PolicyOutcome, allow, deny,
  review, model, evaluate_policy,
}
use zch_coding_agent.Permission.Call.{
  Approver, the_policy, the_model, the_human, ToolCall, Host, issue_approved_call,
}
use zch_coding_agent.Permission.Remember.{
  RememberApprovalInput, remember_arg_constraints, remembered_rule,
}
pub use zch_coding_agent.Permission.Signals.{
  PolicySignal, ToolResourcePlan, Thrown, HookRisk, unchanged, raise_review, raise_high, HookResult,
  ToolDefinition, AutoApproverResult, ApprovalRequest, HumanDecision, allow_it, deny_it, cancel_it,
  PermissionPipelineInput, Message, said, because, ToolResult, failed, denied, cancelled,
  AuthorizationResult, authorized, refused, or_else, raised_to, raise_signal, signals_of,
}
unfoldable pub use zch_coding_agent.Permission.Signals.{
  structured_failure, raised_risk, hook_signals, auto_signals,
}

abbrev pub reason_signals : ToolCall → List PolicySignal
reason_signals call =
    if is_blank (trim call.reason)
    then record {
      code = "missing_reason";
      severity = warning;
      detail = "The provider did not supply a reason for this tool call";
    }
      ∷ []
    else []

-- The signals that the policy sees.
unfoldable pub all_signals :
    PermissionPipelineInput → ToolResourcePlan → Option HookResult → List PolicySignal
all_signals input plan hook = (plan.plan_signals ++ hook_signals hook) ++ reason_signals input.call

unfoldable pub policy_input :
    PermissionPipelineInput → ToolResourcePlan → Option HookResult → PolicyInput
policy_input input plan hook = record {
  mode = input.mode;
  tool_id = input.definition.id;
  effects = input.definition.effects;
  effective_risk = raised_risk input.definition.default_risk hook;
  policy_signals = map (λ signal. signal.severity) (all_signals input plan hook);
  remembered_rules =
      if or_else input.definition.allow_remembered_approval true
      then input.remembered_rules
      else [];
  builtin_policies = input.builtin_policies;
  workspace = input.owner.workspace;
  args = input.call.args;
  scratch_mutation = plan.scratch_mutation;
  now = none;
}

abbrev pub approve :
    Platform
    → Host
    → PermissionPipelineInput
    → Approver
    → List PolicySignal
    → Option RememberedRule
    → Option AutoApproverResult
    → AuthorizationResult
approve p h input by signals rule auto =
    authorized (issue_approved_call p h input.owner input.call by) signals rule auto

abbrev pub rule_of :
    Host
    → PermissionPipelineInput
    → Option RememberApprovalInput
    → Option JsonValue
    → Option RememberedRule
rule_of h input (some remember) (some constraints) =
    some (remembered_rule h input.call input.owner.workspace remember constraints)
rule_of h input _ _ = none

abbrev pub by_person :
    Platform
    → Host
    → PermissionPipelineInput
    → List PolicySignal
    → Message
    → Option AutoApproverResult
    → HumanDecision
    → AuthorizationResult
by_person p h input signals reason auto cancel_it = refused cancelled signals auto
by_person p h input signals reason auto deny_it = refused (denied reason) signals auto
by_person p h input signals reason auto (allow_it remember) =
    approve p h input the_human signals
      (rule_of h input remember (remember_arg_constraints input.call)) auto

abbrev pub is_some {ℓ} : {A : Type ℓ} → Option A → Bool
is_some none = false
is_some (some a) = true

abbrev pub request_of :
    Platform → Host → PermissionPipelineInput → List PolicySignal → ApprovalRequest
request_of p h input signals = record {
  call = input.call;
  request_signals = signals;
  expires_at = h.iso (p.clock + input.approval_timeout_ms);
  rememberable = is_some (remember_arg_constraints input.call);
  remember_constraints = remember_arg_constraints input.call;
}

-- The part of `authorize` from `requestHumanApproval` on.
unfoldable pub ask_person :
    Platform
    → Host
    → PermissionPipelineInput
    → List PolicySignal
    → Message
    → Option AutoApproverResult
    → AuthorizationResult
ask_person p h input signals reason auto =
    by_person p h input signals reason auto
      (input.request_human_approval (request_of p h input signals))

abbrev pub unavailable : AutoApproverResult
unavailable = record {
  safe = false;
  note = "Approval model is unavailable";
  valid = false;
  failure = some "network";
}

abbrev pub evaluate_auto_approver :
    Option (List PolicySignal → AutoApproverResult) → List PolicySignal → AutoApproverResult
evaluate_auto_approver none signals = unavailable
evaluate_auto_approver (some approver) signals = approver signals

unfoldable pub ask_model :
    Platform
    → Host
    → PermissionPipelineInput
    → List PolicySignal
    → AutoApproverResult
    → AuthorizationResult
ask_model p h input signals auto =
    if auto.safe && auto.valid
    then approve p h input the_model signals none (some auto)
    else ask_person p h input (signals ++ auto_signals auto) (said auto.note) (some auto)

abbrev pub follow :
    Platform
    → Host
    → PermissionPipelineInput
    → List PolicySignal
    → PolicyOutcome
    → AuthorizationResult
follow p h input signals (deny reason) = refused (denied (because reason)) signals none
follow p h input signals (allow by) = approve p h input (the_policy by) signals none none
follow p h input signals (model reason) =
    ask_model p h input signals (evaluate_auto_approver input.auto_approver signals)
follow p h input signals (review reason) = ask_person p h input signals (because reason) none

abbrev pub blocks : Option HookResult → Bool
blocks none = false
blocks (some hook) = not hook.allow_call

abbrev pub block_reason : Option HookResult → String
block_reason none = ""
block_reason (some hook) = or_else hook.reason "A security hook blocked this tool call"

unfoldable pub authorize_planned :
    Platform
    → Host
    → PermissionPipelineInput
    → ToolResourcePlan
    → Option HookResult
    → AuthorizationResult
authorize_planned p h input plan hook =
    if blocks hook
    then refused (denied (said (block_reason hook)))
        (plan.plan_signals
          ++ record { code = "plugin_blocked"; severity = danger; detail = block_reason hook } ∷ [])
        none
    else follow p h input (all_signals input plan hook)
        (evaluate_policy p (policy_input input plan hook))

-- The plan of the call's resources, with the signals of the tool's context.
abbrev pub plan_call : PermissionPipelineInput → Result Thrown ToolResourcePlan
plan_call input = do
  plan ← input.prepare input.call
  context ← input.definition.policy_context input.call.args
  ok (record plan { plan_signals = plan.plan_signals ++ context })

unfoldable pub authorize : Platform → Host → PermissionPipelineInput → AuthorizationResult
authorize p h input = elim (plan_call input) [
  | err error ↦ refused (structured_failure error) [] none
  | ok plan ↦
      authorize_planned p h input plan (input.before_tool_call input.definition.default_risk)
]
