-- ===== src/Tests/PipelineTest.antt =====
-- A launch that a person allows and has remembered, and a call in the mode `readonly`.
use zch_coding_agent.Base.{
  ◌≡◌, refl, ap, ◌≢◌, ◌↔◌, inr, true, false, none, some, List, [], ◌∷◌, nat_eq, string_eq,
  option_eq, ok,
}
use zch_coding_agent.Base.Text.{trim}
use zch_coding_agent.Json.{JsonValue, text, object, no_fields, field}
use zch_coding_agent.Permission.Policy.{
  Platform, PolicyInput, RememberedRule, auto, readonly, low, process_spawn, allow_rule,
  evaluate_policy, evaluate_auto, matches, unexpired, info,
}
use zch_coding_agent.Permission.Call.{
  the_human, ToolCall, Owner, ApprovedToolCall, Host, create_args_hash, comparable_path,
  issue_approved_call, revalidate_approved_tool_call,
}
use zch_coding_agent.Permission.Call.Seal.{with_args}
use zch_coding_agent.Permission.Remember.{
  key_executable, keep, is_launch, launch_constraints, remember_fields, RememberApprovalInput,
  remember_arg_constraints, remembered_rule,
}
use zch_coding_agent.Permission.Pipeline.{
  PolicySignal, ToolResourcePlan, HookResult, raise_high, ToolDefinition, allow_it,
  PermissionPipelineInput, authorized, raised_risk, hook_signals, all_signals, policy_input,
  ask_person, authorize_planned, authorize,
}
use zch_coding_agent.Permission.Pipeline.Gates.{approver_of, Passes, authorize-approver_iff}
use zch_coding_agent.Permission.Pipeline.Limits.{authorize-readonly, authorize-raised}
use zch_coding_agent.Permission.Pipeline.Issued.{authorize-revalidate_iff, authorize-remembers}

abbrev platform : Platform
platform = record {
  normalize = λ path. path;
  stringify = λ value. "{}";
  parse_date = λ date. none;
  clock = 100;
}

abbrev host : Host
host = record {
  digest = λ content. content;
  resolve = λ path. "/work";
  lower = λ path. path;
  is_windows = false;
  iso = λ time. "1970-01-01T00:00:00.100Z";
  uuid = "1";
}

abbrev launch_args : JsonValue
launch_args = object (field key_executable (text (108 ∷ 115 ∷ [])) no_fields)

abbrev launch : ToolCall
launch = record {
  id = "call:1";
  tool_id = "exec_command";
  args = launch_args;
  reason = 108 ∷ 105 ∷ 115 ∷ 116 ∷ [];
}

abbrev owner : Owner
owner = record {
  session_id = "session:1";
  run_id = "run:1";
  workspace = "/work";
  session_temp_root = none;
}

abbrev definition : ToolDefinition
definition = record {
  id = "exec_command";
  effects = process_spawn ∷ [];
  default_risk = low;
  allow_remembered_approval = none;
  policy_context = λ args. ok [];
}

abbrev remember : RememberApprovalInput
remember = record { global = false; expires_at = none }

abbrev high_hook : HookResult
high_hook = record { allow_call = true; risk = raise_high; reason = none }

abbrev plan : ToolResourcePlan
plan = record { plan_signals = []; scratch_mutation = false }

abbrev input : PermissionPipelineInput
input = record {
  owner = owner;
  mode = auto;
  call = launch;
  definition = definition;
  remembered_rules = [];
  builtin_policies = true;
  approval_timeout_ms = 60_000;
  prepare = λ call. ok plan;
  before_tool_call = λ risk. some high_hook;
  auto_approver = none;
  request_human_approval = λ request. allow_it (some remember);
}

abbrev readonly_call : PermissionPipelineInput
readonly_call = record input { mode = readonly }

abbrev signals : List PolicySignal
signals = hook_signals (some high_hook)

abbrev issued_call : ApprovedToolCall
issued_call = issue_approved_call platform host owner launch the_human

abbrev rule : RememberedRule
rule = remembered_rule host launch "/work" remember launch_args

allowed : authorize platform host input ≡ authorized issued_call signals (some rule) none
unfolding authorize authorize_planned all_signals hook_signals policy_input raised_risk
    evaluate_policy evaluate_auto ask_person remember_arg_constraints remember_fields is_launch
    launch_constraints keep trim
allowed = refl

abbrev later : PolicyInput
later = record {
  mode = auto;
  tool_id = "exec_command";
  effects = process_spawn ∷ [];
  effective_risk = low;
  policy_signals = info ∷ [];
  remembered_rules = rule ∷ [];
  builtin_policies = true;
  workspace = "/work";
  args = launch_args;
  scratch_mutation = false;
  now = none;
}

in_date : unexpired platform 100 rule.expires_at ≡ true
unfolding unexpired remembered_rule
in_date = refl

authorize-approver_iff_example :
    (approver_of (authorize platform host input) ≡ some the_human)
    ↔ Passes platform host input the_human
authorize-approver_iff_example = authorize-approver_iff platform host input the_human

authorize-readonly_example : approver_of (authorize platform host readonly_call) ≡ none
authorize-readonly_example = authorize-readonly platform host readonly_call refl refl

by_human : approver_of (authorize platform host input) ≡ some the_human
unfolding issue_approved_call
by_human = ap approver_of allowed

authorize-raised_example : the_human ≡ the_human
authorize-raised_example =
    authorize-raised platform host input plan high_hook the_human (inr (refl, refl)) refl refl refl
      refl refl by_human

work_filled : owner.workspace ≢ ""
work_filled e = absurd cc

authorize-revalidate_iff_example :
    (revalidate_approved_tool_call platform host (with_args (text []) issued_call) owner ≡ ok tt)
    ↔ ((owner.session_id ≡ owner.session_id)
        × (owner.run_id ≡ owner.run_id)
        × (create_args_hash platform host launch_args ≡ create_args_hash platform host (text []))
        × (comparable_path host (some owner.workspace)
            ≡ comparable_path host (some owner.workspace))
        × (comparable_path host owner.session_temp_root
            ≡ comparable_path host owner.session_temp_root))
authorize-revalidate_iff_example =
    authorize-revalidate_iff platform host input issued_call signals (some rule) none (text [])
      owner (λ path. refl) (λ path. work_filled) work_filled allowed

authorize-remembers_example : (matches platform later rule ≡ true) × (rule.effect ≡ allow_rule)
authorize-remembers_example =
    authorize-remembers platform host input issued_call signals rule none later allowed refl refl
      refl in_date
