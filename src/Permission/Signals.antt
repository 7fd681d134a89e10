-- ===== src/Permission/Signals.antt =====
-- electron/permission/permission-pipeline.ts: what the gates of the pipeline take and give, and the
-- signals and risks that they add.
use zch_coding_agent.Base.{
  ℕ, Bool, Option, none, some, List, [], ◌∷◌, if◌then◌else◌, nat_eq, string_eq, option_eq, Result,
  String, append_text,
}
use zch_coding_agent.Json.{JsonValue}
use zch_coding_agent.Permission.Policy.{
  Effect, PermissionMode, Risk, low, review_risk, high, Severity, warning, danger, RememberedRule,
  Reason,
}
use zch_coding_agent.Permission.Call.{ToolCall, Owner, ApprovedToolCall}
use zch_coding_agent.Permission.Remember.{RememberApprovalInput}

pub record PolicySignal : Type 0 where
  pub code : String
  pub severity : Severity
  pub detail : String

pub record ToolResourcePlan : Type 0 where
  pub plan_signals : List PolicySignal
  pub scratch_mutation : Bool

-- A thrown value: its `code` and its `message`, where it has them.
pub record Thrown : Type 0 where
  pub code : Option String
  pub message : Option String

pub data HookRisk : Type 0 where
  unchanged raise_review raise_high : HookRisk

pub record HookResult : Type 0 where
  pub allow_call : Bool
  pub risk : HookRisk
  pub reason : Option String

pub record ToolDefinition : Type 0 where
  pub id : String
  pub effects : List Effect
  pub default_risk : Risk
  pub allow_remembered_approval : Option Bool
  pub policy_context : JsonValue → Result Thrown (List PolicySignal)

pub record AutoApproverResult : Type 0 where
  pub safe : Bool
  pub note : String
  pub valid : Bool
  pub failure : Option String

pub record ApprovalRequest : Type 0 where
  pub call : ToolCall
  pub request_signals : List PolicySignal
  pub expires_at : String
  pub rememberable : Bool
  pub remember_constraints : Option JsonValue

pub data HumanDecision : Type 0 where
  allow_it : Option RememberApprovalInput → HumanDecision
  deny_it cancel_it : HumanDecision

pub record PermissionPipelineInput : Type 0 where
  pub owner : Owner
  pub mode : PermissionMode
  pub call : ToolCall
  pub definition : ToolDefinition
  pub remembered_rules : List RememberedRule
  pub builtin_policies : Bool
  pub approval_timeout_ms : ℕ
  pub prepare : ToolCall → Result Thrown ToolResourcePlan
  pub before_tool_call : Risk → Option HookResult
  pub auto_approver : Option (List PolicySignal → AutoApproverResult)
  pub request_human_approval : ApprovalRequest → HumanDecision

-- The text of a refusal: one that is given, or the policy's reason.
pub data Message : Type 0 where
  said : String → Message
  because : Reason → Message

pub data ToolResult : Type 0 where
  failed : (code : String) → (message : String) → ToolResult
  denied : Message → ToolResult
  cancelled : ToolResult

pub data AuthorizationResult : Type 0 where
  authorized :
      ApprovedToolCall
      → List PolicySignal
      → Option RememberedRule
      → Option AutoApproverResult
      → AuthorizationResult
  refused : ToolResult → List PolicySignal → Option AutoApproverResult → AuthorizationResult

abbrev pub or_else {ℓ} : {A : Type ℓ} → Option A → A → A
or_else none d = d
or_else (some a) d = a

unfoldable pub structured_failure : Thrown → ToolResult
structured_failure error =
    failed (or_else error.code "INVALID_TOOL_CALL")
      (or_else error.message "Tool invariants were rejected")

abbrev pub raised_to : Risk → HookRisk → Risk
raised_to base unchanged = base
raised_to base raise_high = high
raised_to high raise_review = high
raised_to low raise_review = review_risk
raised_to review_risk raise_review = review_risk

unfoldable pub raised_risk : Risk → Option HookResult → Risk
raised_risk base none = base
raised_risk base (some hook) = raised_to base hook.risk

abbrev pub raise_signal : Severity → String → Option String → List PolicySignal
raise_signal severity risk reason =
    record {
      code = "plugin_risk_raise";
      severity = severity;
      detail = or_else reason (append_text "A security hook raised risk to " risk);
    }
    ∷ []

abbrev pub signals_of : HookRisk → Option String → List PolicySignal
signals_of unchanged reason = []
signals_of raise_review reason = raise_signal warning "review" reason
signals_of raise_high reason = raise_signal danger "high" reason

unfoldable pub hook_signals : Option HookResult → List PolicySignal
hook_signals none = []
hook_signals (some hook) = signals_of hook.risk hook.reason

unfoldable pub auto_signals : AutoApproverResult → List PolicySignal
auto_signals result =
    record {
      code =
          if result.valid
          then "auto_approver_dangerous"
          else append_text "auto_approver_" (or_else result.failure "invalid");
      severity = danger;
      detail = result.note;
    }
    ∷ []
