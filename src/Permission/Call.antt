-- ===== src/Permission/Call.antt =====
-- electron/tooling/approved-tool-call.ts, electron/tooling/approved-call-validation.ts and the call
-- that electron/permission/permission-pipeline.ts issues.
pub mod Seal
use zch_coding_agent.Base.{
  ℕ, Bool, true, not, ◌||◌, Option, none, some, List, [], if◌then◌else◌, ◌==◌, nat_eq, string_eq,
  option_eq, Result, ◌>>◌, throw_if, String,
}
use zch_coding_agent.Base.Text.{truthy}
use zch_coding_agent.Json.{JsonValue}
use zch_coding_agent.Permission.Policy.{Platform, ApprovedBy}

-- Who approved a call: the policy, on one of its four grounds, the approval model, or a person.
pub data Approver : Type 0 where
  the_policy : ApprovedBy → Approver
  the_model the_human : Approver

pub record ToolCall : Type 0 where
  pub id : String
  pub tool_id : String
  pub args : JsonValue
  pub reason : List ℕ

pub record Owner : Type 0 where
  pub session_id : String
  pub run_id : String
  pub workspace : String
  pub session_temp_root : Option String

pub record ApprovedToolCall : Type 0 where
  pub branded : Bool
  pub session_id : String
  pub run_id : String
  pub call_id : String
  pub tool_id : String
  pub args : JsonValue
  pub args_hash : String
  pub workspace : String
  pub session_temp_root : Option String
  pub approved_by : Approver
  pub approved_at : String

-- The host: SHA-256 as hexadecimal, `path.resolve`, `toLowerCase`, the platform, a time as ISO
-- text, and `randomUUID`.
pub record Host : Type 0 where
  pub digest : String → String
  pub resolve : String → String
  pub lower : String → String
  pub is_windows : Bool
  pub iso : ℕ → String
  pub uuid : String

unfoldable pub create_args_hash : Platform → Host → JsonValue → String
create_args_hash p h args = h.digest (p.stringify args)

unfoldable pub comparable_path : Host → Option String → Option String
comparable_path h value = elim (truthy value) [
  | none ↦ none
  | some path ↦ some (if h.is_windows then h.lower (h.resolve path) else h.resolve path)
]

abbrev pub resolve_root : Host → Option String → Option String
resolve_root h root = elim (truthy root) [ none ↦ none | some path ↦ some (h.resolve path) ]

unfoldable pub issue_approved_call :
    Platform → Host → Owner → ToolCall → Approver → ApprovedToolCall
issue_approved_call p h owner call approver = record {
  branded = true;
  session_id = owner.session_id;
  run_id = owner.run_id;
  call_id = call.id;
  tool_id = call.tool_id;
  args = call.args;
  args_hash = create_args_hash p h call.args;
  workspace = h.resolve owner.workspace;
  session_temp_root = resolve_root h owner.session_temp_root;
  approved_by = approver;
  approved_at = h.iso p.clock;
}

-- The four refusals, which all have the code `RESOURCE_CHANGED`.
pub data CallError : Type 0 where
  not_issued other_owner other_arguments other_scope : CallError

unfoldable pub revalidate_approved_tool_call :
    Platform → Host → ApprovedToolCall → Owner → Result CallError (Unit {0})
revalidate_approved_tool_call p h approved context = do
  throw_if (not approved.branded) not_issued
  throw_if
      (not (approved.session_id == context.session_id) || not (approved.run_id == context.run_id))
      other_owner
  throw_if (not (approved.args_hash == create_args_hash p h approved.args)) other_arguments
  throw_if
      (not (
          comparable_path h (some approved.workspace) == comparable_path h (some context.workspace))
        || not (
            comparable_path h approved.session_temp_root
            == comparable_path h context.session_temp_root))
      other_scope
