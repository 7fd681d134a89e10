-- ===== src/Permission/Remember.antt =====
-- electron/permission/permission-pipeline.ts: `rememberArgConstraints` and `rememberedRule`, the rule
-- that a person's answer leaves behind.
pub mod Replay
use zch_coding_agent.Base.{
  ℕ, Bool, true, false, ◌&&◌, ◌||◌, Option, none, some, List, [], ◌∷◌, if◌then◌else◌, ◌==◌, nat_eq,
  string_eq, String, append_text,
}
use zch_coding_agent.Base.Text.{truthy}
use zch_coding_agent.Json.{
  JsonValue, JsonFields, null, boolean, text, array, object, no_fields, field,
}
use zch_coding_agent.Permission.Policy.{
  same_units, Platform, PolicyInput, RememberedRule, allow_rule, get_field, same_json, every_entry,
  matches_constraints, unexpired, same_workspace, matches,
}
use zch_coding_agent.Permission.Call.{ToolCall, Host}

-- The names of arguments, as code units.
abbrev pub key_path : List ℕ
key_path = 112 ∷ 97 ∷ 116 ∷ 104 ∷ []

abbrev pub key_mode : List ℕ
key_mode = 109 ∷ 111 ∷ 100 ∷ 101 ∷ []

abbrev pub key_process : List ℕ
key_process = 112 ∷ 114 ∷ 111 ∷ 99 ∷ 101 ∷ 115 ∷ 115 ∷ []

abbrev pub key_session_id : List ℕ
key_session_id = 115 ∷ 101 ∷ 115 ∷ 115 ∷ 105 ∷ 111 ∷ 110 ∷ 73 ∷ 100 ∷ []

abbrev pub key_executable : List ℕ
key_executable = 101 ∷ 120 ∷ 101 ∷ 99 ∷ 117 ∷ 116 ∷ 97 ∷ 98 ∷ 108 ∷ 101 ∷ []

abbrev pub key_args : List ℕ
key_args = 97 ∷ 114 ∷ 103 ∷ 115 ∷ []

abbrev pub key_cwd : List ℕ
key_cwd = 99 ∷ 119 ∷ 100 ∷ []

abbrev pub key_all : List ℕ
key_all = 97 ∷ 108 ∷ 108 ∷ []

abbrev pub key_staged : List ℕ
key_staged = 115 ∷ 116 ∷ 97 ∷ 103 ∷ 101 ∷ 100 ∷ []

abbrev pub key_paths : List ℕ
key_paths = 112 ∷ 97 ∷ 116 ∷ 104 ∷ 115 ∷ []

abbrev pub is_text : JsonValue → Bool
is_text (text s) = true
is_text _ = false

abbrev pub is_array : JsonValue → Bool
is_array (array vs) = true
is_array _ = false

abbrev pub is_true : JsonValue → Bool
is_true (boolean true) = true
is_true _ = false

abbrev pub is_process : JsonValue → Bool
is_process (text s) = same_units s key_process
is_process _ = false

abbrev pub has : (JsonValue → Bool) → List ℕ → JsonFields → Bool
has test key fs = elim (get_field key fs) [ none ↦ false | some v ↦ test v ]

-- `...(test(args[key]) ? { [key]: args[key] } : {})`.
unfoldable pub keep : (JsonValue → Bool) → List ℕ → JsonFields → JsonFields → JsonFields
keep test key fs rest = elim (get_field key fs) [
  | none ↦ rest
  | some v ↦ if test v then field key v rest else rest
]

abbrev pub is_file_tool : String → Bool
is_file_tool tool = tool == "write_file" || tool == "apply_patch" || tool == "delete_file"

abbrev pub is_absent : Option JsonValue → Bool
is_absent none = true
is_absent (some v) = false

unfoldable pub is_launch : String → JsonFields → Bool
is_launch tool fs =
    (tool == "run_command" && has is_process key_mode fs)
    || (tool == "exec_command"
        && is_absent (get_field key_session_id fs)
        && has is_text key_executable fs)

unfoldable pub launch_constraints : String → JsonFields → JsonFields
launch_constraints tool fs =
    let rest =
      keep is_text key_executable fs
        (keep is_array key_args fs (keep is_text key_cwd fs no_fields)) in
    if tool == "run_command" then field key_mode (text key_process) rest else rest

unfoldable pub remember_fields : String → JsonFields → Option JsonFields
remember_fields tool fs =
    if is_file_tool tool
    then if has is_text key_path fs then some (keep is_text key_path fs no_fields) else none
    else if is_launch tool fs
    then if has is_text key_executable fs then some (launch_constraints tool fs) else none
    else if tool == "git_add"
    then some (keep is_true key_all fs (keep is_array key_paths fs no_fields))
    else if tool == "git_restore"
    then some (keep is_true key_staged fs (keep is_array key_paths fs no_fields))
    else none

-- The constraints are an object of the call's own arguments.
abbrev pub constraints_of : String → JsonValue → Option JsonValue
constraints_of tool (object fs) = elim (remember_fields tool fs) [
  | none ↦ none
  | some constraints ↦ some (object constraints)
]
constraints_of tool _ = none

unfoldable pub remember_arg_constraints : ToolCall → Option JsonValue
remember_arg_constraints call = constraints_of call.tool_id call.args

pub record RememberApprovalInput : Type 0 where
  pub global : Bool
  pub expires_at : Option String

unfoldable pub remembered_rule :
    Host → ToolCall → String → RememberApprovalInput → JsonValue → RememberedRule
remembered_rule h call workspace remember constraints = record {
  id = append_text "rule:" h.uuid;
  effect = allow_rule;
  tool_id = call.tool_id;
  workspace_scope = if remember.global then "*" else workspace;
  arg_constraints = constraints;
  expires_at = remember.expires_at;
}
