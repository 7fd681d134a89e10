-- ===== src/Permission/Policy.antt =====
-- electron/permission/policy-engine.ts: the outcome of a tool call from its risk, the mode and the
-- remembered rules. A `Reason` stands for one reason text. An object has its own keys only.
pub mod Rules
pub mod ByRule
pub mod Outcome
pub mod Escalation
use zch_coding_agent.Base.{
  ℕ, Bool, true, false, not, ◌&&◌, ◌||◌, Option, none, some, List, [], ◌∷◌, ltb, if◌then◌else◌,
  ◌==◌, nat_eq, string_eq, String,
}
use zch_coding_agent.Json.{JsonValue, JsonFields, null, object, no_fields, field}

pub data Effect : Type 0 where
  filesystem_read filesystem_write filesystem_delete process_spawn process_write terminal_read :
      Effect
  terminal_write network_request instruction_read vcs_read vcs_write workspace_metadata_write :
      Effect
  code_read external_unknown : Effect

pub data PermissionMode : Type 0 where
  readonly auto confirm yolo : PermissionMode

pub data Risk : Type 0 where
  low review_risk high : Risk

pub data Severity : Type 0 where
  info warning danger : Severity

pub data RuleEffect : Type 0 where
  allow_rule review_rule : RuleEffect

pub record RememberedRule : Type 0 where
  pub id : String
  pub effect : RuleEffect
  pub tool_id : String
  pub workspace_scope : String
  pub arg_constraints : JsonValue
  pub expires_at : Option String

pub data ApprovedBy : Type 0 where
  by_readonly by_policy by_remembered by_yolo : ApprovedBy

pub data Reason : Type 0 where
  raised_to_high explicit_review readonly_mode confirm_mode deterministic model_decides : Reason
  remembered_review : (rule_id : String) → Reason

pub data PolicyOutcome : Type 0 where
  allow : ApprovedBy → PolicyOutcome
  deny : Reason → PolicyOutcome
  review : Reason → PolicyOutcome
  model : Reason → PolicyOutcome

pub record PolicyInput : Type 0 where
  pub mode : PermissionMode
  pub tool_id : String
  pub effects : List Effect
  pub effective_risk : Risk
  pub policy_signals : List Severity
  pub remembered_rules : List RememberedRule
  pub builtin_policies : Bool
  pub workspace : String
  pub args : JsonValue
  pub scratch_mutation : Bool
  pub now : Option ℕ

-- The platform: `normalize` of `sameWorkspace` (the file system's canonical path), `JSON.stringify`,
-- the time of a date text, `none` where it is not a date, and the clock.
pub record Platform : Type 0 where
  pub normalize : String → String
  pub stringify : JsonValue → String
  pub parse_date : String → Option ℕ
  pub clock : ℕ

abbrev pub is_read : Effect → Bool
is_read filesystem_read = true
is_read terminal_read = true
is_read instruction_read = true
is_read vcs_read = true
is_read code_read = true
is_read _ = false

abbrev pub has_side_effects : List Effect → Bool
has_side_effects [] = false
has_side_effects (effect ∷ effects) = not (is_read effect) || has_side_effects effects

unfoldable pub same_workspace : Platform → RememberedRule → String → Bool
same_workspace p rule workspace =
    if rule.workspace_scope == "*"
    then true
    else p.normalize rule.workspace_scope == p.normalize workspace

abbrev pub same_units : List ℕ → List ℕ → Bool
same_units [] [] = true
same_units (x ∷ xs) (y ∷ ys) = x == y && same_units xs ys
same_units _ _ = false

abbrev pub get_field : List ℕ → JsonFields → Option JsonValue
get_field key no_fields = none
get_field key (field k v fs) = if same_units k key then some v else get_field key fs

-- `JSON.stringify(actual) === JSON.stringify(expected)`, where an absent value has no text.
abbrev pub same_json : Platform → Option JsonValue → JsonValue → Bool
same_json p none expected = false
same_json p (some actual) expected = p.stringify actual == p.stringify expected

abbrev pub every_entry : Platform → JsonFields → JsonFields → Bool
every_entry p no_fields args = true
every_entry p (field key expected rest) args =
    same_json p (get_field key args) expected && every_entry p rest args

unfoldable pub matches_constraints : Platform → JsonValue → JsonValue → Bool
matches_constraints p null args = true
matches_constraints p (object constraints) (object args) = every_entry p constraints args
matches_constraints p _ _ = false

-- `!rule.expiresAt || new Date(rule.expiresAt) > now`; no comparison with an invalid date holds.
unfoldable pub unexpired : Platform → ℕ → Option String → Bool
unexpired p now none = true
unexpired p now (some date) =
    if date == ""
    then true
    else elim (p.parse_date date) [ none ↦ false | some time ↦ ltb now time ]

-- The test of `matchingRule`.
unfoldable pub matches : Platform → PolicyInput → RememberedRule → Bool
matches p input rule =
    rule.tool_id == input.tool_id
    && same_workspace p rule input.workspace
    && unexpired p (elim input.now [ none ↦ p.clock | some t ↦ t ]) rule.expires_at
    && matches_constraints p rule.arg_constraints input.args

abbrev pub find {ℓ} : {A : Type ℓ} → (A → Bool) → List A → Option A
find test [] = none
find test (x ∷ xs) = if test x then some x else find test xs

unfoldable pub matching_rule : Platform → PolicyInput → Option RememberedRule
matching_rule p input = find (matches p input) input.remembered_rules

abbrev pub is_auto : PermissionMode → Bool
is_auto auto = true
is_auto _ = false

unfoldable pub is_auto_allowed_workspace_file_mutation : PolicyInput → Bool
is_auto_allowed_workspace_file_mutation input =
    is_auto input.mode
    && input.builtin_policies
    && (input.tool_id == "write_file" || input.tool_id == "apply_patch")

abbrev pub is_high : Risk → Bool
is_high high = true
is_high _ = false

abbrev pub any_danger : List Severity → Bool
any_danger [] = false
any_danger (danger ∷ signals) = true
any_danger (_ ∷ signals) = any_danger signals

-- The part of `evaluatePolicy` after `matchingRule`, given the rule and the file test.
unfoldable pub by_rule : Option RememberedRule → Bool → PolicyOutcome
by_rule none true = allow by_policy
by_rule none false = model model_decides
by_rule (some rule) file = elim rule.effect [
  | review_rule ↦ review (remembered_review rule.id)
  | allow_rule ↦ if file then allow by_policy else allow by_remembered
]

-- The outcome of a call with no side effects.
abbrev pub without_effects : Risk → PolicyOutcome
without_effects high = review raised_to_high
without_effects review_risk = review explicit_review
without_effects low = allow by_readonly

-- `evaluatePolicy` in the mode `auto`, after the test of `scratchMutation`.
unfoldable pub evaluate_auto : Platform → PolicyInput → PolicyOutcome
evaluate_auto p input =
    if input.builtin_policies && (is_high input.effective_risk || any_danger input.policy_signals)
    then review deterministic
    else by_rule (matching_rule p input) (is_auto_allowed_workspace_file_mutation input)

abbrev pub with_effects : Platform → PolicyInput → PermissionMode → PolicyOutcome
with_effects p input readonly = deny readonly_mode
with_effects p input yolo = if input.scratch_mutation then allow by_policy else allow by_yolo
with_effects p input confirm =
    if input.scratch_mutation then allow by_policy else review confirm_mode
with_effects p input auto =
    if input.scratch_mutation then allow by_policy else evaluate_auto p input

unfoldable pub evaluate_policy : Platform → PolicyInput → PolicyOutcome
evaluate_policy p input =
    if has_side_effects input.effects
    then with_effects p input input.mode
    else without_effects input.effective_risk
