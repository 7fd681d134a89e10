-- ===== src/Permission/Remember/Replay.antt =====
-- A rule, beside the call that it was made from.
use zch_coding_agent.Base.{
  ℕ, ◌≡◌, refl, sym, ap, subst, inl, inr, Bool, true, false, ◌&&◌, ◌||◌, Option, none, some, List,
  [], ◌∷◌, arith, if◌then◌else◌, Bool-cases, some_injective, Option-cases, ◌==◌, nat_eq, string_eq,
  option_eq, ==_refl, String,
}
use zch_coding_agent.Json.{
  JsonValue, JsonFields, null, boolean, number, non_finite, text, array, object, no_fields, field,
}
use zch_coding_agent.Permission.Policy.{
  same_units, Platform, PolicyInput, get_field, every_entry, matches_constraints, unexpired,
  same_workspace, matches,
}
use zch_coding_agent.Permission.Call.{ToolCall, Host}
use zch_coding_agent.Permission.Remember.{
  is_absent, key_session_id, constraints_of, key_path, key_mode, key_process, key_executable,
  key_args, key_cwd, key_all, key_staged, key_paths, is_text, is_array, is_true, is_process, has,
  keep, is_file_tool, is_launch, launch_constraints, remember_fields, remember_arg_constraints,
  RememberApprovalInput, remembered_rule,
}

-- Every entry of the constraints is an argument of the call.
abbrev AreTaken : JsonFields → JsonFields → Type 0
AreTaken fs no_fields = Unit
AreTaken fs (field key v rest) = (get_field key fs ≡ some v) × AreTaken fs rest

AreTaken-every_entry :
    (p : Platform) (fs cs : JsonFields) → AreTaken fs cs → every_entry p cs fs ≡ true
AreTaken-every_entry p fs no_fields t = refl
AreTaken-every_entry p fs (field key v rest) (e, t) =
    rw (e, ==_refl (p.stringify v)) (AreTaken-every_entry p fs rest t)

keep-AreTaken :
    (test : JsonValue → Bool) (key : List ℕ) (fs cs : JsonFields)
    → AreTaken fs cs
    → AreTaken fs (keep test key fs cs)
unfolding keep
keep-AreTaken test key fs cs t = elim (Option-cases (get_field key fs)) [
  | inl e ↦ rw (keep, e) t
  | inr (v, e) ↦ elim (Bool-cases (test v)) [
    | inl y ↦ rw (keep, e, y) (e, t)
    | inr n ↦ rw (keep, e, n) t
  ]
]

same_units→≡ : (s t : List ℕ) → same_units s t ≡ true → s ≡ t
same_units→≡ [] [] h = refl
same_units→≡ [] (d ∷ t) h = absurd cc
same_units→≡ (c ∷ s) [] h = absurd cc
same_units→≡ (c ∷ s) (d ∷ t) h = grind (arith, nat_eq.same_iff c d, same_units→≡ s t)

is_process→≡ : (v : JsonValue) → is_process v ≡ true → v ≡ text key_process
is_process→≡ (text s) h = ap text (same_units→≡ s key_process h)
is_process→≡ null h = absurd cc
is_process→≡ (boolean b) h = absurd cc
is_process→≡ (number n) h = absurd cc
is_process→≡ non_finite h = absurd cc
is_process→≡ (array vs) h = absurd cc
is_process→≡ (object fs) h = absurd cc

process-option :
    (o : Option JsonValue)
    → (elim o [ none ↦ false | some v ↦ is_process v ]) ≡ true
    → o ≡ some (text key_process)
process-option none h = absurd cc
process-option (some v) h = ap some (is_process→≡ v h)

-- A call of one of the two launching tools is not a call of the other.
run_command-exec_command :
    (tool : String) → (tool == "run_command") ≡ true → (tool == "exec_command") ≡ false
run_command-exec_command tool h =
    subst (λ name. (name == "exec_command") ≡ false)
      (sym ((string_eq.same_iff tool "run_command").0 h)) refl

launch_mode :
    (run exec process absent named : Bool)
    → ((run && process) || ((exec && absent) && named)) ≡ true
    → exec ≡ false
    → process ≡ true
launch_mode run exec process absent named h e = ground arith

launch_constraints-AreTaken :
    (tool : String) (fs : JsonFields)
    → is_launch tool fs ≡ true
    → AreTaken fs (launch_constraints tool fs)
unfolding is_launch launch_constraints
launch_constraints-AreTaken tool fs h =
    let kept =
      keep-AreTaken is_text key_executable fs _
        (keep-AreTaken is_array key_args fs _ (keep-AreTaken is_text key_cwd fs no_fields tt)) in
    elim (Bool-cases (tool == "run_command")) [
      | inl e ↦
          rw (launch_constraints, e)
            (
              process-option (get_field key_mode fs) (
                  launch_mode (tool == "run_command") (tool == "exec_command")
                    (has is_process key_mode fs) (is_absent (get_field key_session_id fs))
                    (has is_text key_executable fs) h (run_command-exec_command tool e)),
              kept,
            )
      | inr e ↦ rw (launch_constraints, e) kept
    ]

taken-some :
    (fs : JsonFields) {cs ds : JsonFields} → AreTaken fs cs → some cs ≡ some ds → AreTaken fs ds
taken-some fs {cs} {ds} t e = subst (AreTaken fs) (some_injective e) t

-- A conditional that gives constraints.
guarded :
    (fs : JsonFields) (b : Bool) (cs : JsonFields) {ds : JsonFields}
    → (b ≡ true → AreTaken fs cs)
    → (if b then some cs else none) ≡ some ds
    → AreTaken fs ds
guarded fs true cs t e = taken-some fs (t refl) e
guarded fs false cs t e = absurd cc

branch :
    (fs : JsonFields) (b : Bool) (x y : Option JsonFields) {ds : JsonFields}
    → (b ≡ true → x ≡ some ds → AreTaken fs ds)
    → (y ≡ some ds → AreTaken fs ds)
    → (if b then x else y) ≡ some ds
    → AreTaken fs ds
branch fs true x y s t e = s refl e
branch fs false x y s t e = t e

remember_fields-AreTaken :
    (tool : String) (fs : JsonFields) {cs : JsonFields}
    → remember_fields tool fs ≡ some cs
    → AreTaken fs cs
unfolding remember_fields
remember_fields-AreTaken tool fs =
    let paths = keep-AreTaken is_array key_paths fs no_fields tt in
    branch fs (is_file_tool tool) _ _
      (λ _. guarded fs _ _ (λ _. keep-AreTaken is_text key_path fs no_fields tt))
      (branch fs (is_launch tool fs) _ _
        (λ launch. guarded fs _ _ (λ _. launch_constraints-AreTaken tool fs launch))
        (branch fs (tool == "git_add") _ _
          (λ _. taken-some fs (keep-AreTaken is_true key_all fs _ paths))
          (branch fs (tool == "git_restore") _ _
            (λ _. taken-some fs (keep-AreTaken is_true key_staged fs _ paths)) (λ e. absurd cc))))

object-option :
    (p : Platform) (fs : JsonFields) (o : Option JsonFields) {c : JsonValue}
    → ((cs : JsonFields) → o ≡ some cs → AreTaken fs cs)
    → (elim o as (λ x. Option JsonValue) [ none ↦ none | some cs ↦ some (object cs) ]) ≡ some c
    → matches_constraints p c (object fs) ≡ true
unfolding matches_constraints
object-option p fs none t e = absurd cc
object-option p fs (some cs) t e =
    subst (λ c. matches_constraints p c (object fs) ≡ true) (some_injective e)
      (AreTaken-every_entry p fs cs (t cs refl))

constraints_of_match :
    (p : Platform) (tool : String) (args : JsonValue) {c : JsonValue}
    → constraints_of tool args ≡ some c
    → matches_constraints p c args ≡ true
constraints_of_match p tool (object fs) e =
    object-option p fs (remember_fields tool fs) (λ cs. remember_fields-AreTaken tool fs) e
constraints_of_match p tool null e = absurd cc
constraints_of_match p tool (boolean b) e = absurd cc
constraints_of_match p tool (number n) e = absurd cc
constraints_of_match p tool non_finite e = absurd cc
constraints_of_match p tool (text s) e = absurd cc
constraints_of_match p tool (array vs) e = absurd cc

-- The scope of a new rule takes in the workspace it was made in.
own_scope :
    (p : Platform) (global : Bool) (workspace : String)
    → (let scope = if global then "*" else workspace in
        if scope == "*" then true else p.normalize scope == p.normalize workspace)
      ≡ true
own_scope p true workspace = refl
own_scope p false workspace = elim (Bool-cases (workspace == "*")) [
  | inl e ↦ rw e refl
  | inr e ↦ rw e (==_refl (p.normalize workspace))
]

all_four : (a b c d : Bool) → a ≡ true → b ≡ true → c ≡ true → d ≡ true → (a && b && c && d) ≡ true
all_four a b c d ha hb hc hd = ground arith

-- The rule that an answer leaves, against a later call of the same tool with the same arguments in
-- the same workspace, where the rule is in date.
pub remembered_rule-matches :
    (p : Platform) (h : Host) (call : ToolCall) (i : PolicyInput) (remember : RememberApprovalInput)
    → {c : JsonValue} → remember_arg_constraints call ≡ some c
    → i.tool_id ≡ call.tool_id
    → i.args ≡ call.args
    → unexpired p (elim i.now [ none ↦ p.clock | some t ↦ t ]) remember.expires_at ≡ true
    → matches p i (remembered_rule h call i.workspace remember c) ≡ true
unfolding remember_arg_constraints matches remembered_rule same_workspace
remembered_rule-matches p h call i remember {c} e tool args fresh =
    let fit = constraints_of_match p call.tool_id call.args e in
    all_four _ _ _ _ ((string_eq.same_iff call.tool_id i.tool_id).1 (sym tool))
      (own_scope p remember.global i.workspace) fresh
      (subst (λ a. matches_constraints p c a ≡ true) (sym args) fit)
