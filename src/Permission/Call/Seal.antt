-- ===== src/Permission/Call/Seal.antt =====
-- What an issued call is bound to.
use zch_coding_agent.Base.{
  ◌≡◌, refl, ◌≢◌, ◌↔◌, inl, inr, Bool, true, false, not, ◌||◌, Option, none, some, arith,
  Bool-cases, Eq, ◌==◌, nat_eq, string_eq, option_eq, Result, ok, ◌>>◌, throw_if, String,
}
use zch_coding_agent.Json.{JsonValue}
use zch_coding_agent.Permission.Policy.{Platform}
use zch_coding_agent.Permission.Call.{
  Approver, ToolCall, Owner, ApprovedToolCall, Host, create_args_hash, comparable_path,
  resolve_root, issue_approved_call, CallError, revalidate_approved_tool_call,
}

-- A checked condition, as a fact.
check_iff :
    (s : Bool) (x : CallError) (k : Result CallError (Unit {0}))
    → ((throw_if (not s) x >> k) ≡ ok tt) ↔ ((s ≡ true) × (k ≡ ok tt))
check_iff true x k = ground arith
check_iff false x k = ground arith

check_both_iff :
    (s t : Bool) (x : CallError) (k : Result CallError (Unit {0}))
    → ((throw_if (not s || not t) x >> k) ≡ ok tt) ↔ ((s ≡ true) × (t ≡ true) × (k ≡ ok tt))
check_both_iff true true x k = ground arith
check_both_iff true false x k = ground arith
check_both_iff false t x k = ground arith

last_both_iff :
    (s t : Bool) (x : CallError) → (throw_if (not s || not t) x ≡ ok tt) ↔ ((s ≡ true) × (t ≡ true))
last_both_iff true true x = ground arith
last_both_iff true false x = ground arith
last_both_iff false t x = ground arith

-- Every check of `revalidate_approved_tool_call`.
revalidate_iff :
    (p : Platform) (h : Host) (a : ApprovedToolCall) (c : Owner)
    → (revalidate_approved_tool_call p h a c ≡ ok tt) ↔ (
        (a.branded ≡ true)
        × (a.session_id ≡ c.session_id)
        × (a.run_id ≡ c.run_id)
        × (a.args_hash ≡ create_args_hash p h a.args)
        × (comparable_path h (some a.workspace) ≡ comparable_path h (some c.workspace))
        × (comparable_path h a.session_temp_root ≡ comparable_path h c.session_temp_root))
unfolding revalidate_approved_tool_call
revalidate_iff p h a c =
    let paths : Eq (Option String) = option_eq in
    grind (arith, check_iff, check_both_iff, last_both_iff, string_eq.same_iff, paths.same_iff)

-- The call with other arguments in it.
abbrev pub with_args : JsonValue → ApprovedToolCall → ApprovedToolCall
with_args args a = record a { args = args }

module _ (h : Host) (again : (path : String) → h.resolve (h.resolve path) ≡ h.resolve path)
    (named : (path : String) → h.resolve path ≢ "") where
  filled : (path : String) → path ≢ "" → (path == "") ≡ false
  filled path e = ground (arith, string_eq.same_iff path "")

  comparable-resolve :
      (path : String)
      → path ≢ ""
      → comparable_path h (some (h.resolve path)) ≡ comparable_path h (some path)
  unfolding comparable_path
  comparable-resolve path e =
      rw (comparable_path, filled path e, filled (h.resolve path) (named path), again path) refl

  comparable-root :
      (root : Option String) → comparable_path h (resolve_root h root) ≡ comparable_path h root
  unfolding comparable_path
  comparable-root none = refl
  comparable-root (some path) = elim (Bool-cases (path == "")) [
    | inl e ↦ rw (comparable_path, e) refl
    | inr e ↦ rw (comparable_path, e, filled (h.resolve path) (named path), again path) refl
  ]

  -- A call that was issued to one owner, shown with any arguments in any context, is accepted exactly
  -- when the session and the run are the owner's, the arguments have the digest of the approved ones,
  -- and the workspace and the temporary root are the owner's, as resolved paths. The host's
  -- `path.resolve` gives a path that it resolves to itself and that is not empty, and the owner's
  -- workspace is not empty.
  pub revalidate-issued_iff :
      (p : Platform) (owner context : Owner) (call : ToolCall) (by : Approver) (args : JsonValue)
      → owner.workspace ≢ ""
      → (revalidate_approved_tool_call p h
            (with_args args (issue_approved_call p h owner call by))
            context
          ≡ ok tt)
        ↔ ((owner.session_id ≡ context.session_id)
            × (owner.run_id ≡ context.run_id)
            × (create_args_hash p h call.args ≡ create_args_hash p h args)
            × (comparable_path h (some owner.workspace)
                ≡ comparable_path h (some context.workspace))
            × (comparable_path h owner.session_temp_root
                ≡ comparable_path h context.session_temp_root))
  unfolding issue_approved_call
  revalidate-issued_iff p owner context call by args e =
      let shown = with_args args (issue_approved_call p h owner call by) in
      ground (
        arith,
        revalidate_iff p h shown context,
        comparable-resolve owner.workspace e,
        comparable-root owner.session_temp_root,
      )
