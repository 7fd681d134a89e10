-- ===== src/Tests/PermissionTest.antt =====
-- A tool call that a remembered rule allows.
use zch_coding_agent.Base.{
  ◌≡◌, refl, ◌↔◌, true, false, none, [], ◌∷◌, ◌++◌, arith, nat_eq, string_eq,
}
use zch_coding_agent.Json.{null}
use zch_coding_agent.Permission.Policy.{
  Platform, RememberedRule, allow_rule, PolicyInput, auto, low, review_risk, info, warning,
  process_spawn, allow, by_remembered, evaluate_policy, evaluate_auto, by_rule, matching_rule,
  matches, same_workspace, unexpired, matches_constraints, is_auto_allowed_workspace_file_mutation,
}
use zch_coding_agent.Permission.Policy.Outcome.{IsAllowed, evaluate_policy-allow_iff}
use zch_coding_agent.Permission.Policy.Escalation.{with_risk, evaluate_policy-escalates}

abbrev platform : Platform
platform = record {
  normalize = λ path. path;
  stringify = λ value. "null";
  parse_date = λ date. none;
  clock = 100;
}

abbrev rule : RememberedRule
rule = record {
  id = "rule:1";
  effect = allow_rule;
  tool_id = "run_command";
  workspace_scope = "*";
  arg_constraints = null;
  expires_at = none;
}

abbrev input : PolicyInput
input = record {
  mode = auto;
  tool_id = "run_command";
  effects = process_spawn ∷ [];
  effective_risk = low;
  policy_signals = info ∷ [];
  remembered_rules = rule ∷ [];
  builtin_policies = true;
  workspace = "/work";
  args = null;
  scratch_mutation = false;
  now = none;
}

evaluate_policy-allow_iff_example :
    (evaluate_policy platform input ≡ allow by_remembered) ↔ IsAllowed platform input by_remembered
evaluate_policy-allow_iff_example = evaluate_policy-allow_iff platform input by_remembered

raised_allowed :
    evaluate_policy platform (with_risk review_risk ((info ∷ []) ++ (warning ∷ [])) input)
    ≡ allow by_remembered
unfolding evaluate_policy with_risk evaluate_auto by_rule matching_rule matches same_workspace
    unexpired matches_constraints is_auto_allowed_workspace_file_mutation
raised_allowed = refl

evaluate_policy-escalates_example :
    evaluate_policy platform (with_risk low (info ∷ []) input) ≡ allow by_remembered
evaluate_policy-escalates_example =
    evaluate_policy-escalates platform input low review_risk (info ∷ []) (warning ∷ [])
      by_remembered (omega arith) raised_allowed
