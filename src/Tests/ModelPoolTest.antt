-- ===== src/Tests/ModelPoolTest.antt =====
-- A pool of two entries, one of them disabled.
use zch_coding_agent.Base.{
  ℕ, ◌≡◌, refl, sym, ap, ◌∙◌, inl, inr, ◌↔◌, Bool, true, false, List, [], ◌∷◌, nat_eq, string_eq,
  ok, String,
}
use zch_coding_agent.Base.Preds.{All}
use zch_coding_agent.Route.{low}
use zch_coding_agent.ModelPool.Allocator.{
  ModelCapabilityLevel, light, standard, strong, ModelPoolCandidate, ModelPoolAssignment, add_entry,
  add_entries, group_enabled_models, eligible, check_requirements, assign, assign_all,
  plan_model_pool_assignments,
}
use zch_coding_agent.ModelPool.Allocator.Groups.{IsEntry}
use zch_coding_agent.ModelPool.Allocator.Keys.{IsConsistent}
use zch_coding_agent.ModelPool.Allocator.Plan.{
  Assigned, IsServed, plan_model_pool_assignments-Assigned,
  plan_model_pool_assignments-IsServed_iff,
}

abbrev entry : String → Bool → ModelCapabilityLevel → ModelPoolCandidate
entry name enabled level = record {
  id = name;
  enabled = enabled;
  provider_id = "p";
  model = name;
  reasoning = low;
  capability = level;
}

abbrev entries : List ModelPoolCandidate
entries = entry "a" true standard ∷ entry "b" false strong ∷ []

abbrev requirements : List ModelCapabilityLevel
requirements = light ∷ standard ∷ []

abbrev assignment : ℕ → ModelCapabilityLevel → ModelPoolAssignment
assignment index level = record {
  requirement_index = index;
  requested_capability = level;
  entry_id = "a";
  capability = standard;
  provider_id = "p";
  model = "a";
  reasoning = low;
}

abbrev plan : List ModelPoolAssignment
plan = assignment 0 light ∷ assignment 1 standard ∷ []

off-on : false ≡ true → ⊥
off-on e = absurd cc

planned : plan_model_pool_assignments entries requirements ≡ ok plan
unfolding plan_model_pool_assignments group_enabled_models add_entries add_entry eligible
    check_requirements assign assign_all
planned = refl

plan_model_pool_assignments-Assigned_example : Assigned entries 0 requirements plan
plan_model_pool_assignments-Assigned_example =
    plan_model_pool_assignments-Assigned entries requirements plan planned

only_standard : (c : ModelPoolCandidate) → IsEntry entries c → c.capability ≡ standard
only_standard c (on, inl e) = sym (ap (λ x. x.capability) e)
only_standard c (on, inr (inl e)) = absurd (off-on (ap (λ x. x.enabled) e ∙ on))
only_standard c (on, inr (inr h)) = absurd h

consistent : IsConsistent entries
unfolding IsConsistent
consistent a b ia ib p m = only_standard a ia ∙ sym (only_standard b ib)

plan_model_pool_assignments-IsServed_iff_example :
    ((p : List ModelPoolAssignment) × (plan_model_pool_assignments entries requirements ≡ ok p))
    ↔ All (IsServed entries) requirements
plan_model_pool_assignments-IsServed_iff_example =
    plan_model_pool_assignments-IsServed_iff entries requirements consistent
