-- ===== src/ModelPool/Allocator/Plan.antt =====
-- When there is a plan, and what the plan assigns.
use zch_coding_agent.Base.{
  ℕ, zero, suc, ◌%◌, ◌≤◌, ◌<◌, ◌≡◌, refl, sym, ap, ◌∙◌, subst, ◌↔◌, inl, inr, true, false, some,
  List, [], ◌∷◌, arith, leb→le, if◌then◌else◌, Bool-cases, length, ◌==◌, nat_eq, string_eq, Result,
  ok, err, >>=-eq-ok, throw_if-eq-ok, String,
}
use zch_coding_agent.Base.Preds.{All}
use zch_coding_agent.ModelPool.Allocator.{
  ModelCapabilityLevel, rank, ModelPoolCandidate, ModelPoolAssignment, ModelCandidateGroup,
  PoolError, allocation, same_key, group_enabled_models, capability_satisfies, eligible, is_empty,
  check_requirements, get_elem?, cycle, assign, assign_all, plan_model_pool_assignments,
}
use zch_coding_agent.ModelPool.Allocator.Keys.{IsConsistent, group_enabled_models-ok}
use zch_coding_agent.ModelPool.Allocator.Groups.{
  Has, IsEntry, IsGroup, Offers, Covered, group_enabled_models-lem,
}

-- What is handed to the requirement with that index is the entry, its route and all.
abbrev pub IsAssignmentOf :
    ℕ → ModelCapabilityLevel → ModelPoolCandidate → ModelPoolAssignment → Type 0
IsAssignmentOf index required entry a =
    (a.requirement_index ≡ index)
    × (a.requested_capability ≡ required)
    × (a.entry_id ≡ entry.id)
    × (a.capability ≡ entry.capability)
    × (a.provider_id ≡ entry.provider_id)
    × (a.model ≡ entry.model)
    × (a.reasoning ≡ entry.reasoning)

-- The assignments, in order, are of enabled entries that satisfy the requirements.
abbrev pub Assigned :
    List ModelPoolCandidate → ℕ → List ModelCapabilityLevel → List ModelPoolAssignment → Type 0
Assigned entries index [] [] = Unit
Assigned entries index (required ∷ rest) (a ∷ plan) =
    ((entry : ModelPoolCandidate) × IsEntry entries entry
      × (rank required ≤ rank entry.capability)
      × IsAssignmentOf index required entry a)
    × Assigned entries (suc index) rest plan
Assigned entries index [] (a ∷ plan) = ⊥
Assigned entries index (required ∷ rest) [] = ⊥

-- Some enabled entry satisfies the requirement.
unfoldable pub IsServed : List ModelPoolCandidate → ModelCapabilityLevel → Type 0
IsServed entries required =
    (entry : ModelPoolCandidate) × IsEntry entries entry × (rank required ≤ rank entry.capability)

get_elem-All {ℓ} :
    {A : Type ℓ} (P : A → Type 0) (xs : List A) (n : ℕ)
    → All P xs
    → n < length xs
    → (x : A) × (get_elem? xs n ≡ some x) × P x
get_elem-All P [] n h lt = absurd (omega arith)
get_elem-All P (x ∷ xs) zero (p, h) lt = (x, refl, p)
get_elem-All P (x ∷ xs) (suc n) (p, h) lt = get_elem-All P xs n h (omega arith)

-- Reading a list that is not empty at any cursor gives one of its items.
cycle-All {ℓ} :
    {A : Type ℓ} (P : A → Type 0) (xs : List A) (n : ℕ)
    → All P xs
    → is_empty xs ≡ false
    → (x : A) × (cycle xs n ≡ ok x) × P x
cycle-All P [] n h e = absurd cc
cycle-All P (x ∷ xs) n h e =
    let (y, found, p) = get_elem-All P (x ∷ xs) (n % length (x ∷ xs)) h (omega arith) in
    (y, rw (cycle, found) refl, p)

assign-IsAssignmentOf :
    (index : ℕ) (required : ModelCapabilityLevel) (entry : ModelPoolCandidate)
    → IsAssignmentOf index required entry (assign index required entry)
unfolding assign
assign-IsAssignmentOf index required entry = (refl, refl, refl, refl, refl, refl, refl)

module _ (entries : List ModelPoolCandidate) where
  abbrev Serves : ModelCapabilityLevel → ModelCandidateGroup → Type 0
  Serves required g = IsGroup entries g × (rank required ≤ rank g.capability)

  eligible-All :
      (groups : List ModelCandidateGroup) (required : ModelCapabilityLevel)
      → All (IsGroup entries) groups
      → All (Serves required) (eligible groups required)
  unfolding eligible
  eligible-All [] required h = tt
  eligible-All (g ∷ gs) required (p, h) =
      elim (Bool-cases (capability_satisfies g.capability required)) [
        | inl e ↦ rw e ((p, leb→le _ _ e), eligible-All gs required h)
        | inr e ↦ rw e (eligible-All gs required h)
      ]

  assign_all-Assigned :
      (groups : List ModelCandidateGroup) (models : ModelCapabilityLevel → ℕ)
      (routes : String × String → ℕ) (index : ℕ) (requirements : List ModelCapabilityLevel)
      → All (IsGroup entries) groups
      → All (λ r. is_empty (eligible groups r) ≡ false) requirements
      → (plan : List ModelPoolAssignment) × (assign_all groups models routes index requirements
          ≡ ok plan)
        × Assigned entries index requirements plan
  unfolding assign_all
  assign_all-Assigned groups models routes index [] good h = ([], refl, tt)
  assign_all-Assigned groups models routes index (required ∷ rest) good (h, hs) =
      let (selected, one, ((full, all), enough)) =
        cycle-All (Serves required) (eligible groups required) (models required)
          (eligible-All groups required good) h in
      let (entry, two, (is_entry, level)) =
        cycle-All (λ r. IsEntry entries r × (r.capability ≡ selected.capability)) selected.routes
          (routes selected.key) all full in
      let (plan, three, assigned) =
        assign_all-Assigned groups
          (λ level. if rank level == rank required then suc (models required) else models level)
          (λ key. if same_key key selected.key then suc (routes selected.key) else routes key)
          (suc index) rest good hs in
      (
        assign index required entry ∷ plan,
        rw (assign_all, one, two, three) refl,
        (
          (
            entry,
            is_entry,
            subst (λ c. rank required ≤ rank c) (sym level) enough,
            assign-IsAssignmentOf index required entry,
          ),
          assigned,
        ),
      )

  check_requirements-ok :
      (groups : List ModelCandidateGroup) (index : ℕ) (requirements : List ModelCapabilityLevel)
      → (check_requirements groups index requirements ≡ ok tt)
        ↔ All (λ r. is_empty (eligible groups r) ≡ false) requirements
  unfolding check_requirements
  check_requirements-ok groups index [] = ((λ h. tt), λ h. refl)
  check_requirements-ok groups index (required ∷ rest) = (
    (λ h.
        let (some_left, others) =
          throw_if-eq-ok (is_empty (eligible groups required)) (allocation index required)
            (check_requirements groups (suc index) rest) h in
        (some_left, (check_requirements-ok groups (suc index) rest).0 others)),
    λ (e, h). rw e ((check_requirements-ok groups (suc index) rest).1 h),
  )

  eligible-Offers :
      (groups : List ModelCandidateGroup) (required level : ModelCapabilityLevel)
      → rank required ≤ rank level
      → Offers entries level groups
      → is_empty (eligible groups required) ≡ false
  unfolding eligible
  eligible-Offers [] required level le h = absurd h
  eligible-Offers (g ∷ gs) required level le (inl same) =
      elim (Bool-cases (capability_satisfies g.capability required)) [
        | inl e ↦ rw e refl
        | inr e ↦ absurd (ground (arith, ap rank same))
      ]
  eligible-Offers (g ∷ gs) required level le (inr h) =
      elim (Bool-cases (capability_satisfies g.capability required)) [
        | inl e ↦ rw e refl
        | inr e ↦ rw e (eligible-Offers gs required level le h)
      ]

  Covered-Offers :
      (cs : List ModelPoolCandidate) (groups : List ModelCandidateGroup) (c : ModelPoolCandidate)
      → Covered entries cs groups
      → c.enabled ≡ true
      → Has (λ e. e ≡ c) cs
      → Offers entries c.capability groups
  Covered-Offers [] groups c h on m = absurd m
  Covered-Offers (d ∷ ds) groups c (h, hs) on (inl same) =
      subst (λ e. e.enabled ≡ true → Offers entries e.capability groups) same h on
  Covered-Offers (d ∷ ds) groups c (h, hs) on (inr m) = Covered-Offers ds groups c hs on m

  served-eligible :
      (groups : List ModelCandidateGroup) (requirements : List ModelCapabilityLevel)
      → Covered entries entries groups
      → All (IsServed entries) requirements
      → All (λ r. is_empty (eligible groups r) ≡ false) requirements
  unfolding IsServed
  served-eligible groups [] covered h = tt
  served-eligible groups (r ∷ rs) covered ((entry, (on, within), le), h) = (
    eligible-Offers groups r entry.capability le
        (Covered-Offers entries groups entry covered on within),
    served-eligible groups rs covered h,
  )

  Assigned-IsServed :
      (index : ℕ) (requirements : List ModelCapabilityLevel) (plan : List ModelPoolAssignment)
      → Assigned entries index requirements plan
      → All (IsServed entries) requirements
  unfolding IsServed
  Assigned-IsServed index [] plan h = tt
  Assigned-IsServed index (r ∷ rs) [] h = absurd h
  Assigned-IsServed index (r ∷ rs) (a ∷ plan) ((entry, is_entry, le, same), h) =
      ((entry, is_entry, le), Assigned-IsServed (suc index) rs plan h)

abbrev or_nil : Result PoolError (List ModelPoolAssignment) → List ModelPoolAssignment
or_nil (ok plan) = plan
or_nil (err e) = []

-- A plan gives every requirement, in order and with its index, an enabled entry of the pool whose
-- capability is at least the one required, with the entry's id, capability, provider, model and
-- reasoning effort.
pub plan_model_pool_assignments-Assigned :
    (entries : List ModelPoolCandidate) (requirements : List ModelCapabilityLevel)
    (plan : List ModelPoolAssignment)
    → plan_model_pool_assignments entries requirements ≡ ok plan
    → Assigned entries 0 requirements plan
unfolding plan_model_pool_assignments
plan_model_pool_assignments-Assigned entries requirements plan h =
    let (groups, grouped, h1) = >>=-eq-ok (group_enabled_models entries) _ h in
    let (u, checked, h2) = >>=-eq-ok (check_requirements groups 0 requirements) _ h1 in
    let (good, covered) = group_enabled_models-lem entries grouped in
    let (made, same, assigned) =
      assign_all-Assigned entries groups (λ level. 0) (λ key. 0) 0 requirements good
        ((check_requirements-ok entries groups 0 requirements).0 checked) in
    subst (Assigned entries 0 requirements) (ap or_nil (sym same ∙ h2)) assigned

-- Where no two enabled entries of one provider's model differ in capability, there is a plan if and
-- only if each requirement has an enabled entry of at least its capability.
pub plan_model_pool_assignments-IsServed_iff :
    (entries : List ModelPoolCandidate) (requirements : List ModelCapabilityLevel)
    → IsConsistent entries
    → ((plan : List ModelPoolAssignment) × (plan_model_pool_assignments entries requirements
          ≡ ok plan))
      ↔ All (IsServed entries) requirements
unfolding plan_model_pool_assignments
plan_model_pool_assignments-IsServed_iff entries requirements consistent =
    let (groups, grouped) = group_enabled_models-ok entries consistent in
    let (good, covered) = group_enabled_models-lem entries grouped in
    (
      (λ (plan, h).
          Assigned-IsServed entries 0 requirements plan
            (plan_model_pool_assignments-Assigned entries requirements plan h)),
      λ served.
          let left = served-eligible entries groups requirements covered served in
          let (plan, made, assigned) =
            assign_all-Assigned entries groups (λ level. 0) (λ key. 0) 0 requirements good left in
          (plan, rw (grouped, (check_requirements-ok entries groups 0 requirements).1 left) made),
    )
