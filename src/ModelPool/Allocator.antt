-- ===== src/ModelPool/Allocator.antt =====
-- electron/model-pool/allocator.ts: which model and route each requirement gets. The key of a model
-- is the pair that the source writes as JSON; a `Map` of cursors is a function that starts at 0.
pub mod Groups
pub mod Keys
pub mod Plan
use zch_coding_agent.Base.{
  ℕ, zero, suc, ◌%◌, Bool, true, false, not, ◌&&◌, ◌||◌, Option, none, some, List, [], ◌∷◌, ◌++◌,
  leb, if◌then◌else◌, length, ◌==◌, nat_eq, string_eq, Result, ok, err, ◌>>=◌, ◌>>◌, throw_if,
  String,
}
use zch_coding_agent.Route.{ReasoningEffort, off, low, medium, high, xhigh, max}

pub data ModelCapabilityLevel : Type 0 where
  light standard strong : ModelCapabilityLevel

-- `CAPABILITY_ORDER.indexOf`.
abbrev pub rank : ModelCapabilityLevel → ℕ
rank light = 0
rank standard = 1
rank strong = 2

abbrev pub effort : ReasoningEffort → ℕ
effort off = 0
effort low = 1
effort medium = 2
effort high = 3
effort xhigh = 4
effort max = 5

pub record ModelPoolCandidate : Type 0 where
  pub id : String
  pub enabled : Bool
  pub provider_id : String
  pub model : String
  pub reasoning : ReasoningEffort
  pub capability : ModelCapabilityLevel

pub record ModelPoolAssignment : Type 0 where
  pub requirement_index : ℕ
  pub requested_capability : ModelCapabilityLevel
  pub entry_id : String
  pub capability : ModelCapabilityLevel
  pub provider_id : String
  pub model : String
  pub reasoning : ReasoningEffort

pub record ModelCandidateGroup : Type 0 where
  pub key : String × String
  pub capability : ModelCapabilityLevel
  pub routes : List ModelPoolCandidate

-- `undefined_access` is what reading a field of a missing array element would throw.
pub data PoolError : Type 0 where
  conflicting : (provider_id model : String) → PoolError
  allocation : (requirement_index : ℕ) → ModelCapabilityLevel → PoolError
  undefined_access : PoolError

abbrev pub same_key : String × String → String × String → Bool
same_key (p, m) (q, n) = p == q && m == n

-- The set of a group's reasoning efforts is that of its routes.
abbrev pub has_reasoning : ℕ → List ModelPoolCandidate → Bool
has_reasoning r [] = false
has_reasoning r (c ∷ cs) = effort c.reasoning == r || has_reasoning r cs

-- One enabled entry of the loop of `groupEnabledModels`.
unfoldable pub add_entry :
    List ModelCandidateGroup → ModelPoolCandidate → Result PoolError (List ModelCandidateGroup)
add_entry [] entry = ok (
    record {
      key = (entry.provider_id, entry.model);
      capability = entry.capability;
      routes = entry ∷ [];
    }
    ∷ [])
add_entry (group ∷ groups) entry =
    let rest = add_entry groups entry in
    if same_key group.key (entry.provider_id, entry.model)
    then if not (rank group.capability == rank entry.capability)
      then err (conflicting entry.provider_id entry.model)
      else if has_reasoning (effort entry.reasoning) group.routes
      then ok (group ∷ groups)
      else ok (record group { routes = group.routes ++ (entry ∷ []) } ∷ groups)
    else rest >>= λ others. ok (group ∷ others)

unfoldable pub add_entries :
    List ModelCandidateGroup → List ModelPoolCandidate → Result PoolError (List ModelCandidateGroup)
add_entries groups [] = ok groups
add_entries groups (entry ∷ entries) =
    (if entry.enabled then add_entry groups entry else ok groups) >>= λ next.
    add_entries next entries

unfoldable pub group_enabled_models :
    List ModelPoolCandidate → Result PoolError (List ModelCandidateGroup)
group_enabled_models entries = add_entries [] entries

abbrev pub capability_satisfies : ModelCapabilityLevel → ModelCapabilityLevel → Bool
capability_satisfies actual required = leb (rank required) (rank actual)

unfoldable pub eligible : List ModelCandidateGroup → ModelCapabilityLevel → List ModelCandidateGroup
eligible [] required = []
eligible (group ∷ groups) required =
    let rest = eligible groups required in
    if capability_satisfies group.capability required then group ∷ rest else rest

abbrev pub is_empty {ℓ} : {A : Type ℓ} → List A → Bool
is_empty [] = true
is_empty (x ∷ xs) = false

-- The first loop over the requirements, from the index on.
unfoldable pub check_requirements :
    List ModelCandidateGroup → ℕ → List ModelCapabilityLevel → Result PoolError (Unit {0})
check_requirements groups index [] = ok tt
check_requirements groups index (required ∷ rest) = do
  throw_if (is_empty (eligible groups required)) (allocation index required)
  check_requirements groups (suc index) rest

abbrev pub get_elem? {ℓ} : {A : Type ℓ} → List A → ℕ → Option A
get_elem? [] n = none
get_elem? (x ∷ xs) zero = some x
get_elem? (x ∷ xs) (suc n) = get_elem? xs n

-- `list[cursor % list.length]`.
abbrev pub cycle {ℓ} : {A : Type ℓ} → List A → ℕ → Result PoolError A
cycle xs cursor = elim (get_elem? xs (cursor % length xs)) [
  | none ↦ err undefined_access
  | some x ↦ ok x
]

unfoldable pub assign : ℕ → ModelCapabilityLevel → ModelPoolCandidate → ModelPoolAssignment
assign index required entry = record {
  requirement_index = index;
  requested_capability = required;
  entry_id = entry.id;
  capability = entry.capability;
  provider_id = entry.provider_id;
  model = entry.model;
  reasoning = entry.reasoning;
}

-- The second loop over the requirements, with both maps of cursors.
unfoldable pub assign_all :
    List ModelCandidateGroup
    → (ModelCapabilityLevel → ℕ)
    → (String × String → ℕ)
    → ℕ
    → List ModelCapabilityLevel
    → Result PoolError (List ModelPoolAssignment)
assign_all groups models routes index [] = ok []
assign_all groups models routes index (required ∷ rest) = do
  selected ← cycle (eligible groups required) (models required)
  entry ← cycle selected.routes (routes selected.key)
  assignments ←
      assign_all groups
        (λ level. if rank level == rank required then suc (models required) else models level)
        (λ key. if same_key key selected.key then suc (routes selected.key) else routes key)
        (suc index) rest
  ok (assign index required entry ∷ assignments)

unfoldable pub plan_model_pool_assignments :
    List ModelPoolCandidate
    → List ModelCapabilityLevel
    → Result PoolError (List ModelPoolAssignment)
plan_model_pool_assignments entries requirements = do
  groups ← group_enabled_models entries
  check_requirements groups 0 requirements
  assign_all groups (λ level. 0) (λ key. 0) 0 requirements
