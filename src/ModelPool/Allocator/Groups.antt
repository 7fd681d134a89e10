-- ===== src/ModelPool/Allocator/Groups.antt =====
-- The groups hold enabled entries only, and one of each capability that an enabled entry has.
use zch_coding_agent.Base.{
  ◌≡◌, refl, sym, subst, ◌⊎◌, inl, inr, Bool, true, false, List, [], ◌∷◌, ◌++◌, arith,
  if◌then◌else◌, Bool-cases, ◌==◌, nat_eq, string_eq, Result, ok, err, ◌>>=◌,
}
use zch_coding_agent.Base.Preds.{All, All-append}
use zch_coding_agent.ModelPool.Allocator.{
  ModelCapabilityLevel, light, standard, strong, rank, effort, ModelPoolCandidate,
  ModelCandidateGroup, PoolError, same_key, has_reasoning, add_entry, add_entries,
  group_enabled_models, is_empty,
}

abbrev pub Has {ℓ} : {A : Type ℓ} → (A → Type 0) → List A → Type 0
Has P [] = ⊥
Has P (x ∷ xs) = P x ⊎ Has P xs

pub Has-append_left {ℓ} :
    {A : Type ℓ} (P : A → Type 0) (xs ys : List A) → Has P xs → Has P (xs ++ ys)
Has-append_left P (x ∷ xs) ys (inl p) = inl p
Has-append_left P (x ∷ xs) ys (inr h) = inr (Has-append_left P xs ys h)
Has-append_left P [] ys h = absurd h

pub Has-append_right {ℓ} :
    {A : Type ℓ} (P : A → Type 0) (xs ys : List A) → Has P ys → Has P (xs ++ ys)
Has-append_right P [] ys h = h
Has-append_right P (x ∷ xs) ys h = inr (Has-append_right P xs ys h)

-- An enabled entry of the list.
abbrev pub IsEntry : List ModelPoolCandidate → ModelPoolCandidate → Type 0
IsEntry entries c = (c.enabled ≡ true) × Has (λ e. e ≡ c) entries

rank-inj : (a b : ModelCapabilityLevel) → (rank a == rank b) ≡ true → a ≡ b
rank-inj light light h = refl
rank-inj standard standard h = refl
rank-inj strong strong h = refl
rank-inj light standard h = absurd cc
rank-inj light strong h = absurd cc
rank-inj standard light h = absurd cc
rank-inj standard strong h = absurd cc
rank-inj strong light h = absurd cc
rank-inj strong standard h = absurd cc

module _ (entries : List ModelPoolCandidate) where
  -- A group has a route, and its routes are enabled entries of its capability.
  abbrev pub IsGroup : ModelCandidateGroup → Type 0
  IsGroup g =
      (is_empty g.routes ≡ false)
      × All (λ r. IsEntry entries r × (r.capability ≡ g.capability)) g.routes

  abbrev pub Offers : ModelCapabilityLevel → List ModelCandidateGroup → Type 0
  Offers level groups = Has (λ g. g.capability ≡ level) groups

  is_empty-append :
      (xs ys : List ModelPoolCandidate) → is_empty xs ≡ false → is_empty (xs ++ ys) ≡ false
  is_empty-append [] ys h = absurd cc
  is_empty-append (x ∷ xs) ys h = refl

  -- What adding an entry gives.
  abbrev After : List ModelCandidateGroup → ModelPoolCandidate → List ModelCandidateGroup → Type 0
  After groups entry after =
      All IsGroup after
      × Offers entry.capability after
      × ((level : ModelCapabilityLevel) → Offers level groups → Offers level after)

  abbrev Then {ℓ} : {A : Type ℓ} → (A → Type 0) → Result PoolError A → Type 0
  Then P (err e) = Unit
  Then P (ok a) = P a

  Then->>= {ℓ κ} :
      {A : Type ℓ} {B : Type κ} (P : A → Type 0) (Q : B → Type 0) (m : Result PoolError A)
      (f : A → Result PoolError B)
      → Then P m
      → ((a : A) → P a → Then Q (f a))
      → Then Q (m >>= f)
  Then->>= P Q (ok a) f h k = k a h
  Then->>= P Q (err e) f h k = tt

  Then-map {ℓ} :
      {A : Type ℓ} (P Q : A → Type 0) (m : Result PoolError A)
      → ((a : A) → P a → Q a)
      → Then P m
      → Then Q m
  Then-map P Q (ok a) f h = f a h
  Then-map P Q (err e) f h = tt

  add_entry-lem :
      (groups : List ModelCandidateGroup) (entry : ModelPoolCandidate)
      → IsEntry entries entry
      → All IsGroup groups
      → Then (After groups entry) (add_entry groups entry)
  unfolding add_entry
  add_entry-lem [] entry is_entry all =
      (((refl, ((is_entry, refl), tt)), tt), inl refl, λ level h. absurd h)
  add_entry-lem (g ∷ gs) entry is_entry (good, all) =
      elim (Bool-cases (same_key g.key (entry.provider_id, entry.model))) [
        | inl same ↦ elim (Bool-cases (rank g.capability == rank entry.capability)) [
          | inr differ ↦ rw (add_entry, same, differ) tt
          | inl level ↦
              let offers = rank-inj g.capability entry.capability level in
              elim (Bool-cases (has_reasoning (effort entry.reasoning) g.routes)) [
                | inl known ↦ rw (add_entry, same, level, known) ((good, all), inl offers, λ l h. h)
                | inr new ↦
                    rw (add_entry, same, level, new)
                      (
                        (
                          (
                            is_empty-append g.routes (entry ∷ []) (good.0),
                            All-append (λ r. IsEntry entries r × (r.capability ≡ g.capability))
                                g.routes (entry ∷ []) (good.1) ((is_entry, sym offers), tt),
                          ),
                          all,
                        ),
                        inl offers,
                        λ l h. h,
                      )
              ]
        ]
        | inr other ↦
            rw (add_entry, other)
              (Then->>= (After gs entry) (After (g ∷ gs) entry) (add_entry gs entry)
                (λ others. ok (g ∷ others)) (add_entry-lem gs entry is_entry all)
                (λ after (fine, offers, kept). (
                  (good, fine),
                  inr offers,
                  λ l h. elim h [ inl here ↦ inl here | inr there ↦ inr (kept l there) ],
                )))
      ]

  -- Every enabled one of the entries has its capability offered.
  abbrev pub Covered : List ModelPoolCandidate → List ModelCandidateGroup → Type 0
  Covered cs gs = All (λ c. c.enabled ≡ true → Offers c.capability gs) cs

  abbrev Done :
      List ModelCandidateGroup → List ModelPoolCandidate → List ModelCandidateGroup → Type 0
  Done groups cs after =
      All IsGroup after
      × Covered cs after
      × ((level : ModelCapabilityLevel) → Offers level groups → Offers level after)

  abbrev next_groups :
      Bool
      → List ModelCandidateGroup
      → ModelPoolCandidate
      → Result PoolError (List ModelCandidateGroup)
  next_groups on groups c = if on then add_entry groups c else ok groups

  add_entries-lem :
      (groups : List ModelCandidateGroup) (cs : List ModelPoolCandidate)
      → All (λ c. Has (λ e. e ≡ c) entries) cs
      → All IsGroup groups
      → Then (Done groups cs) (add_entries groups cs)
  unfolding add_entries
  add_entries-lem groups [] within all = (all, tt, λ l h. h)
  add_entries-lem groups (c ∷ cs) (within, rest) all = elim (Bool-cases c.enabled) [
    | inl on ↦
        subst
          (λ b.
            Then (Done groups (c ∷ cs)) (next_groups b groups c >>= λ next. add_entries next cs))
          (sym on)
          (Then->>= (After groups c) (Done groups (c ∷ cs)) (add_entry groups c)
            (λ next. add_entries next cs) (add_entry-lem groups c (on, within) all)
            (λ next (fine, offers, kept).
              Then-map (Done next cs) (Done groups (c ∷ cs)) (add_entries next cs)
                (λ after (good, covered, held).
                  (good, ((λ e. held c.capability offers), covered), λ l h. held l (kept l h)))
                (add_entries-lem next cs rest fine)))
    | inr off ↦
        subst
          (λ b.
            Then (Done groups (c ∷ cs)) (next_groups b groups c >>= λ next. add_entries next cs))
          (sym off)
          (Then-map (Done groups cs) (Done groups (c ∷ cs)) (add_entries groups cs)
            (λ after (good, covered, held). (good, ((λ e. absurd (ground arith)), covered), held))
            (add_entries-lem groups cs rest all))
  ]

  All-entries :
      (cs : List ModelPoolCandidate)
      (keep : (c : ModelPoolCandidate) → Has (λ e. e ≡ c) cs → Has (λ e. e ≡ c) entries)
      → All (λ c. Has (λ e. e ≡ c) entries) cs
  All-entries [] keep = tt
  All-entries (c ∷ cs) keep = (keep c (inl refl), All-entries cs (λ d h. keep d (inr h)))

  pub group_enabled_models-lem :
      {groups : List ModelCandidateGroup}
      → group_enabled_models entries ≡ ok groups
      → All IsGroup groups × Covered entries groups
  unfolding group_enabled_models
  group_enabled_models-lem h =
      let (good, covered, held) =
        subst (Then (Done [] entries)) h
          (add_entries-lem [] entries (All-entries entries (λ c m. m)) tt) in
      (good, covered)
