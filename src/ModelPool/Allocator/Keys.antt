-- ===== src/ModelPool/Allocator/Keys.antt =====
-- Groups by their models, and the pools whose models have one capability each.
use zch_coding_agent.Base.{
  ◌≡◌, refl, sym, ap, ◌∙◌, inl, inr, Bool, true, List, [], ◌∷◌, ◌++◌, arith, if◌then◌else◌,
  Bool-cases, ◌==◌, nat_eq, string_eq, ==_refl, Result, ok, ◌>>=◌, String,
}
use zch_coding_agent.Base.Preds.{All}
use zch_coding_agent.ModelPool.Allocator.{
  rank, effort, ModelPoolCandidate, ModelCandidateGroup, PoolError, same_key, has_reasoning,
  add_entry, add_entries, group_enabled_models,
}
use zch_coding_agent.ModelPool.Allocator.Groups.{Has, IsEntry}

-- Enabled entries of one provider's model have one capability.
unfoldable pub IsConsistent : List ModelPoolCandidate → Type 0
IsConsistent entries =
    (a b : ModelPoolCandidate)
    → IsEntry entries a
    → IsEntry entries b
    → a.provider_id ≡ b.provider_id
    → a.model ≡ b.model
    → a.capability ≡ b.capability

same_key→≡ : (p m q n : String) → same_key (p, m) (q, n) ≡ true → (p ≡ q) × (m ≡ n)
same_key→≡ p m q n h = ground (arith, string_eq.same_iff p q, string_eq.same_iff m n)

module _ (entries : List ModelPoolCandidate) (consistent : IsConsistent entries) where
  -- The group has the model and the capability of an enabled entry.
  abbrev IsKeyed : ModelCandidateGroup → Type 0
  IsKeyed g =
      (e : ModelPoolCandidate) × IsEntry entries e
      × (e.provider_id ≡ g.key.0)
      × (e.model ≡ g.key.1)
      × (e.capability ≡ g.capability)

  abbrev Grouped : Result PoolError (List ModelCandidateGroup) → Type 0
  Grouped r = (after : List ModelCandidateGroup) × (r ≡ ok after) × All IsKeyed after

  same_rank :
      (g : ModelCandidateGroup) (entry : ModelPoolCandidate)
      → IsEntry entries entry
      → IsKeyed g
      → same_key g.key (entry.provider_id, entry.model) ≡ true
      → (rank g.capability == rank entry.capability) ≡ true
  unfolding IsConsistent
  same_rank g entry is_entry (e, known, provider, model, level) same =
      let (p, m) = same_key→≡ g.key.0 g.key.1 entry.provider_id entry.model same in
      let equal : g.capability ≡ entry.capability =
        sym level ∙ consistent e entry known is_entry (provider ∙ p) (model ∙ m) in
      rw equal (==_refl (rank entry.capability))

  add_entry-Grouped :
      (groups : List ModelCandidateGroup) (entry : ModelPoolCandidate)
      → IsEntry entries entry
      → All IsKeyed groups
      → Grouped (add_entry groups entry)
  unfolding add_entry
  add_entry-Grouped [] entry is_entry all = (_, refl, ((entry, is_entry, refl, refl, refl), tt))
  add_entry-Grouped (g ∷ gs) entry is_entry (keyed, all) =
      elim (Bool-cases (same_key g.key (entry.provider_id, entry.model))) [
        | inl same ↦
            let level = same_rank g entry is_entry keyed same in
            elim (Bool-cases (has_reasoning (effort entry.reasoning) g.routes)) [
              | inl known ↦ (g ∷ gs, rw (add_entry, same, level, known) refl, (keyed, all))
              | inr new ↦ (
                record g { routes = g.routes ++ (entry ∷ []) } ∷ gs,
                rw (add_entry, same, level, new) refl,
                (keyed, all),
              )
            ]
        | inr other ↦
            let (after, made, fine) = add_entry-Grouped gs entry is_entry all in
            (g ∷ after, rw (add_entry, other, made) refl, (keyed, fine))
      ]

  abbrev next_groups :
      Bool
      → List ModelCandidateGroup
      → ModelPoolCandidate
      → Result PoolError (List ModelCandidateGroup)
  next_groups on groups c = if on then add_entry groups c else ok groups

  add_entries-Grouped :
      (groups : List ModelCandidateGroup) (cs : List ModelPoolCandidate)
      (keep : (c : ModelPoolCandidate) → Has (λ e. e ≡ c) cs → Has (λ e. e ≡ c) entries)
      → All IsKeyed groups
      → Grouped (add_entries groups cs)
  unfolding add_entries
  add_entries-Grouped groups [] keep all = (groups, refl, all)
  add_entries-Grouped groups (c ∷ cs) keep all = elim (Bool-cases c.enabled) [
    | inl on ↦
        let (next, added, fine) = add_entry-Grouped groups c (on, keep c (inl refl)) all in
        let (after, made, good) = add_entries-Grouped next cs (λ d h. keep d (inr h)) fine in
        (
          after,
          ap (λ b. next_groups b groups c >>= λ n. add_entries n cs) on
              ∙ ap (λ m. m >>= λ n. add_entries n cs) added
              ∙ made,
          good,
        )
    | inr off ↦
        let (after, made, good) = add_entries-Grouped groups cs (λ d h. keep d (inr h)) all in
        (after, ap (λ b. next_groups b groups c >>= λ n. add_entries n cs) off ∙ made, good)
  ]

  pub group_enabled_models-ok :
      (groups : List ModelCandidateGroup) × (group_enabled_models entries ≡ ok groups)
  unfolding group_enabled_models
  group_enabled_models-ok =
      let (groups, made, fine) = add_entries-Grouped [] entries (λ c h. h) tt in (groups, made)
