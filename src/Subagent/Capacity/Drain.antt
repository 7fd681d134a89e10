-- ===== src/Subagent/Capacity/Drain.antt =====
-- A release admits every waiter that has room.
use zch_coding_agent.Base.{
  ℕ, ◌≤◌, ◌<◌, ◌≡◌, refl, sym, ap, ◌∙◌, subst, ◌≢◌, ◌⊎◌, inl, inr, Bool, true, false, none, some,
  List, [], ◌∷◌, arith, Bool-cases, Option-cases, length, ◌==◌, nat_eq, string_eq, ==_refl, ok,
  Result-cases, String,
}
use zch_coding_agent.Base.Preds.{All}
use zch_coding_agent.Base.Maps.{lookup, insert, delete, lookup-insert}
use zch_coding_agent.Subagent.Capacity.{
  Waiter, Held, SubagentCapacity, count, is_foreign, member, not_held, unique, set_all, reserve,
  drain, release,
}
use zch_coding_agent.Subagent.Capacity.Reserve.{
  reserve-taken, reserve-refused, count-insert, not_held-fresh, not_held-old, foreign-owner,
}
use zch_coding_agent.Subagent.Capacity.Limit.{
  drain-aborted, drain-failed, drain-refused, drain-taken,
}

-- A waiter that cannot be admitted: another owner has its execution, or it needs a slot that its
-- owner has no room for.
pub IsStuck : Held → Waiter → Type 0
IsStuck held w =
    ((o : String) × (lookup w.execution held ≡ some o) × (o ≢ w.owner))
    ⊎ ((lookup w.execution held ≡ none) × (w.limit ≤ count w.owner held))
    ⊎ ((lookup w.execution held ≡ some w.owner) × (w.limit < count w.owner held))

count-insert_grows :
    (owner k v : String) (held : Held)
    → lookup k held ≡ none
    → count owner held ≤ count owner (insert k v held)
count-insert_grows owner k v held n = ground (arith, count-insert owner k v held n)

lookup-other :
    (held : Held) (j k v : String) {o : String}
    → lookup k held ≡ none
    → lookup j held ≡ some o
    → lookup j (insert k v held) ≡ some o
lookup-other held j k v n s = elim (Bool-cases (k == j)) [
  | inl e ↦ absurd (ground (arith, ap (λ i. lookup i held) ((string_eq.same_iff k j).0 e), n, s))
  | inr e ↦ lookup-insert k j v held ∙ rw e s
]

IsStuck-insert :
    (held : Held) (w : Waiter) (k v : String)
    → lookup k held ≡ none
    → IsStuck held w
    → IsStuck (insert k v held) w
unfolding IsStuck
IsStuck-insert held w k v n (inl (o, s, ne)) = inl (o, lookup-other held w.execution k v n s, ne)
IsStuck-insert held w k v n (inr (inl (s, le))) = elim (Bool-cases (k == w.execution)) [
  | inl e ↦
      let now : lookup w.execution (insert k v held) ≡ some v =
        lookup-insert k w.execution v held ∙ rw e refl in
      elim (Bool-cases (v == w.owner)) [
        | inl own ↦
            let same = (string_eq.same_iff v w.owner).0 own in
            inr (inr (now ∙ ap some same, ground (arith, count-insert w.owner k v held n)))
        | inr foreign ↦ inl (v, now, λ same. ground (arith, (string_eq.same_iff v w.owner).1 same))
      ]
  | inr e ↦
      let grown = count-insert_grows w.owner k v held n in
      inr (inl (lookup-insert k w.execution v held ∙ rw e s, omega (arith, grown)))
]
IsStuck-insert held w k v n (inr (inr (s, lt))) =
    let grown = count-insert_grows w.owner k v held n in
    inr (inr (lookup-other held w.execution k v n s, omega (arith, grown)))

-- One execution that is free, or held.
one-free :
    (held : Held) (e : String) → lookup e held ≡ none → not_held held (unique [] (e ∷ [])) ≡ e ∷ []
unfolding not_held unique member
one-free held e n = not_held-fresh held [] e n

one-held :
    (held : Held) (e : String) {o : String}
    → lookup e held ≡ some o
    → not_held held (unique [] (e ∷ [])) ≡ []
unfolding not_held unique member
one-held held e s = not_held-old held [] e s

refused-owner :
    (held : Held) (w : Waiter) {b : Bool} {after : Held} {o : String}
    → reserve held w.owner (w.execution ∷ []) w.limit ≡ ok (b, after)
    → lookup w.execution held ≡ some o
    → o ≡ w.owner
unfolding reserve member
refused-owner held w {b} {after} h s =
    elim (Bool-cases (is_foreign held w.owner (w.execution ∷ []))) [
      | inl f ↦ absurd (ground arith)
      | inr f ↦
          foreign-owner held w.owner (w.execution ∷ []) w.execution f
            (rw (==_refl w.execution) refl) s
    ]

refused-IsStuck :
    (held : Held) (w : Waiter) {same : Held}
    → reserve held w.owner (w.execution ∷ []) w.limit ≡ ok (false, same)
    → IsStuck held w
unfolding IsStuck
refused-IsStuck held w h =
    let (same, full) = reserve-refused held w.owner (w.execution ∷ []) w.limit h in
    elim (Option-cases (lookup w.execution held)) [
      | inl n ↦
          let one = ap length (one-free held w.execution n) in
          inr (inl (n, omega (arith, one, full)))
      | inr (o, s) ↦
          let nothing = ap length (one-held held w.execution s) in
          inr (inr (s ∙ ap some (refused-owner held w h s), omega (arith, nothing, full)))
    ]

-- The map after a reservation of one execution.
taken-one :
    (held : Held) (w : Waiter) {taken : Held}
    → reserve held w.owner (w.execution ∷ []) w.limit ≡ ok (true, taken)
    → (held ≡ taken)
      ⊎ ((lookup w.execution held ≡ none) × (insert w.execution w.owner held ≡ taken))
unfolding set_all
taken-one held w h =
    let (f, room, e) = reserve-taken held w.owner (w.execution ∷ []) w.limit h in
    elim (Option-cases (lookup w.execution held)) [
      | inl n ↦
          inr (n, sym (ap (λ ids. set_all w.owner ids held) (one-free held w.execution n)) ∙ e)
      | inr (o, s) ↦
          inl (sym (ap (λ ids. set_all w.owner ids held) (one-held held w.execution s)) ∙ e)
    ]

taken-IsStuck :
    (held : Held) (w u : Waiter) {taken : Held}
    → reserve held w.owner (w.execution ∷ []) w.limit ≡ ok (true, taken)
    → IsStuck held u
    → IsStuck taken u
taken-IsStuck held w u h stuck = elim (taken-one held w h) [
  | inl same ↦ subst (λ m. IsStuck m u) same stuck
  | inr (n, grown) ↦
      subst (λ m. IsStuck m u) grown (IsStuck-insert held u w.execution w.owner n stuck)
]

-- A waiter that is stuck stays so while the others are admitted.
drain-keeps :
    (aborted : ℕ → Bool) (held : Held) (ws : List Waiter) (u : Waiter)
    → IsStuck held u
    → IsStuck ((drain aborted held ws).0) u
unfolding drain
drain-keeps aborted held [] u stuck = stuck
drain-keeps aborted held (w ∷ ws) u stuck = elim (Bool-cases (aborted w.ticket)) [
  | inl a ↦ rw (drain-aborted aborted held w ws a) (drain-keeps aborted held ws u stuck)
  | inr a ↦ elim (Result-cases (reserve held w.owner (w.execution ∷ []) w.limit)) [
    | inr (e, r) ↦ rw (drain-failed aborted held w ws a r) stuck
    | inl ((true, taken), r) ↦
        rw (drain-taken aborted held w ws a r)
          (drain-keeps aborted taken ws u (taken-IsStuck held w u r stuck))
    | inl ((false, same), r) ↦
        rw (drain-refused aborted held w ws a r) (drain-keeps aborted held ws u stuck)
  ]
]

some-none : {A : Type 0} {a : A} → ¬ (some a ≡ none)
some-none h = absurd cc

drain-IsStuck :
    (aborted : ℕ → Bool) (held : Held) (ws : List Waiter)
    → (drain aborted held ws).3 ≡ none
    → All
        (λ w. (aborted w.ticket ≡ false) × IsStuck ((drain aborted held ws).0) w)
        ((drain aborted held ws).1)
unfolding drain
drain-IsStuck aborted held [] h = tt
drain-IsStuck aborted held (w ∷ ws) h = elim (Bool-cases (aborted w.ticket)) [
  | inl a ↦
      let step = drain-aborted aborted held w ws a in
      rw step (drain-IsStuck aborted held ws (sym (ap (λ r. r.3) step) ∙ h))
  | inr a ↦ elim (Result-cases (reserve held w.owner (w.execution ∷ []) w.limit)) [
    | inr (e, r) ↦
        let step = drain-failed aborted held w ws a r in
        absurd (some-none (sym (ap (λ r. r.3) step) ∙ h))
    | inl ((true, taken), r) ↦
        let step = drain-taken aborted held w ws a r in
        rw step (drain-IsStuck aborted taken ws (sym (ap (λ r. r.3) step) ∙ h))
    | inl ((false, same), r) ↦
        let step = drain-refused aborted held w ws a r in
        rw step (
          (a, drain-keeps aborted held ws w (refused-IsStuck held w r)),
          drain-IsStuck aborted held ws (sym (ap (λ r. r.3) step) ∙ h),
        )
  ]
]

-- A release that does not throw leaves no waiter that has room or is aborted.
pub release-IsStuck :
    (aborted : ℕ → Bool) (st : SubagentCapacity) (execution : String)
    → (release aborted st execution).2 ≡ none
    → let after = (release aborted st execution).0 in
      All (λ w. (aborted w.ticket ≡ false) × IsStuck after.held w) after.waiting
unfolding release
release-IsStuck aborted st execution h =
    drain-IsStuck aborted (delete execution st.held) st.waiting h
