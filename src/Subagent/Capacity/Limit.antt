-- ===== src/Subagent/Capacity/Limit.antt =====
-- No sequence of calls takes an owner above its limit.
use zch_coding_agent.Base.{
  ℕ, ◌+◌, ◌≤◌, ◌≡◌, refl, subst, inl, inr, Bool, true, false, some, List, [], ◌∷◌, arith,
  Bool-cases, length, ◌==◌, nat_eq, string_eq, ok, err, Result-cases, String,
}
use zch_coding_agent.Base.Preds.{All, All-append}
use zch_coding_agent.Base.Maps.{delete}
use zch_coding_agent.Subagent.Capacity.{
  Waiter, Held, SubagentCapacity, CapacityError, resolved, rejected, empty_capacity, count,
  not_held, unique, reserve, drain, release, acquire, without, abort, Operation, reserving,
  acquiring, releasing, aborting, perform, perform_all,
}
use zch_coding_agent.Subagent.Capacity.Reserve.{
  reserve-taken, reserve-refused, count-set_all_le, count-delete_le,
}

-- How `drain` goes on, by what it finds for the first waiter.
module _ (aborted : ℕ → Bool) (held : Held) (w : Waiter) (ws : List Waiter) where
  pub drain-aborted :
      aborted w.ticket ≡ true
      → drain aborted held (w ∷ ws) ≡ (
          let (held', stay, events, error) = drain aborted held ws in
          (held', stay, rejected w.ticket ∷ events, error))
  unfolding drain
  drain-aborted a = rw (drain, a) refl

  pub drain-failed :
      {e : CapacityError}
      → aborted w.ticket ≡ false
      → reserve held w.owner (w.execution ∷ []) w.limit ≡ err e
      → drain aborted held (w ∷ ws) ≡ (held, w ∷ ws, [], some e)
  unfolding drain
  drain-failed a r = rw (drain, a, r) refl

  pub drain-refused :
      {same : Held}
      → aborted w.ticket ≡ false
      → reserve held w.owner (w.execution ∷ []) w.limit ≡ ok (false, same)
      → drain aborted held (w ∷ ws) ≡ (
          let (held', stay, events, error) = drain aborted held ws in
          (held', w ∷ stay, events, error))
  unfolding drain
  drain-refused a r = rw (drain, a, r) refl

  pub drain-taken :
      {taken : Held}
      → aborted w.ticket ≡ false
      → reserve held w.owner (w.execution ∷ []) w.limit ≡ ok (true, taken)
      → drain aborted held (w ∷ ws) ≡ (
          let (held', stay, events, error) = drain aborted taken ws in
          (held', stay, resolved w.ticket ∷ events, error))
  unfolding drain
  drain-taken a r = rw (drain, a, r) refl

-- The limits that the owner's calls name are at most `top`.
module _ (owner : String) (top : ℕ) where
  abbrev pub Within : String → ℕ → Type 0
  Within o limit = o ≡ owner → limit ≤ top

  abbrev pub IsWithin : Operation → Type 0
  IsWithin (reserving o ids limit) = Within o limit
  IsWithin (acquiring aborted w) = Within w.owner w.limit
  IsWithin (releasing aborted e) = Unit
  IsWithin (aborting t) = Unit

  abbrev Fits : Held → List Waiter → Type 0
  Fits held ws = (count owner held ≤ top) × All (λ w. Within w.owner w.limit) ws

  reserve-le :
      (held : Held) (o : String) (ids : List String) (limit : ℕ) (b : Bool) {after : Held}
      → reserve held o ids limit ≡ ok (b, after)
      → Within o limit
      → count owner held ≤ top
      → count owner after ≤ top
  reserve-le held o ids limit true {after} h within le =
      let (f, room, e) = reserve-taken held o ids limit h in
      let fresh = not_held held (unique [] ids) in
      let grown = count-set_all_le owner o fresh held in
      elim (Bool-cases (o == owner)) [
        | inl own ↦
            let same = (string_eq.same_iff o owner).0 own in
            let fits = within same in
            let room' = subst (λ x. count x held + length fresh ≤ limit) same room in
            subst (λ c. count owner c ≤ top) e (ground arith)
        | inr foreign ↦ subst (λ c. count owner c ≤ top) e (ground arith)
      ]
  reserve-le held o ids limit false h within le =
      subst (λ c. count owner c ≤ top) (reserve-refused held o ids limit h).0 le

  drain-Fits :
      (aborted : ℕ → Bool) (held : Held) (ws : List Waiter)
      → Fits held ws
      → Fits ((drain aborted held ws).0) ((drain aborted held ws).1)
  unfolding drain
  drain-Fits aborted held [] h = h
  drain-Fits aborted held (w ∷ ws) (le, (within, rest)) = elim (Bool-cases (aborted w.ticket)) [
    | inl a ↦ rw (drain-aborted aborted held w ws a) (drain-Fits aborted held ws (le, rest))
    | inr a ↦ elim (Result-cases (reserve held w.owner (w.execution ∷ []) w.limit)) [
      | inr (e, r) ↦ rw (drain-failed aborted held w ws a r) (le, (within, rest))
      | inl ((true, taken), r) ↦ rw (drain-taken aborted held w ws a r) (
          drain-Fits aborted taken ws
            (reserve-le held w.owner (w.execution ∷ []) w.limit true r within le, rest))
      | inl ((false, same), r) ↦
          let (fits, stay) = drain-Fits aborted held ws (le, rest) in
          rw (drain-refused aborted held w ws a r) (fits, (within, stay))
    ]
  ]

  without-All :
      (ticket : ℕ) (ws : List Waiter)
      → All (λ w. Within w.owner w.limit) ws
      → All (λ w. Within w.owner w.limit) (without ticket ws)
  without-All ticket [] h = h
  without-All ticket (w ∷ ws) (h, hs) = elim (Bool-cases (w.ticket == ticket)) [
    | inl e ↦ rw e hs
    | inr e ↦ rw e (h, without-All ticket ws hs)
  ]

  perform-Fits :
      (st : SubagentCapacity) (op : Operation)
      → IsWithin op
      → Fits st.held st.waiting
      → Fits ((perform st op).held) ((perform st op).waiting)
  unfolding perform release acquire abort
  perform-Fits st (reserving o ids limit) within (le, all) =
      elim (Result-cases (reserve st.held o ids limit)) [
        | inr (e, r) ↦ rw (perform, r) (le, all)
        | inl ((b, after), r) ↦ rw (perform, r) (reserve-le st.held o ids limit b r within le, all)
      ]
  perform-Fits st (acquiring aborted w) within (le, all) = elim (Bool-cases (aborted w.ticket)) [
    | inl a ↦ rw (perform, acquire, a) (le, all)
    | inr a ↦ elim (Result-cases (reserve st.held w.owner (w.execution ∷ []) w.limit)) [
      | inr (e, r) ↦ rw (perform, acquire, a, r) (le, all)
      | inl ((true, taken), r) ↦
          rw (perform, acquire, a, r)
            (reserve-le st.held w.owner (w.execution ∷ []) w.limit true r within le, all)
      | inl ((false, same), r) ↦
          rw (perform, acquire, a, r)
            (le, All-append (λ w. Within w.owner w.limit) st.waiting (w ∷ []) all (within, tt))
    ]
  ]
  perform-Fits st (releasing aborted e) within (le, all) =
      drain-Fits aborted (delete e st.held) st.waiting
        (omega (arith, count-delete_le owner e st.held), all)
  perform-Fits st (aborting t) within (le, all) = (le, without-All t st.waiting all)

  perform_all-Fits :
      (st : SubagentCapacity) (ops : List Operation)
      → All IsWithin ops
      → Fits st.held st.waiting
      → Fits ((perform_all st ops).held) ((perform_all st ops).waiting)
  unfolding perform_all
  perform_all-Fits st [] tt h = h
  perform_all-Fits st (op ∷ ops) (within, rest) h =
      perform_all-Fits (perform st op) ops rest (perform-Fits st op within h)

-- After any sequence of calls, those that throw and those that wake waiters included, a Session whose
-- calls all name a limit of at most `top` holds at most `top` slots.
pub perform_all-limit :
    (owner : String) (top : ℕ) (ops : List Operation)
    → All (IsWithin owner top) ops
    → count owner (perform_all empty_capacity ops).held ≤ top
unfolding empty_capacity count
perform_all-limit owner top ops h =
    (perform_all-Fits owner top empty_capacity ops h (omega arith, tt)).0
