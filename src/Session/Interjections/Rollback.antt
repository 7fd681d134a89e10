-- ===== src/Session/Interjections/Rollback.antt =====
-- Undoing a drained batch.
use zch_coding_agent.Base.{
  ℕ, length, ◌≡◌, refl, sym, ap, ap₂, ◌∙◌, subst, ◌≢◌, inl, inr, Bool, true, false, Option, none,
  some, List, [], ◌∷◌, ◌++◌, map, arith, Bool-cases, ◌==◌, nat_eq, string_eq, option_eq, ==_refl,
  ok, err, ok_injective, some_injective, String,
}
use zch_coding_agent.Base.Preds.{All}
use zch_coding_agent.Message.{MessageRecord}
use zch_coding_agent.History.Append.{CanonicalHistoryState}
use zch_coding_agent.Session.Interjections.{
  RunInterjection, ActiveRun, queue_all, DrainError, DrainContext, Progress, inject_all, has,
  remaining, requeued, restore, DrainedInterjectionBatch, batch_of, settle, drain_of, drain,
}
use zch_coding_agent.Session.Interjections.Batch.{
  AreStamps, Delivers, Delivers-length, Adds, arrived, inject_all-Adds,
}

has_here : (id : String) (ids : List String) → has id (id ∷ ids) ≡ true
has_here id ids = ground (arith, ==_refl id)

has_later :
    (id other : String) (ids : List String) → has id ids ≡ true → has id (other ∷ ids) ≡ true
has_later id other ids h = ground arith

-- The records all have one of the ids, or none has.
abbrev AllAmong : List String → Bool → List MessageRecord → Type 0
AllAmong ids b rs = All (λ r. has r.id ids ≡ b) rs

remaining_none :
    (ids : List String) (rs : List MessageRecord) → AllAmong ids true rs → remaining ids rs ≡ []
remaining_none ids [] h = refl
remaining_none ids (r ∷ rs) (e, h) = rw e (remaining_none ids rs h)

remaining_first :
    (ids : List String) (hs rs : List MessageRecord)
    → AllAmong ids false hs
    → AllAmong ids true rs
    → remaining ids (hs ++ rs) ≡ hs
remaining_first ids [] rs h k = remaining_none ids rs k
remaining_first ids (r ∷ hs) rs (e, h) k = rw e (ap (λ l. r ∷ l) (remaining_first ids hs rs h k))

among_later :
    (other : String) (ids : List String) (rs : List MessageRecord)
    → AllAmong ids true rs
    → AllAmong (other ∷ ids) true rs
among_later other ids [] h = tt
among_later other ids (r ∷ rs) (e, h) = (has_later r.id other ids e, among_later other ids rs h)

among_own : (rs : List MessageRecord) → AllAmong (map (λ r. r.id) rs) true rs
among_own [] = tt
among_own (r ∷ rs) =
    (has_here r.id (map (λ q. q.id) rs), among_later r.id (map (λ q. q.id) rs) rs (among_own rs))

same_canonical :
    {a b : String} {h k : List MessageRecord} (n : ℕ)
    → a ≡ b
    → h ≡ k
    → (let s : CanonicalHistoryState = record {
      session_id = a;
      history = h;
      next_message_seq = n;
    } in
        s)
      ≡ record { session_id = b; history = k; next_message_seq = n }
same_canonical n e f = ap₂ (λ a h. record { session_id = a; history = h; next_message_seq = n }) e f

err-ok : {E A : Type 0} {e : E} {a : A} → err e ≡ ok a → ⊥
err-ok e = absurd cc

none-some : {A : Type 0} {a : A} → none ≡ some a → ⊥
none-some e = absurd cc

module _ (c : DrainContext) where
  -- No record has one of the new ids.
  abbrev pub IsFresh : List MessageRecord → Type 0
  IsFresh hs = All (λ r. (k : ℕ) → r.id ≢ (c.stamp k).id) hs

  not_stamped :
      (id : String) (ids : List String)
      → ((k : ℕ) → id ≢ (c.stamp k).id)
      → AreStamps c ids
      → has id ids ≡ false
  not_stamped id [] f s = refl
  not_stamped id (other ∷ ids) f ((k, e), s) = elim (Bool-cases (other == id)) [
    | inl same ↦ absurd (f k (sym ((string_eq.same_iff other id).0 same) ∙ e))
    | inr differs ↦ rw differs (not_stamped id ids f s)
  ]

  fresh_among :
      (hs : List MessageRecord) (ids : List String)
      → IsFresh hs
      → AreStamps c ids
      → AllAmong ids false hs
  fresh_among [] ids f s = tt
  fresh_among (r ∷ hs) ids (f, g) s = (not_stamped r.id ids f s, fresh_among hs ids g s)

  -- Each waits in the queue, unmarked.
  abbrev pub AreWaiting : List RunInterjection → Type 0
  AreWaiting is = All (λ i. requeued i ≡ i) is

  waiting_requeued : (is : List RunInterjection) → AreWaiting is → map requeued is ≡ is
  waiting_requeued [] h = refl
  waiting_requeued (i ∷ is) (e, h) = ap₂ (λ x xs. x ∷ xs) e (waiting_requeued is h)

  -- `restore` after the loop, in any later state with the same history.
  restore_undoes :
      (is : List RunInterjection) (run later : ActiveRun) (p : Progress)
      → Adds c 0 is run p
      → IsFresh run.canonical.history
      → AreWaiting is
      → later.canonical ≡ p.run.canonical
      → ((restore (batch_of run.canonical.next_message_seq p) later).canonical ≡ run.canonical)
        × ((restore (batch_of run.canonical.next_message_seq p) later).pending
            ≡ is ++ later.pending)
  unfolding restore
  restore_undoes is run later p (rs, history, ids, session, stamps, _, _, same, _) f w e = (
    same_canonical run.canonical.next_message_seq (ap (λ s. s.session_id) e ∙ session) (
        ap (λ s. remaining p.appended s.history) e
        ∙ ap (remaining p.appended) history
        ∙ remaining_first p.appended run.canonical.history rs
            (fresh_among run.canonical.history p.appended f stamps)
            (subst (λ l. AllAmong l true rs) ids (among_own rs))),
    ap (λ l. l ++ later.pending) (same ∙ waiting_requeued is w),
  )

  module _ (run : ActiveRun) where
    abbrev progress : List RunInterjection → Progress
    progress is = inject_all c 0 is (record run { pending = [] })

    drained :
        (p : Progress) (o : Option DrainError) {after : ActiveRun}
        {batch : DrainedInterjectionBatch}
        → settle run.canonical.next_message_seq p o ≡ (after, ok (some batch))
        → (after ≡ p.run) × (batch ≡ batch_of run.canonical.next_message_seq p) × (o ≡ none)
    drained p none e =
        (sym (ap (λ x. x.0) e), sym (some_injective (ok_injective (ap (λ x. x.1) e))), refl)
    drained p (some x) e = absurd (err-ok (ap (λ x. x.1) e))

    of_pending :
        (is : List RunInterjection) {after : ActiveRun} {batch : DrainedInterjectionBatch}
        → drain_of c run is ≡ (after, ok (some batch))
        → (after ≡ (progress is).run)
          × (batch ≡ batch_of run.canonical.next_message_seq (progress is))
          × ((progress is).failure ≡ none)
    of_pending [] e = absurd (none-some (ok_injective (ap (λ x. x.1) e)))
    of_pending (i ∷ rest) e = drained (progress (i ∷ rest)) (progress (i ∷ rest)).failure e

    -- Where the interjections of the queue wait unmarked and no record has one of the new ids: undoing
    -- a drained batch gives the history and its next sequence number back as they were, and puts the
    -- interjections in front of those that came in the meantime, whatever happened beside the history.
    pub drain-restore :
        (after later : ActiveRun) (batch : DrainedInterjectionBatch)
        → IsFresh run.canonical.history
        → AreWaiting run.pending
        → drain c run ≡ (after, ok (some batch))
        → later.canonical ≡ after.canonical
        → ((restore batch later).canonical ≡ run.canonical)
          × ((restore batch later).pending ≡ run.pending ++ later.pending)
    unfolding drain
    drain-restore after later batch f w e same =
        let (end, made, _) = of_pending run.pending e in
        subst
          (λ b.
            ((restore b later).canonical ≡ run.canonical)
            × ((restore b later).pending ≡ run.pending ++ later.pending))
          (sym made)
          (restore_undoes run.pending (record run { pending = [] }) later (progress run.pending)
            (inject_all-Adds c 0 run.pending (record run { pending = [] })) f w
            (same ∙ ap (λ r. r.canonical) end))

    -- The messages that `queue` takes, of those that come during the first awaits of the log.
    abbrev pub taken : ℕ → List RunInterjection
    taken awaits = (queue_all (arrived c 0 awaits) (record run { pending = [] })).pending

    -- A drain that succeeds appends one record for each interjection of the queue, in the order of the
    -- queue: an untrusted prompt of the user's words, or a trusted one of a parent agent's words in
    -- their tag, trimmed and with the interjection's id. It leaves in the queue what was queued while
    -- it awaited the log, once for each interjection.
    pub drain-Delivers :
        (after : ActiveRun) (batch : DrainedInterjectionBatch)
        → drain c run ≡ (after, ok (some batch))
        → (rs : List MessageRecord) × (after.canonical.history ≡ run.canonical.history ++ rs)
          × Delivers c run.pending rs
          × (after.pending ≡ taken (length run.pending))
    unfolding drain
    drain-Delivers after batch e =
        let (end, _, fine) = of_pending run.pending e in
        let (rs, history, ids, _, _, left, _, _, all) =
          inject_all-Adds c 0 run.pending (record run { pending = [] }) in
        let every = ap length (sym ids) ∙ Delivers-length c run.pending rs (all fine) in
        (
          rs,
          ap (λ r. r.canonical.history) end ∙ history,
          all fine,
          ap (λ r. r.pending) end ∙ left ∙ ap taken every,
        )
