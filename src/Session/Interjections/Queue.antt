-- ===== src/Session/Interjections/Queue.antt =====
-- What calls of `queue` do to a Run.
use zch_coding_agent.Base.{
  ◌≡◌, refl, sym, ap, ap₂, ◌∙◌, inl, inr, none, List, [], ◌∷◌, ◌++◌, if◌then◌else◌, Bool-cases,
  nat_eq, string_eq, option_eq, String,
}
use zch_coding_agent.Session.Interjections.{
  RunInterjection, ActiveRun, Arrival, queue, queue_all, queued, has,
}

-- The messages that wait after a call of `queue`, by those that waited and the ids that were handled.
pending_after : Arrival → List String → List RunInterjection → List RunInterjection
pending_after a processed pending =
    if has a.input.client_request_id processed
    then pending
    else pending
      ++ record {
        id = a.input.client_request_id;
        run_id = a.run_id;
        content = a.input.message;
        created_at = a.now;
        status = queued;
        parent_message = a.input.parent;
        injected_after_tool_batch_id = none;
      }
        ∷ []

processed_after : Arrival → List String → List String
processed_after a processed =
    if has a.input.client_request_id processed
    then processed
    else processed ++ a.input.client_request_id ∷ []

module _ (a : Arrival) (run : ActiveRun) where
  queue_fields :
      ((queue a.run_id a.now a.input run).pending ≡ pending_after a run.processed run.pending)
      × ((queue a.run_id a.now a.input run).processed ≡ processed_after a run.processed)
      × ((queue a.run_id a.now a.input run).canonical ≡ run.canonical)
  unfolding queue pending_after processed_after
  queue_fields = elim (Bool-cases (has a.input.client_request_id run.processed)) [
    | inl e ↦ rw e (refl, refl, refl)
    | inr e ↦ rw e (refl, refl, refl)
  ]

pub queue_all-canonical :
    (later : List Arrival) (run : ActiveRun) → (queue_all later run).canonical ≡ run.canonical
unfolding queue_all
queue_all-canonical [] run = refl
queue_all-canonical (a ∷ later) run =
    queue_all-canonical later (queue a.run_id a.now a.input run) ∙ (queue_fields a run).2

queue_all-append :
    (xs ys : List Arrival) (run : ActiveRun)
    → queue_all (xs ++ ys) run ≡ queue_all ys (queue_all xs run)
unfolding queue_all
queue_all-append [] ys run = refl
queue_all-append (a ∷ xs) ys run = queue_all-append xs ys (queue a.run_id a.now a.input run)

-- What waits after calls of `queue` depends on the queue and the handled ids only.
queue_all-same :
    (later : List Arrival) (run other : ActiveRun)
    → run.pending ≡ other.pending
    → run.processed ≡ other.processed
    → (queue_all later run).pending ≡ (queue_all later other).pending
unfolding queue_all
queue_all-same [] run other p q = p
queue_all-same (a ∷ later) run other p q =
    let (pending, processed, _) = queue_fields a run in
    let (pending', processed', _) = queue_fields a other in
    queue_all-same later (queue a.run_id a.now a.input run) (queue a.run_id a.now a.input other)
      (pending ∙ ap₂ (pending_after a) q p ∙ sym pending')
      (processed ∙ ap (processed_after a) q ∙ sym processed')

pub queued_after :
    (xs later : List Arrival) (run other : ActiveRun)
    → run.pending ≡ other.pending
    → run.processed ≡ other.processed
    → (queue_all later (queue_all xs run)).pending ≡ (queue_all (xs ++ later) other).pending
queued_after xs later run other p q =
    ap (λ r. r.pending) (sym (queue_all-append xs later run))
    ∙ queue_all-same (xs ++ later) run other p q
