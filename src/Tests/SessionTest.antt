-- ===== src/Tests/SessionTest.antt =====
-- A message that is queued while a Run is on, drained and put back; and a gate with one Session.
use zch_coding_agent.Base.{
  ◌≡◌, refl, Bool, true, false, none, some, List, [], ◌∷◌, ◌++◌, nat_eq, string_eq, option_eq, ok,
}
use zch_coding_agent.Base.Text.{trim}
use zch_coding_agent.Json.{null}
use zch_coding_agent.Message.{MessageRecord}
use zch_coding_agent.History.Append.{
  Host, append_prompt_message, refuse_if, push, identified, take_seq,
}
use zch_coding_agent.Session.Interjections.{
  queued, RunInterjection, ActiveRun, Arrival, queue, queue_all, DrainContext, Progress,
  DrainedInterjectionBatch, inject_all, layer_of, batch_of, restore, drain,
}
use zch_coding_agent.Session.Interjections.Batch.{Delivers}
use zch_coding_agent.Session.Interjections.Rollback.{taken, drain-restore, drain-Delivers}
use zch_coding_agent.Session.WakeupGate.{empty_gate}
use zch_coding_agent.Session.WakeupGate.Phases.{
  Call, do_invalidate, do_settled, do_claim, perform_all, promise_all, all_unknown,
  perform_all-promise_all,
}

abbrev message_host : Host
message_host = record {
  platform = record { parse_url = λ endpoint. none; json_bytes = λ value. 4 };
  schema_valid = λ r. true;
  as_json = λ r. null;
  sha256 = λ content. "hash";
}

-- A message that comes while the log is awaited.
abbrev second : Arrival
second = record {
  run_id = "run:1";
  now = "2026-01-01T00:00:01.000Z";
  input = record { message = 106 ∷ []; client_request_id = "request:2"; parent = none };
}

abbrev context : (RunInterjection → Bool) → DrainContext
context is_logged = record {
  host = message_host;
  is_logged = is_logged;
  root = "message:1";
  batch_id = some "batch:1";
  stamp = λ k. record { id = "message:2"; now = "2026-01-01T00:00:00.000Z" };
  arrivals = λ k. second ∷ [];
}

abbrev waiting : RunInterjection
waiting = record {
  id = "request:1";
  run_id = "run:1";
  content = 104 ∷ 105 ∷ [];
  created_at = "2026-01-01T00:00:00.000Z";
  status = queued;
  parent_message = none;
  injected_after_tool_batch_id = none;
}

abbrev active : ActiveRun
active = record {
  canonical = record { session_id = "session:1"; history = []; next_message_seq = 1 };
  pending = waiting ∷ [];
  processed = "request:1" ∷ [];
  events = [];
}

-- The log takes the message.
abbrev logged : DrainContext
logged = context (λ i. true)

-- The log throws.
abbrev failing : DrainContext
failing = context (λ i. false)

abbrev progress : DrainContext → Progress
progress c = inject_all c 0 (waiting ∷ []) (record active { pending = [] })

abbrev batch : DrainedInterjectionBatch
batch = batch_of 1 (progress logged)

drained : drain logged active ≡ ((progress logged).run, ok (some batch))
unfolding drain inject_all layer_of append_prompt_message refuse_if push identified take_seq trim
    queue_all queue
drained = refl

drain-restore_example :
    ((restore batch (progress logged).run).canonical ≡ active.canonical)
    × ((restore batch (progress logged).run).pending
        ≡ active.pending ++ (progress logged).run.pending)
drain-restore_example =
    drain-restore logged active (progress logged).run (progress logged).run batch tt (refl, tt)
      drained refl

drain-Delivers_example :
    (rs : List MessageRecord) × ((progress logged).run.canonical.history
      ≡ active.canonical.history ++ rs)
    × Delivers logged active.pending rs
    × ((progress logged).run.pending ≡ taken logged active 1)
drain-Delivers_example = drain-Delivers logged active (progress logged).run batch drained

abbrev calls : List Call
calls =
    do_invalidate "session:1"
    ∷ do_settled "session:1" 0 true
    ∷ do_claim "session:1"
    ∷ do_claim "session:1"
    ∷ []

perform_all-promise_all_example : perform_all calls empty_gate ≡ promise_all calls all_unknown
perform_all-promise_all_example = perform_all-promise_all calls
