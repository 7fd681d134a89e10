-- ===== src/Session/Interjections.antt =====
-- electron/session/session-interjection-coordinator.ts: messages that a user sends while a Run is on.
-- `pending` and `processed` are the Run's, `events` are the interjections as they are emitted. The
-- log may throw. A new id and the time come with each operation. While `drain` awaits the log, further
-- messages may be queued.
pub mod Batch
pub mod Queue
pub mod Rollback
use zch_coding_agent.Base.{
  ℕ, suc, Bool, true, false, ◌||◌, Option, none, some, List, [], ◌∷◌, ◌++◌, map, if◌then◌else◌,
  ◌==◌, nat_eq, string_eq, option_eq, Result, ok, err, String,
}
use zch_coding_agent.Base.Text.{truthy}
use zch_coding_agent.Message.{MessageRecord, PromptKind, orchestrator, interjection}
use zch_coding_agent.Tagged.{TagError, render_tagged_text}
use zch_coding_agent.History.Append.{
  CanonicalHistoryState, Stamp, Host, AppendError, Outcome, PromptInput, append_prompt_message,
}

pub data InterjectionStatus : Type 0 where
  queued injected superseded : InterjectionStatus

pub record RunInterjection : Type 0 where
  pub id : String
  pub run_id : String
  pub content : List ℕ
  pub created_at : String
  pub status : InterjectionStatus
  pub parent_message : Option (String × String)
  pub injected_after_tool_batch_id : Option String

pub record ActiveRun : Type 0 where
  pub canonical : CanonicalHistoryState
  pub pending : List RunInterjection
  pub processed : List String
  pub events : List RunInterjection

pub data DrainError : Type 0 where
  bad_tag : TagError → DrainError
  not_appended : AppendError → DrainError
  not_logged : DrainError

pub record InterjectionInput : Type 0 where
  pub message : List ℕ
  pub client_request_id : String
  pub parent : Option (String × String)

abbrev pub has : String → List String → Bool
has id [] = false
has id (other ∷ others) = other == id || has id others

abbrev pub emit : RunInterjection → ActiveRun → ActiveRun
emit i run = record run { events = run.events ++ i ∷ [] }

abbrev pub emit_all : List RunInterjection → ActiveRun → ActiveRun
emit_all is run = record run { events = run.events ++ is }

-- `queue`: a request that was handled before changes nothing.
unfoldable pub queue :
    (run_id : String) → (now : String) → InterjectionInput → ActiveRun → ActiveRun
queue run_id now input run =
    let i : RunInterjection = record {
      id = input.client_request_id;
      run_id = run_id;
      content = input.message;
      created_at = now;
      status = queued;
      parent_message = input.parent;
      injected_after_tool_batch_id = none;
    } in
    if has input.client_request_id run.processed
    then run
    else emit i (record run {
      pending = run.pending ++ i ∷ [];
      processed = run.processed ++ input.client_request_id ∷ [];
    })

-- A call of `queue`.
pub record Arrival : Type 0 where
  pub run_id : String
  pub now : String
  pub input : InterjectionInput

unfoldable pub queue_all : List Arrival → ActiveRun → ActiveRun
queue_all [] run = run
queue_all (a ∷ later) run = queue_all later (queue a.run_id a.now a.input run)

abbrev pub parent_tag : List ℕ
parent_tag =
    b'p' ∷ b'a' ∷ b'r' ∷ b'e' ∷ b'n' ∷ b't' ∷ b'_' ∷ b'a' ∷ b'g' ∷ b'e' ∷ b'n' ∷ b't' ∷ b'_' ∷ b'm'
    ∷ b'e' ∷ b's' ∷ b's' ∷ b'a' ∷ b'g' ∷ b'e' ∷ []

abbrev pub layer : RunInterjection → (root : String) → (parent : Bool) → List ℕ → PromptInput
layer i root parent content = record {
  kind = if parent then orchestrator else interjection;
  content = content;
  source = if parent then "agent.parent-message" else "run.interjection";
  trusted = parent;
  editable = false;
  resource = none;
  hash = none;
  turn_id = some root;
  interjection_id = some i.id;
  visibility = none;
}

abbrev pub tagged_layer :
    RunInterjection → (root : String) → Result TagError (List ℕ) → Result DrainError PromptInput
tagged_layer i root (err e) = err (bad_tag e)
tagged_layer i root (ok content) = ok (layer i root true content)

abbrev pub layer_from :
    RunInterjection → (root : String) → Option (String × String) → Result DrainError PromptInput
layer_from i root none = ok (layer i root false i.content)
layer_from i root (some parent) = tagged_layer i root (render_tagged_text parent_tag i.content)

-- The prompt layer of one interjection.
unfoldable pub layer_of : RunInterjection → (root : String) → Result DrainError PromptInput
layer_of i root = layer_from i root i.parent_message

abbrev pub after_batch : Option String → RunInterjection → RunInterjection
after_batch none i = record i { status = injected }
after_batch (some batch) i = record i {
  status = injected;
  injected_after_tool_batch_id = some batch;
}

-- What the loop of `drain` is about: the platform, the log, the Run's root message and last batch of
-- tools, the new ids, and the calls of `queue` that come while the loop awaits the log of each
-- interjection in turn. Nothing else changes the Run or the history during these awaits.
pub record DrainContext : Type 0 where
  pub host : Host
  pub is_logged : RunInterjection → Bool
  pub root : String
  pub batch_id : Option String
  pub stamp : ℕ → Stamp
  pub arrivals : ℕ → List Arrival

-- Where the loop stopped: the Run, the ids of the records appended, the interjections as they are
-- then, and what was thrown.
pub record Progress : Type 0 where
  pub run : ActiveRun
  pub appended : List String
  pub interjections : List RunInterjection
  pub failure : Option DrainError

abbrev pub stopped : ActiveRun → List RunInterjection → Option DrainError → Progress
stopped run is failure = record { run = run; appended = []; interjections = is; failure = failure }

-- One more record and interjection before what follows.
abbrev pub preceded : String → RunInterjection → Progress → Progress
preceded id i later = record {
  run = later.run;
  appended = id ∷ later.appended;
  interjections = i ∷ later.interjections;
  failure = later.failure;
}

-- After the record of an interjection was appended, or not.
abbrev pub appended_one :
    DrainContext
    → ℕ
    → RunInterjection
    → List RunInterjection
    → ActiveRun
    → (ActiveRun → Progress)
    → Outcome
    → Progress
appended_one c n i rest run next (canonical, err e) =
    stopped (record run { canonical = canonical }) (i ∷ rest) (some (not_appended e))
appended_one c n i rest run next (canonical, ok r) =
    let done = after_batch (truthy c.batch_id) i in
    let emitted = emit done (record run { canonical = canonical }) in
    let awaited = queue_all (c.arrivals n) emitted in
    preceded r.id done
      (if c.is_logged done then next awaited else stopped awaited rest (some not_logged))

abbrev pub with_layer :
    DrainContext
    → ℕ
    → RunInterjection
    → List RunInterjection
    → ActiveRun
    → (ActiveRun → Progress)
    → Result DrainError PromptInput
    → Progress
with_layer c n i rest run next (err e) = stopped run (i ∷ rest) (some e)
with_layer c n i rest run next (ok input) =
    appended_one c n i rest run next (append_prompt_message c.host run.canonical (c.stamp n) input)

unfoldable pub inject_all : DrainContext → ℕ → List RunInterjection → ActiveRun → Progress
inject_all c n [] run = stopped run [] none
inject_all c n (i ∷ rest) run =
    with_layer c n i rest run (inject_all c (suc n) rest) (layer_of i c.root)

pub record DrainedInterjectionBatch : Type 0 where
  pub interjections : List RunInterjection
  pub appended_message_ids : List String
  pub previous_next_message_seq : ℕ

abbrev pub remaining : List String → List MessageRecord → List MessageRecord
remaining ids [] = []
remaining ids (r ∷ rs) = let rest = remaining ids rs in if has r.id ids then rest else r ∷ rest

abbrev pub requeued : RunInterjection → RunInterjection
requeued i = record i { status = queued; injected_after_tool_batch_id = none }

unfoldable pub restore : DrainedInterjectionBatch → ActiveRun → ActiveRun
restore batch run =
    let again = map requeued batch.interjections in
    emit_all again (record run {
      canonical = record run.canonical {
        history = remaining batch.appended_message_ids run.canonical.history;
        next_message_seq = batch.previous_next_message_seq;
      };
      pending = again ++ run.pending;
    })

abbrev pub batch_of : ℕ → Progress → DrainedInterjectionBatch
batch_of seq p = record {
  interjections = p.interjections;
  appended_message_ids = p.appended;
  previous_next_message_seq = seq;
}

-- The end of `drain`, which undoes a batch that failed.
abbrev pub settle :
    ℕ
    → Progress
    → Option DrainError
    → ActiveRun × Result DrainError (Option DrainedInterjectionBatch)
settle seq p none = (p.run, ok (some (batch_of seq p)))
settle seq p (some e) = (restore (batch_of seq p) p.run, err e)

abbrev pub drain_pending :
    DrainContext
    → ActiveRun
    → Progress
    → ActiveRun × Result DrainError (Option DrainedInterjectionBatch)
drain_pending c run p = settle run.canonical.next_message_seq p p.failure

abbrev pub drain_of :
    DrainContext
    → ActiveRun
    → List RunInterjection
    → ActiveRun × Result DrainError (Option DrainedInterjectionBatch)
drain_of c run [] = (run, ok none)
drain_of c run (i ∷ rest) =
    drain_pending c run (inject_all c 0 (i ∷ rest) (record run { pending = [] }))

unfoldable pub drain :
    DrainContext → ActiveRun → ActiveRun × Result DrainError (Option DrainedInterjectionBatch)
drain c run = drain_of c run run.pending

abbrev pub supersede : RunInterjection → RunInterjection
supersede i = record i { status = superseded }

abbrev pub superseded_of : List RunInterjection → List RunInterjection
superseded_of [] = []
superseded_of (i ∷ is) = elim i.status [
  | queued ↦ supersede i ∷ superseded_of is
  | _ ↦ superseded_of is
]

unfoldable pub supersede_pending : ActiveRun → ActiveRun
supersede_pending run = emit_all (superseded_of run.pending) (record run { pending = [] })

-- `carryOver`: the Run without its pending interjections, and these.
unfoldable pub carry_over : ActiveRun → ActiveRun × List RunInterjection
carry_over run = (record run { pending = [] }, run.pending)
