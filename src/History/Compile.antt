-- ===== src/History/Compile.antt =====
-- `MessageHistoryCompiler.compile` of electron/session/canonical-history.ts. The compiled JSON
-- schema and the SHA-256 of the serialised records are parameters.
pub mod Epochs
pub mod Pairs
pub mod Canonical
pub mod Sound
pub mod Complete
pub mod Steps
pub mod Grammar
use zch_coding_agent.Base.{
  ℕ, Bool, true, false, not, ◌&&◌, ◌||◌, Option, none, some, List, [], ◌∷◌, leb, if◌then◌else◌,
  ◌==◌, nat_eq, string_eq, Result, ok, err, ◌>>=◌, ◌>>◌, throw_if, String,
}
use zch_coding_agent.Message.{
  MessageRecord, Body, user_input, assistant_turn, tool_result, compact_summary,
  conversation_transcript, MessagePart, tool_call, ToolResultMetadata, Platform, SemanticsError,
  is_superseded, contains, map_error, assert_message_record_semantics,
}

pub data CompileError : Type 0 where
  empty_history schema_invalid legacy_tool_result multiple_sessions identity_order crosses_epoch
        multiple_anchors anchor_boundary calls_need_results ends_inside_batch :
      CompileError
  semantics : SemanticsError → CompileError
  out_of_order : (expected received : String) → CompileError
  no_preceding_call : String → CompileError
  duplicate_call : String → CompileError

pub record CompiledCanonicalHistory : Type 0 where
  pub session_id : String
  pub messages : List MessageRecord
  pub source_hash : String

-- `historyEpochAnchorBoundary`.
unfoldable pub history_epoch_anchor_boundary : Body → Option ℕ
history_epoch_anchor_boundary (compact_summary parts route metadata) =
    some metadata.replaces_through_seq
history_epoch_anchor_boundary (conversation_transcript parts route metadata) =
    some metadata.source_through_seq
history_epoch_anchor_boundary _ = none

-- The call that a tool result answers.
abbrev pub result_call : Body → Option String
result_call (tool_result part metadata) = some part.call_id
result_call _ = none

abbrev pub part_calls : List MessagePart → List String
part_calls [] = []
part_calls (tool_call c ∷ parts) = c.call_id ∷ part_calls parts
part_calls (_ ∷ parts) = part_calls parts

-- The calls of an assistant turn, in order.
abbrev pub turn_calls : Body → List String
turn_calls (assistant_turn t) = part_calls t.parts
turn_calls _ = []

abbrev projection_is_current : Option ToolResultMetadata → Bool
projection_is_current none = false
projection_is_current (some metadata) = elim metadata.tool.result_projection [
  | none ↦ false
  | some projection ↦ projection == "model-content.v1"
]

-- A tool result that was stored before results were projected for the model.
abbrev pub is_legacy : Body → Bool
is_legacy (tool_result part metadata) = not (projection_is_current metadata)
is_legacy _ = false

-- `filter(inHistory && visibility !== 'superseded')`.
unfoldable pub active_records : List MessageRecord → List MessageRecord
active_records [] = []
active_records (r ∷ rs) =
    if r.in_history && not (is_superseded r.visibility)
    then r ∷ active_records rs
    else active_records rs

-- A stable sort by `seq`.
unfoldable pub insert_by_seq : MessageRecord → List MessageRecord → List MessageRecord
insert_by_seq r [] = r ∷ []
insert_by_seq r (s ∷ ss) = if leb r.seq s.seq then r ∷ (s ∷ ss) else s ∷ insert_by_seq r ss

unfoldable pub sort_by_seq : List MessageRecord → List MessageRecord
unfolding insert_by_seq
sort_by_seq [] = []
sort_by_seq (r ∷ rs) = insert_by_seq r (sort_by_seq rs)

-- The variables of the loop.
pub record Scan : Type 0 where
  pub ids : List String
  pub calls : List String
  pub previous_seq : ℕ
  pub pending : Option (List String)
  pub epoch_boundary : Option ℕ

-- `active.some((candidate) => candidate.seq <= boundary)`.
unfoldable pub any_at_or_below : ℕ → List MessageRecord → Bool
any_at_or_below boundary [] = false
any_at_or_below boundary (r ∷ rs) = leb r.seq boundary || any_at_or_below boundary rs

abbrev pub is_some {ℓ} : {A : Type ℓ} → Option A → Bool
is_some none = false
is_some (some a) = true

abbrev pub at_or_below : Option ℕ → ℕ → Bool
at_or_below none n = false
at_or_below (some boundary) n = leb n boundary

-- The boundary after a record.
unfoldable pub check_epoch :
    List MessageRecord → Option ℕ → MessageRecord → Result CompileError (Option ℕ)
check_epoch active epoch r = do
  throw_if (at_or_below epoch r.seq) crosses_epoch
  elim (history_epoch_anchor_boundary r.body) [
    | none ↦ ok epoch
    | some boundary ↦ do
      throw_if (is_some epoch) multiple_anchors
      throw_if (leb r.seq boundary || any_at_or_below boundary active) anchor_boundary
      ok (some boundary)
  ]

-- The calls seen and those that wait for results.
pub record Pairing : Type 0 where
  pub calls : List String
  pub pending : Option (List String)

-- What is left of the pending calls is undefined when the last has its result.
abbrev pub rest_pending : List String → Option (List String)
rest_pending [] = none
rest_pending (c ∷ cs) = some (c ∷ cs)

-- The loop over the calls of a turn.
unfoldable pub register_calls : List String → List String → Result CompileError (List String)
register_calls calls [] = ok calls
register_calls calls (c ∷ cs) = do
  throw_if (contains c calls) (duplicate_call c)
  register_calls (c ∷ calls) cs

-- `pending.shift()` against the call of the result.
unfoldable pub answer : List String → List String → String → Result CompileError Pairing
answer calls [] received = err (out_of_order "undefined" received)
answer calls (expected ∷ rest) received = do
  throw_if (not (received == expected)) (out_of_order expected received)
  ok (record { calls = calls; pending = rest_pending rest })

unfoldable pub open_batch : List String → List String → Result CompileError Pairing
open_batch calls [] = ok (record { calls = calls; pending = none })
open_batch calls (c ∷ cs) = do
  calls' ← register_calls calls (c ∷ cs)
  ok (record { calls = calls'; pending = some (c ∷ cs) })

unfoldable pub pair_tools : List String → Option (List String) → Body → Result CompileError Pairing
pair_tools calls (some expected) body = elim (result_call body) [
  | none ↦ err calls_need_results
  | some received ↦ answer calls expected received
]
pair_tools calls none body = elim (result_call body) [
  | some received ↦ err (no_preceding_call received)
  | none ↦ open_batch calls (turn_calls body)
]

-- The variables before the first round.
abbrev pub start : Scan
start = record { ids = []; calls = []; previous_seq = 0; pending = none; epoch_boundary = none }

module _ (p : Platform) (schema_valid : MessageRecord → Bool) where
  unfoldable pub check_record : MessageRecord → Result CompileError (Unit {0})
  check_record r = do
    throw_if (not (schema_valid r)) schema_invalid
    map_error semantics (assert_message_record_semantics p r)
    throw_if (is_legacy r.body) legacy_tool_result

  -- One round of the loop.
  unfoldable pub scan_step :
      String → List MessageRecord → Scan → MessageRecord → Result CompileError Scan
  scan_step session active st r = do
    check_record r
    throw_if (not (r.session_id == session)) multiple_sessions
    throw_if (leb r.seq st.previous_seq || contains r.id st.ids) identity_order
    boundary ← check_epoch active st.epoch_boundary r
    pairing ← pair_tools st.calls st.pending r.body
    ok (record {
      ids = r.id ∷ st.ids;
      calls = pairing.calls;
      previous_seq = r.seq;
      pending = pairing.pending;
      epoch_boundary = boundary;
    })

  unfoldable pub scan :
      String → List MessageRecord → Scan → List MessageRecord → Result CompileError Scan
  unfolding scan_step
  scan session active st [] = ok st
  scan session active st (r ∷ rs) = do
    st' ← scan_step session active st r
    scan session active st' rs

  unfoldable pub compile_active :
      (List MessageRecord → String)
      → List MessageRecord
      → Result CompileError CompiledCanonicalHistory
  compile_active hash [] = err empty_history
  compile_active hash (r ∷ rs) = do
    st ← scan r.session_id (r ∷ rs) start (r ∷ rs)
    throw_if (is_some st.pending) ends_inside_batch
    ok (record { session_id = r.session_id; messages = r ∷ rs; source_hash = hash (r ∷ rs) })

  unfoldable pub compile :
      (List MessageRecord → String)
      → List MessageRecord
      → Result CompileError CompiledCanonicalHistory
  unfolding compile_active scan active_records sort_by_seq
  compile hash records = compile_active hash (sort_by_seq (active_records records))
