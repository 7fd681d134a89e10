-- ===== src/History/Turn.antt =====
-- The rest of electron/session/canonical-history.ts: assistant turns, tool results, summaries and
-- transcripts, and the operations on the records that a history holds.
use zch_coding_agent.Base.{
  ℕ, zero, suc, Bool, true, false, not, Option, none, some, List, [], ◌∷◌, ◌++◌, map, ltb,
  if◌then◌else◌, length, ◌==◌, nat_eq, string_eq, Result, ok, err, ◌>>◌, throw_if, String,
}
use zch_coding_agent.Base.{take, drop}
use zch_coding_agent.Base.Text.{truthy, is_blank}
use zch_coding_agent.Json.{canonical_json_limits, assert_bounded_json_value}
use zch_coding_agent.Route.{ModelRouteSnapshot}
use zch_coding_agent.Message.{
  MessageRecord, Body, assistant_turn, tool_result, compact_summary, conversation_transcript,
  MessagePart, text, tool_call, Attachment, ContentPart, Envelope, ToolCallPart, summary_text,
  provider_compact, UsageMetadata, PromptMetadata, visible, hidden, ToolStatus, contains, map_error,
  assert_message_record_semantics,
}
use zch_coding_agent.History.Append.{
  CanonicalHistoryState, Stamp, Host, AppendError, schema_invalid, duplicate_call, route_mismatch,
  empty_transcript, too_many_parts, semantics, unbounded, Outcome, take_seq, identified, push,
  refuse, refuse_if, attachment_part,
}

pub record AssistantTurnCandidateInput : Type 0 where
  pub parts : List MessagePart
  pub reasoning : Option (List ℕ)
  pub finish_reason : Option String
  pub route : ModelRouteSnapshot
  pub turn_id : Option String
  pub continuation : Option Envelope
  pub usage : Option UsageMetadata

abbrev truthy_text : Option (List ℕ) → Option (List ℕ)
truthy_text none = none
truthy_text (some s) = if is_blank s then none else some s

-- The body that `assistantTurnCandidate` gives, under either identity.
pub assistant_body : AssistantTurnCandidateInput → Body
assistant_body input = assistant_turn (record {
  parts = input.parts;
  normalized_reasoning_text = truthy_text input.reasoning;
  provider_continuation = input.continuation;
  model_route = input.route;
  metadata = elim (truthy input.finish_reason) [
    | none ↦ elim input.usage [
      | none ↦ none
      | some usage ↦
          some (record { finish_reason = none; usage = some usage; reasoning_projection = none })
    ]
    | some reason ↦
        some
          (record { finish_reason = some reason; usage = input.usage; reasoning_projection = none })
  ];
})

-- `assistantTurnCandidate` under the identity of a validation.
validation_candidate : CanonicalHistoryState → String → AssistantTurnCandidateInput → MessageRecord
validation_candidate st now input =
    identified st (record { id = "message:assistant-validation-candidate"; now = now }) visible
      (truthy input.turn_id) (assistant_body input)

-- The call ids of some parts, in front of those given.
pub add_calls : List MessagePart → List String → List String
add_calls [] calls = calls
add_calls (tool_call c ∷ parts) calls = add_calls parts (c.call_id ∷ calls)
add_calls (_ ∷ parts) calls = add_calls parts calls

-- The call ids of the assistant turns that are in history.
pub existing_calls : List MessageRecord → List String → List String
existing_calls [] calls = calls
existing_calls (r ∷ rs) calls = existing_calls rs (elim r.body [
  | assistant_turn t ↦ if r.in_history then add_calls t.parts calls else calls
  | _ ↦ calls
])

-- The loop that refuses a call id of the history, or one twice.
pub check_new_calls : List MessagePart → List String → Result AppendError (Unit {0})
check_new_calls [] calls = ok tt
check_new_calls (tool_call c ∷ parts) calls = do
  throw_if (contains c.call_id calls) duplicate_call
  check_new_calls parts (c.call_id ∷ calls)
check_new_calls (_ ∷ parts) calls = check_new_calls parts calls

pub assert_assistant_turn_candidate :
    Host
    → CanonicalHistoryState
    → String
    → AssistantTurnCandidateInput
    → Result AppendError (Unit {0})
assert_assistant_turn_candidate host st now input = do
  let r = validation_candidate st now input
  throw_if (not (host.schema_valid r)) schema_invalid
  map_error semantics (assert_message_record_semantics host.platform r)
  map_error unbounded
      (assert_bounded_json_value host.platform.json_bytes canonical_json_limits (host.as_json r))
  check_new_calls input.parts (existing_calls st.history [])

unfoldable pub append_completed_assistant_turn :
    Host → CanonicalHistoryState → Stamp → AssistantTurnCandidateInput → Outcome
append_completed_assistant_turn host st stamp input =
    elim (assert_assistant_turn_candidate host st stamp.now input) [
      | err e ↦ refuse st e
      | ok _ ↦ push st (identified st stamp visible (truthy input.turn_id) (assistant_body input))
    ]

-- `appendAssistantTurn`: the text, if there is any, and then the calls.
pub append_assistant_turn :
    Host
    → CanonicalHistoryState
    → Stamp
    → List ℕ
    → List ToolCallPart
    → AssistantTurnCandidateInput
    → Outcome
append_assistant_turn host st stamp content calls input =
    append_completed_assistant_turn host st stamp (record input {
      parts = (if is_blank content then [] else text content ∷ []) ++ map tool_call calls;
      turn_id = none;
    })

pub record ToolResultInput : Type 0 where
  pub call_id : String
  pub content : List ContentPart
  pub is_error : Bool
  pub name : String
  pub reason : Option String
  pub status : ToolStatus
  pub truncated : Bool
  pub duration_ms : Option ℕ
  pub turn_id : Option String

-- `appendToolResult`, with a duration that is already rounded and not negative.
unfoldable pub append_tool_result : CanonicalHistoryState → Stamp → ToolResultInput → Outcome
append_tool_result st stamp input = push st (
    identified st stamp visible (truthy input.turn_id) (
      tool_result
        (record { call_id = input.call_id; content = input.content; is_error = input.is_error })
        (some (record {
          tool = record {
            name = input.name;
            reason = truthy input.reason;
            result_projection = some "model-content.v1";
            status = input.status;
            truncated = input.truncated;
            duration_ms = input.duration_ms;
          };
          approval = none;
        }))))

unfoldable pub append_compact_summary :
    CanonicalHistoryState
    → Stamp
    → (content : List ℕ) → (replaces_through_seq : ℕ) → (source_hash : String)
    → Option PromptMetadata
    → (turn_id : Option String) → Outcome
append_compact_summary st stamp content replaces_through_seq source_hash resource turn_id =
    push st (
      identified st stamp hidden (truthy turn_id) (
        compact_summary (summary_text content ∷ []) none (record {
          replaces_through_seq = replaces_through_seq;
          source_hash = source_hash;
          prompt = resource;
          usage = none;
        })))

-- The schema and the semantics of a record whose identity has been taken.
unfoldable pub push_checked : Host → CanonicalHistoryState → MessageRecord → Outcome
push_checked host st r =
    if not (host.schema_valid r)
    then refuse (take_seq st) schema_invalid
    else elim (assert_message_record_semantics host.platform r) [
      | err e ↦ refuse (take_seq st) (semantics e)
      | ok _ ↦ push st r
    ]

unfoldable pub append_provider_compact_summary :
    Host
    → CanonicalHistoryState
    → Stamp
    → Envelope
    → ModelRouteSnapshot
    → (replaces_through_seq : ℕ) → (source_hash : String) → Option UsageMetadata
    → Option PromptMetadata
    → (turn_id : Option String) → Outcome
append_provider_compact_summary host st stamp payload route replaces_through_seq source_hash usage
      resource turn_id =
    refuse_if (not (payload.provider_type == route.provider_type)) route_mismatch st (
      push_checked host st (
        identified st stamp hidden (truthy turn_id) (
          compact_summary (provider_compact payload ∷ []) (some route) (record {
            replaces_through_seq = replaces_through_seq;
            source_hash = source_hash;
            prompt = resource;
            usage = usage;
          }))))

abbrev pub max_message_text_length : ℕ
max_message_text_length = 1_000_000

abbrev pub max_message_parts : ℕ
max_message_parts = 256

-- The loop that cuts a transcript into texts of at most `size` code units; the fuel is the
-- number of code units left.
unfoldable pub slices : (size fuel : ℕ) → List ℕ → List MessagePart
slices size zero content = []
slices size (suc fuel) [] = []
slices size (suc fuel) (c ∷ content) =
    text (take size (c ∷ content)) ∷ slices size fuel (drop size (c ∷ content))

unfoldable pub append_conversation_transcript :
    Host
    → CanonicalHistoryState
    → Stamp
    → (content : List ℕ) → ModelRouteSnapshot
    → (source_through_seq : ℕ) → (source_hash content_hash : String) → List Attachment
    → Outcome
append_conversation_transcript host st stamp content route source_through_seq source_hash
      content_hash attachments =
    let parts =
      slices max_message_text_length (length content) content ++ map attachment_part attachments in
    refuse_if (is_blank content) empty_transcript st (
      refuse_if (ltb max_message_parts (length parts)) too_many_parts st (
        push_checked host st (
          identified st stamp hidden none (
            conversation_transcript parts route (record {
              layer = record {
                source = "history.conversation-transcript";
                trusted = true;
                editable = false;
                hash = host.sha256 content;
              };
              source_through_seq = source_through_seq;
              source_hash = source_hash;
              content_hash = content_hash;
            })))))

-- `deactivateActiveHistory`: the new history, and the records that it changed.
unfoldable pub deactivate_active_history :
    List MessageRecord → List MessageRecord × List MessageRecord
deactivate_active_history [] = ([], [])
deactivate_active_history (r ∷ rs) =
    let (rest, changed) = deactivate_active_history rs in
    if r.in_history
    then (record r { in_history = false } ∷ rest, record r { in_history = false } ∷ changed)
    else (r ∷ rest, changed)
