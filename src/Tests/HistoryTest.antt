-- ===== src/Tests/HistoryTest.antt =====
-- A short conversation: a question, a turn with one call, and its result.
use zch_coding_agent.Base.{
  ℕ, ◌≤◌, ◌≡◌, refl, ◌↔◌, Bool, true, false, none, some, List, [], ◌∷◌, arith, length, nat_eq,
  string_eq, ok, String,
}
use zch_coding_agent.Json.{null, visit, assert_bounded_json_value}
use zch_coding_agent.Route.{
  Url, ModelRouteSnapshot, main, low, assert_model_route_snapshot_safe, check_keys,
}
use zch_coding_agent.Message.{
  Platform, MessageRecord, Body, user_input, assistant_turn, tool_result, text, tool_call,
  text_content, original, message, visible, completed, orchestrator,
  assert_message_record_semantics, bounded, check_calls, check_continuation, check_content,
  check_body, check_route, contains, conversation_transcript, hidden,
}
use zch_coding_agent.History.Append.{
  CanonicalHistoryState, Host, PromptInput, refuse_if, push, identified, take_seq,
}
use zch_coding_agent.Base.Preds.{All}
use zch_coding_agent.History.Turn.{
  append_conversation_transcript, push_checked, slices, max_message_text_length,
}
use zch_coding_agent.History.Transcript.{message_text, body_texts, transcript-message_text}
use zch_coding_agent.History.Frame.{
  Extends, Operation, prompts, perform, perform_all, IsOrdered, perform-Extends,
  perform_all-IsOrdered,
}
use zch_coding_agent.History.Compile.{
  CompiledCanonicalHistory, compile, compile_active, scan, scan_step, active_records, sort_by_seq,
  insert_by_seq, check_record, check_epoch, pair_tools, open_batch, register_calls,
  answer as check_answer, any_at_or_below, history_epoch_anchor_boundary,
}
use zch_coding_agent.History.Compile.Canonical.{Compiles, compile-Compiles_iff}

abbrev url : Url
url = record { protocol = "https:"; username = ""; password = ""; fragment = ""; query_keys = [] }

abbrev platform : Platform
platform = record { parse_url = λ endpoint. some url; json_bytes = λ value. 4 }

abbrev route : ModelRouteSnapshot
route = record {
  purpose = main;
  provider_type = "openai-compatible";
  provider_id = "p";
  model = "m";
  reasoning = low;
  endpoint = "https://host/v1";
  provider_config_revision = 1;
}

abbrev entry : String → ℕ → Body → MessageRecord
entry id seq body = record {
  id = id;
  session_id = "session:1";
  seq = seq;
  visibility = visible;
  turn_id = none;
  in_history = true;
  created_at = "2026-01-01T00:00:00.000Z";
  body = body;
}

abbrev question : MessageRecord
question =
    entry "m1" 1 (user_input (text (b'h' ∷ b'i' ∷ []) ∷ []) (original (some "r") none message none))

abbrev turn : MessageRecord
turn = entry "m2" 2 (
    assistant_turn (record {
      parts = tool_call (record { call_id = "c1"; name = "read_file"; arguments = null }) ∷ [];
      normalized_reasoning_text = none;
      provider_continuation = none;
      model_route = route;
      metadata = none;
    }))

abbrev answer : MessageRecord
answer = entry "m3" 3 (
    tool_result
      (record { call_id = "c1"; content = text_content (b'o' ∷ b'k' ∷ []) ∷ []; is_error = false })
      (some (record {
        tool = record {
          name = "read_file";
          reason = none;
          result_projection = some "model-content.v1";
          status = completed;
          truncated = false;
          duration_ms = none;
        };
        approval = none;
      })))

-- As stored, out of order.
abbrev stored : List MessageRecord
stored = answer ∷ question ∷ turn ∷ []

abbrev valid : MessageRecord → Bool
valid r = true

abbrev hash : List MessageRecord → String
hash rs = "hash"

abbrev compiled : CompiledCanonicalHistory
compiled = record {
  session_id = "session:1";
  messages = question ∷ turn ∷ answer ∷ [];
  source_hash = "hash";
}

compiles : compile platform valid hash stored ≡ ok compiled
unfolding compile compile_active scan scan_step active_records sort_by_seq insert_by_seq
    check_record check_epoch pair_tools open_batch register_calls check_answer any_at_or_below
    history_epoch_anchor_boundary assert_message_record_semantics bounded check_calls
    check_continuation check_content check_body check_route contains visit assert_bounded_json_value
    assert_model_route_snapshot_safe check_keys
compiles = refl

compile-Compiles_iff_example :
    (compile platform valid hash stored ≡ ok compiled)
    ↔ Compiles platform valid hash (sort_by_seq (active_records stored)) compiled
compile-Compiles_iff_example = compile-Compiles_iff platform valid hash stored compiled

abbrev host : Host
host = record {
  platform = platform;
  schema_valid = valid;
  as_json = λ r. null;
  sha256 = λ s. "sha256";
}

abbrev empty : CanonicalHistoryState
empty = record { session_id = "session:1"; history = []; next_message_seq = 1 }

abbrev note : PromptInput
note = record {
  kind = orchestrator;
  content = b' ' ∷ b'g' ∷ b'o' ∷ [];
  source = "core";
  trusted = true;
  editable = false;
  resource = none;
  hash = none;
  turn_id = none;
  interjection_id = none;
  visibility = none;
}

abbrev step : Operation
step = prompts (record { id = "m1"; now = "2026-01-01T00:00:00.000Z" }) note

perform-Extends_example : Extends empty (perform host empty step)
perform-Extends_example = perform-Extends host empty step

empty-IsOrdered : IsOrdered empty
empty-IsOrdered = record { one_session = tt; ascending = omega arith }

perform_all-IsOrdered_example : IsOrdered (perform_all host empty (step ∷ step ∷ []))
perform_all-IsOrdered_example = perform_all-IsOrdered host empty (step ∷ step ∷ []) empty-IsOrdered

-- A transcript that stands for the records before it.
abbrev transcript : MessageRecord
transcript = record {
  id = "m1";
  session_id = "session:1";
  seq = 1;
  visibility = hidden;
  turn_id = none;
  in_history = true;
  created_at = "2026-01-01T00:00:00.000Z";
  body = conversation_transcript (text (b'h' ∷ b'i' ∷ []) ∷ []) route (record {
    layer = record {
      source = "history.conversation-transcript";
      trusted = true;
      editable = false;
      hash = "sha256";
    };
    source_through_seq = 0;
    source_hash = "source";
    content_hash = "content";
  });
}

transcribed :
    (append_conversation_transcript host empty
      (record { id = "m1"; now = "2026-01-01T00:00:00.000Z" })
      (b'h' ∷ b'i' ∷ [])
      route
      0
      "source"
      "content"
      []).1
    ≡ ok transcript
unfolding append_conversation_transcript refuse_if push_checked push identified take_seq slices
    assert_message_record_semantics bounded check_calls check_continuation check_content check_body
    check_route assert_model_route_snapshot_safe check_keys
transcribed = refl

transcript-message_text_example :
    (message_text transcript ≡ b'h' ∷ b'i' ∷ [])
    × All (λ s. length s ≤ max_message_text_length) (body_texts transcript.body)
transcript-message_text_example =
    transcript-message_text host empty (record { id = "m1"; now = "2026-01-01T00:00:00.000Z" })
      (b'h' ∷ b'i' ∷ []) route 0 "source" "content" [] transcript transcribed
