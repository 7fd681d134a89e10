-- ===== src/History/Append.antt =====
-- The operations of electron/session/canonical-history.ts that append to a history. `randomUUID`
-- and the clock are a `Stamp`; SHA-256, the compiled schema and the record as a JSON value belong
-- to the `Host`. A failing operation leaves the state that it had reached.
use zch_coding_agent.Base.{
  ℕ, suc, ◌+◌, Bool, true, false, not, ◌&&◌, ◌||◌, Option, none, some, List, [], ◌∷◌, ◌++◌, map,
  leb, if◌then◌else◌, length, ◌==◌, nat_eq, string_eq, Result, ok, err, String,
}
use zch_coding_agent.Base.Text.{trim, is_blank, truthy}
use zch_coding_agent.Json.{JsonValue, JsonError}
use zch_coding_agent.Message.{
  MessageRecord, Body, user_input, prompt, MessagePart, text, image, file, Attachment, Submission,
  message, control_command, original, replayed, derived, PromptMetadata, PromptKind, orchestrator,
  interjection, MessageVisibility, visible, hidden, Platform, SemanticsError,
}

pub record CanonicalHistoryState : Type 0 where
  pub session_id : String
  pub history : List MessageRecord
  pub next_message_seq : ℕ

-- A fresh message id, and the time.
pub record Stamp : Type 0 where
  pub id : String
  pub now : String

pub record Host : Type 0 where
  pub platform : Platform
  pub schema_valid : MessageRecord → Bool
  pub as_json : MessageRecord → JsonValue
  pub sha256 : List ℕ → String

pub data AppendError : Type 0 where
  empty_content empty_user_input identity_count schema_invalid duplicate_call route_mismatch
        empty_transcript too_many_parts :
      AppendError
  semantics : SemanticsError → AppendError
  unbounded : JsonError → AppendError

-- The state after an operation, and the record that it appended or what it threw.
abbrev pub Outcome : Type 0
Outcome = CanonicalHistoryState × Result AppendError MessageRecord

-- `nextIdentity` takes a sequence number, whatever becomes of the record.
unfoldable pub take_seq : CanonicalHistoryState → CanonicalHistoryState
take_seq st = record st { next_message_seq = suc st.next_message_seq }

-- The record with the identity that `nextIdentity` gives it.
unfoldable pub identified :
    CanonicalHistoryState → Stamp → MessageVisibility → Option String → Body → MessageRecord
identified st stamp visibility turn_id body = record {
  id = stamp.id;
  session_id = st.session_id;
  seq = st.next_message_seq;
  visibility = visibility;
  turn_id = turn_id;
  in_history = true;
  created_at = stamp.now;
  body = body;
}

-- `state.history.push(record)`, in the state that `nextIdentity` left.
unfoldable pub push : CanonicalHistoryState → MessageRecord → Outcome
push st r = (record (take_seq st) { history = st.history ++ r ∷ [] }, ok r)

-- A refusal before and one after a sequence number was taken.
abbrev pub refuse : CanonicalHistoryState → AppendError → Outcome
refuse st e = (st, err e)

-- `if (test) throw e`, before the rest of an operation.
unfoldable pub refuse_if : Bool → AppendError → CanonicalHistoryState → Outcome → Outcome
refuse_if true e st rest = refuse st e
refuse_if false e st rest = rest

abbrev pub or_else {ℓ} : {A : Type ℓ} → Option A → A → A
or_else none a = a
or_else (some a) _ = a

pub record PromptInput : Type 0 where
  pub kind : PromptKind
  pub content : List ℕ
  pub source : String
  pub trusted : Bool
  pub editable : Bool
  pub resource : Option PromptMetadata
  pub hash : Option String
  pub turn_id : Option String
  pub interjection_id : Option String
  pub visibility : Option MessageVisibility

abbrev prompt_visibility : PromptKind → MessageVisibility
prompt_visibility orchestrator = visible
prompt_visibility interjection = visible
prompt_visibility _ = hidden

unfoldable pub append_prompt_message : Host → CanonicalHistoryState → Stamp → PromptInput → Outcome
append_prompt_message host st stamp input =
    let content = trim input.content in
    refuse_if (is_blank content) empty_content st (
      push st (
        identified st stamp (or_else input.visibility (prompt_visibility input.kind))
          (truthy input.turn_id)
          (prompt input.kind (text content ∷ []) (
            some (record {
              layer = record {
                source = input.source;
                trusted = input.trusted;
                editable = input.editable;
                hash = or_else input.hash (host.sha256 content);
              };
              prompt = input.resource;
              interjection_id = truthy input.interjection_id;
            })))))

pub record UserInput : Type 0 where
  pub content : List ℕ
  pub client_request_id : Option String
  pub replayed_from_message_id : Option String
  pub derived_from_message_id : Option String
  pub request_hash : Option String
  pub submission : Option Submission
  pub in_history : Option Bool
  pub message_id : Option String
  pub turn_id : Option String
  pub attachments : Option JsonValue
  pub imported_attachments : List Attachment

abbrev given : Option String → ℕ
given none = 0
given (some s) = 1

abbrev is_control : Option Submission → Bool
is_control (some (control_command name)) = true
is_control _ = false

abbrev is_present : Option String → Bool
is_present none = false
is_present (some s) = true

-- `attachmentPart`.
abbrev pub attachment_part : Attachment → MessagePart
attachment_part a = elim a.image [ none ↦ file a | some info ↦ image a ]

abbrev user_metadata : UserInput → Body
user_metadata input =
    let parts =
      (if is_blank input.content then [] else text input.content ∷ [])
      ++ map attachment_part input.imported_attachments in
    elim (truthy input.replayed_from_message_id) [
      | some source ↦ user_input parts (replayed source none)
      | none ↦ elim (truthy input.derived_from_message_id) [
        | some source ↦ user_input parts (derived source)
        | none ↦ user_input parts (
            original (truthy input.client_request_id) (truthy input.request_hash)
              (or_else input.submission message) input.attachments)
      ]
    ]

user_visibility : UserInput → MessageVisibility
user_visibility input =
    if is_control input.submission
      || is_present (truthy input.replayed_from_message_id)
      || is_present (truthy input.derived_from_message_id)
    then hidden
    else visible

unfoldable pub append_user_input : CanonicalHistoryState → Stamp → UserInput → Outcome
unfolding user_visibility
append_user_input st stamp input =
    let id = or_else input.message_id stamp.id in
    refuse_if (is_blank (trim input.content) && leb (length input.imported_attachments) 0)
      empty_user_input st
      (refuse_if
        (not (
          given input.client_request_id
            + given input.replayed_from_message_id
            + given input.derived_from_message_id
          == 1))
        identity_count st
        (push st
          (record (identified st stamp (user_visibility input) (some (or_else input.turn_id id))
            (user_metadata input)) { id = id; in_history = or_else input.in_history true })))

-- `appendControlCommand`.
pub append_control_command :
    CanonicalHistoryState
    → Stamp
    → (content : List ℕ) → (client_request_id : String) → (request_hash : String)
    → (command : String) → Outcome
append_control_command st stamp content client_request_id request_hash command =
    append_user_input st stamp (record {
      content = content;
      client_request_id = some client_request_id;
      replayed_from_message_id = none;
      derived_from_message_id = none;
      request_hash = some request_hash;
      submission = some (control_command command);
      in_history = some false;
      message_id = none;
      turn_id = none;
      attachments = none;
      imported_attachments = [];
    })
