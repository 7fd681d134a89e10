-- ===== src/Message.antt =====
-- shared/message.ts: message records and `assertMessageRecordSemantics`. A text is its UTF-16 code
-- units, an identifier or a hash a `String`. Schema versions, which are constants, are left out.
use zch_coding_agent.Base.{
  ℕ, Bool, true, false, ◌&&◌, ◌||◌, Option, none, some, List, [], ◌∷◌, ◌==◌, nat_eq, string_eq,
  Result, ok, err, ◌>>◌, throw_if, String,
}
use zch_coding_agent.Json.{JsonValue, JsonError, canonical_json_limits, assert_bounded_json_value}
use zch_coding_agent.Route.{Url, ModelRouteSnapshot, RouteError, assert_model_route_snapshot_safe}

pub data MessageVisibility : Type 0 where
  visible hidden superseded : MessageVisibility

-- The prompt kinds whose records are texts.
pub data PromptKind : Type 0 where
  system_instruction assistant_preferences selected_context runtime_context agents_context
        orchestrator interjection :
      PromptKind

pub record ImageInfo : Type 0 where
  pub width : ℕ
  pub height : ℕ
  pub request_bytes : ℕ
  pub request_sha256 : String

-- `FileAttachment`, or `ImageAttachment` where there is an `image`.
pub record Attachment : Type 0 where
  pub id : String
  pub project_id : String
  pub name : String
  pub mime_type : String
  pub byte_size : ℕ
  pub sha256 : String
  pub image : Option ImageInfo

-- `ToolResultContent`: texts and JSON values.
pub data ContentPart : Type 0 where
  text_content : List ℕ → ContentPart
  json_content : JsonValue → ContentPart

-- `ProviderContinuationEnvelope` and `ProviderCompactEnvelope`.
pub record Envelope : Type 0 where
  pub provider_type : String
  pub format : String
  pub payload : JsonValue

pub record ToolCallPart : Type 0 where
  pub call_id : String
  pub name : String
  pub arguments : JsonValue

pub record ToolResultPart : Type 0 where
  pub call_id : String
  pub content : List ContentPart
  pub is_error : Bool

pub data MessagePart : Type 0 where
  text : List ℕ → MessagePart
  image : Attachment → MessagePart
  file : Attachment → MessagePart
  tool_call : ToolCallPart → MessagePart

pub data CompactPart : Type 0 where
  summary_text : List ℕ → CompactPart
  provider_compact : Envelope → CompactPart

pub data Submission : Type 0 where
  message : Submission
  control_command : String → Submission

-- An original input has its client's request id, its request hash, its submission and its context
-- attachment chips, which a replayed one may have too.
pub data UserInputMetadata : Type 0 where
  original : Option String → Option String → Submission → Option JsonValue → UserInputMetadata
  replayed : (replayed_from_message_id : String) → Option JsonValue → UserInputMetadata
  derived : (derived_from_message_id : String) → UserInputMetadata

pub record UsageMetadata : Type 0 where
  pub input_tokens : Option ℕ
  pub output_tokens : Option ℕ
  pub total_tokens : Option ℕ
  pub reasoning_tokens : Option ℕ
  pub cached_input_tokens : Option ℕ
  pub cache_miss_tokens : Option ℕ
  pub cache_write_tokens : Option ℕ

pub record PromptMetadata : Type 0 where
  pub resource_id : String
  pub version : String
  pub hash : String

pub record PromptLayerMetadata : Type 0 where
  pub source : String
  pub trusted : Bool
  pub editable : Bool
  pub hash : String

pub record PromptMessageMetadata : Type 0 where
  pub layer : PromptLayerMetadata
  pub prompt : Option PromptMetadata
  pub interjection_id : Option String

pub data ToolStatus : Type 0 where
  completed denied failed cancelled timed_out : ToolStatus

pub record ToolMetadata : Type 0 where
  pub name : String
  pub reason : Option String
  pub result_projection : Option String
  pub status : ToolStatus
  pub truncated : Bool
  pub duration_ms : Option ℕ

pub data ApprovalSource : Type 0 where
  user rule model : ApprovalSource

pub record ApprovalMetadata : Type 0 where
  pub approved : Bool
  pub source : ApprovalSource

pub record ToolResultMetadata : Type 0 where
  pub tool : ToolMetadata
  pub approval : Option ApprovalMetadata

pub record CompactMetadata : Type 0 where
  pub replaces_through_seq : ℕ
  pub source_hash : String
  pub prompt : Option PromptMetadata
  pub usage : Option UsageMetadata

pub record TranscriptMetadata : Type 0 where
  pub layer : PromptLayerMetadata
  pub source_through_seq : ℕ
  pub source_hash : String
  pub content_hash : String

pub record ReasoningProjection : Type 0 where
  pub truncated : Bool
  pub omitted_opaque_blocks : Bool

pub record AssistantMetadata : Type 0 where
  pub finish_reason : Option String
  pub usage : Option UsageMetadata
  pub reasoning_projection : Option ReasoningProjection

pub record AssistantTurn : Type 0 where
  pub parts : List MessagePart
  pub normalized_reasoning_text : Option (List ℕ)
  pub provider_continuation : Option Envelope
  pub model_route : ModelRouteSnapshot
  pub metadata : Option AssistantMetadata

-- The kinds of records, each with the fields that it has beside those of every record.
pub data Body : Type 0 where
  user_input : List MessagePart → UserInputMetadata → Body
  assistant_turn : AssistantTurn → Body
  tool_result : ToolResultPart → Option ToolResultMetadata → Body
  prompt : PromptKind → List MessagePart → Option PromptMessageMetadata → Body
  compact_summary : List CompactPart → Option ModelRouteSnapshot → CompactMetadata → Body
  conversation_transcript : List MessagePart → ModelRouteSnapshot → TranscriptMetadata → Body

pub record MessageRecord : Type 0 where
  pub id : String
  pub session_id : String
  pub seq : ℕ
  pub visibility : MessageVisibility
  pub turn_id : Option String
  pub in_history : Bool
  pub created_at : String
  pub body : Body

abbrev pub is_superseded : MessageVisibility → Bool
is_superseded superseded = true
is_superseded _ = false

abbrev pub is_control_command : Body → Bool
is_control_command (user_input parts (original (some c) h (control_command name) chips)) = true
is_control_command _ = false

-- `isControlCommandUserInput`.
abbrev pub is_control_command_user_input : MessageRecord → Bool
is_control_command_user_input r = is_control_command r.body

abbrev pub body_route : Body → Option ModelRouteSnapshot
body_route (assistant_turn t) = some t.model_route
body_route (compact_summary parts route metadata) = route
body_route (conversation_transcript parts route metadata) = some route
body_route _ = none

pub data SemanticsError : Type 0 where
  superseded_in_history control_in_history duplicate_call : SemanticsError
  unsafe_route : RouteError → SemanticsError
  unbounded : JsonError → SemanticsError

abbrev pub map_error {ℓ κ μ} :
    {E : Type κ} {F : Type μ} {A : Type ℓ} → (E → F) → Result E A → Result F A
map_error f (ok a) = ok a
map_error f (err e) = err (f e)

unfoldable pub contains : String → List String → Bool
contains s [] = false
contains s (t ∷ ts) = t == s || contains s ts

-- The platform: its URL parser, and the UTF-8 length of what `JSON.stringify` gives.
pub record Platform : Type 0 where
  pub parse_url : String → Option Url
  pub json_bytes : JsonValue → ℕ

module _ (p : Platform) where
  unfoldable pub bounded : JsonValue → Result SemanticsError (Unit {0})
  bounded value =
      map_error unbounded (assert_bounded_json_value p.json_bytes canonical_json_limits value)

  -- The loop over the parts of an assistant turn, with the call ids that it has met.
  unfoldable pub check_calls : List String → List MessagePart → Result SemanticsError (Unit {0})
  check_calls seen [] = ok tt
  check_calls seen (tool_call c ∷ parts) = do
    throw_if (contains c.call_id seen) duplicate_call
    bounded c.arguments
    check_calls (c.call_id ∷ seen) parts
  check_calls seen (_ ∷ parts) = check_calls seen parts

  unfoldable pub check_continuation : Option Envelope → Result SemanticsError (Unit {0})
  check_continuation none = ok tt
  check_continuation (some e) = bounded e.payload

  unfoldable pub check_content : List ContentPart → Result SemanticsError (Unit {0})
  check_content [] = ok tt
  check_content (text_content s ∷ parts) = check_content parts
  check_content (json_content v ∷ parts) = do bounded v; check_content parts

  unfoldable pub check_body : Body → Result SemanticsError (Unit {0})
  check_body (compact_summary (provider_compact e ∷ parts) route metadata) = bounded e.payload
  check_body (assistant_turn t) = do
    check_calls [] t.parts
    check_continuation t.provider_continuation
  check_body (tool_result part metadata) = check_content part.content
  check_body _ = ok tt

  unfoldable pub check_route : Option ModelRouteSnapshot → Result SemanticsError (Unit {0})
  check_route none = ok tt
  check_route (some r) = map_error unsafe_route (assert_model_route_snapshot_safe p.parse_url r)

  unfoldable pub assert_message_record_semantics : MessageRecord → Result SemanticsError (Unit {0})
  unfolding check_body check_route check_calls check_continuation check_content bounded
  assert_message_record_semantics r = do
    throw_if (is_superseded r.visibility && r.in_history) superseded_in_history
    throw_if (is_control_command_user_input r && r.in_history) control_in_history
    check_route (body_route r.body)
    check_body r.body
