-- ===== src/Json.antt =====
-- shared/json.ts: JSON values and `assertBoundedJsonValue`. A text is its UTF-16 code units. A
-- number is its decimal text, or one that is not finite. Values here are trees, so cycles,
-- prototypes, symbol keys and accessors, which the source also refuses, do not arise.
pub mod Bounds
use zch_coding_agent.Base.{
  ℕ, suc, Bool, List, [], ltb, length, Result, ok, err, ◌>>=◌, ◌>>◌, throw_if, String,
}

mutual
  pub data JsonValue : Type 0 where
    null : JsonValue
    boolean : Bool → JsonValue
    number : String → JsonValue
    non_finite : JsonValue
    text : List ℕ → JsonValue
    array : JsonItems → JsonValue
    object : JsonFields → JsonValue

  pub data JsonItems : Type 0 where
    no_items : JsonItems
    item : JsonValue → JsonItems → JsonItems

  pub data JsonFields : Type 0 where
    no_fields : JsonFields
    field : List ℕ → JsonValue → JsonFields → JsonFields

abbrev pub length_items : JsonItems → ℕ
length_items no_items = 0
length_items (item v vs) = suc (length_items vs)

abbrev pub length_fields : JsonFields → ℕ
length_fields no_fields = 0
length_fields (field k v fs) = suc (length_fields fs)

pub record JsonValueLimits : Type 0 where
  pub max_depth : ℕ
  pub max_array_length : ℕ
  pub max_object_keys : ℕ
  pub max_string_length : ℕ
  pub max_bytes : ℕ
  pub max_nodes : ℕ

abbrev pub canonical_json_limits : JsonValueLimits
canonical_json_limits = record {
  max_depth = 32;
  max_array_length = 1_024;
  max_object_keys = 256;
  max_string_length = 1_000_000;
  max_bytes = 2_000_000;
  max_nodes = 100_000;
}

pub data JsonError : Type 0 where
  node_count depth string_length finite array_length key_count key_length size : JsonError

-- `visit`: the candidate's depth and the count of nodes so far give the new count.
unfoldable mutual
  pub visit : JsonValueLimits → JsonValue → ℕ → ℕ → Result JsonError ℕ
  visit l null d n = do
    throw_if (ltb l.max_nodes (suc n)) node_count
    throw_if (ltb l.max_depth d) depth
    ok (suc n)
  visit l (boolean b) d n = do
    throw_if (ltb l.max_nodes (suc n)) node_count
    throw_if (ltb l.max_depth d) depth
    ok (suc n)
  visit l (number s) d n = do
    throw_if (ltb l.max_nodes (suc n)) node_count
    throw_if (ltb l.max_depth d) depth
    ok (suc n)
  visit l non_finite d n = do
    throw_if (ltb l.max_nodes (suc n)) node_count
    throw_if (ltb l.max_depth d) depth
    err finite
  visit l (text s) d n = do
    throw_if (ltb l.max_nodes (suc n)) node_count
    throw_if (ltb l.max_depth d) depth
    throw_if (ltb l.max_string_length (length s)) string_length
    ok (suc n)
  visit l (array vs) d n = do
    throw_if (ltb l.max_nodes (suc n)) node_count
    throw_if (ltb l.max_depth d) depth
    throw_if (ltb l.max_array_length (length_items vs)) array_length
    visit_items l vs (suc d) (suc n)
  visit l (object fs) d n = do
    throw_if (ltb l.max_nodes (suc n)) node_count
    throw_if (ltb l.max_depth d) depth
    throw_if (ltb l.max_object_keys (length_fields fs)) key_count
    visit_fields l fs (suc d) (suc n)

  pub visit_items : JsonValueLimits → JsonItems → ℕ → ℕ → Result JsonError ℕ
  visit_items l no_items d n = ok n
  visit_items l (item v vs) d n = do m ← visit l v d n; visit_items l vs d m

  pub visit_fields : JsonValueLimits → JsonFields → ℕ → ℕ → Result JsonError ℕ
  visit_fields l no_fields d n = ok n
  visit_fields l (field k v fs) d n = do
    throw_if (ltb l.max_string_length (length k)) key_length
    m ← visit l v d n
    visit_fields l fs d m

-- `assertBoundedJsonValue`. `json_bytes` is the UTF-8 length of the platform's `JSON.stringify`.
unfoldable pub assert_bounded_json_value :
    (JsonValue → ℕ) → JsonValueLimits → JsonValue → Result JsonError (Unit {0})
assert_bounded_json_value json_bytes l value = do
  n ← visit l value 0 0
  throw_if (ltb l.max_bytes (json_bytes value)) size
  ok tt
