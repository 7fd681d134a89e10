-- ===== src/Tests/DataTest.antt =====
-- Runs of the shared data: JSON values, usage totals and tagged texts.
use zch_coding_agent.Base.{
  ℕ, ◌+◌, ◌≤◌, ◌≡◌, refl, ◌≢◌, ◌↔◌, none, some, List, [], ◌∷◌, ◌++◌, nat_eq, string_eq, option_eq,
  ok,
}
use zch_coding_agent.Base.Preds.{All}
use zch_coding_agent.Json.{
  JsonValue, text, array, item, no_items, canonical_json_limits, assert_bounded_json_value,
}
use zch_coding_agent.Json.Bounds.{Fits, nodes, assert_bounded_json_value_iff}
use zch_coding_agent.Usage.{LlmUsageRecord, add_execution_usage, summarize_execution_usage}
use zch_coding_agent.Usage.Sums.{IsSafe, summarize-append}
use zch_coding_agent.Base.Text.{trim}
use zch_coding_agent.Tagged.{
  escape_xml_text, is_xml_name, opening, closing, render_tagged_text, unwrap_tagged_text,
}
use zch_coding_agent.Tagged.Unwrap.{unwrap-render}

abbrev value : JsonValue
value = array (item (text (b'a' ∷ [])) (item (array no_items) no_items))

abbrev eleven : JsonValue → ℕ
eleven v = 8

assert_bounded_json_value_iff_example :
    (assert_bounded_json_value eleven canonical_json_limits value ≡ ok tt) ↔ (
      Fits canonical_json_limits 0 value
      × (nodes value ≤ canonical_json_limits.max_nodes)
      × (eleven value ≤ canonical_json_limits.max_bytes))
assert_bounded_json_value_iff_example =
    assert_bounded_json_value_iff eleven canonical_json_limits value

abbrev call : ℕ → LlmUsageRecord
call n = record {
  prompt_tokens = some n;
  completion_tokens = some 7;
  reasoning_tokens = none;
  total_tokens = some (n + 7);
  cache_hit_tokens = none;
  cache_miss_tokens = none;
  cache_write_tokens = some 3;
}

summarize-append_example :
    (summarize_execution_usage (call 10 ∷ call 20 ∷ [])
      ≡ add_execution_usage
          (summarize_execution_usage (call 10 ∷ []))
          (summarize_execution_usage (call 20 ∷ [])))
    × IsSafe (summarize_execution_usage (call 10 ∷ []))
summarize-append_example = summarize-append (call 10 ∷ []) (call 20 ∷ [])

abbrev markup : List ℕ
markup = b'<' ∷ b'a' ∷ b'&' ∷ b'l' ∷ b't' ∷ b';' ∷ b'>' ∷ []

abbrev tag_name : List ℕ
tag_name = b't' ∷ []

rendered :
    render_tagged_text tag_name markup
    ≡ ok (opening tag_name ++ (escape_xml_text (trim markup) ++ closing tag_name))
unfolding render_tagged_text is_xml_name
rendered = refl

unwrap-render_example :
    let block = opening tag_name ++ (escape_xml_text (trim markup) ++ closing tag_name) in
    ((inner : List ℕ) × (block ≡ opening tag_name ++ (inner ++ closing tag_name))
      × All (λ c. (c ≢ b'<') × (c ≢ b'>')) inner)
    × (unwrap_tagged_text tag_name block ≡ ok (some (trim markup)))
unwrap-render_example =
    unwrap-render tag_name markup
      (opening tag_name ++ (escape_xml_text (trim markup) ++ closing tag_name)) rendered
