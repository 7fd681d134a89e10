-- ===== src/Usage.antt =====
-- shared/execution-usage.ts: the usage totals of an Agent execution, and their saturating sums.
-- `MAX_SAFE_INTEGER` is the ceiling; `cacheWriteTokens` stays absent until it is reported.
pub mod Sums
use zch_coding_agent.Base.{ℕ, ◌+◌, min, Option, none, some, List, [], ◌∷◌}

abbrev pub max_safe_integer : ℕ
max_safe_integer = 9_007_199_254_740_991

pub record AgentExecutionUsageSummary : Type 0 where
  pub records : ℕ
  pub prompt_tokens : ℕ
  pub completion_tokens : ℕ
  pub reasoning_tokens : ℕ
  pub total_tokens : ℕ
  pub cache_hit_tokens : ℕ
  pub cache_miss_tokens : ℕ
  pub cache_write_tokens : Option ℕ

-- The metrics of one call, each of which a provider may leave out.
pub record LlmUsageRecord : Type 0 where
  pub prompt_tokens : Option ℕ
  pub completion_tokens : Option ℕ
  pub reasoning_tokens : Option ℕ
  pub total_tokens : Option ℕ
  pub cache_hit_tokens : Option ℕ
  pub cache_miss_tokens : Option ℕ
  pub cache_write_tokens : Option ℕ

pub empty_execution_usage : AgentExecutionUsageSummary
empty_execution_usage = record {
  records = 0;
  prompt_tokens = 0;
  completion_tokens = 0;
  reasoning_tokens = 0;
  total_tokens = 0;
  cache_hit_tokens = 0;
  cache_miss_tokens = 0;
  cache_write_tokens = none;
}

-- `Math.min(Number.MAX_SAFE_INTEGER, (target ?? 0) + source)`.
abbrev pub add_count : ℕ → ℕ → ℕ
add_count target source = min max_safe_integer (target + source)

abbrev pub or_zero : Option ℕ → ℕ
or_zero none = 0
or_zero (some n) = n

-- A field that the source lacks is passed over.
abbrev pub add_optional : Option ℕ → Option ℕ → Option ℕ
add_optional target none = target
add_optional target (some source) = some (add_count (or_zero target) source)

-- `addExecutionUsage`: the new target.
pub add_execution_usage :
    AgentExecutionUsageSummary → AgentExecutionUsageSummary → AgentExecutionUsageSummary
add_execution_usage target source = record {
  records = add_count target.records source.records;
  prompt_tokens = add_count target.prompt_tokens source.prompt_tokens;
  completion_tokens = add_count target.completion_tokens source.completion_tokens;
  reasoning_tokens = add_count target.reasoning_tokens source.reasoning_tokens;
  total_tokens = add_count target.total_tokens source.total_tokens;
  cache_hit_tokens = add_count target.cache_hit_tokens source.cache_hit_tokens;
  cache_miss_tokens = add_count target.cache_miss_tokens source.cache_miss_tokens;
  cache_write_tokens = add_optional target.cache_write_tokens source.cache_write_tokens;
}

-- `addExecutionUsageRecord`: a call counts as one record, a metric that it lacks as 0.
pub add_execution_usage_record :
    AgentExecutionUsageSummary → LlmUsageRecord → AgentExecutionUsageSummary
add_execution_usage_record target call = record {
  records = add_count target.records 1;
  prompt_tokens = add_count target.prompt_tokens (or_zero call.prompt_tokens);
  completion_tokens = add_count target.completion_tokens (or_zero call.completion_tokens);
  reasoning_tokens = add_count target.reasoning_tokens (or_zero call.reasoning_tokens);
  total_tokens = add_count target.total_tokens (or_zero call.total_tokens);
  cache_hit_tokens = add_count target.cache_hit_tokens (or_zero call.cache_hit_tokens);
  cache_miss_tokens = add_count target.cache_miss_tokens (or_zero call.cache_miss_tokens);
  cache_write_tokens = add_optional target.cache_write_tokens call.cache_write_tokens;
}

-- The loop of `summarizeExecutionUsage`.
pub add_records : AgentExecutionUsageSummary → List LlmUsageRecord → AgentExecutionUsageSummary
add_records total [] = total
add_records total (call ∷ calls) = add_records (add_execution_usage_record total call) calls

pub summarize_execution_usage : List LlmUsageRecord → AgentExecutionUsageSummary
summarize_execution_usage calls = add_records empty_execution_usage calls
