-- ===== src/Usage/Sums.antt =====
-- Incremental totals, totals of totals, and totals of a whole list agree.
use zch_coding_agent.Base.{
  ℕ, ◌≤◌, ◌≡◌, refl, sym, ap, ◌∙◌, Option, none, some, List, [], ◌∷◌, ◌++◌, arith, nat_eq,
  string_eq,
}
use zch_coding_agent.Usage.{
  max_safe_integer, AgentExecutionUsageSummary, LlmUsageRecord, empty_execution_usage, add_count,
  add_optional, or_zero, add_execution_usage, add_execution_usage_record, add_records,
  summarize_execution_usage,
}

-- No field is above the ceiling.
pub record IsSafe (u : AgentExecutionUsageSummary) : Type 0 where
  pub records : u.records ≤ max_safe_integer
  pub prompt_tokens : u.prompt_tokens ≤ max_safe_integer
  pub completion_tokens : u.completion_tokens ≤ max_safe_integer
  pub reasoning_tokens : u.reasoning_tokens ≤ max_safe_integer
  pub total_tokens : u.total_tokens ≤ max_safe_integer
  pub cache_hit_tokens : u.cache_hit_tokens ≤ max_safe_integer
  pub cache_miss_tokens : u.cache_miss_tokens ≤ max_safe_integer
  pub cache_write_tokens : or_zero u.cache_write_tokens ≤ max_safe_integer

add_optional-safe :
    (a b : Option ℕ) → or_zero a ≤ max_safe_integer → or_zero (add_optional a b) ≤ max_safe_integer
add_optional-safe a none h = h
add_optional-safe a (some n) h = omega arith

record-IsSafe :
    (u : AgentExecutionUsageSummary) (c : LlmUsageRecord)
    → IsSafe u
    → IsSafe (add_execution_usage_record u c)
unfolding add_execution_usage_record
record-IsSafe u c h = record {
  records = omega arith;
  prompt_tokens = omega arith;
  completion_tokens = omega arith;
  reasoning_tokens = omega arith;
  total_tokens = omega arith;
  cache_hit_tokens = omega arith;
  cache_miss_tokens = omega arith;
  cache_write_tokens =
      add_optional-safe u.cache_write_tokens c.cache_write_tokens h.cache_write_tokens;
}

add_records-IsSafe :
    (u : AgentExecutionUsageSummary) (cs : List LlmUsageRecord)
    → IsSafe u
    → IsSafe (add_records u cs)
unfolding add_records
add_records-IsSafe u [] h = h
add_records-IsSafe u (c ∷ cs) h =
    add_records-IsSafe (add_execution_usage_record u c) cs (record-IsSafe u c h)

add_optional_assoc :
    (a b c : Option ℕ) → add_optional a (add_optional b c) ≡ add_optional (add_optional a b) c
add_optional_assoc a b none = refl
add_optional_assoc a none (some n) = ap some (omega arith)
add_optional_assoc none (some m) (some n) = ap some (omega arith)
add_optional_assoc (some k) (some m) (some n) = ap some (omega arith)

add_count_assoc : (a b c : ℕ) → add_count a (add_count b c) ≡ add_count (add_count a b) c
add_count_assoc a b c = omega arith

-- Adding a call to the source of a sum is adding it to the sum.
usage-record_assoc :
    (u v : AgentExecutionUsageSummary) (c : LlmUsageRecord)
    → add_execution_usage u (add_execution_usage_record v c)
      ≡ add_execution_usage_record (add_execution_usage u v) c
unfolding add_execution_usage add_execution_usage_record
usage-record_assoc u v c = λ i. record {
  records = add_count_assoc u.records v.records 1 i;
  prompt_tokens = add_count_assoc u.prompt_tokens v.prompt_tokens (or_zero c.prompt_tokens) i;
  completion_tokens =
      add_count_assoc u.completion_tokens v.completion_tokens (or_zero c.completion_tokens) i;
  reasoning_tokens =
      add_count_assoc u.reasoning_tokens v.reasoning_tokens (or_zero c.reasoning_tokens) i;
  total_tokens = add_count_assoc u.total_tokens v.total_tokens (or_zero c.total_tokens) i;
  cache_hit_tokens =
      add_count_assoc u.cache_hit_tokens v.cache_hit_tokens (or_zero c.cache_hit_tokens) i;
  cache_miss_tokens =
      add_count_assoc u.cache_miss_tokens v.cache_miss_tokens (or_zero c.cache_miss_tokens) i;
  cache_write_tokens =
      add_optional_assoc u.cache_write_tokens v.cache_write_tokens c.cache_write_tokens i;
}

usage-add_records :
    (u v : AgentExecutionUsageSummary) (cs : List LlmUsageRecord)
    → add_execution_usage u (add_records v cs) ≡ add_records (add_execution_usage u v) cs
unfolding add_records
usage-add_records u v [] = refl
usage-add_records u v (c ∷ cs) =
    usage-add_records u (add_execution_usage_record v c) cs
    ∙ ap (λ w. add_records w cs) (usage-record_assoc u v c)

add_count-zero : (n : ℕ) → n ≤ max_safe_integer → add_count n 0 ≡ n
add_count-zero n h = omega arith

usage-empty :
    (u : AgentExecutionUsageSummary) → IsSafe u → add_execution_usage u empty_execution_usage ≡ u
unfolding add_execution_usage empty_execution_usage
usage-empty u h = λ i. record {
  records = add_count-zero u.records h.records i;
  prompt_tokens = add_count-zero u.prompt_tokens h.prompt_tokens i;
  completion_tokens = add_count-zero u.completion_tokens h.completion_tokens i;
  reasoning_tokens = add_count-zero u.reasoning_tokens h.reasoning_tokens i;
  total_tokens = add_count-zero u.total_tokens h.total_tokens i;
  cache_hit_tokens = add_count-zero u.cache_hit_tokens h.cache_hit_tokens i;
  cache_miss_tokens = add_count-zero u.cache_miss_tokens h.cache_miss_tokens i;
  cache_write_tokens = u.cache_write_tokens;
}

add_records-append :
    (u : AgentExecutionUsageSummary) (xs ys : List LlmUsageRecord)
    → add_records u (xs ++ ys) ≡ add_records (add_records u xs) ys
unfolding add_records
add_records-append u [] ys = refl
add_records-append u (x ∷ xs) ys = add_records-append (add_execution_usage_record u x) xs ys

empty-IsSafe : IsSafe empty_execution_usage
unfolding empty_execution_usage
empty-IsSafe = omega arith

-- The summary of two batches of calls is the sum of their summaries, also where counts have
-- reached the ceiling, and no count of a summary is above the ceiling.
pub summarize-append :
    (xs ys : List LlmUsageRecord)
    → (summarize_execution_usage (xs ++ ys)
        ≡ add_execution_usage (summarize_execution_usage xs) (summarize_execution_usage ys))
      × IsSafe (summarize_execution_usage xs)
unfolding summarize_execution_usage
summarize-append xs ys =
    let safe = add_records-IsSafe empty_execution_usage xs empty-IsSafe in
    (
      add_records-append empty_execution_usage xs ys
          ∙ ap (λ u. add_records u ys)
              (sym (usage-empty (add_records empty_execution_usage xs) safe))
          ∙ sym (usage-add_records (add_records empty_execution_usage xs) empty_execution_usage ys),
      safe,
    )
