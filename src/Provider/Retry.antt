-- ===== src/Provider/Retry.antt =====
-- electron/providers/provider-retry-policy.ts, electron/session/session-provider-retry.ts and
-- electron/session/session-compact-retry.ts: whether a failed turn or compaction is tried again,
-- and after how long. A budget, which the source mutates, is a state that goes in and comes out.
pub mod Budget
use zch_coding_agent.Base.{
  ℕ, ◌+◌, ◌-◌, ◌*◌, ◌^◌, min, Bool, true, false, ◌||◌, Option, none, some, List, [], ◌∷◌, leb,
  if◌then◌else◌, ◌==◌, nat_eq, string_eq, String,
}

abbrev pub max_provider_retry_delay_ms : ℕ
max_provider_retry_delay_ms = 60_000

abbrev pub non_retryable_provider_codes : List String
non_retryable_provider_codes =
    "billing_error" ∷ "billing_not_active" ∷ "credit_balance_too_low" ∷ "insufficient_quota"
    ∷ "payment_required" ∷ "organization_spend_limit_exceeded" ∷ "project_spend_limit_exceeded"
    ∷ "organization_usage_limit_exceeded" ∷ "context_length_exceeded" ∷ "input_too_long"
    ∷ "model_context_window_exceeded" ∷ "prompt_too_long" ∷ "misalignment_policy_violation"
    ∷ "content_policy_violation" ∷ "content_filter" ∷ []

abbrev pub transient_provider_codes : List String
transient_provider_codes =
    "slow_down" ∷ "rate_limit_exceeded" ∷ "rate_limit_error" ∷ "server_is_overloaded"
    ∷ "server_error" ∷ "internal_error" ∷ "service_unavailable_error" ∷ []

abbrev pub has : List String → String → Bool
has [] code = false
has (c ∷ cs) code = c == code || has cs code

-- The platform: `toLowerCase`, and `Math.round(fallback + Math.random() * fallback * 0.25)`.
pub record Platform : Type 0 where
  pub to_lower_case : String → String
  pub jittered : ℕ → ℕ

unfoldable pub is_terminal_provider_error_code : Platform → Option String → Bool
is_terminal_provider_error_code p none = false
is_terminal_provider_error_code p (some code) =
    has non_retryable_provider_codes (p.to_lower_case code)

pub is_transient_provider_error_code : Platform → Option String → Bool
is_transient_provider_error_code p none = false
is_transient_provider_error_code p (some code) = has transient_provider_codes (p.to_lower_case code)

-- A delay that a server asks for: its milliseconds rounded up (`Math.ceil`) if it is finite and not
-- negative. A number that is at most 60,000 is so after it is rounded up, and the other way round.
pub data RetryAfter : Type 0 where
  milliseconds : (rounded_up : ℕ) → RetryAfter
  unusable : RetryAfter

pub provider_retry_delay : Platform → Option RetryAfter → ℕ → Option ℕ
provider_retry_delay p (some (milliseconds ms)) retry_number =
    if leb ms max_provider_retry_delay_ms then some ms else none
provider_retry_delay p (some unusable) retry_number = none
provider_retry_delay p none retry_number =
    some (min (p.jittered (250 * 2 ^ (retry_number - 1))) max_provider_retry_delay_ms)

pub data TransportCode : Type 0 where
  aborted http_error invalid_sse invalid_json network_error timed_out : TransportCode

pub record TransportError : Type 0 where
  pub code : TransportCode
  pub status : Option ℕ
  pub retry_after : Option RetryAfter
  pub provider_error_code : Option String

-- A thrown value by the classes that the two decisions test.
pub data CompactFailure : Type 0 where
  rejected incomplete invalid : CompactFailure

pub data Thrown : Type 0 where
  request_error : (provider_error_code : Option String) → Thrown
  compact_completion_error : CompactFailure → Thrown
  completion_error stream_incomplete type_error other : Thrown
  transport_error : TransportError → Thrown

pub record ProviderTurnRetryBudget : Type 0 where
  pub transient_retries : ℕ
  pub invalid_completion_retried : Bool

pub create_provider_turn_retry_budget : ProviderTurnRetryBudget
create_provider_turn_retry_budget = record {
  transient_retries = 0;
  invalid_completion_retried = false;
}

-- `transientRetryDecision`.
pub transient_turn_decision :
    Platform → Option RetryAfter → ProviderTurnRetryBudget → Option ℕ × ProviderTurnRetryBudget
transient_turn_decision p retry_after budget =
    if leb 2 budget.transient_retries
    then (none, budget)
    else elim (provider_retry_delay p retry_after (budget.transient_retries + 1)) [
      | none ↦ (none, budget)
      | some delay ↦ (
        some delay,
        record {
          transient_retries = budget.transient_retries + 1;
          invalid_completion_retried = budget.invalid_completion_retried;
        },
      )
    ]

-- The retry of a completion that is not valid, which is granted once.
pub invalid_turn_decision : ProviderTurnRetryBudget → Option ℕ × ProviderTurnRetryBudget
invalid_turn_decision budget = if budget.invalid_completion_retried then (none, budget) else (
  some 0,
  record { transient_retries = budget.transient_retries; invalid_completion_retried = true },
)

-- `retryableHttpFailure` of session-provider-retry.ts.
pub retryable_turn_failure : Platform → TransportError → Bool
retryable_turn_failure p error =
    if is_terminal_provider_error_code p error.provider_error_code
    then false
    else elim error.status [
      | none ↦ false
      | some status ↦
          status == 408 || status == 409 || status == 425 || status == 429 || leb 500 status
    ]

-- `retryableHttpFailure` of session-compact-retry.ts.
pub retryable_compact_failure : Platform → TransportError → Bool
retryable_compact_failure p error =
    if is_terminal_provider_error_code p error.provider_error_code
    then false
    else elim error.status [
      | none ↦ false
      | some status ↦ status == 408 || status == 429 || leb 500 status
    ]

-- The transport failures, by code; `aborted` is tested first.
pub turn_transport_decision :
    Platform
    → TransportError
    → TransportCode
    → ProviderTurnRetryBudget
    → Option ℕ × ProviderTurnRetryBudget
turn_transport_decision p error aborted budget = (none, budget)
turn_transport_decision p error invalid_json budget = invalid_turn_decision budget
turn_transport_decision p error invalid_sse budget = invalid_turn_decision budget
turn_transport_decision p error network_error budget =
    transient_turn_decision p error.retry_after budget
turn_transport_decision p error timed_out budget =
    transient_turn_decision p error.retry_after budget
turn_transport_decision p error http_error budget =
    if retryable_turn_failure p error
    then transient_turn_decision p error.retry_after budget
    else (none, budget)

-- `providerTurnRetryDecision`: the delay before the next attempt, `none` where there is none, and
-- the budget after it. A compact completion error is a completion error.
pub provider_turn_retry_decision :
    Platform → Thrown → ProviderTurnRetryBudget → Option ℕ × ProviderTurnRetryBudget
provider_turn_retry_decision p (request_error code) budget =
    if is_transient_provider_error_code p code
    then transient_turn_decision p none budget
    else (none, budget)
provider_turn_retry_decision p (compact_completion_error f) budget = invalid_turn_decision budget
provider_turn_retry_decision p completion_error budget = invalid_turn_decision budget
provider_turn_retry_decision p stream_incomplete budget = invalid_turn_decision budget
provider_turn_retry_decision p type_error budget = (none, budget)
provider_turn_retry_decision p other budget = (none, budget)
provider_turn_retry_decision p (transport_error error) budget =
    turn_transport_decision p error error.code budget

pub record CompactRetryBudget : Type 0 where
  pub transient_retries : ℕ
  pub incomplete_retried : Bool
  pub invalid_retried : Bool

pub record CompactRetryDecision : Type 0 where
  pub corrective : Bool
  pub delay_ms : ℕ

pub create_compact_retry_budget : CompactRetryBudget
create_compact_retry_budget = record {
  transient_retries = 0;
  incomplete_retried = false;
  invalid_retried = false;
}

abbrev pub uncorrected : ℕ → CompactRetryDecision
uncorrected delay = record { corrective = false; delay_ms = delay }

-- `transientRetryDecision` of session-compact-retry.ts.
pub transient_compact_decision :
    Platform
    → Option RetryAfter
    → CompactRetryBudget
    → Option CompactRetryDecision × CompactRetryBudget
transient_compact_decision p retry_after budget =
    if leb 2 budget.transient_retries
    then (none, budget)
    else elim (provider_retry_delay p retry_after (budget.transient_retries + 1)) [
      | none ↦ (none, budget)
      | some delay ↦ (
        some (uncorrected delay),
        record {
          transient_retries = budget.transient_retries + 1;
          incomplete_retried = budget.incomplete_retried;
          invalid_retried = budget.invalid_retried;
        },
      )
    ]

pub incomplete_compact_decision :
    CompactRetryBudget → Option CompactRetryDecision × CompactRetryBudget
incomplete_compact_decision budget = if budget.incomplete_retried then (none, budget) else (
  some (record { corrective = true; delay_ms = 0 }),
  record {
    transient_retries = budget.transient_retries;
    incomplete_retried = true;
    invalid_retried = budget.invalid_retried;
  },
)

pub invalid_compact_decision : CompactRetryBudget → Option CompactRetryDecision × CompactRetryBudget
invalid_compact_decision budget = if budget.invalid_retried then (none, budget) else (
  some (uncorrected 0),
  record {
    transient_retries = budget.transient_retries;
    incomplete_retried = budget.incomplete_retried;
    invalid_retried = true;
  },
)

pub compact_transport_decision :
    Platform
    → TransportError
    → TransportCode
    → CompactRetryBudget
    → Option CompactRetryDecision × CompactRetryBudget
compact_transport_decision p error aborted budget = (none, budget)
compact_transport_decision p error invalid_json budget = invalid_compact_decision budget
compact_transport_decision p error invalid_sse budget = invalid_compact_decision budget
compact_transport_decision p error network_error budget =
    transient_compact_decision p error.retry_after budget
compact_transport_decision p error timed_out budget =
    transient_compact_decision p error.retry_after budget
compact_transport_decision p error http_error budget =
    if retryable_compact_failure p error
    then transient_compact_decision p error.retry_after budget
    else (none, budget)

-- `compactRetryDecision`. The error of an incomplete stream is a `TypeError`.
pub compact_retry_decision :
    Platform → Thrown → CompactRetryBudget → Option CompactRetryDecision × CompactRetryBudget
compact_retry_decision p (request_error code) budget =
    if is_transient_provider_error_code p code
    then transient_compact_decision p none budget
    else (none, budget)
compact_retry_decision p (compact_completion_error rejected) budget = (none, budget)
compact_retry_decision p (compact_completion_error incomplete) budget =
    incomplete_compact_decision budget
compact_retry_decision p (compact_completion_error invalid) budget = invalid_compact_decision budget
compact_retry_decision p completion_error budget = invalid_compact_decision budget
compact_retry_decision p stream_incomplete budget = invalid_compact_decision budget
compact_retry_decision p type_error budget = invalid_compact_decision budget
compact_retry_decision p other budget = (none, budget)
compact_retry_decision p (transport_error error) budget =
    compact_transport_decision p error error.code budget
