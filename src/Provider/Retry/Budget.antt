-- ===== src/Provider/Retry/Budget.antt =====
-- A retry budget is spent by every retry, so that retries end.
use zch_coding_agent.Base.{
  ℕ, ◌+◌, ◌-◌, ◌≤◌, ◌≡◌, refl, subst, inl, inr, Bool, true, false, Option, none, some, List, [],
  ◌∷◌, arith, leb, if◌then◌else◌, Bool-cases, Option-cases, length, ◌==◌, nat_eq, string_eq, String,
}
use zch_coding_agent.Base.Preds.{All}
use zch_coding_agent.Provider.Retry.{
  max_provider_retry_delay_ms, non_retryable_provider_codes, transient_provider_codes, has,
  Platform, is_terminal_provider_error_code, is_transient_provider_error_code, RetryAfter,
  milliseconds, unusable, provider_retry_delay, TransportCode, aborted, http_error, invalid_sse,
  invalid_json, network_error, timed_out, TransportError, rejected, incomplete, invalid, Thrown,
  request_error, compact_completion_error, completion_error, stream_incomplete, type_error, other,
  transport_error, ProviderTurnRetryBudget, create_provider_turn_retry_budget,
  transient_turn_decision, invalid_turn_decision, retryable_turn_failure, retryable_compact_failure,
  turn_transport_decision, provider_turn_retry_decision, CompactRetryBudget, CompactRetryDecision,
  create_compact_retry_budget, transient_compact_decision, incomplete_compact_decision,
  invalid_compact_decision, compact_transport_decision, compact_retry_decision,
}

provider_retry_delay-le :
    (p : Platform) (r : Option RetryAfter) (n : ℕ) {d : ℕ}
    → provider_retry_delay p r n ≡ some d
    → d ≤ max_provider_retry_delay_ms
unfolding provider_retry_delay
provider_retry_delay-le p none n h = ground arith
provider_retry_delay-le p (some unusable) n h = absurd cc
provider_retry_delay-le p (some (milliseconds ms)) n h = ground arith

abbrev unspent : Bool → ℕ
unspent true = 0
unspent false = 1

-- The retries that a budget still grants.
abbrev left_turn : ProviderTurnRetryBudget → ℕ
left_turn b = (2 - b.transient_retries) + unspent b.invalid_completion_retried

abbrev left_compact : CompactRetryBudget → ℕ
left_compact b =
    (2 - b.transient_retries) + unspent b.incomplete_retried + unspent b.invalid_retried

-- A decision refuses and keeps the budget, or grants a delay within the limit and spends one retry.
abbrev Spends : {B D : Type 0} → (B → ℕ) → (D → ℕ) → B → Option D × B → Type 0
Spends left delay b (none, b') = b' ≡ b
Spends left delay b (some d, b') = (delay d ≤ max_provider_retry_delay_ms) × (left b' + 1 ≡ left b)

abbrev same : ℕ → ℕ
same d = d

transient_turn-Spends :
    (p : Platform) (r : Option RetryAfter) (b : ProviderTurnRetryBudget)
    → Spends left_turn same b (transient_turn_decision p r b)
unfolding transient_turn_decision
transient_turn-Spends p r b = elim (Bool-cases (leb 2 b.transient_retries)) [
  | inl e ↦ rw e refl
  | inr e ↦ elim (Option-cases (provider_retry_delay p r (b.transient_retries + 1))) [
    | inl n ↦ rw (e, n) refl
    | inr (d, g) ↦ rw (e, g) (provider_retry_delay-le p r (b.transient_retries + 1) g, ground arith)
  ]
]

invalid_turn-Spends :
    (b : ProviderTurnRetryBudget) → Spends left_turn same b (invalid_turn_decision b)
unfolding invalid_turn_decision
invalid_turn-Spends b = elim (Bool-cases b.invalid_completion_retried) [
  | inl e ↦ rw e refl
  | inr e ↦ rw e (omega arith, omega arith)
]

turn_transport-Spends :
    (p : Platform) (error : TransportError) (code : TransportCode) (b : ProviderTurnRetryBudget)
    → Spends left_turn same b (turn_transport_decision p error code b)
unfolding turn_transport_decision
turn_transport-Spends p error aborted b = refl
turn_transport-Spends p error invalid_json b = invalid_turn-Spends b
turn_transport-Spends p error invalid_sse b = invalid_turn-Spends b
turn_transport-Spends p error network_error b = transient_turn-Spends p error.retry_after b
turn_transport-Spends p error timed_out b = transient_turn-Spends p error.retry_after b
turn_transport-Spends p error http_error b = elim (Bool-cases (retryable_turn_failure p error)) [
  | inl e ↦ rw e (transient_turn-Spends p error.retry_after b)
  | inr e ↦ rw e refl
]

turn-Spends :
    (p : Platform) (thrown : Thrown) (b : ProviderTurnRetryBudget)
    → Spends left_turn same b (provider_turn_retry_decision p thrown b)
unfolding provider_turn_retry_decision
turn-Spends p (request_error code) b = elim (Bool-cases (is_transient_provider_error_code p code)) [
  | inl e ↦ rw e (transient_turn-Spends p none b)
  | inr e ↦ rw e refl
]
turn-Spends p (compact_completion_error f) b = invalid_turn-Spends b
turn-Spends p completion_error b = invalid_turn-Spends b
turn-Spends p stream_incomplete b = invalid_turn-Spends b
turn-Spends p type_error b = refl
turn-Spends p other b = refl
turn-Spends p (transport_error error) b = turn_transport-Spends p error error.code b

abbrev delay : CompactRetryDecision → ℕ
delay d = d.delay_ms

transient_compact-Spends :
    (p : Platform) (r : Option RetryAfter) (b : CompactRetryBudget)
    → Spends left_compact delay b (transient_compact_decision p r b)
unfolding transient_compact_decision
transient_compact-Spends p r b = elim (Bool-cases (leb 2 b.transient_retries)) [
  | inl e ↦ rw e refl
  | inr e ↦ elim (Option-cases (provider_retry_delay p r (b.transient_retries + 1))) [
    | inl n ↦ rw (e, n) refl
    | inr (d, g) ↦ rw (e, g) (provider_retry_delay-le p r (b.transient_retries + 1) g, ground arith)
  ]
]

incomplete_compact-Spends :
    (b : CompactRetryBudget) → Spends left_compact delay b (incomplete_compact_decision b)
unfolding incomplete_compact_decision
incomplete_compact-Spends b = elim (Bool-cases b.incomplete_retried) [
  | inl e ↦ rw e refl
  | inr e ↦ rw e (omega arith, omega arith)
]

invalid_compact-Spends :
    (b : CompactRetryBudget) → Spends left_compact delay b (invalid_compact_decision b)
unfolding invalid_compact_decision
invalid_compact-Spends b = elim (Bool-cases b.invalid_retried) [
  | inl e ↦ rw e refl
  | inr e ↦ rw e (omega arith, omega arith)
]

compact_transport-Spends :
    (p : Platform) (error : TransportError) (code : TransportCode) (b : CompactRetryBudget)
    → Spends left_compact delay b (compact_transport_decision p error code b)
unfolding compact_transport_decision
compact_transport-Spends p error aborted b = refl
compact_transport-Spends p error invalid_json b = invalid_compact-Spends b
compact_transport-Spends p error invalid_sse b = invalid_compact-Spends b
compact_transport-Spends p error network_error b = transient_compact-Spends p error.retry_after b
compact_transport-Spends p error timed_out b = transient_compact-Spends p error.retry_after b
compact_transport-Spends p error http_error b =
    elim (Bool-cases (retryable_compact_failure p error)) [
      | inl e ↦ rw e (transient_compact-Spends p error.retry_after b)
      | inr e ↦ rw e refl
    ]

compact-Spends :
    (p : Platform) (thrown : Thrown) (b : CompactRetryBudget)
    → Spends left_compact delay b (compact_retry_decision p thrown b)
unfolding compact_retry_decision
compact-Spends p (request_error code) b =
    elim (Bool-cases (is_transient_provider_error_code p code)) [
      | inl e ↦ rw e (transient_compact-Spends p none b)
      | inr e ↦ rw e refl
    ]
compact-Spends p (compact_completion_error rejected) b = refl
compact-Spends p (compact_completion_error incomplete) b = incomplete_compact-Spends b
compact-Spends p (compact_completion_error invalid) b = invalid_compact-Spends b
compact-Spends p completion_error b = invalid_compact-Spends b
compact-Spends p stream_incomplete b = invalid_compact-Spends b
compact-Spends p type_error b = invalid_compact-Spends b
compact-Spends p other b = refl
compact-Spends p (transport_error error) b = compact_transport-Spends p error error.code b

-- The retries that a sequence of failures is granted on one budget.
abbrev pub granted : {B D : Type 0} → (Thrown → B → Option D × B) → List Thrown → B → List D
granted decide [] b = []
granted decide (thrown ∷ errors) b =
    let (decision, after) = decide thrown b in
    let rest = granted decide errors after in elim decision [ none ↦ rest | some d ↦ d ∷ rest ]

module _ {B D : Type 0} (decide : Thrown → B → Option D × B) (left : B → ℕ) (wait : D → ℕ)
    (spends : (thrown : Thrown) (b : B) → Spends left wait b (decide thrown b)) where
  abbrev IsBounded : B → List D → Type 0
  IsBounded b ds = (length ds ≤ left b) × All (λ d. wait d ≤ max_provider_retry_delay_ms) ds

  next-IsBounded :
      (b : B) (out : Option D × B) (rest : List D)
      → Spends left wait b out
      → IsBounded (out.1) rest
      → IsBounded b (elim (out.0) [ none ↦ rest | some d ↦ d ∷ rest ])
  next-IsBounded b (none, after) rest e h = subst (λ c. IsBounded c rest) e h
  next-IsBounded b (some d, after) rest (short, spent) (few, all) = (omega arith, (short, all))

  granted-IsBounded : (errors : List Thrown) (b : B) → IsBounded b (granted decide errors b)
  granted-IsBounded [] b = (omega arith, tt)
  granted-IsBounded (thrown ∷ errors) b =
      next-IsBounded b (decide thrown b) _ (spends thrown b)
        (granted-IsBounded errors ((decide thrown b).1))

-- Whatever failures one model turn meets, at most three of them are followed by a retry, and no
-- retry waits for more than a minute.
pub turn_retries-bounded :
    (p : Platform) (errors : List Thrown)
    → let delays =
        granted (provider_turn_retry_decision p) errors create_provider_turn_retry_budget in
      (length delays ≤ 3) × All (λ d. d ≤ 60_000) delays
unfolding create_provider_turn_retry_budget
turn_retries-bounded p errors =
    granted-IsBounded (provider_turn_retry_decision p) left_turn same (turn-Spends p) errors
      create_provider_turn_retry_budget

-- Whatever failures one compaction meets, at most four of them are followed by a retry, and no
-- retry waits for more than a minute.
pub compact_retries-bounded :
    (p : Platform) (errors : List Thrown)
    → let decisions = granted (compact_retry_decision p) errors create_compact_retry_budget in
      (length decisions ≤ 4) × All (λ d. d.delay_ms ≤ 60_000) decisions
unfolding create_compact_retry_budget
compact_retries-bounded p errors =
    granted-IsBounded (compact_retry_decision p) left_compact delay (compact-Spends p) errors
      create_compact_retry_budget

-- A code of one list is not in the other.
abbrev are_apart : List String → List String → Bool
are_apart [] ys = true
are_apart (x ∷ xs) ys = if has ys x then false else are_apart xs ys

has-apart :
    (xs ys : List String) (code : String)
    → are_apart xs ys ≡ true
    → has xs code ≡ true
    → has ys code ≡ false
has-apart [] ys code h m = absurd cc
has-apart (x ∷ xs) ys code h m = elim (Bool-cases (x == code)) [
  | inl e ↦ subst (λ z. has ys z ≡ false) (((string_eq.same_iff x code).0) e) (ground arith)
  | inr e ↦ has-apart xs ys code (ground arith) (ground arith)
]

terminal-not-transient :
    (p : Platform) (code : Option String)
    → is_terminal_provider_error_code p code ≡ true
    → is_transient_provider_error_code p code ≡ false
unfolding is_terminal_provider_error_code is_transient_provider_error_code
terminal-not-transient p none h = absurd cc
terminal-not-transient p (some code) h =
    has-apart non_retryable_provider_codes transient_provider_codes (p.to_lower_case code) refl h

-- A refusal that the provider names with a billing, context or policy code, over HTTP or in its
-- stream, is never retried, whatever the status: both decisions are `none`, and the budgets are kept.
pub terminal-refused :
    (p : Platform) (error : TransportError) (turn : ProviderTurnRetryBudget)
    (compact : CompactRetryBudget)
    → is_terminal_provider_error_code p error.provider_error_code ≡ true
    → error.code ≡ http_error
    → (provider_turn_retry_decision p (request_error error.provider_error_code) turn ≡ (none, turn))
      × (provider_turn_retry_decision p (transport_error error) turn ≡ (none, turn))
      × (compact_retry_decision p (request_error error.provider_error_code) compact
          ≡ (none, compact))
      × (compact_retry_decision p (transport_error error) compact ≡ (none, compact))
unfolding provider_turn_retry_decision compact_retry_decision turn_transport_decision
    compact_transport_decision retryable_turn_failure retryable_compact_failure
terminal-refused p error turn compact t h =
    let transient = terminal-not-transient p error.provider_error_code t in
    (rw transient refl, rw (h, t) refl, rw transient refl, rw (h, t) refl)
