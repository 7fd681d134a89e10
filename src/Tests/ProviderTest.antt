-- ===== src/Tests/ProviderTest.antt =====
-- Failures of a provider, retried and not.
use zch_coding_agent.Base.{
  ◌≤◌, ◌≡◌, refl, true, none, some, List, [], ◌∷◌, length, nat_eq, string_eq,
}
use zch_coding_agent.Base.Preds.{All}
use zch_coding_agent.Provider.Retry.{
  Platform, milliseconds, TransportError, http_error, network_error, Thrown, completion_error,
  transport_error, request_error, is_terminal_provider_error_code,
  create_provider_turn_retry_budget, provider_turn_retry_decision, create_compact_retry_budget,
  compact_retry_decision,
}
use zch_coding_agent.Provider.Retry.Budget.{
  granted, turn_retries-bounded, compact_retries-bounded, terminal-refused,
}

abbrev platform : Platform
platform = record { to_lower_case = λ code. code; jittered = λ ms. ms }

abbrev lost : TransportError
lost = record {
  code = network_error;
  status = none;
  retry_after = some (milliseconds 500);
  provider_error_code = none;
}

abbrev unpaid : TransportError
unpaid = record {
  code = http_error;
  status = some 429;
  retry_after = none;
  provider_error_code = some "insufficient_quota";
}

abbrev errors : List Thrown
errors =
    transport_error lost
    ∷ completion_error
    ∷ transport_error lost
    ∷ transport_error lost
    ∷ completion_error
    ∷ []

turn_retries-bounded_example :
    let delays =
      granted (provider_turn_retry_decision platform) errors create_provider_turn_retry_budget in
    (length delays ≤ 3) × All (λ d. d ≤ 60_000) delays
turn_retries-bounded_example = turn_retries-bounded platform errors

compact_retries-bounded_example :
    let decisions = granted (compact_retry_decision platform) errors create_compact_retry_budget in
    (length decisions ≤ 4) × All (λ d. d.delay_ms ≤ 60_000) decisions
compact_retries-bounded_example = compact_retries-bounded platform errors

quota_terminal : is_terminal_provider_error_code platform unpaid.provider_error_code ≡ true
unfolding is_terminal_provider_error_code
quota_terminal = refl

terminal-refused_example :
    (provider_turn_retry_decision platform
        (request_error (some "insufficient_quota"))
        create_provider_turn_retry_budget
      ≡ (none, create_provider_turn_retry_budget))
    × (provider_turn_retry_decision platform
          (transport_error unpaid)
          create_provider_turn_retry_budget
        ≡ (none, create_provider_turn_retry_budget))
    × (compact_retry_decision platform
          (request_error (some "insufficient_quota"))
          create_compact_retry_budget
        ≡ (none, create_compact_retry_budget))
    × (compact_retry_decision platform (transport_error unpaid) create_compact_retry_budget
        ≡ (none, create_compact_retry_budget))
terminal-refused_example =
    terminal-refused platform unpaid create_provider_turn_retry_budget create_compact_retry_budget
      quota_terminal refl
