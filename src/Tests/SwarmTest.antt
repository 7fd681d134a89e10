-- ===== src/Tests/SwarmTest.antt =====
-- A job's result that is too large.
use zch_coding_agent.Base.{
  ℕ, ◌+◌, false, none, some, List, [], ◌∷◌, length, nat_eq, string_eq, option_eq,
}
use zch_coding_agent.Json.{null}
use zch_coding_agent.Swarm.Results.{
  Platform, SwarmAgentResult, SwarmRunResult, original, bound_result,
}
use zch_coding_agent.Swarm.Results.Bound.{IsBounded, bound_result-IsBounded}

abbrev units : List SwarmAgentResult → ℕ
units [] = 0
units (entry ∷ entries) = length (original entry) + units entries

-- Every code unit of a text is a byte, and what stands around the texts leaves room for one.
abbrev platform : Platform
platform = record {
  encode = λ content. content;
  decode = λ bytes. bytes;
  json_bytes = λ result. 1_999_999 + units result.results;
}

abbrev too_large : SwarmRunResult
too_large = record {
  summary = null;
  results =
      record {
        fields = null;
        response = some (104 ∷ 105 ∷ []);
        error_message = none;
        truncated = false;
      }
      ∷ [];
}

bound_result-IsBounded_example : IsBounded platform too_large (bound_result platform too_large)
bound_result-IsBounded_example = bound_result-IsBounded platform too_large
