-- ===== src/Subagent/Deadline/Meter.antt =====
-- A meter of the time for which a worker is active, which knows nothing of the deadline.
use zch_coding_agent.Base.{
  ℕ, ◌+◌, ◌-◌, ◌≤◌, ◌≡◌, Bool, true, false, Option, none, some, List, [], ◌∷◌, nat_eq, string_eq,
  option_eq,
}
use zch_coding_agent.Subagent.Deadline.{
  RunStatus, idle, calling_llm, evaluating_tools, awaiting_approval, running_tools, paused,
  cancelling, completed, cancelled, failed, WorkerDeadline, phase, reset, dispose, fire,
}

pub data Call : Type 0 where
  at_phase : RunStatus → Call
  at_reset at_dispose at_fire : Call

abbrev pub perform : ℕ → Call → WorkerDeadline → WorkerDeadline
perform now (at_phase status) d = phase now status d
perform now at_reset d = reset now d
perform now at_dispose d = dispose d
perform now at_fire d = fire now d

-- A worker is active while it calls the model or has tools to evaluate or to run, and between these.
abbrev pub is_working : RunStatus → Bool
is_working idle = true
is_working calling_llm = true
is_working evaluating_tools = true
is_working running_tools = true
is_working awaiting_approval = false
is_working paused = false
is_working cancelling = false
is_working completed = false
is_working cancelled = false
is_working failed = false

-- The active time since the last reset up to the last pause, and since when the worker is active.
pub record Meter : Type 0 where
  pub used : ℕ
  pub since : Option ℕ

abbrev pub measured : ℕ → Bool → Meter → Option ℕ → Meter
measured now true m none = record m { since = some now }
measured now false m (some start) = record { used = m.used + (now - start); since = none }
measured now _ m _ = m

abbrev pub measure : ℕ → Call → Meter → Meter
measure now (at_phase status) m = measured now (is_working status) m m.since
measure now at_reset m = record { used = 0; since = some now }
measure now _ m = m

-- The active time in all, for a worker that is active.
abbrev pub IsUsedUp : ℕ → ℕ → Meter → Type 0
IsUsedUp allowance now m =
    (start : ℕ) × (m.since ≡ some start) × (allowance ≤ m.used + (now - start))

abbrev pub perform_all : List (ℕ × Call) → WorkerDeadline → WorkerDeadline
perform_all [] d = d
perform_all ((now, c) ∷ cs) d = perform_all cs (perform now c d)

abbrev pub measure_all : List (ℕ × Call) → Meter → Meter
measure_all [] m = m
measure_all ((now, c) ∷ cs) m = measure_all cs (measure now c m)

-- Times that do not go back, up to a last one.
abbrev pub IsAscending : ℕ → List (ℕ × Call) → ℕ → Type 0
IsAscending from [] to = from ≤ to
IsAscending from ((now, c) ∷ cs) to = (from ≤ now) × IsAscending now cs to
