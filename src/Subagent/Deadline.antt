-- ===== src/Subagent/Deadline.antt =====
-- electron/subagent/worker-deadline.ts: the class `WorkerDeadline`, the time that a worker may be
-- active. Every call comes with the time of `performance.now()`, in whole units.
pub mod Meter
pub mod Charged
use zch_coding_agent.Base.{ℕ, ◌+◌, ◌-◌, Bool, true, false, ◌&&◌, ◌||◌, [], leb, if◌then◌else◌}

pub data RunStatus : Type 0 where
  idle calling_llm evaluating_tools awaiting_approval running_tools paused cancelling completed
        cancelled failed :
      RunStatus

-- `timer` is whether the timeout is set, which is due when `remaining` has passed since `started_at`.
pub record WorkerDeadline : Type 0 where
  pub allowance : ℕ
  pub remaining : ℕ
  pub started_at : ℕ
  pub active : Bool
  pub expired : Bool
  pub disposed : Bool
  pub timer : Bool

-- What `setActive` does to a deadline that has neither expired nor been disposed of, given whether it
-- is active. A difference below 0 is 0, as `Math.max` makes it.
abbrev pub change : (now : ℕ) → (to : Bool) → (from : Bool) → WorkerDeadline → WorkerDeadline
change now true true d = d
change now false false d = d
change now true false d = record d { active = true; started_at = now; timer = true }
change now false true d = record d {
  remaining = d.remaining - (now - d.started_at);
  active = false;
  timer = false;
}

unfoldable pub set_active : ℕ → Bool → WorkerDeadline → WorkerDeadline
set_active now to d = if d.disposed || d.expired then d else change now to d.active d

unfoldable pub create : (allowance : ℕ) → (now : ℕ) → WorkerDeadline
create allowance now = set_active now true (record {
  allowance = allowance;
  remaining = allowance;
  started_at = 0;
  active = false;
  expired = false;
  disposed = false;
  timer = false;
})

abbrev pub is_charged : RunStatus → Bool
is_charged paused = false
is_charged awaiting_approval = false
is_charged completed = false
is_charged cancelled = false
is_charged cancelling = false
is_charged failed = false
is_charged _ = true

unfoldable pub phase : ℕ → RunStatus → WorkerDeadline → WorkerDeadline
phase now status d = set_active now (is_charged status) d

unfoldable pub reset : ℕ → WorkerDeadline → WorkerDeadline
reset now d =
    set_active now true
      (record d { remaining = d.allowance; expired = false; active = false; timer = false })

unfoldable pub dispose : WorkerDeadline → WorkerDeadline
dispose d = record d { disposed = true; timer = false }

-- The timeout is set and its time has come.
abbrev pub is_due : ℕ → WorkerDeadline → Bool
is_due now d = d.timer && leb (d.started_at + d.remaining) now

-- The timeout's callback, which calls `expire`.
unfoldable pub fire : ℕ → WorkerDeadline → WorkerDeadline
fire now d = if is_due now d then record d { timer = false; active = false; expired = true } else d
