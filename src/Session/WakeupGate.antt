-- ===== src/Session/WakeupGate.antt =====
-- electron/session/background-wakeup-gate.ts: which Sessions a background event may wake. An epoch,
-- which the source makes as a new object, is a number that was not used before.
pub mod Phases
use zch_coding_agent.Base.{
  ℕ, suc, Bool, ◌&&◌, Option, some, List, [], if◌then◌else◌, ◌==◌, nat_eq, string_eq, option_eq,
  String,
}
use zch_coding_agent.Base.Maps.{lookup, insert, delete}

pub record BackgroundWakeupGate : Type 0 where
  pub epochs : List (String × ℕ)
  pub eligible : List (String × ℕ)
  pub next_epoch : ℕ

abbrev pub empty_gate : BackgroundWakeupGate
empty_gate = record { epochs = []; eligible = []; next_epoch = 0 }

unfoldable pub invalidate : String → BackgroundWakeupGate → BackgroundWakeupGate × ℕ
invalidate session gate = (
  record {
    epochs = insert session gate.next_epoch gate.epochs;
    eligible = delete session gate.eligible;
    next_epoch = suc gate.next_epoch;
  },
  gate.next_epoch,
)

unfoldable pub valid : String → ℕ → BackgroundWakeupGate → Bool
valid session epoch gate = lookup session gate.epochs == some epoch

unfoldable pub settled : String → ℕ → (natural : Bool) → BackgroundWakeupGate → BackgroundWakeupGate
settled session epoch natural gate =
    if natural && lookup session gate.epochs == some epoch
    then record gate { eligible = insert session epoch gate.eligible }
    else gate

unfoldable pub claim : String → BackgroundWakeupGate → BackgroundWakeupGate × Option ℕ
claim session gate =
    (record gate { eligible = delete session gate.eligible }, lookup session gate.eligible)

unfoldable pub forget : String → BackgroundWakeupGate → BackgroundWakeupGate
forget session gate = record gate {
  epochs = delete session gate.epochs;
  eligible = delete session gate.eligible;
}
