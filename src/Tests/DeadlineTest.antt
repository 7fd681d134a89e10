-- ===== src/Tests/DeadlineTest.antt =====
-- A worker that waits for an approval while its time runs.
use zch_coding_agent.Base.{
  ℕ, ◌≡◌, ◌↔◌, true, false, some, List, [], ◌∷◌, arith, nat_eq, string_eq, option_eq,
}
use zch_coding_agent.Subagent.Deadline.{awaiting_approval, calling_llm, create, is_due}
use zch_coding_agent.Subagent.Deadline.Meter.{
  Call, at_phase, IsUsedUp, perform_all, measure_all, IsAscending,
}
use zch_coding_agent.Subagent.Deadline.Charged.{perform_all-is_due_iff}

abbrev calls : List (ℕ × Call)
calls = (30, at_phase awaiting_approval) ∷ (90, at_phase calling_llm) ∷ []

in_order : IsAscending 0 calls 160
in_order = (omega arith, (omega arith, omega arith))

perform_all-is_due_iff_example :
    let d = perform_all calls (create 100 0) in
    (is_due 160 d ≡ true) ↔ (
      (d.expired ≡ false)
      × (d.disposed ≡ false)
      × IsUsedUp 100 160 (measure_all calls (record { used = 0; since = some 0 })))
perform_all-is_due_iff_example = perform_all-is_due_iff 100 calls 0 160 in_order
