-- ===== src/Tests/SubagentTest.antt =====
-- Two workers and a limit of one.
use zch_coding_agent.Base.{
  ℕ, ◌≤◌, ◌≡◌, refl, Bool, true, false, none, some, List, [], ◌∷◌, arith, nat_eq, string_eq, ok,
  String,
}
use zch_coding_agent.Base.Preds.{All}
use zch_coding_agent.Base.Maps.{lookup, insert, delete}
use zch_coding_agent.Subagent.Capacity.{
  Waiter, Held, SubagentCapacity, empty_capacity, count, member, is_foreign, unique, not_held,
  set_all, drain, reserve, release, Operation, reserving, acquiring, releasing, perform_all,
}
use zch_coding_agent.Subagent.Capacity.Reserve.{reserve-atomic}
use zch_coding_agent.Subagent.Capacity.Limit.{perform_all-limit}
use zch_coding_agent.Subagent.Capacity.Drain.{IsStuck, release-IsStuck}

abbrev live : ℕ → Bool
live ticket = false

abbrev waiter : String → ℕ → Waiter
waiter execution ticket = record { owner = "s"; execution = execution; limit = 1; ticket = ticket }

abbrev calls : List Operation
calls =
    reserving "s" ("a" ∷ []) 1
    ∷ acquiring live (waiter "b" 0)
    ∷ acquiring live (waiter "c" 1)
    ∷ releasing live "a"
    ∷ []

perform_all-limit_example : count "s" (perform_all empty_capacity calls).held ≤ 1
perform_all-limit_example =
    perform_all-limit "s" 1 calls
      ((λ e. omega arith), ((λ e. omega arith), ((λ e. omega arith), (tt, tt))))

abbrev busy : SubagentCapacity
busy = record { held = ("a", "s") ∷ []; waiting = waiter "b" 0 ∷ waiter "c" 1 ∷ [] }

released : (release live busy "a").2 ≡ none
unfolding release drain reserve is_foreign unique member not_held count set_all lookup insert delete
released = refl

release-IsStuck_example :
    let after = (release live busy "a").0 in
    All (λ w. (live w.ticket ≡ false) × IsStuck after.held w) after.waiting
release-IsStuck_example = release-IsStuck live busy "a" released

abbrev one_held : Held
one_held = ("a", "s") ∷ []

abbrev two_held : Held
two_held = ("a", "s") ∷ ("b", "s") ∷ []

reserved : reserve one_held "s" ("a" ∷ "b" ∷ "b" ∷ []) 2 ≡ ok (true, two_held)
unfolding reserve is_foreign unique member not_held count set_all lookup insert
reserved = refl

reserve-atomic_example :
    ((k : String) → member k ("a" ∷ "b" ∷ "b" ∷ []) ≡ true → lookup k two_held ≡ some "s")
    × ((k o : String) → lookup k one_held ≡ some o → lookup k two_held ≡ some o)
    × (count "s" two_held ≤ 2)
reserve-atomic_example = reserve-atomic one_held "s" ("a" ∷ "b" ∷ "b" ∷ []) 2 two_held reserved
