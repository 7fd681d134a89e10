-- ===== src/Subagent/Capacity.antt =====
-- electron/subagent/capacity.ts: the slots of the child workers of each Session. A waiter's promise
-- and its abort signal are one ticket: `aborted` says which signals are aborted, and settling a
-- promise is an event. `held` is a `Map`, its entries in insertion order.
pub mod Reserve
pub mod Limit
pub mod Drain
use zch_coding_agent.Base.{
  ℕ, suc, ◌+◌, Bool, true, false, not, ◌||◌, Option, none, some, List, [], ◌∷◌, ◌++◌, ltb,
  if◌then◌else◌, length, ◌==◌, nat_eq, string_eq, Result, ok, err, String,
}
use zch_coding_agent.Base.Maps.{lookup, insert, delete}

pub record Waiter : Type 0 where
  pub owner : String
  pub execution : String
  pub limit : ℕ
  pub ticket : ℕ

abbrev pub Held : Type 0
Held = List (String × String)

pub record SubagentCapacity : Type 0 where
  pub held : Held
  pub waiting : List Waiter

pub data CapacityError : Type 0 where
  ownership_changed aborted_signal : CapacityError

pub data Event : Type 0 where
  resolved rejected : (ticket : ℕ) → Event

pub empty_capacity : SubagentCapacity
empty_capacity = record { held = []; waiting = [] }

unfoldable pub count : String → Held → ℕ
count owner [] = 0
count owner ((e, o) ∷ held) = let rest = count owner held in if o == owner then suc rest else rest

-- Some id is held by another owner.
unfoldable pub is_foreign : Held → String → List String → Bool
is_foreign held owner [] = false
is_foreign held owner (id ∷ ids) = elim (lookup id held) [
  | none ↦ is_foreign held owner ids
  | some o ↦ not (o == owner) || is_foreign held owner ids
]

unfoldable pub member : String → List String → Bool
member x [] = false
member x (y ∷ ys) = y == x || member x ys

-- `[...new Set(ids)]`, with the ids met so far.
unfoldable pub unique : List String → List String → List String
unique seen [] = []
unique seen (id ∷ ids) = if member id seen then unique seen ids else id ∷ unique (id ∷ seen) ids

-- `.filter((id) => !this.#held.has(id))`.
unfoldable pub not_held : Held → List String → List String
not_held held [] = []
not_held held (id ∷ ids) = elim (lookup id held) [
  | none ↦ id ∷ not_held held ids
  | some o ↦ not_held held ids
]

unfoldable pub set_all : String → List String → Held → Held
set_all owner [] held = held
set_all owner (id ∷ ids) held = set_all owner ids (insert id owner held)

-- `reserve`: its answer and the map after it.
unfoldable pub reserve : Held → String → List String → ℕ → Result CapacityError (Bool × Held)
reserve held owner ids limit =
    let fresh = not_held held (unique [] ids) in
    if is_foreign held owner ids
    then err ownership_changed
    else if ltb limit (count owner held + length fresh)
    then ok (false, held)
    else ok (true, set_all owner fresh held)

-- The rest of the loop of `#drain` over a copy of `#waiting`: the map, the waiters that stay, the
-- events, and the error that ends the loop, where the waiters not reached stay.
unfoldable pub drain :
    (ℕ → Bool) → Held → List Waiter → Held × List Waiter × List Event × Option CapacityError
drain aborted held [] = (held, [], [], none)
drain aborted held (w ∷ ws) =
    if aborted w.ticket
    then (let (held', stay, events, error) = drain aborted held ws in
        (held', stay, rejected w.ticket ∷ events, error))
    else elim (reserve held w.owner (w.execution ∷ []) w.limit) [
      | err e ↦ (held, w ∷ ws, [], some e)
      | ok (false, _) ↦
          let (held', stay, events, error) = drain aborted held ws in
          (held', w ∷ stay, events, error)
      | ok (true, taken) ↦
          let (held', stay, events, error) = drain aborted taken ws in
          (held', stay, resolved w.ticket ∷ events, error)
    ]

unfoldable pub release :
    (ℕ → Bool) → SubagentCapacity → String → SubagentCapacity × List Event × Option CapacityError
release aborted st execution =
    let (held, stay, events, error) = drain aborted (delete execution st.held) st.waiting in
    (record { held = held; waiting = stay }, events, error)

-- `acquire`: the state, the events, and the error that it throws. A signal that is not aborted at
-- the start is not aborted at the end, with no other code in between.
pub acquire :
    (ℕ → Bool) → SubagentCapacity → Waiter → SubagentCapacity × List Event × Option CapacityError
acquire aborted st w =
    if aborted w.ticket
    then (st, [], some aborted_signal)
    else elim (reserve st.held w.owner (w.execution ∷ []) w.limit) [
      | err e ↦ (st, [], some e)
      | ok (true, held) ↦ (record st { held = held }, resolved w.ticket ∷ [], none)
      | ok (false, _) ↦ (record st { waiting = st.waiting ++ (w ∷ []) }, [], none)
    ]

abbrev pub without : ℕ → List Waiter → List Waiter
without ticket [] = []
without ticket (w ∷ ws) = if w.ticket == ticket then ws else w ∷ without ticket ws

-- A waiter's `abort`.
pub abort : SubagentCapacity → ℕ → SubagentCapacity × List Event
abort st ticket = (record st { waiting = without ticket st.waiting }, rejected ticket ∷ [])

-- One call from outside. A call that throws leaves the state that it has made so far.
pub data Operation : Type 0 where
  reserving : (owner : String) → (ids : List String) → (limit : ℕ) → Operation
  acquiring : (aborted : ℕ → Bool) → Waiter → Operation
  releasing : (aborted : ℕ → Bool) → (execution : String) → Operation
  aborting : (ticket : ℕ) → Operation

pub perform : SubagentCapacity → Operation → SubagentCapacity
perform st (reserving owner ids limit) = elim (reserve st.held owner ids limit) [
  | err e ↦ st
  | ok (_, held) ↦ record st { held = held }
]
perform st (acquiring aborted w) = (acquire aborted st w).0
perform st (releasing aborted execution) = (release aborted st execution).0
perform st (aborting ticket) = (abort st ticket).0

pub perform_all : SubagentCapacity → List Operation → SubagentCapacity
perform_all st [] = st
perform_all st (op ∷ ops) = perform_all (perform st op) ops
