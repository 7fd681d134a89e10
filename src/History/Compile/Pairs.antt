-- ===== src/History/Compile/Pairs.antt =====
-- The pairing of calls and results, one record at a time.
use text.Mathlib.TextEquality.{eq_iff}
use zch_coding_agent.Base.{
  ◌≡◌, refl, sym, subst, inl, inr, Option, none, some, List, [], ◌∷◌, ◌++◌, arith, Option-cases,
  nat_eq, string_eq, ok, >>=-eq-ok, throw_if-eq-ok, String,
}
use zch_coding_agent.Message.{MessageRecord, Body, assistant_turn, contains}
use zch_coding_agent.History.Compile.{
  Pairing, result_call, turn_calls, rest_pending, register_calls, duplicate_call, answer,
  open_batch, pair_tools,
}
use zch_coding_agent.History.Compile.Grammar.{AllNew, Answers, Turns}

-- The names of a list, put one by one in front of those seen.
abbrev pub pushed : List String → List String → List String
pushed seen [] = seen
pushed seen (s ∷ ss) = pushed (s ∷ seen) ss

pub AllNew-append :
    (seen xs ys : List String)
    → AllNew seen xs
    → AllNew (pushed seen xs) ys
    → AllNew seen (xs ++ ys)
AllNew-append seen [] ys h k = k
AllNew-append seen (x ∷ xs) ys (p, h) k = (p, AllNew-append (x ∷ seen) xs ys h k)

pub AllNew-split :
    (seen xs ys : List String)
    → AllNew seen (xs ++ ys)
    → AllNew seen xs × AllNew (pushed seen xs) ys
AllNew-split seen [] ys h = (tt, h)
AllNew-split seen (x ∷ xs) ys (p, h) = let (a, b) = AllNew-split (x ∷ seen) xs ys h in ((p, a), b)

register_calls-AllNew :
    (calls cs next : List String)
    → register_calls calls cs ≡ ok next
    → AllNew calls cs × (next ≡ pushed calls cs)
unfolding register_calls
register_calls-AllNew calls [] next h = ground arith
register_calls-AllNew calls (c ∷ cs) next h =
    let (fresh, rest) =
      throw_if-eq-ok (contains c calls) (duplicate_call c) (register_calls (c ∷ calls) cs) h in
    let (new, e) = register_calls-AllNew (c ∷ calls) cs next rest in ((fresh, new), e)

AllNew-register_calls :
    (calls cs : List String) → AllNew calls cs → register_calls calls cs ≡ ok (pushed calls cs)
unfolding register_calls
AllNew-register_calls calls [] h = refl
AllNew-register_calls calls (c ∷ cs) (p, h) = rw p (AllNew-register_calls (c ∷ calls) cs h)

pub result-turn_calls : (b : Body) {c : String} → result_call b ≡ some c → turn_calls b ≡ []
result-turn_calls (assistant_turn t) h = cc
result-turn_calls _ h = refl

-- What the records from here on hold, given the calls that wait.
abbrev pub Continues : Option (List String) → List MessageRecord → Type 0
Continues none rs = Turns rs
Continues (some cs) rs = (rest : List MessageRecord) × Answers cs rs rest × Turns rest

pub Continues-rest_pending :
    (cs : List String) (rs : List MessageRecord)
    → Continues (rest_pending cs) rs
    → (rest : List MessageRecord) × Answers cs rs rest × Turns rest
Continues-rest_pending [] rs t = (rs, refl, t)
Continues-rest_pending (c ∷ cs) rs t = t

pub rest_pending-Continues :
    (cs : List String) (rs rest : List MessageRecord)
    → Answers cs rs rest
    → Turns rest
    → Continues (rest_pending cs) rs
rest_pending-Continues [] rs rest a t = subst Turns (sym a) t
rest_pending-Continues (c ∷ cs) rs rest a t = (rest, a, t)

-- The round of a record whose calls are `cs`, when none waits.
pub record Opened (calls : List String) (cs : List String) (next : Pairing) : Type 0 where
  pub new : AllNew calls cs
  pub pushed_calls : next.calls ≡ pushed calls cs
  pub waiting : next.pending ≡ rest_pending cs

open_batch-Opened :
    (calls cs : List String) (next : Pairing) → open_batch calls cs ≡ ok next → Opened calls cs next
unfolding open_batch
open_batch-Opened calls [] next h = ground arith
open_batch-Opened calls (c ∷ cs) next h =
    let (calls', e, h') =
      >>=-eq-ok (register_calls calls (c ∷ cs))
        (λ calls'. ok (record { calls = calls'; pending = some (c ∷ cs) })) h in
    let (new, same) = register_calls-AllNew calls (c ∷ cs) calls' e in ground arith

pub Opened-open_batch :
    (calls cs : List String)
    → AllNew calls cs
    → open_batch calls cs ≡ ok (record { calls = pushed calls cs; pending = rest_pending cs })
unfolding open_batch
Opened-open_batch calls [] h = refl
Opened-open_batch calls (c ∷ cs) h = rw (AllNew-register_calls calls (c ∷ cs) h)

-- A record that no calls wait for is no result, and opens a batch with its own calls.
pub pair_tools-Opened :
    (calls : List String) (b : Body) (next : Pairing)
    → pair_tools calls none b ≡ ok next
    → (result_call b ≡ none) × Opened calls (turn_calls b) next
unfolding pair_tools
pair_tools-Opened calls b next h = elim (Option-cases (result_call b)) [
  | inl no_result ↦ (no_result, open_batch-Opened calls (turn_calls b) next (ground arith))
  | inr (c, some_result) ↦ absurd (ground arith)
]

answer-answers :
    (calls cs : List String) (c : String) (next : Pairing) (b : Body)
    → result_call b ≡ some c
    → answer calls cs c ≡ ok next
    → (d : String) × (rest : List String) × (cs ≡ d ∷ rest)
      × (result_call b ≡ some d)
      × (next.calls ≡ calls)
      × (next.pending ≡ rest_pending rest)
unfolding answer
answer-answers calls [] c next b e h = absurd (ground arith)
answer-answers calls (d ∷ rest) c next b e h =
    (d, rest, refl, ground (arith, eq_iff c d), ground arith, ground arith)

-- While calls wait, the record is the result of the first.
pub pair_tools-answers :
    (calls : List String) (cs : List String) (b : Body) (next : Pairing)
    → pair_tools calls (some cs) b ≡ ok next
    → (c : String) × (rest : List String) × (cs ≡ c ∷ rest)
      × (result_call b ≡ some c)
      × (next.calls ≡ calls)
      × (next.pending ≡ rest_pending rest)
unfolding pair_tools
pair_tools-answers calls cs b next h = elim (Option-cases (result_call b)) [
  | inl no_result ↦ absurd (ground arith)
  | inr (c, some_result) ↦ answer-answers calls cs c next b some_result (ground arith)
]
