-- ===== src/Session/WakeupGate/Phases.antt =====
-- The gate as one phase for each Session.
use zch_coding_agent.Base.{
  ℕ, suc, ◌≡◌, refl, sym, ap, ap₂, ◌∙◌, subst, inl, inr, Bool, true, false, ◌&&◌, Option, none,
  some, List, [], ◌∷◌, if◌then◌else◌, Bool-cases, ◌==◌, nat_eq, string_eq, option_eq, String,
}
use zch_coding_agent.Base.{same_option_iff}
use zch_coding_agent.Base.Maps.{lookup, insert, lookup-insert, lookup-delete}
use zch_coding_agent.Session.WakeupGate.{
  BackgroundWakeupGate, empty_gate, invalidate, valid, settled, claim, forget,
}

-- A Session that the gate does not know, one with an epoch, and one that may be woken once.
pub data Phase : Type 0 where
  unknown : Phase
  busy ready : (epoch : ℕ) → Phase

abbrev pub epoch_of : Phase → Option ℕ
epoch_of unknown = none
epoch_of (busy e) = some e
epoch_of (ready e) = some e

abbrev pub ready_of : Phase → Option ℕ
ready_of (ready e) = some e
ready_of _ = none

abbrev pub claimed : Phase → Phase
claimed (ready e) = busy e
claimed phase = phase

pub data Call : Type 0 where
  do_invalidate do_claim do_forget : (session : String) → Call
  do_settled : (session : String) → (epoch : ℕ) → (natural : Bool) → Call
  ask_valid : (session : String) → (epoch : ℕ) → Call

pub data Answer : Type 0 where
  nothing : Answer
  epoch : ℕ → Answer
  claim_of : Option ℕ → Answer
  is_valid : Bool → Answer

abbrev pub perform : Call → BackgroundWakeupGate → BackgroundWakeupGate × Answer
perform (do_invalidate s) gate = let (next, e) = invalidate s gate in (next, epoch e)
perform (do_claim s) gate = let (next, e) = claim s gate in (next, claim_of e)
perform (do_forget s) gate = (forget s gate, nothing)
perform (do_settled s e natural) gate = (settled s e natural gate, nothing)
perform (ask_valid s e) gate = (gate, is_valid (valid s e gate))

-- The abstract gate: a phase for each Session, and the next epoch.
pub record Phases : Type 0 where
  pub phase : String → Phase
  pub next : ℕ

abbrev pub move : String → Phase → Phases → Phases
move s to a = record a { phase = λ t. if s == t then to else a.phase t }

abbrev pub promise : Call → Phases → Phases × Answer
promise (do_invalidate s) a = (record (move s (busy a.next) a) { next = suc a.next }, epoch a.next)
promise (do_claim s) a = (move s (claimed (a.phase s)) a, claim_of (ready_of (a.phase s)))
promise (do_forget s) a = (move s unknown a, nothing)
promise (do_settled s e natural) a =
    ((if natural && epoch_of (a.phase s) == some e then move s (ready e) a else a), nothing)
promise (ask_valid s e) a = (a, is_valid (epoch_of (a.phase s) == some e))

abbrev pub perform_all : List Call → BackgroundWakeupGate → List Answer
perform_all [] gate = []
perform_all (c ∷ cs) gate = let (next, answer) = perform c gate in answer ∷ perform_all cs next

abbrev pub promise_all : List Call → Phases → List Answer
promise_all [] a = []
promise_all (c ∷ cs) a = let (next, answer) = promise c a in answer ∷ promise_all cs next

-- The two maps of the gate show each Session's phase.
abbrev Shows : BackgroundWakeupGate → Phases → Type 0
Shows gate a =
    (gate.next_epoch ≡ a.next)
    × ((s : String)
        → (lookup s gate.epochs ≡ epoch_of (a.phase s))
          × (lookup s gate.eligible ≡ ready_of (a.phase s)))

-- A function of the phase after a move.
moved :
    {A : Type 0} (of : Phase → A) (s t : String) (to old : Phase) (value rest : A)
    → value ≡ of to
    → rest ≡ of old
    → (if s == t then value else rest) ≡ of (if s == t then to else old)
moved of s t to old value rest e f = elim (Bool-cases (s == t)) [
  | inl same ↦ rw same e
  | inr other ↦ rw other f
]

invalidate-Shows :
    (s : String) (gate : BackgroundWakeupGate) (a : Phases)
    → Shows gate a
    → Shows (perform (do_invalidate s) gate).0 (promise (do_invalidate s) a).0
unfolding invalidate
invalidate-Shows s gate a (n, maps) = (
  ap suc n,
  λ t. (
    lookup-insert s t gate.next_epoch gate.epochs
        ∙ moved epoch_of s t (busy a.next) (a.phase t) _ _ (ap some n) (maps t).0,
    lookup-delete s t gate.eligible
        ∙ moved ready_of s t (busy a.next) (a.phase t) _ _ refl (maps t).1,
  ),
)

claimed-epoch_of : (phase : Phase) → epoch_of phase ≡ epoch_of (claimed phase)
claimed-epoch_of unknown = refl
claimed-epoch_of (busy e) = refl
claimed-epoch_of (ready e) = refl

claimed-ready_of : (phase : Phase) → none ≡ ready_of (claimed phase)
claimed-ready_of unknown = refl
claimed-ready_of (busy e) = refl
claimed-ready_of (ready e) = refl

-- Where the map is not written, the value under the key is the old one.
unmoved :
    (s t : String) (a : Phases) (to : Phase) (found : Option ℕ)
    → found ≡ epoch_of (a.phase t)
    → epoch_of (a.phase s) ≡ epoch_of to
    → found ≡ epoch_of (if s == t then to else a.phase t)
unmoved s t a to found e f = elim (Bool-cases (s == t)) [
  | inl same ↦
      rw same (e ∙ ap (λ k. epoch_of (a.phase k)) (sym ((string_eq.same_iff s t).0 same)) ∙ f)
  | inr other ↦ rw other e
]

claim-Shows :
    (s : String) (gate : BackgroundWakeupGate) (a : Phases)
    → Shows gate a
    → Shows (perform (do_claim s) gate).0 (promise (do_claim s) a).0
unfolding claim
claim-Shows s gate a (n, maps) = (
  n,
  λ t. (
    unmoved s t a (claimed (a.phase s)) _ (maps t).0 (claimed-epoch_of (a.phase s)),
    lookup-delete s t gate.eligible
        ∙ moved ready_of s t (claimed (a.phase s)) (a.phase t) _ _ (claimed-ready_of (a.phase s))
            (maps t).1,
  ),
)

forget-Shows :
    (s : String) (gate : BackgroundWakeupGate) (a : Phases)
    → Shows gate a
    → Shows (perform (do_forget s) gate).0 (promise (do_forget s) a).0
unfolding forget
forget-Shows s gate a (n, maps) = (
  n,
  λ t. (
    lookup-delete s t gate.epochs ∙ moved epoch_of s t unknown (a.phase t) _ _ refl (maps t).0,
    lookup-delete s t gate.eligible ∙ moved ready_of s t unknown (a.phase t) _ _ refl (maps t).1,
  ),
)

either-Shows :
    (b : Bool) (p q : BackgroundWakeupGate) (x y : Phases)
    → (b ≡ true → Shows p x)
    → Shows q y
    → Shows (if b then p else q) (if b then x else y)
either-Shows true p q x y h k = h refl
either-Shows false p q x y h k = k

current_epoch :
    (natural : Bool) (o : Option ℕ) (e : ℕ) → (natural && o == some e) ≡ true → o ≡ some e
current_epoch true o e h = (same_option_iff o (some e)).0 h
current_epoch false o e h = absurd cc

-- The Session whose epoch this is becomes ready.
ready-Shows :
    (s : String) (e : ℕ) (gate : BackgroundWakeupGate) (a : Phases)
    → Shows gate a
    → epoch_of (a.phase s) ≡ some e
    → Shows (record gate { eligible = insert s e gate.eligible }) (move s (ready e) a)
ready-Shows s e gate a (n, maps) own = (
  n,
  λ t. (
    unmoved s t a (ready e) _ (maps t).0 own,
    lookup-insert s t e gate.eligible
        ∙ moved ready_of s t (ready e) (a.phase t) _ _ refl (maps t).1,
  ),
)

settled-Shows :
    (s : String) (e : ℕ) (natural : Bool) (gate : BackgroundWakeupGate) (a : Phases)
    → Shows gate a
    → Shows (perform (do_settled s e natural) gate).0 (promise (do_settled s e natural) a).0
unfolding settled
settled-Shows s e natural gate a h =
    let to = record gate { eligible = insert s e gate.eligible } in
    let end = (promise (do_settled s e natural) a).0 in
    subst (λ found. Shows (if natural && found == some e then to else gate) end) (sym (h.1 s).0)
      (either-Shows (natural && epoch_of (a.phase s) == some e) to gate (move s (ready e) a) a
        (λ own. ready-Shows s e gate a h (current_epoch natural (epoch_of (a.phase s)) e own)) h)

perform-Shows :
    (c : Call) (gate : BackgroundWakeupGate) (a : Phases)
    → Shows gate a
    → Shows (perform c gate).0 (promise c a).0
perform-Shows (do_invalidate s) gate a h = invalidate-Shows s gate a h
perform-Shows (do_claim s) gate a h = claim-Shows s gate a h
perform-Shows (do_forget s) gate a h = forget-Shows s gate a h
perform-Shows (do_settled s e natural) gate a h = settled-Shows s e natural gate a h
perform-Shows (ask_valid s e) gate a h = h

perform-answer :
    (c : Call) (gate : BackgroundWakeupGate) (a : Phases)
    → Shows gate a
    → (perform c gate).1 ≡ (promise c a).1
unfolding invalidate claim valid
perform-answer (do_invalidate s) gate a (n, maps) = ap epoch n
perform-answer (do_claim s) gate a (n, maps) = ap claim_of (maps s).1
perform-answer (do_forget s) gate a h = refl
perform-answer (do_settled s e natural) gate a h = refl
perform-answer (ask_valid s e) gate a (n, maps) =
    ap (λ found. is_valid (found == some e)) (maps s).0

run-answers :
    (cs : List Call) (gate : BackgroundWakeupGate) (a : Phases)
    → Shows gate a
    → perform_all cs gate ≡ promise_all cs a
run-answers [] gate a h = refl
run-answers (c ∷ cs) gate a h =
    ap₂ (λ x xs. x ∷ xs) (perform-answer c gate a h)
      (run-answers cs (perform c gate).0 (promise c a).0 (perform-Shows c gate a h))

abbrev pub all_unknown : Phases
all_unknown = record { phase = λ s. unknown; next = 0 }

-- Any sequence of calls on a new gate answers as if each Session had one phase of its own: unknown, busy
-- with an epoch, or ready. A Session is ready from the natural end of the Run that has its latest epoch
-- until the next claim, invalidation or forgetting, so that each such end is claimed at most once.
pub perform_all-promise_all :
    (cs : List Call) → perform_all cs empty_gate ≡ promise_all cs all_unknown
unfolding lookup
perform_all-promise_all cs = run-answers cs empty_gate all_unknown (refl, λ s. (refl, refl))
