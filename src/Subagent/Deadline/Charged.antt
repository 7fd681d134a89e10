-- ===== src/Subagent/Deadline/Charged.antt =====
-- The deadline, beside a meter of the time for which the worker was active.
use zch_coding_agent.Base.{
  ℕ, ◌+◌, ◌-◌, ◌≤◌, ◌≡◌, refl, sym, ap, ◌∙◌, subst, ◌↔◌, ◌⊎◌, inl, inr, Bool, true, false, ◌&&◌,
  ◌||◌, none, some, List, [], ◌∷◌, arith, leb, leb→le, if◌then◌else◌, Bool-cases, nat_eq, string_eq,
  option_eq, some_injective,
}
use zch_coding_agent.Subagent.Deadline.{
  RunStatus, idle, calling_llm, evaluating_tools, awaiting_approval, running_tools, paused,
  cancelling, completed, cancelled, failed, WorkerDeadline, change, set_active, create, is_charged,
  phase, reset, dispose, is_due, fire,
}
use zch_coding_agent.Subagent.Deadline.Meter.{
  is_working, Call, at_phase, at_reset, at_dispose, at_fire, perform, Meter, measured, measure,
  IsUsedUp, perform_all, measure_all, IsAscending,
}

then_case : {A : Type 0} (b : Bool) (x y : A) → b ≡ true → (if b then x else y) ≡ x
then_case true x y h = refl
then_case false x y h = absurd cc

else_case : {A : Type 0} (b : Bool) (x y : A) → b ≡ false → (if b then x else y) ≡ y
else_case true x y h = absurd cc
else_case false x y h = refl

true-false : true ≡ false → ⊥
true-false e = absurd cc

none-some : {A : Type 0} {a : A} → none ≡ some a → ⊥
none-some e = absurd cc

timed : (t b : Bool) → t ≡ false → (t && b) ≡ false
timed t b h = ground arith

right : (t b : Bool) → (t && b) ≡ true → b ≡ true
right t b h = ground arith

both : (t b : Bool) → t ≡ true → b ≡ true → (t && b) ≡ true
both t b h k = ground arith

le→leb : (a b : ℕ) → a ≤ b → leb a b ≡ true
le→leb a b h = ground arith

is_charged-is_working : (status : RunStatus) → is_charged status ≡ is_working status
is_charged-is_working idle = refl
is_charged-is_working calling_llm = refl
is_charged-is_working evaluating_tools = refl
is_charged-is_working awaiting_approval = refl
is_charged-is_working running_tools = refl
is_charged-is_working paused = refl
is_charged-is_working cancelling = refl
is_charged-is_working completed = refl
is_charged-is_working cancelled = refl
is_charged-is_working failed = refl

stopped-set_active :
    (now : ℕ) (to : Bool) (d : WorkerDeadline)
    → (d.expired ≡ true) ⊎ (d.disposed ≡ true)
    → set_active now to d ≡ d
unfolding set_active
stopped-set_active now to d (inl e) = then_case (d.disposed || d.expired) _ _ (ground arith)
stopped-set_active now to d (inr e) = then_case (d.disposed || d.expired) _ _ (ground arith)

live-set_active :
    (now : ℕ) (to : Bool) (d : WorkerDeadline)
    → d.expired ≡ false
    → d.disposed ≡ false
    → set_active now to d ≡ change now to d.active d
unfolding set_active
live-set_active now to d e f = else_case (d.disposed || d.expired) _ _ (ground arith)

module _ (allowance : ℕ) where
  abbrev IsOn : ℕ → WorkerDeadline → Meter → Type 0
  IsOn now d m =
      (d.active ≡ true) × (d.timer ≡ true) × (m.since ≡ some d.started_at) × (d.started_at ≤ now)

  abbrev IsOff : WorkerDeadline → Meter → Type 0
  IsOff d m = (d.active ≡ false) × (d.timer ≡ false) × (m.since ≡ none)

  -- A deadline that goes on has the rest of the allowance, and runs with the meter.
  abbrev IsLive : ℕ → WorkerDeadline → Meter → Type 0
  IsLive now d m =
      (d.expired ≡ false)
      × (d.disposed ≡ false)
      × (d.remaining ≡ allowance - m.used)
      × (IsOn now d m ⊎ IsOff d m)

  abbrev IsStopped : WorkerDeadline → Type 0
  IsStopped d = ((d.expired ≡ true) ⊎ (d.disposed ≡ true)) × (d.timer ≡ false)

  abbrev Agrees : ℕ → WorkerDeadline → Meter → Type 0
  Agrees now d m = (d.allowance ≡ allowance) × (IsLive now d m ⊎ IsStopped d)

  turned_on :
      (now : ℕ) (to : Bool) (d : WorkerDeadline) (m : Meter)
      → d.expired ≡ false
      → d.disposed ≡ false
      → d.remaining ≡ allowance - m.used
      → IsOn now d m
      → IsLive now (change now to true d) (measured now to m (some d.started_at))
  turned_on now true d m e f r on = (e, f, r, inl on)
  turned_on now false d m e f r on = (e, f, omega (arith, r), inr (refl, refl, refl))

  turned_off :
      (now : ℕ) (to : Bool) (d : WorkerDeadline) (m : Meter)
      → d.expired ≡ false
      → d.disposed ≡ false
      → d.remaining ≡ allowance - m.used
      → IsOff d m
      → IsLive now (change now to false d) (measured now to m none)
  turned_off now true d m e f r off = (e, f, r, inl (refl, refl, refl, omega arith))
  turned_off now false d m e f r off = (e, f, r, inr off)

  set_active-IsLive :
      (now : ℕ) (to : Bool) (d : WorkerDeadline) (m : Meter)
      → IsLive now d m
      → IsLive now (set_active now to d) (measured now to m m.since)
  set_active-IsLive now to d m (e, f, r, inl on) =
      let (active, timer, since, le) = on in
      subst (λ x. IsLive now x (measured now to m m.since))
        (sym (live-set_active now to d e f ∙ ap (λ a. change now to a d) active))
        (subst (λ o. IsLive now (change now to true d) (measured now to m o)) (sym since)
          (turned_on now to d m e f r on))
  set_active-IsLive now to d m (e, f, r, inr off) =
      let (active, timer, since) = off in
      subst (λ x. IsLive now x (measured now to m m.since))
        (sym (live-set_active now to d e f ∙ ap (λ a. change now to a d) active))
        (subst (λ o. IsLive now (change now to false d) (measured now to m o)) (sym since)
          (turned_off now to d m e f r off))

  set_active-allowance :
      (now : ℕ) (to : Bool) (d : WorkerDeadline) → (set_active now to d).allowance ≡ d.allowance
  unfolding set_active
  set_active-allowance now to d = elim (Bool-cases (d.disposed || d.expired)) [
    | inl e ↦
        ap (λ x. x.allowance) (then_case (d.disposed || d.expired) d (change now to d.active d) e)
    | inr e ↦
        ap (λ x. x.allowance) (else_case (d.disposed || d.expired) d (change now to d.active d) e)
        ∙ change-allowance to d.active
  ]
    where
      change-allowance : (t a : Bool) → (change now t a d).allowance ≡ d.allowance
      change-allowance true true = refl
      change-allowance true false = refl
      change-allowance false true = refl
      change-allowance false false = refl

  set_active-Agrees :
      (now : ℕ) (to : Bool) (d : WorkerDeadline) (m : Meter)
      → Agrees now d m
      → Agrees now (set_active now to d) (measured now to m m.since)
  set_active-Agrees now to d m (a, inl live) =
      (set_active-allowance now to d ∙ a, inl (set_active-IsLive now to d m live))
  set_active-Agrees now to d m (a, inr stopped) = (
    set_active-allowance now to d ∙ a,
    inr (subst IsStopped (sym (stopped-set_active now to d stopped.0)) stopped),
  )

  -- Later, the same agreement.
  later :
      (from now : ℕ) (d : WorkerDeadline) (m : Meter)
      → from ≤ now
      → Agrees from d m
      → Agrees now d m
  later from now d m le (a, inl (e, f, r, inl (x, t, s, b))) =
      (a, inl (e, f, r, inl (x, t, s, omega arith)))
  later from now d m le (a, inl (e, f, r, inr off)) = (a, inl (e, f, r, inr off))
  later from now d m le (a, inr stopped) = (a, inr stopped)

  reset-Agrees :
      (now : ℕ) (d : WorkerDeadline) (m : Meter)
      → Agrees now d m
      → Agrees now (reset now d) (measure now at_reset m)
  unfolding reset
  reset-Agrees now d m (a, _) = (
    set_active-allowance now true fresh ∙ a,
    elim (Bool-cases d.disposed) [
      | inl gone ↦
          inr
            (subst IsStopped (sym (stopped-set_active now true fresh (inr gone))) (inr gone, refl))
      | inr kept ↦ inl (
          set_active-IsLive now true fresh (record { used = 0; since = none })
            (refl, kept, omega (arith, a), inr (refl, refl, refl)))
    ],
  )
    where
      fresh : WorkerDeadline
      fresh = record d { remaining = d.allowance; expired = false; active = false; timer = false }

  fire-Agrees :
      (now : ℕ) (d : WorkerDeadline) (m : Meter) → Agrees now d m → Agrees now (fire now d) m
  unfolding fire
  fire-Agrees now d m h = either (is_due now d) h
    where
      either :
          (b : Bool)
          → Agrees now d m
          → Agrees now
              (if b then record d { timer = false; active = false; expired = true } else d)
              m
      either true (a, k) = (a, inr (inl refl, refl))
      either false k = k

  perform-Agrees :
      (now : ℕ) (c : Call) (d : WorkerDeadline) (m : Meter)
      → Agrees now d m
      → Agrees now (perform now c d) (measure now c m)
  unfolding phase dispose
  perform-Agrees now (at_phase status) d m h =
      subst (λ b. Agrees now (set_active now (is_charged status) d) (measured now b m m.since))
        (is_charged-is_working status) (set_active-Agrees now (is_charged status) d m h)
  perform-Agrees now at_reset d m h = reset-Agrees now d m h
  perform-Agrees now at_dispose d m (a, h) = (a, inr (inr refl, refl))
  perform-Agrees now at_fire d m h = fire-Agrees now d m h

  perform_all-Agrees :
      (cs : List (ℕ × Call)) (from to : ℕ) (d : WorkerDeadline) (m : Meter)
      → IsAscending from cs to
      → Agrees from d m
      → Agrees to (perform_all cs d) (measure_all cs m)
  perform_all-Agrees [] from to d m le h = later from to d m le h
  perform_all-Agrees ((now, c) ∷ cs) from to d m (le, rest) h =
      perform_all-Agrees cs now to (perform now c d) (measure now c m) rest
        (perform-Agrees now c d m (later from now d m le h))

  -- No timeout, no call.
  untimed : (now : ℕ) (d : WorkerDeadline) → d.timer ≡ false → is_due now d ≡ true → ⊥
  untimed now d t e = true-false (sym e ∙ timed d.timer (leb (d.started_at + d.remaining) now) t)

  on_time :
      (now : ℕ) (d : WorkerDeadline) (used : ℕ)
      → d.timer ≡ true
      → d.remaining ≡ allowance - used
      → d.started_at ≤ now
      → (is_due now d ≡ true) ↔ (allowance ≤ used + (now - d.started_at))
  on_time now d used t r le = (
    (λ e. let due = leb→le (d.started_at + d.remaining) now (right d.timer _ e) in omega arith),
    λ h. both d.timer _ t (le→leb (d.started_at + d.remaining) now (omega arith)),
  )

  due_iff :
      (now : ℕ) (d : WorkerDeadline) (m : Meter)
      → Agrees now d m
      → (is_due now d ≡ true)
        ↔ ((d.expired ≡ false) × (d.disposed ≡ false) × IsUsedUp allowance now m)
  due_iff now d m (a, inl (e, f, r, inl (x, t, s, le))) =
      let (due, used_up) = on_time now d m.used t r le in
      (
        (λ h. (e, f, (d.started_at, s, due h))),
        λ h.
            used_up
              (subst (λ k. allowance ≤ m.used + (now - k)) (some_injective (sym h.2.1 ∙ s)) h.2.2),
      )
  due_iff now d m (a, inl (e, f, r, inr (x, t, s))) =
      ((λ h. absurd (untimed now d t h)), λ h. absurd (none-some (sym s ∙ h.2.1)))
  due_iff now d m (a, inr (inl e, t)) =
      ((λ h. absurd (untimed now d t h)), λ h. absurd (true-false (sym e ∙ h.0)))
  due_iff now d m (a, inr (inr f, t)) =
      ((λ h. absurd (untimed now d t h)), λ h. absurd (true-false (sym f ∙ h.1)))

  create-Agrees :
      (now : ℕ) → Agrees now (create allowance now) (record { used = 0; since = some now })
  unfolding create
  create-Agrees now = (
    set_active-allowance now true fresh,
    inl (
        set_active-IsLive now true fresh (record { used = 0; since = none })
          (refl, refl, omega arith, inr (refl, refl, refl))),
  )
    where
      fresh : WorkerDeadline
      fresh = record {
        allowance = allowance;
        remaining = allowance;
        started_at = 0;
        active = false;
        expired = false;
        disposed = false;
        timer = false;
      }

  -- After any calls at times that do not go back, the timeout of a deadline may fire exactly when the
  -- deadline has neither expired since its last reset nor been disposed of, its worker is active, and
  -- the worker has been active for the whole allowance since the last reset, or since the start: the
  -- time that it spends paused, waiting for an approval, being cancelled or at an end is not charged.
  pub perform_all-is_due_iff :
      (cs : List (ℕ × Call)) (start now : ℕ)
      → IsAscending start cs now
      → let d = perform_all cs (create allowance start) in
        (is_due now d ≡ true) ↔ (
          (d.expired ≡ false)
          × (d.disposed ≡ false)
          × IsUsedUp allowance now (measure_all cs (record { used = 0; since = some start })))
  perform_all-is_due_iff cs start now ascending =
      due_iff now (perform_all cs (create allowance start))
        (measure_all cs (record { used = 0; since = some start }))
        (perform_all-Agrees cs start now (create allowance start)
          (record { used = 0; since = some start }) ascending (create-Agrees start))
