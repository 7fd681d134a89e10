-- ===== src/History/Compile/Complete.antt =====
-- A canonical history passes the compiler's loop.
use zch_coding_agent.Base.{
  ℕ, ◌<◌, ◌≡◌, refl, sym, ◌∙◌, subst, inl, inr, Bool, false, Option, none, some, List, [], ◌∷◌,
  ◌++◌, append_assoc, arith, Option-cases, nat_eq, string_eq, ok, String,
}
use text.Mathlib.TextEquality.{eq_iff}
use zch_coding_agent.Base.Preds.{All, All-append_right}
use zch_coding_agent.Message.{MessageRecord, Body, Platform}
use zch_coding_agent.History.Compile.{
  Scan, rest_pending, scan, scan_step, turn_calls, result_call, pair_tools, answer, check_epoch,
  history_epoch_anchor_boundary, any_at_or_below,
}
use zch_coding_agent.History.Compile.Steps.{Accepted, Steps-scan_step}
use zch_coding_agent.History.Compile.Epochs.{Epoch, any_at_or_below-All}
use zch_coding_agent.History.Compile.Sound.{Runs}
use zch_coding_agent.History.Compile.Grammar.{
  Ascending, AllNew, record_ids, all_calls, Answers, Turns, alone, batch,
}
use zch_coding_agent.History.Compile.Pairs.{
  pushed, AllNew-split, Opened-open_batch, result-turn_calls,
}

-- What the rest of the history owes when the calls `waiting` have no result yet.
abbrev pub Owes : List String → List MessageRecord → Type 0
Owes waiting rs = (rest : List MessageRecord) × Answers waiting rs rest × Turns rest

Turns-Owes :
    (r : MessageRecord) (rs : List MessageRecord)
    → Turns (r ∷ rs)
    → (result_call r.body ≡ none) × Owes (turn_calls r.body) rs
Turns-Owes r rs (alone no_result e t) = (no_result, subst (λ cs. Owes cs rs) (sym e) (rs, refl, t))
Turns-Owes r rs (batch c cs rest no_result e a t) =
    (no_result, subst (λ cs'. Owes cs' rs) (sym e) (rest, a, t))

pair_tools-open :
    (calls : List String) (b : Body)
    → result_call b ≡ none
    → AllNew calls (turn_calls b)
    → pair_tools calls none b
      ≡ ok (record { calls = pushed calls (turn_calls b); pending = rest_pending (turn_calls b) })
unfolding pair_tools
pair_tools-open calls b e h = rw (e, pair_tools) (Opened-open_batch calls (turn_calls b) h)

pair_tools-close :
    (calls cs : List String) (c : String) (b : Body)
    → result_call b ≡ some c
    → pair_tools calls (some (c ∷ cs)) b ≡ ok (record { calls = calls; pending = rest_pending cs })
unfolding pair_tools answer
pair_tools-close calls cs c b e = ground (arith, eq_iff c c)

-- One round of the pairing: the calls seen and those that wait after it.
record Paired (calls waiting : List String) (r : MessageRecord) (rs : List MessageRecord)
    : Type 0 where
  seen : List String
  left : List String
  round :
      pair_tools calls (rest_pending waiting) r.body
      ≡ ok (record { calls = seen; pending = rest_pending left })
  owes : Owes left rs
  fresh : AllNew seen (all_calls rs)

pair_round :
    (calls waiting : List String) (r : MessageRecord) (rs : List MessageRecord)
    → Owes waiting (r ∷ rs)
    → AllNew calls (all_calls (r ∷ rs))
    → Paired calls waiting r rs
pair_round calls [] r rs (rest, same, t) h =
    let (no_result, owes) = Turns-Owes r rs (subst Turns (sym same) t) in
    let (new, fresh) = AllNew-split calls (turn_calls r.body) (all_calls rs) h in
    record {
      seen = pushed calls (turn_calls r.body);
      left = turn_calls r.body;
      round = pair_tools-open calls r.body no_result new;
      owes = owes;
      fresh = fresh;
    }
pair_round calls (c ∷ cs) r rs (rest, (result, a), t) h = record {
  seen = calls;
  left = cs;
  round = pair_tools-close calls cs c r.body result;
  owes = (rest, a, t);
  fresh = subst (λ cs'. AllNew calls (cs' ++ all_calls rs)) (result-turn_calls r.body result) h;
}

-- Every record comes after the epoch so far.
abbrev pub Above : Option ℕ → List MessageRecord → Type 0
Above none rs = Unit
Above (some b) rs = All (λ r. b < r.seq) rs

record Epoched (active : List MessageRecord) (epoch : Option ℕ) (r : MessageRecord)
    (rs : List MessageRecord) : Type 0 where
  next : Option ℕ
  checked : check_epoch active epoch r ≡ ok next
  later : Epoch active next rs
  above : Above next rs

Epoch-round :
    (active done : List MessageRecord) (epoch : Option ℕ) (r : MessageRecord)
    (rs : List MessageRecord)
    → active ≡ done ++ (r ∷ rs)
    → Epoch active epoch (r ∷ rs)
    → Above epoch (r ∷ rs)
    → Epoched active epoch r rs
unfolding check_epoch
Epoch-round active done none r rs e h a =
    elim (Option-cases (history_epoch_anchor_boundary r.body)) [
      | inl plain ↦ record { next = none; checked = ground arith; later = ground arith; above = tt }
      | inr (b, anchor) ↦
          let low : any_at_or_below b active ≡ false = ground arith in
          let (here, after) =
            All-append_right (λ s. b < s.seq) done (r ∷ rs)
              (subst (All (λ s. b < s.seq)) e (any_at_or_below-All b active low)) in
          record { next = some b; checked = ground arith; later = ground arith; above = after }
    ]
Epoch-round active done (some b) r rs e h (here, after) =
    let plain : history_epoch_anchor_boundary r.body ≡ none = ground arith in
    record { next = some b; checked = ground arith; later = ground arith; above = after }

module _ (p : Platform) (schema_valid : MessageRecord → Bool) (session : String)
    (active : List MessageRecord) where
  -- What the records `rs`, which follow `done`, hold relative to the state of the loop.
  pub record Ready (st : Scan) (waiting : List String) (done rs : List MessageRecord) : Type 0 where
    pub whole : active ≡ done ++ rs
    pub accepted : All (Accepted p schema_valid) rs
    pub one_session : All (λ r. r.session_id ≡ session) rs
    pub ascending : Ascending st.previous_seq rs
    pub ids : AllNew st.ids (record_ids rs)
    pub epoch : Epoch active st.epoch_boundary rs
    pub above : Above st.epoch_boundary rs
    pub pending : st.pending ≡ rest_pending waiting
    pub owes : Owes waiting rs
    pub calls : AllNew st.calls (all_calls rs)

  Ready-nil :
      (st : Scan) (waiting : List String) (done : List MessageRecord)
      → Ready st waiting done []
      → st.pending ≡ none
  Ready-nil st [] done h = h.pending
  Ready-nil st (c ∷ cs) done h = absurd h.owes.1

  pub Ready-Runs :
      (rs : List MessageRecord) (st : Scan) (waiting : List String) (done : List MessageRecord)
      → Ready st waiting done rs
      → (end : Scan) × Runs p schema_valid session active st rs end × (end.pending ≡ none)
  unfolding scan
  Ready-Runs [] st waiting done h = (st, refl, Ready-nil st waiting done h)
  Ready-Runs (r ∷ rs) st waiting done h =
      let pr = pair_round st.calls waiting r rs h.owes h.calls in
      let er = Epoch-round active done st.epoch_boundary r rs h.whole h.epoch h.above in
      let next : Scan = record {
        ids = r.id ∷ st.ids;
        calls = pr.seen;
        previous_seq = r.seq;
        pending = rest_pending pr.left;
        epoch_boundary = er.next;
      } in
      let step : scan_step p schema_valid session active st r ≡ ok next =
        Steps-scan_step p schema_valid session active st r next (record {
          accepted = h.accepted.0;
          same_session = h.one_session.0;
          later = h.ascending.0;
          new_id = h.ids.0;
          epoch = er.checked;
          paired =
              subst
                (λ q.
                  pair_tools st.calls q r.body
                  ≡ ok (record { calls = pr.seen; pending = rest_pending pr.left }))
                (sym h.pending) pr.round;
          ids_after = refl;
          seq_after = refl;
        }) in
      let (end, runs, e) = Ready-Runs rs next pr.left (done ++ r ∷ []) (record {
        whole = h.whole ∙ sym (append_assoc done (r ∷ []) rs);
        accepted = h.accepted.1;
        one_session = h.one_session.1;
        ascending = h.ascending.1;
        ids = h.ids.1;
        epoch = er.later;
        above = er.above;
        pending = refl;
        owes = pr.owes;
        calls = pr.fresh;
      }) in
      (end, rw step runs, e)
