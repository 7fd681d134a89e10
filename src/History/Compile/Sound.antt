-- ===== src/History/Compile/Sound.antt =====
-- What the loop has established when it reaches the end without an error.
use zch_coding_agent.Base.{
  inl, refl, subst, sym, ◌∙◌, ap, ◌++◌, ℕ, ◌≡◌, refl, sym, ap, ◌∙◌, subst, inl, Bool, Option, none,
  some, List, [], ◌∷◌, ◌++◌, nat_eq, string_eq, ok, >>=-eq-ok, String,
}
use zch_coding_agent.Base.Preds.{All}
use zch_coding_agent.Message.{MessageRecord, Platform}
use zch_coding_agent.History.Compile.{
  Scan, Pairing, rest_pending, scan, scan_step, turn_calls, result_call, pair_tools,
}
use zch_coding_agent.History.Compile.Steps.{Accepted, Steps, scan_step-Steps}
use zch_coding_agent.History.Compile.Epochs.{Epoch, check_epoch-Epoch}
use zch_coding_agent.History.Compile.Grammar.{
  Ascending, AllNew, record_ids, all_calls, Turns, finished, alone, batch,
}
use zch_coding_agent.History.Compile.Pairs.{
  Continues, AllNew-append, Opened, pair_tools-Opened, pair_tools-answers, Continues-rest_pending,
  result-turn_calls,
}

Epoch-nil : (active : List MessageRecord) (epoch : Option ℕ) → Epoch active epoch []
Epoch-nil active none = inl refl
Epoch-nil active (some b) = refl

Turns-cons :
    (r : MessageRecord) (rs : List MessageRecord) (cs : List String)
    → result_call r.body ≡ none
    → turn_calls r.body ≡ cs
    → Continues (rest_pending cs) rs
    → Turns (r ∷ rs)
Turns-cons r rs [] no_result e t = alone no_result e t
Turns-cons r rs (c ∷ cs) no_result e (rest, a, t) = batch c cs rest no_result e a t

module _ (p : Platform) (schema_valid : MessageRecord → Bool) (session : String)
    (active : List MessageRecord) where
  abbrev pub Runs : Scan → List MessageRecord → Scan → Type 0
  Runs st rs end = scan p schema_valid session active st rs ≡ ok end

  abbrev Round : Scan → MessageRecord → Scan → Type 0
  Round st r next = Steps p schema_valid session active st r next

  Runs-cons :
      (st end : Scan) (r : MessageRecord) (rs : List MessageRecord)
      → Runs st (r ∷ rs) end
      → (next : Scan) × Round st r next × Runs next rs end
  unfolding scan
  Runs-cons st end r rs h =
      let (next, e, h') =
        >>=-eq-ok (scan_step p schema_valid session active st r)
          (λ st'. scan p schema_valid session active st' rs) h in
      (next, scan_step-Steps p schema_valid session active st r next e, h')

  Runs-nil : (st end : Scan) → Runs st [] end → st ≡ end
  unfolding scan
  Runs-nil st end h = cc

  pub Runs-Accepted :
      (rs : List MessageRecord) (st end : Scan)
      → Runs st rs end
      → All (Accepted p schema_valid) rs × All (λ r. r.session_id ≡ session) rs
  Runs-Accepted [] st end h = (tt, tt)
  Runs-Accepted (r ∷ rs) st end h =
      let (next, s, h') = Runs-cons st end r rs h in
      let (a, b) = Runs-Accepted rs next end h' in ((s.accepted, a), (s.same_session, b))

  pub Runs-Ascending :
      (rs : List MessageRecord) (st end : Scan) → Runs st rs end → Ascending st.previous_seq rs
  Runs-Ascending [] st end h = tt
  Runs-Ascending (r ∷ rs) st end h =
      let (next, s, h') = Runs-cons st end r rs h in
      (s.later, subst (λ n. Ascending n rs) s.seq_after (Runs-Ascending rs next end h'))

  pub Runs-ids :
      (rs : List MessageRecord) (st end : Scan) → Runs st rs end → AllNew st.ids (record_ids rs)
  Runs-ids [] st end h = tt
  Runs-ids (r ∷ rs) st end h =
      let (next, s, h') = Runs-cons st end r rs h in
      (s.new_id, subst (λ ids. AllNew ids (record_ids rs)) s.ids_after (Runs-ids rs next end h'))

  pub Runs-Epoch :
      (rs : List MessageRecord) (st end : Scan) → Runs st rs end → Epoch active st.epoch_boundary rs
  Runs-Epoch [] st end h = Epoch-nil active st.epoch_boundary
  Runs-Epoch (r ∷ rs) st end h =
      let (next, s, h') = Runs-cons st end r rs h in
      check_epoch-Epoch active st.epoch_boundary next.epoch_boundary r rs s.epoch
        (Runs-Epoch rs next end h')

  abbrev after : Scan → Pairing
  after next = record { calls = next.calls; pending = next.pending }

  Round-Opened :
      (st next : Scan) (r : MessageRecord)
      → st.pending ≡ none
      → Round st r next
      → (result_call r.body ≡ none) × Opened st.calls (turn_calls r.body) (after next)
  Round-Opened st next r e s =
      pair_tools-Opened st.calls r.body (after next)
        (subst (λ q. pair_tools st.calls q r.body ≡ ok (after next)) e s.paired)

  Round-answers :
      (st next : Scan) (r : MessageRecord) (cs : List String)
      → st.pending ≡ some cs
      → Round st r next
      → (c : String) × (rest : List String) × (cs ≡ c ∷ rest)
        × (result_call r.body ≡ some c)
        × (next.calls ≡ st.calls)
        × (next.pending ≡ rest_pending rest)
  Round-answers st next r cs e s =
      pair_tools-answers st.calls cs r.body (after next)
        (subst (λ q. pair_tools st.calls q r.body ≡ ok (after next)) e s.paired)

  -- The pairing of one round, by whether calls were waiting.
  Round-calls :
      (st next : Scan) (r : MessageRecord) (rs : List MessageRecord)
      (pending : Option (List String))
      → st.pending ≡ pending
      → Round st r next
      → AllNew next.calls (all_calls rs)
      → AllNew st.calls (all_calls (r ∷ rs))
  Round-calls st next r rs none e s h =
      let (no_result, o) = Round-Opened st next r e s in
      AllNew-append st.calls (turn_calls r.body) (all_calls rs) o.new
        (subst (λ calls. AllNew calls (all_calls rs)) o.pushed_calls h)
  Round-calls st next r rs (some cs) e s h =
      let (c, rest, same, result, kept, left) = Round-answers st next r cs e s in
      subst (λ t. AllNew st.calls (t ++ all_calls rs)) (sym (result-turn_calls r.body result))
        (subst (λ calls. AllNew calls (all_calls rs)) kept h)

  pub Runs-calls :
      (rs : List MessageRecord) (st end : Scan) → Runs st rs end → AllNew st.calls (all_calls rs)
  Runs-calls [] st end h = tt
  Runs-calls (r ∷ rs) st end h =
      let (next, s, h') = Runs-cons st end r rs h in
      Round-calls st next r rs st.pending refl s (Runs-calls rs next end h')

  Round-Continues :
      (st next : Scan) (r : MessageRecord) (rs : List MessageRecord)
      (pending : Option (List String))
      → st.pending ≡ pending
      → Round st r next
      → Continues next.pending rs
      → Continues pending (r ∷ rs)
  Round-Continues st next r rs none e s h =
      let (no_result, o) = Round-Opened st next r e s in
      Turns-cons r rs (turn_calls r.body) no_result refl (subst (λ q. Continues q rs) o.waiting h)
  Round-Continues st next r rs (some cs) e s h =
      let (c, rest, same, result, kept, left) = Round-answers st next r cs e s in
      let (tail, a, t) = Continues-rest_pending rest rs (subst (λ q. Continues q rs) left h) in
      subst (λ cs'. Continues (some cs') (r ∷ rs)) (sym same) (tail, (result, a), t)

  pub Runs-Continues :
      (rs : List MessageRecord) (st end : Scan)
      → Runs st rs end
      → end.pending ≡ none
      → Continues st.pending rs
  Runs-Continues [] st end h e =
      subst (λ q. Continues q []) (sym e ∙ ap (λ (s : Scan). s.pending) (sym (Runs-nil st end h)))
        finished
  Runs-Continues (r ∷ rs) st end h e =
      let (next, s, h') = Runs-cons st end r rs h in
      Round-Continues st next r rs st.pending refl s (Runs-Continues rs next end h' e)
