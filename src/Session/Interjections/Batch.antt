-- ===== src/Session/Interjections/Batch.antt =====
-- What the loop of `drain` appends.
use zch_coding_agent.Base.{
  ℕ, zero, suc, ◌≤◌, length, arith, ◌≡◌, refl, sym, ap, ap₂, ◌∙◌, inl, inr, Bool, true, false,
  Option, none, some, List, [], ◌∷◌, ◌++◌, map, append-nil, append_assoc, if◌then◌else◌, Bool-cases,
  nat_eq, string_eq, option_eq, Result, ok, err, ok_injective, subst, String,
}
use zch_coding_agent.Base.Preds.{All}
use zch_coding_agent.Base.Text.{trim, is_blank, truthy}
use zch_coding_agent.Message.{MessageRecord, Body, prompt, text, orchestrator, interjection}
use zch_coding_agent.History.Append.{
  CanonicalHistoryState, Stamp, Host, Outcome, take_seq, identified, push, refuse_if, PromptInput,
  append_prompt_message,
}
use zch_coding_agent.Session.Interjections.Queue.{queue_all-canonical, queued_after}
use zch_coding_agent.Session.Interjections.{
  RunInterjection, ActiveRun, Arrival, queue_all, DrainError, emit, layer_from, tagged_layer,
  layer_of, after_batch, DrainContext, Progress, stopped, preceded, appended_one, with_layer,
  inject_all, requeued, not_logged, parent_tag,
}
use zch_coding_agent.Tagged.{TagError, render_tagged_text}

-- The body of a prompt: its kind, one text, whether it is trusted, and the interjection.
abbrev pub IsPrompt : PromptInput → Body → Type 0
IsPrompt input (prompt kind (text s ∷ []) (some metadata)) =
    (kind ≡ input.kind)
    × (s ≡ trim input.content)
    × (metadata.layer.trusted ≡ input.trusted)
    × (metadata.interjection_id ≡ truthy input.interjection_id)
IsPrompt input _ = ⊥

-- What appending a prompt does: nothing, or one record more, with the new id.
abbrev Appends : CanonicalHistoryState → Stamp → PromptInput → Outcome → Type 0
Appends st stamp input (st', err e) = st' ≡ st
Appends st stamp input (st', ok r) =
    (st'.history ≡ st.history ++ r ∷ [])
    × (st'.session_id ≡ st.session_id)
    × (r.id ≡ stamp.id)
    × IsPrompt input r.body

-- What is told of an interjection: the user's own words, which are not trusted, or the words of a
-- parent agent in a tag, which are.
abbrev pub IsLayer : RunInterjection → Option (String × String) → PromptInput → Type 0
IsLayer i none input =
    (input.interjection_id ≡ some i.id)
    × (input.kind ≡ interjection)
    × (input.trusted ≡ false)
    × (input.content ≡ i.content)
IsLayer i (some parent) input =
    (input.interjection_id ≡ some i.id)
    × (input.kind ≡ orchestrator)
    × (input.trusted ≡ true)
    × (render_tagged_text parent_tag i.content ≡ ok input.content)

-- The body tells the interjection.
abbrev pub Carries : RunInterjection → Body → Type 0
Carries i body = (input : PromptInput) × IsLayer i i.parent_message input × IsPrompt input body

prompt-Appends :
    (host : Host) (st : CanonicalHistoryState) (stamp : Stamp) (input : PromptInput)
    → Appends st stamp input (append_prompt_message host st stamp input)
unfolding append_prompt_message push identified take_seq refuse_if
prompt-Appends host st stamp input = elim (Bool-cases (is_blank (trim input.content))) [
  | inl e ↦ rw (append_prompt_message, e) refl
  | inr e ↦ rw (append_prompt_message, e) (refl, refl, refl, (refl, refl, refl, refl))
]

module _ (c : DrainContext) where
  abbrev pub AreStamps : List String → Type 0
  AreStamps ids = All (λ id. (k : ℕ) × (id ≡ (c.stamp k).id)) ids

  -- Each record tells an interjection, in order.
  abbrev pub Delivers : List RunInterjection → List MessageRecord → Type 0
  Delivers [] [] = Unit
  Delivers (i ∷ is) (r ∷ rs) = Carries i r.body × Delivers is rs
  Delivers _ _ = ⊥

  pub Delivers-length :
      (is : List RunInterjection) (rs : List MessageRecord)
      → Delivers is rs
      → length (map (λ r. r.id) rs) ≡ length is
  Delivers-length [] [] d = refl
  Delivers-length (i ∷ is) (r ∷ rs) (own, d) = ap suc (Delivers-length is rs d)
  Delivers-length [] (r ∷ rs) d = absurd d
  Delivers-length (i ∷ is) [] d = absurd d

  -- The calls of `queue` during `k` awaits, from the await `n` on.
  abbrev pub arrived : ℕ → ℕ → List Arrival
  arrived n zero = []
  arrived n (suc k) = c.arrivals n ++ arrived (suc n) k

  -- The records go behind the history, under new ids, and the interjections are those of the queue
  -- but for how they are marked. What came in during the awaits is queued.
  abbrev pub Adds : ℕ → List RunInterjection → ActiveRun → Progress → Type 0
  Adds n is run p =
      (rs : List MessageRecord) × (p.run.canonical.history ≡ run.canonical.history ++ rs)
      × (map (λ r. r.id) rs ≡ p.appended)
      × (p.run.canonical.session_id ≡ run.canonical.session_id)
      × AreStamps p.appended
      × (p.run.pending ≡ (queue_all (arrived n (length p.appended)) run).pending)
      × (length p.appended ≤ length is)
      × (map requeued p.interjections ≡ map requeued is)
      × (p.failure ≡ none → Delivers is rs)

  stopped-Adds :
      (n : ℕ) (is : List RunInterjection) (run : ActiveRun) (failure : Option DrainError)
      → (failure ≡ none → Delivers is [])
      → Adds n is run (stopped run is failure)
  unfolding queue_all
  stopped-Adds n is run failure none_left = (
    [],
    sym (append-nil run.canonical.history),
    refl,
    refl,
    tt,
    refl,
    omega arith,
    refl,
    none_left,
  )

  requeued-after_batch :
      (batch : Option String) (i : RunInterjection) → requeued (after_batch batch i) ≡ requeued i
  requeued-after_batch none i = refl
  requeued-after_batch (some batch) i = refl

  -- One record more in front of what the rest adds.
  preceded-Adds :
      (i : RunInterjection) (rest : List RunInterjection) (run next : ActiveRun) (r : MessageRecord)
      (n : ℕ) (p : Progress)
      → next.canonical.history ≡ run.canonical.history ++ r ∷ []
      → next.canonical.session_id ≡ run.canonical.session_id
      → ((later : List Arrival)
          → (queue_all later next).pending ≡ (queue_all (c.arrivals n ++ later) run).pending)
      → r.id ≡ (c.stamp n).id
      → Carries i r.body
      → Adds (suc n) rest next p
      → Adds n (i ∷ rest) run (preceded r.id (after_batch (truthy c.batch_id) i) p)
  preceded-Adds i rest run next r n p h s q id own
        (rs, history, ids, session, stamps, pending, few, same, all) =
      (
        r ∷ rs,
        history ∙ ap (λ l. l ++ rs) h ∙ append_assoc run.canonical.history (r ∷ []) rs,
        ap (λ l. r.id ∷ l) ids,
        session ∙ s,
        ((n, id), stamps),
        pending ∙ q (arrived (suc n) (length p.appended)),
        omega arith,
        ap₂ (λ x xs. x ∷ xs) (requeued-after_batch (truthy c.batch_id) i) same,
        λ done. (own, all done),
      )

  either-Adds :
      (b : Bool) (n : ℕ) (is : List RunInterjection) (run : ActiveRun) (p q : Progress)
      → Adds n is run p
      → Adds n is run q
      → Adds n is run (if b then p else q)
  either-Adds true n is run p q h k = h
  either-Adds false n is run p q h k = k

  appended_one-Adds :
      (n : ℕ) (i : RunInterjection) (rest : List RunInterjection) (run : ActiveRun)
      (next : ActiveRun → Progress) (input : PromptInput) (o : Outcome)
      → IsLayer i i.parent_message input
      → Appends run.canonical (c.stamp n) input o
      → ((later : ActiveRun) → Adds (suc n) rest later (next later))
      → Adds n (i ∷ rest) run (appended_one c n i rest run next o)
  unfolding queue_all
  appended_one-Adds n i rest run next input (canonical, err e) own h k = (
    [],
    ap (λ s. s.history) h ∙ sym (append-nil run.canonical.history),
    refl,
    ap (λ s. s.session_id) h,
    tt,
    refl,
    omega arith,
    refl,
    λ f. absurd cc,
  )
  appended_one-Adds n i rest run next input (canonical, ok r) own (history, session, id, marked) k =
      let done = after_batch (truthy c.batch_id) i in
      let emitted = emit done (record run { canonical = canonical }) in
      let awaited = queue_all (c.arrivals n) emitted in
      let later =
        if c.is_logged done then next awaited else stopped awaited rest (some not_logged) in
      let rest_adds =
        either-Adds (c.is_logged done) (suc n) rest awaited (next awaited)
          (stopped awaited rest (some not_logged)) (k awaited)
          (stopped-Adds (suc n) rest awaited (some not_logged) (λ f. absurd cc)) in
      let same = queue_all-canonical (c.arrivals n) emitted in
      preceded-Adds i rest run awaited r n later (ap (λ s. s.history) same ∙ history)
        (ap (λ s. s.session_id) same ∙ session)
        (λ arriving. queued_after (c.arrivals n) arriving emitted run refl refl) id
        (input, own, marked) rest_adds

  layer_from-IsLayer :
      (i : RunInterjection) (root : String) (parent : Option (String × String))
      {input : PromptInput}
      → layer_from i root parent ≡ ok input
      → IsLayer i parent input
  layer_from-IsLayer i root none e =
      subst (IsLayer i none) (ok_injective e) (refl, refl, refl, refl)
  layer_from-IsLayer i root (some parent) e =
      tagged_layer-IsLayer (render_tagged_text parent_tag i.content) refl e
    where
      tagged_layer-IsLayer :
          (rendered : Result TagError (List ℕ)) {input : PromptInput}
          → render_tagged_text parent_tag i.content ≡ rendered
          → tagged_layer i root rendered ≡ ok input
          → IsLayer i (some parent) input
      tagged_layer-IsLayer (err bad) made e = absurd cc
      tagged_layer-IsLayer (ok content) made e =
          subst (IsLayer i (some parent)) (ok_injective e) (refl, refl, refl, made)

  with_layer-Adds :
      (n : ℕ) (i : RunInterjection) (rest : List RunInterjection) (run : ActiveRun)
      (next : ActiveRun → Progress) (layer : Result DrainError PromptInput)
      → layer_of i c.root ≡ layer
      → ((later : ActiveRun) → Adds (suc n) rest later (next later))
      → Adds n (i ∷ rest) run (with_layer c n i rest run next layer)
  unfolding layer_of
  with_layer-Adds n i rest run next (err e) l k =
      stopped-Adds n (i ∷ rest) run (some e) (λ f. absurd cc)
  with_layer-Adds n i rest run next (ok input) l k =
      appended_one-Adds n i rest run next input
        (append_prompt_message c.host run.canonical (c.stamp n) input)
        (layer_from-IsLayer i c.root i.parent_message l)
        (prompt-Appends c.host run.canonical (c.stamp n) input) k

  pub inject_all-Adds :
      (n : ℕ) (is : List RunInterjection) (run : ActiveRun) → Adds n is run (inject_all c n is run)
  unfolding inject_all
  inject_all-Adds n [] run = stopped-Adds n [] run none (λ f. tt)
  inject_all-Adds n (i ∷ rest) run =
      with_layer-Adds n i rest run (inject_all c (suc n) rest) (layer_of i c.root) refl
        (inject_all-Adds (suc n) rest)
