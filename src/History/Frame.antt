-- ===== src/History/Frame.antt =====
-- What every operation on a history keeps, and any sequence of them.
use zch_coding_agent.Base.{
  ℕ, suc, ◌≤◌, ◌<◌, ◌≡◌, refl, sym, subst, inl, inr, Bool, true, false, not, Option, List, [], ◌∷◌,
  ◌++◌, arith, Bool-cases, nat_eq, string_eq, Result, ok, err, Result-cases, String,
}
use zch_coding_agent.Base.Preds.{All, All-append}
use zch_coding_agent.Route.{ModelRouteSnapshot}
use zch_coding_agent.Message.{
  MessageRecord, Attachment, Body, Envelope, PromptMetadata, UsageMetadata, MessageVisibility,
  assert_message_record_semantics,
}
use zch_coding_agent.History.Append.{
  CanonicalHistoryState, Stamp, Host, AppendError, Outcome, take_seq, identified, push, refuse,
  refuse_if, PromptInput, append_prompt_message, UserInput, append_user_input,
}
use zch_coding_agent.History.Turn.{
  AssistantTurnCandidateInput, append_completed_assistant_turn, assert_assistant_turn_candidate,
  ToolResultInput, append_tool_result, append_compact_summary, push_checked,
  append_provider_compact_summary, append_conversation_transcript,
}

-- An operation appends one record, under the next sequence number and in the state's session, or
-- it fails and leaves the history alone.
pub Extends : CanonicalHistoryState → Outcome → Type 0
Extends st (st', ok r) =
    (st'.session_id ≡ st.session_id)
    × (st'.history ≡ st.history ++ r ∷ [])
    × (st'.next_message_seq ≡ suc st.next_message_seq)
    × (r.seq ≡ st.next_message_seq)
    × (r.session_id ≡ st.session_id)
Extends st (st', err e) =
    (st'.session_id ≡ st.session_id)
    × (st'.history ≡ st.history)
    × (st.next_message_seq ≤ st'.next_message_seq)

push-Extends :
    (st : CanonicalHistoryState) (r : MessageRecord)
    → r.seq ≡ st.next_message_seq
    → r.session_id ≡ st.session_id
    → Extends st (push st r)
unfolding push take_seq Extends
push-Extends st r e s = (refl, refl, refl, e, s)

refuse-Extends : (st : CanonicalHistoryState) (e : AppendError) → Extends st (refuse st e)
unfolding Extends
refuse-Extends st e = (refl, refl, omega arith)

push-identified-Extends :
    (st : CanonicalHistoryState) (stamp : Stamp) (visibility : MessageVisibility)
    (turn_id : Option String) (body : Body)
    → Extends st (push st (identified st stamp visibility turn_id body))
unfolding identified Extends
push-identified-Extends st stamp visibility turn_id body = push-Extends st _ refl refl

refuse_if-Extends :
    (b : Bool) (e : AppendError) (st : CanonicalHistoryState) (rest : Outcome)
    → Extends st rest
    → Extends st (refuse_if b e st rest)
unfolding refuse_if
refuse_if-Extends true e st rest h = refuse-Extends st e
refuse_if-Extends false e st rest h = h

push_checked-Extends :
    (host : Host) (st : CanonicalHistoryState) (stamp : Stamp) (visibility : MessageVisibility)
    (turn_id : Option String) (body : Body)
    → Extends st (push_checked host st (identified st stamp visibility turn_id body))
unfolding push_checked take_seq Extends
push_checked-Extends host st stamp visibility turn_id body =
    let r = identified st stamp visibility turn_id body in
    elim (Bool-cases (not (host.schema_valid r))) [
      | inl bad ↦ rw bad (refl, refl, omega arith)
      | inr fits ↦ elim (Result-cases (assert_message_record_semantics host.platform r)) [
        | inl (u, good) ↦
            rw (fits, good, push_checked) (push-identified-Extends st stamp visibility turn_id body)
        | inr (e, bad) ↦ rw (fits, bad, push_checked) (refl, refl, omega arith)
      ]
    ]

-- The operations on a history, with their arguments.
pub data Operation : Type 0 where
  prompts : Stamp → PromptInput → Operation
  inputs : Stamp → UserInput → Operation
  completes : Stamp → AssistantTurnCandidateInput → Operation
  results : Stamp → ToolResultInput → Operation
  compacts : Stamp → List ℕ → ℕ → String → Option PromptMetadata → Option String → Operation
  compacts_natively :
      Stamp
      → Envelope
      → ModelRouteSnapshot
      → ℕ
      → String
      → Option UsageMetadata
      → Option PromptMetadata
      → Option String
      → Operation
  transcribes :
      Stamp → List ℕ → ModelRouteSnapshot → ℕ → String → String → List Attachment → Operation

pub perform : Host → CanonicalHistoryState → Operation → Outcome
perform host st (prompts stamp input) = append_prompt_message host st stamp input
perform host st (inputs stamp input) = append_user_input st stamp input
perform host st (completes stamp input) = append_completed_assistant_turn host st stamp input
perform host st (results stamp input) = append_tool_result st stamp input
perform host st (compacts stamp content through hash resource turn) =
    append_compact_summary st stamp content through hash resource turn
perform host st (compacts_natively stamp payload route through hash usage resource turn) =
    append_provider_compact_summary host st stamp payload route through hash usage resource turn
perform host st (transcribes stamp content route through hash content_hash attachments) =
    append_conversation_transcript host st stamp content route through hash content_hash attachments

user-Extends :
    (st : CanonicalHistoryState) (stamp : Stamp) (input : UserInput)
    → Extends st (append_user_input st stamp input)
unfolding append_user_input identified
user-Extends st stamp input =
    refuse_if-Extends _ _ st _ (refuse_if-Extends _ _ st _ (push-Extends st _ refl refl))

completed-Extends :
    (host : Host) (st : CanonicalHistoryState) (stamp : Stamp) (input : AssistantTurnCandidateInput)
    → Extends st (append_completed_assistant_turn host st stamp input)
unfolding append_completed_assistant_turn
completed-Extends host st stamp input =
    elim (Result-cases (assert_assistant_turn_candidate host st stamp.now input)) [
      | inl (u, good) ↦
          rw (good, append_completed_assistant_turn) (push-identified-Extends st stamp _ _ _)
      | inr (e, bad) ↦ rw (bad, append_completed_assistant_turn) (refuse-Extends st e)
    ]

-- Every appending operation, whatever its arguments and the host, appends exactly the record that
-- it returns, numbered with the next sequence number, which it uses up; or it fails, and then the
-- records are as they were and no sequence number is given back.
pub perform-Extends :
    (host : Host) (st : CanonicalHistoryState) (op : Operation) → Extends st (perform host st op)
unfolding perform append_prompt_message append_tool_result append_compact_summary
    append_provider_compact_summary append_conversation_transcript
perform-Extends host st (prompts stamp input) =
    refuse_if-Extends _ _ st _ (push-identified-Extends st stamp _ _ _)
perform-Extends host st (inputs stamp input) = user-Extends st stamp input
perform-Extends host st (completes stamp input) = completed-Extends host st stamp input
perform-Extends host st (results stamp input) = push-identified-Extends st stamp _ _ _
perform-Extends host st (compacts stamp content through hash resource turn) =
    push-identified-Extends st stamp _ _ _
perform-Extends host st (compacts_natively stamp payload route through hash usage resource turn) =
    refuse_if-Extends _ _ st _ (push_checked-Extends host st stamp _ _ _)
perform-Extends host st (transcribes stamp content route through hash content_hash attachments) =
    refuse_if-Extends _ _ st _
      (refuse_if-Extends _ _ st _ (push_checked-Extends host st stamp _ _ _))

-- The records are of the session, their sequence numbers ascend, and the next is above them all.
abbrev pub AscendingTo : ℕ → List MessageRecord → ℕ → Type 0
AscendingTo low [] high = low < high
AscendingTo low (r ∷ rs) high = (low < r.seq) × AscendingTo r.seq rs high

pub record IsOrdered (st : CanonicalHistoryState) : Type 0 where
  pub one_session : All (λ r. r.session_id ≡ st.session_id) st.history
  pub ascending : AscendingTo 0 st.history st.next_message_seq

AscendingTo-snoc :
    (low high : ℕ) (rs : List MessageRecord) (r : MessageRecord)
    → AscendingTo low rs high
    → r.seq ≡ high
    → AscendingTo low (rs ++ r ∷ []) (suc high)
AscendingTo-snoc low high [] r h e = omega arith
AscendingTo-snoc low high (s ∷ rs) r (p, h) e = (p, AscendingTo-snoc s.seq high rs r h e)

AscendingTo-weaken :
    (low high higher : ℕ) (rs : List MessageRecord)
    → AscendingTo low rs high
    → high ≤ higher
    → AscendingTo low rs higher
AscendingTo-weaken low high higher [] h e = omega arith
AscendingTo-weaken low high higher (r ∷ rs) (p, h) e =
    (p, AscendingTo-weaken r.seq high higher rs h e)

Extends-IsOrdered :
    (st st' : CanonicalHistoryState) (result : Result AppendError MessageRecord)
    → Extends st (st', result)
    → IsOrdered st
    → IsOrdered st'
unfolding Extends
Extends-IsOrdered st st' (ok r) (session, history, next, seq, own) o = record {
  one_session = subst (All (λ s. s.session_id ≡ st'.session_id)) (sym history) (
      subst (λ sid. All (λ (s : MessageRecord). s.session_id ≡ sid) (st.history ++ r ∷ []))
        (sym session) (All-append _ st.history (r ∷ []) o.one_session (own, tt)));
  ascending =
      subst (λ rs. AscendingTo 0 rs st'.next_message_seq) (sym history)
        (subst (AscendingTo 0 (st.history ++ r ∷ [])) (sym next)
          (AscendingTo-snoc 0 st.next_message_seq st.history r o.ascending seq));
}
Extends-IsOrdered st st' (err e) (session, history, next) o = record {
  one_session = subst (All (λ s. s.session_id ≡ st'.session_id)) (sym history) (
      subst (λ sid. All (λ (s : MessageRecord). s.session_id ≡ sid) st.history) (sym session)
        o.one_session);
  ascending =
      subst (λ rs. AscendingTo 0 rs st'.next_message_seq) (sym history)
        (AscendingTo-weaken 0 st.next_message_seq st'.next_message_seq st.history o.ascending next);
}

pub perform_all : Host → CanonicalHistoryState → List Operation → CanonicalHistoryState
perform_all host st [] = st
perform_all host st (op ∷ ops) = perform_all host (perform host st op).0 ops

-- After any appending operations, those that fail among them, the sequence numbers of the history still
-- ascend below the next one, and all records are of the session.
pub perform_all-IsOrdered :
    (host : Host) (st : CanonicalHistoryState) (ops : List Operation)
    → IsOrdered st
    → IsOrdered (perform_all host st ops)
unfolding perform_all
perform_all-IsOrdered host st [] o = o
perform_all-IsOrdered host st (op ∷ ops) o = perform_all-IsOrdered host (perform host st op).0 ops (
    Extends-IsOrdered st (perform host st op).0 (perform host st op).1 (perform-Extends host st op)
      o)
