-- ===== src/History/Transcript.antt =====
-- `messageText` of electron/session/canonical-history.ts, and the texts of a transcript.
use zch_coding_agent.Base.{
  ℕ, zero, suc, ◌≤◌, ◌≡◌, refl, sym, ap, ◌∙◌, subst, inl, inr, Bool, true, false, List, [], ◌∷◌,
  ◌++◌, map, append-nil, arith, Bool-cases, Option-cases, length, nat_eq, string_eq, ok,
  Result-cases, String,
}
use zch_coding_agent.Base.{take, drop, take-append-drop, length-take, length-drop}
use zch_coding_agent.Base.Preds.{All}
use zch_coding_agent.Message.{
  MessageRecord, Body, user_input, assistant_turn, tool_result, prompt, compact_summary,
  conversation_transcript, MessagePart, text, image, file, tool_call, CompactPart, summary_text,
  provider_compact, Attachment, assert_message_record_semantics,
}
use zch_coding_agent.Route.{ModelRouteSnapshot}
use zch_coding_agent.History.Append.{
  CanonicalHistoryState, Stamp, Host, AppendError, Outcome, refuse_if, push, identified,
  attachment_part,
}
use zch_coding_agent.History.Turn.{
  slices, push_checked, append_conversation_transcript, max_message_text_length,
}

-- The texts of the parts of type `text`.
abbrev pub texts : List MessagePart → List (List ℕ)
texts [] = []
texts (text s ∷ parts) = s ∷ texts parts
texts (_ ∷ parts) = texts parts

abbrev pub compact_texts : List CompactPart → List (List ℕ)
compact_texts [] = []
compact_texts (summary_text s ∷ parts) = s ∷ compact_texts parts
compact_texts (provider_compact e ∷ parts) = compact_texts parts

abbrev pub join : List ℕ → List (List ℕ) → List ℕ
join between [] = []
join between (s ∷ []) = s
join between (s ∷ (t ∷ rest)) = s ++ (between ++ join between (t ∷ rest))

abbrev pub body_texts : Body → List (List ℕ)
body_texts (user_input parts metadata) = texts parts
body_texts (assistant_turn turn) = texts turn.parts
body_texts (tool_result part metadata) = []
body_texts (prompt kind parts metadata) = texts parts
body_texts (compact_summary parts route metadata) = compact_texts parts
body_texts (conversation_transcript parts route metadata) = texts parts

abbrev pub separator : Body → List ℕ
separator (conversation_transcript parts route metadata) = []
separator _ = b'\n' ∷ []

-- `messageText`.
pub message_text : MessageRecord → List ℕ
message_text r = join (separator r.body) (body_texts r.body)

texts-append : (xs ys : List MessagePart) → texts (xs ++ ys) ≡ texts xs ++ texts ys
texts-append [] ys = refl
texts-append (text s ∷ xs) ys = ap (λ t. s ∷ t) (texts-append xs ys)
texts-append (image a ∷ xs) ys = texts-append xs ys
texts-append (file a ∷ xs) ys = texts-append xs ys
texts-append (tool_call c ∷ xs) ys = texts-append xs ys

-- Attachments have no text.
texts-attachments : (attachments : List Attachment) → texts (map attachment_part attachments) ≡ []
texts-attachments [] = refl
texts-attachments (a ∷ rest) = elim (Option-cases a.image) [
  | inl e ↦ rw e (texts-attachments rest)
  | inr (info, e) ↦ rw e (texts-attachments rest)
]

join-cons : (s : List ℕ) (rest : List (List ℕ)) → join [] (s ∷ rest) ≡ s ++ join [] rest
join-cons s [] = sym (append-nil s)
join-cons s (t ∷ rest) = refl

-- The slices join to the content, and none is longer than the size.
slices-join :
    (size fuel : ℕ) (content : List ℕ)
    → 1 ≤ size
    → length content ≤ fuel
    → join [] (texts (slices size fuel content)) ≡ content
unfolding slices
slices-join size zero [] one enough = refl
slices-join size zero (c ∷ content) one enough = absurd (omega arith)
slices-join size (suc fuel) [] one enough = refl
slices-join size (suc fuel) (c ∷ content) one enough =
    join-cons (take size (c ∷ content)) (texts (slices size fuel (drop size (c ∷ content))))
    ∙ ap (λ t. take size (c ∷ content) ++ t)
        (slices-join size fuel (drop size (c ∷ content)) one
          (omega (arith, length-drop size (c ∷ content))))
    ∙ take-append-drop size (c ∷ content)

slices-short :
    (size fuel : ℕ) (content : List ℕ)
    → All (λ s. length s ≤ size) (texts (slices size fuel content))
unfolding slices
slices-short size zero content = tt
slices-short size (suc fuel) [] = tt
slices-short size (suc fuel) (c ∷ content) = (
  omega (arith, length-take size (c ∷ content)),
  slices-short size fuel (drop size (c ∷ content)),
)

refuse_if-ok :
    (b : Bool) (e : AppendError) (st : CanonicalHistoryState) (rest : Outcome) {r : MessageRecord}
    → (refuse_if b e st rest).1 ≡ ok r
    → rest.1 ≡ ok r
unfolding refuse_if
refuse_if-ok true e st rest h = absurd (ground arith)
refuse_if-ok false e st rest h = h

push_checked-ok :
    (host : Host) (st : CanonicalHistoryState) (made : MessageRecord) {r : MessageRecord}
    → (push_checked host st made).1 ≡ ok r
    → made ≡ r
unfolding push_checked push
push_checked-ok host st made h = elim (Bool-cases (host.schema_valid made)) [
  | inr bad ↦ absurd (ground arith)
  | inl good ↦ elim (Result-cases (assert_message_record_semantics host.platform made)) [
    | inl (u, e) ↦ ground arith
    | inr (e, x) ↦ absurd (ground arith)
  ]
]

-- A transcript that is appended gives its whole content back as its text, whatever attachments go
-- with it, though it is stored in parts, and none of its texts is longer than a part may be.
pub transcript-message_text :
    (host : Host) (st : CanonicalHistoryState) (stamp : Stamp) (content : List ℕ)
    (route : ModelRouteSnapshot) (through : ℕ) (source_hash content_hash : String)
    (attachments : List Attachment) (r : MessageRecord)
    → (append_conversation_transcript host st stamp content route through source_hash content_hash
        attachments).1
      ≡ ok r
    → (message_text r ≡ content) × All (λ s. length s ≤ max_message_text_length) (body_texts r.body)
unfolding append_conversation_transcript message_text identified
transcript-message_text host st stamp content route through source_hash content_hash attachments r
      h =
    let pushed = push_checked-ok host st _ (refuse_if-ok _ _ st _ (refuse_if-ok _ _ st _ h)) in
    let cut = slices max_message_text_length (length content) content in
    let whole : texts (cut ++ map attachment_part attachments) ≡ texts cut =
      texts-append cut (map attachment_part attachments)
      ∙ ap (λ t. texts cut ++ t) (texts-attachments attachments)
      ∙ append-nil (texts cut) in
    (
      subst (λ m. message_text m ≡ content) pushed
          (ap (join []) whole
            ∙ slices-join max_message_text_length (length content) content (omega arith)
                (omega arith)),
      subst (λ m. All (λ s. length s ≤ max_message_text_length) (body_texts m.body)) pushed
          (subst (All (λ s. length s ≤ max_message_text_length)) (sym whole)
            (slices-short max_message_text_length (length content) content)),
    )
