-- ===== src/Terminal/Ansi/Chunks.antt =====
-- Streams in chunks, and the characters that are visible.
use zch_coding_agent.Base.{
  ℕ, ◌<◌, ◌≡◌, refl, sym, ap, ◌∙◌, ◌≢◌, ◌⊎◌, List, [], ◌∷◌, ◌++◌, append_assoc, arith, nat_eq,
  string_eq,
}
use zch_coding_agent.Base.Preds.{All, All-append}
use zch_coding_agent.Terminal.Ansi.{ParserState, text, step, push}

-- The output of a whole stream that comes in chunks.
pub push_all : ParserState → List (List ℕ) → ParserState × List ℕ
push_all state [] = (state, [])
push_all state (chunk ∷ chunks) =
    let (next, shown) = push state chunk in
    let (last, output) = push_all next chunks in (last, shown ++ output)

abbrev pub concat : List (List ℕ) → List ℕ
concat [] = []
concat (c ∷ cs) = c ++ concat cs

push-append :
    (state : ParserState) (xs ys : List ℕ)
    → push state (xs ++ ys)
      ≡ ((push (push state xs).0 ys).0, (push state xs).1 ++ (push (push state xs).0 ys).1)
unfolding push
push-append state [] ys = refl
push-append state (x ∷ xs) ys =
    let ih = push-append (step state x).0 xs ys in
    λ i. (
      (ih i).0,
      (ap (λ r. (step state x).1 ++ r.1) ih
            ∙ sym (
                append_assoc (step state x).1 (push (step state x).0 xs).1
                  (push (push (step state x).0 xs).0 ys).1))
          i,
    )

pub push_all-concat :
    (state : ParserState) (chunks : List (List ℕ))
    → push_all state chunks ≡ push state (concat chunks)
unfolding push_all push
push_all-concat state [] = refl
push_all-concat state (c ∷ cs) =
    let ih = push_all-concat (push state c).0 cs in
    let whole = push-append state c (concat cs) in
    (λ i. ((ih i).0, (push state c).1 ++ (ih i).1)) ∙ sym whole

-- Not ESC, and not a 8-bit control.
abbrev pub IsVisible : ℕ → Type 0
IsVisible code = (code ≢ 0x1b) × ((code < 0x80) ⊎ (0x9f < code))

step-IsVisible : (state : ParserState) (code : ℕ) → All IsVisible (step state code).1
unfolding step
step-IsVisible text code = ground arith
step-IsVisible _ code = ground arith

-- Whatever the state and the chunk, the text that comes out holds no ESC and no 8-bit control.
pub push-IsVisible : (state : ParserState) (chunk : List ℕ) → All IsVisible (push state chunk).1
unfolding push
push-IsVisible state [] = tt
push-IsVisible state (code ∷ chunk) =
    All-append IsVisible (step state code).1 _ (step-IsVisible state code)
      (push-IsVisible (step state code).0 chunk)
