-- ===== src/Terminal/Ansi/Screen.antt =====
-- What the sanitizer lets through, against a grammar of terminal output.
use zch_coding_agent.Base.{
  ℕ, ◌≡◌, refl, ap, ◌∙◌, ◌≢◌, ◌⊎◌, true, false, List, [], ◌∷◌, ◌++◌, arith, nat_eq, string_eq,
}
use zch_coding_agent.Base.Preds.{All}
use zch_coding_agent.Terminal.Ansi.{
  ParserState, text, escape, csi, osc, control_string, step, push, is_csi_final,
  is_control_string_introducer,
}
use zch_coding_agent.Terminal.Ansi.Chunks.{IsVisible, concat, push_all, push_all-concat}

-- How a CSI, an OSC and the other control strings begin: with ESC, or with one 8-bit control.
pub data Opens : List ℕ → ParserState → Type 0 where
  csi_seven : Opens (0x1b ∷ b'[' ∷ []) csi
  csi_eight : Opens (0x9b ∷ []) csi
  osc_seven : Opens (0x1b ∷ b']' ∷ []) osc
  osc_eight : Opens (0x9d ∷ []) osc
  string_seven :
      (code : ℕ)
      → is_control_string_introducer code ≡ true
      → Opens (0x1b ∷ code ∷ []) control_string
  string_eight :
      (code : ℕ)
      → (code ≡ 0x90) ⊎ (code ≡ 0x98) ⊎ (code ≡ 0x9e) ⊎ (code ≡ 0x9f)
      → Opens (code ∷ []) control_string

-- What may stand inside a sequence of that kind.
abbrev pub Inside : ParserState → ℕ → Type 0
Inside csi code = is_csi_final code ≡ false
Inside osc code = (code ≢ 0x07) × (code ≢ 0x9c) × (code ≢ 0x1b)
Inside control_string code = (code ≢ 0x9c) × (code ≢ 0x1b)
Inside _ code = ⊥

-- How it ends.
pub data Closes : ParserState → List ℕ → Type 0 where
  final : (code : ℕ) → is_csi_final code ≡ true → Closes csi (code ∷ [])
  bell : Closes osc (0x07 ∷ [])
  osc_st : Closes osc (0x9c ∷ [])
  osc_esc_st : Closes osc (0x1b ∷ 0x5c ∷ [])
  string_st : Closes control_string (0x9c ∷ [])
  string_esc_st : Closes control_string (0x1b ∷ 0x5c ∷ [])

-- Terminal output `i` that shows the text `o`: visible characters, and complete sequences.
pub data Shows : List ℕ → List ℕ → Type 0 where
  nothing : Shows [] []
  char : (code : ℕ) {i o : List ℕ} → IsVisible code → Shows i o → Shows (code ∷ i) (code ∷ o)
  sequence :
      {kind : ParserState} {open' close' : List ℕ} (body : List ℕ) {i o : List ℕ}
      → Opens open' kind
      → All (Inside kind) body
      → Closes kind close'
      → Shows i o
      → Shows (open' ++ (body ++ (close' ++ i))) o

step-char : (code : ℕ) → IsVisible code → step text code ≡ (text, code ∷ [])
unfolding step
step-char code v = ground arith

push_one :
    (a b : ParserState) (code : ℕ) (i : List ℕ)
    → step a code ≡ (b, [])
    → push a (code ∷ i) ≡ push b i
unfolding push
push_one a b code i h = rw h

step-string_seven :
    (code : ℕ) → is_control_string_introducer code ≡ true → step escape code ≡ (control_string, [])
unfolding step
step-string_seven code h = ground arith

step-string_eight :
    (code : ℕ)
    → (code ≡ 0x90) ⊎ (code ≡ 0x98) ⊎ (code ≡ 0x9e) ⊎ (code ≡ 0x9f)
    → step text code ≡ (control_string, [])
unfolding step
step-string_eight code h = ground arith

step-final : (code : ℕ) → is_csi_final code ≡ true → step csi code ≡ (text, [])
unfolding step
step-final code h = ground arith

push-Opens :
    {kind : ParserState} {open' : List ℕ} (i : List ℕ)
    → Opens open' kind
    → push text (open' ++ i) ≡ push kind i
unfolding push step
push-Opens i csi_seven = refl
push-Opens i csi_eight = refl
push-Opens i osc_seven = refl
push-Opens i osc_eight = refl
push-Opens i (string_seven code h) =
    push_one escape control_string code i (step-string_seven code h)
push-Opens i (string_eight code h) = push_one text control_string code i (step-string_eight code h)

step-Inside : (kind : ParserState) (code : ℕ) → Inside kind code → step kind code ≡ (kind, [])
unfolding step
step-Inside csi code h = ground arith
step-Inside osc code h = ground arith
step-Inside control_string code h = ground arith
step-Inside _ code h = absurd h

push-Inside :
    (kind : ParserState) (body i : List ℕ)
    → All (Inside kind) body
    → push kind (body ++ i) ≡ push kind i
unfolding push
push-Inside kind [] i h = refl
push-Inside kind (code ∷ body) i (p, h) = rw (step-Inside kind code p) (push-Inside kind body i h)

push-Closes :
    {kind : ParserState} {close' : List ℕ} (i : List ℕ)
    → Closes kind close'
    → push kind (close' ++ i) ≡ push text i
unfolding push step
push-Closes i (final code h) = push_one csi text code i (step-final code h)
push-Closes i bell = refl
push-Closes i osc_st = refl
push-Closes i osc_esc_st = refl
push-Closes i string_st = refl
push-Closes i string_esc_st = refl

-- Of output that is made of visible characters and of complete CSI, OSC and control strings, in
-- seven or eight bits, exactly the visible characters come out, in order.
pub push-Shows : {i o : List ℕ} → Shows i o → push text i ≡ (text, o)
unfolding push
push-Shows nothing = refl
push-Shows (char code v s) = rw (step-char code v) (ap (λ r. (r.0, code ∷ r.1)) (push-Shows s))
push-Shows (sequence {kind} {close'} body {i} o h c s) =
    push-Opens (body ++ (close' ++ i)) o
    ∙ push-Inside kind body (close' ++ i) h
    ∙ push-Closes i c
    ∙ push-Shows s

-- However output of visible characters and of complete CSI, OSC and control strings is cut into
-- chunks, inside a sequence too, the chunks show together exactly its visible characters, in order,
-- and the sanitizer ends outside every sequence.
pub push_all-Shows :
    (chunks : List (List ℕ)) {o : List ℕ}
    → Shows (concat chunks) o
    → push_all text chunks ≡ (text, o)
push_all-Shows chunks s = push_all-concat text chunks ∙ push-Shows s
