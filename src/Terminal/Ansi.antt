-- ===== src/Terminal/Ansi.antt =====
-- electron/terminal/ansi-stream-sanitizer.ts: the state machine that strips terminal control
-- sequences. A chunk is the list of its code points, as `for (const value of chunk)` yields them.
pub mod Chunks
pub mod Screen
use zch_coding_agent.Base.{
  ℕ, Bool, not, ◌&&◌, ◌||◌, List, [], ◌∷◌, ◌++◌, ltb, leb, if◌then◌else◌, ◌==◌, nat_eq, string_eq,
}

pub data ParserState : Type 0 where
  text escape escape_intermediate csi osc osc_escape control_string control_string_escape :
      ParserState

unfoldable pub is_csi_final : ℕ → Bool
is_csi_final code = leb 0x40 code && leb code 0x7e

pub is_escape_intermediate : ℕ → Bool
is_escape_intermediate code = leb 0x20 code && leb code 0x2f

pub is_escape_final : ℕ → Bool
is_escape_final code = leb 0x30 code && leb code 0x7e

pub is_control_string_introducer : ℕ → Bool
is_control_string_introducer code = code == b'P' || code == b'X' || code == b'^' || code == b'_'

-- One round of the loop of `push`: the next state, and what is added to the output.
pub step : ParserState → ℕ → ParserState × List ℕ
unfolding is_csi_final is_escape_intermediate is_escape_final is_control_string_introducer
step text code =
    if code == 0x1b
    then (escape, [])
    else if code == 0x9b
    then (csi, [])
    else if code == 0x9d
    then (osc, [])
    else if code == 0x90 || code == 0x98 || code == 0x9e || code == 0x9f
    then (control_string, [])
    else if ltb code 0x80 || ltb 0x9f code
    then (text, code ∷ [])
    else (text, [])
step escape code =
    if code == b'['
    then (csi, [])
    else if code == b']'
    then (osc, [])
    else if is_control_string_introducer code
    then (control_string, [])
    else if is_escape_intermediate code
    then (escape_intermediate, [])
    else (text, [])
step escape_intermediate code =
    if is_escape_final code then (text, []) else (escape_intermediate, [])
step csi code = if is_csi_final code then (text, []) else (csi, [])
step osc code =
    if code == 0x07 || code == 0x9c
    then (text, [])
    else if code == 0x1b
    then (osc_escape, [])
    else (osc, [])
step osc_escape code =
    if code == 0x5c || code == 0x9c
    then (text, [])
    else if not (code == 0x1b)
    then (osc, [])
    else (osc_escape, [])
step control_string code =
    if code == 0x9c
    then (text, [])
    else if code == 0x1b
    then (control_string_escape, [])
    else (control_string, [])
step control_string_escape code =
    if code == 0x5c || code == 0x9c
    then (text, [])
    else if not (code == 0x1b)
    then (control_string, [])
    else (control_string_escape, [])

-- `push`: the state after the chunk, and the visible text.
pub push : ParserState → List ℕ → ParserState × List ℕ
push state [] = (state, [])
push state (code ∷ chunk) =
    let (next, shown) = step state code in
    let (last, output) = push next chunk in (last, shown ++ output)

-- `flush`, at the end of the stream.
pub flush : ParserState → ParserState × List ℕ
flush state = (text, [])
