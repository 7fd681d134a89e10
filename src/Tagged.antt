-- ===== src/Tagged.antt =====
-- shared/tagged-message.ts: literal text in XML-like blocks. A text is its UTF-16 code units.
pub mod Escape
pub mod Unwrap
use zch_coding_agent.Base.{
  ℕ, zero, suc, Bool, true, false, not, ◌&&◌, ◌||◌, Option, none, some, List, [], ◌∷◌, ◌++◌, leb,
  if◌then◌else◌, length, ◌==◌, nat_eq, string_eq, Result, ok, ◌>>◌, throw_if,
}
use zch_coding_agent.Base.Text.{trim, has_prefix, has_suffix}
use zch_coding_agent.Base.{take, drop, ◌-◌}

-- `replaceAll` of one code unit.
unfoldable pub replace_char : ℕ → List ℕ → List ℕ → List ℕ
replace_char c by [] = []
replace_char c by (d ∷ s) = if d == c then by ++ replace_char c by s else d ∷ replace_char c by s

abbrev pub amp : List ℕ
amp = b'&' ∷ b'a' ∷ b'm' ∷ b'p' ∷ b';' ∷ []

abbrev pub lt : List ℕ
lt = b'&' ∷ b'l' ∷ b't' ∷ b';' ∷ []

abbrev pub gt : List ℕ
gt = b'&' ∷ b'g' ∷ b't' ∷ b';' ∷ []

unfoldable pub escape_xml_text : List ℕ → List ℕ
escape_xml_text s = replace_char b'>' gt (replace_char b'<' lt (replace_char b'&' amp s))

-- What follows a prefix, if the text has it.
pub strip_prefix : List ℕ → List ℕ → Option (List ℕ)
strip_prefix [] s = some s
strip_prefix (p ∷ ps) [] = none
strip_prefix (p ∷ ps) (c ∷ s) = if c == p then strip_prefix ps s else none

-- `replaceAll` of a text by one code unit, from the left and without overlap; each round takes a
-- code unit at least, so the length of the text is enough fuel.
pub replace_fuel : ℕ → List ℕ → ℕ → List ℕ → List ℕ
replace_fuel zero word by s = s
replace_fuel (suc fuel) word by [] = []
replace_fuel (suc fuel) word by (c ∷ s) = elim (strip_prefix word (c ∷ s)) [
  | some rest ↦ by ∷ replace_fuel fuel word by rest
  | none ↦ c ∷ replace_fuel fuel word by s
]

pub replace_text : List ℕ → ℕ → List ℕ → List ℕ
replace_text word by s = replace_fuel (length s) word by s

pub unescape_xml_text : List ℕ → List ℕ
unescape_xml_text s = replace_text amp b'&' (replace_text gt b'>' (replace_text lt b'<' s))

-- `XML_NAME_PATTERN`.
abbrev pub is_name_start : ℕ → Bool
is_name_start c = (leb b'A' c && leb c b'Z') || (leb b'a' c && leb c b'z') || c == b'_'

abbrev pub is_name_part : ℕ → Bool
is_name_part c = is_name_start c || (leb b'0' c && leb c b'9') || c == b'.' || c == b'-'

abbrev pub all_name_parts : List ℕ → Bool
all_name_parts [] = true
all_name_parts (c ∷ s) = is_name_part c && all_name_parts s

unfoldable pub is_xml_name : List ℕ → Bool
is_xml_name [] = false
is_xml_name (c ∷ s) = is_name_start c && all_name_parts s

pub data TagError : Type 0 where
  invalid_name : List ℕ → TagError

abbrev pub opening : List ℕ → List ℕ
opening tag = (b'<' ∷ tag) ++ (b'>' ∷ 0x0a ∷ [])

abbrev pub closing : List ℕ → List ℕ
closing tag = (0x0a ∷ b'<' ∷ b'/' ∷ tag) ++ (b'>' ∷ [])

unfoldable pub render_tagged_text : List ℕ → List ℕ → Result TagError (List ℕ)
render_tagged_text tag value = do
  throw_if (not (is_xml_name tag)) (invalid_name tag)
  ok (opening tag ++ (escape_xml_text (trim value) ++ closing tag))

-- `slice(from, -back)`.
abbrev pub slice_between : ℕ → ℕ → List ℕ → List ℕ
slice_between from back s = take (length s - back - from) (drop from s)

abbrev pub unwrap_trimmed : List ℕ → List ℕ → Option (List ℕ)
unwrap_trimmed tag trimmed =
    if not (has_prefix (opening tag) trimmed) || not (has_suffix (closing tag) trimmed)
    then none
    else some
        (unescape_xml_text (slice_between (length (opening tag)) (length (closing tag)) trimmed))

unfoldable pub unwrap_tagged_text : List ℕ → List ℕ → Result TagError (Option (List ℕ))
unwrap_tagged_text tag value = do
  throw_if (not (is_xml_name tag)) (invalid_name tag)
  ok (unwrap_trimmed tag (trim value))
