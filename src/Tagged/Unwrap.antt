-- ===== src/Tagged/Unwrap.antt =====
-- A text that goes into a tag and comes out again.
use zch_coding_agent.Base.{
  ℕ, zero, suc, ◌-◌, ◌≡◌, refl, sym, ap, ◌∙◌, subst, ◌≢◌, Bool, true, false, not, ◌||◌, none, some,
  List, [], ◌∷◌, ◌++◌, append_assoc, arith, if◌then◌else◌, length, length-append, nat_eq, string_eq,
  option_eq, ok, ◌>>◌, throw_if, throw_if-not, ok_injective,
}
use zch_coding_agent.Base.{take, drop-append_right, drop_eq}
use zch_coding_agent.Base.Preds.{All}
use zch_coding_agent.Base.Text.{
  trim, has_prefix, has_suffix, has_prefix-append, has_suffix-append, trim_solid, less_solid,
  greater_solid,
}
use zch_coding_agent.Tagged.{
  escape_xml_text, unescape_xml_text, is_xml_name, invalid_name, opening, closing,
  render_tagged_text, slice_between, unwrap_trimmed, unwrap_tagged_text,
}
use zch_coding_agent.Tagged.Escape.{unescape-escape}

take_whole : (xs ys : List ℕ) (n : ℕ) → n ≡ length xs → take n (xs ++ ys) ≡ xs
take_whole [] ys zero e = refl
take_whole [] ys (suc n) e = absurd (omega arith)
take_whole (x ∷ xs) ys zero e = absurd (omega arith)
take_whole (x ∷ xs) ys (suc n) e = ap (λ r. x ∷ r) (take_whole xs ys n (omega arith))

slice_middle :
    (open_part body close_part : List ℕ)
    → slice_between (length open_part) (length close_part) (open_part ++ (body ++ close_part))
      ≡ body
slice_middle open_part body close_part =
    ap (take (length (open_part ++ (body ++ close_part)) - length close_part - length open_part)) (
      drop-append_right (length open_part) open_part (body ++ close_part) (omega arith)
      ∙ drop_eq {m = 0} (body ++ close_part) (omega arith))
    ∙ take_whole body close_part _
        (omega (arith, length-append open_part (body ++ close_part), length-append body close_part))

both_ends :
    {A : Type 0} (a b : Bool) (x : A)
    → a ≡ true
    → b ≡ true
    → (if not a || not b then none else some x) ≡ some x
both_ends true true x h k = refl
both_ends true false x h k = absurd cc
both_ends false b x h k = absurd cc

module _ (tag body : List ℕ) where
  abbrev block : List ℕ
  block = opening tag ++ (body ++ closing tag)

  -- The block, up to its last bracket.
  abbrev start_of : List ℕ
  start_of = 0x0a ∷ b'<' ∷ b'/' ∷ tag

  block_shape : block ≡ (opening tag ++ (body ++ start_of)) ++ b'>' ∷ []
  block_shape =
      ap (λ r. opening tag ++ r) (sym (append_assoc body start_of (b'>' ∷ [])))
      ∙ sym (append_assoc (opening tag) (body ++ start_of) (b'>' ∷ []))

  trim-block : trim block ≡ block
  trim-block =
      ap trim block_shape
      ∙ trim_solid b'<' b'>' ((tag ++ b'>' ∷ 0x0a ∷ []) ++ (body ++ start_of)) less_solid
          greater_solid
      ∙ sym block_shape

  unwrap-block : unwrap_trimmed tag block ≡ some (unescape_xml_text body)
  unwrap-block =
      let ends : has_suffix (closing tag) block ≡ true =
        subst (λ b. has_suffix (closing tag) b ≡ true)
          (append_assoc (opening tag) body (closing tag))
          (has_suffix-append (opening tag ++ body) (closing tag)) in
      both_ends (has_prefix (opening tag) block) (has_suffix (closing tag) block) _
        (has_prefix-append (opening tag) (body ++ closing tag)) ends
      ∙ ap (λ b. some (unescape_xml_text b)) (slice_middle (opening tag) body (closing tag))

named_tag :
    (tag value : List ℕ)
    → is_xml_name tag ≡ true
    → unwrap_tagged_text tag value ≡ ok (unwrap_trimmed tag (trim value))
unfolding unwrap_tagged_text
named_tag tag value name =
    ap (λ b. throw_if (not b) (invalid_name tag) >> ok (unwrap_trimmed tag (trim value))) name

-- A text that is rendered into a tag is the tag's two lines around a body without angle brackets, which
-- can neither close the tag nor open another, and unwrapping the tag gives the trimmed text back.
pub unwrap-render :
    (tag value rendered : List ℕ)
    → render_tagged_text tag value ≡ ok rendered
    → ((body : List ℕ) × (rendered ≡ opening tag ++ (body ++ closing tag))
        × All (λ c. (c ≢ b'<') × (c ≢ b'>')) body)
      × (unwrap_tagged_text tag rendered ≡ ok (some (trim value)))
unfolding render_tagged_text
unwrap-render tag value rendered e =
    let (name, made) = throw_if-not (is_xml_name tag) (invalid_name tag) _ e in
    let shape = ok_injective made in
    let body = escape_xml_text (trim value) in
    let (back, no_brackets) = unescape-escape (trim value) in
    (
      (body, sym shape, no_brackets),
      subst (λ r. unwrap_tagged_text tag r ≡ ok (some (trim value))) shape
          (named_tag tag (block tag body) name
            ∙ ap ok (
                ap (unwrap_trimmed tag) (trim-block tag body)
                ∙ unwrap-block tag body
                ∙ ap some back)),
    )
