-- ===== src/Tagged/Escape.antt =====
-- Escaping is undone by unescaping, and leaves nothing that could close a block.
use zch_coding_agent.Base.{
  ℕ, zero, suc, ◌+◌, ◌≤◌, ◌≡◌, refl, sym, ap, ap₂, ◌∙◌, subst, ◌≢◌, ◌⊎◌, inl, inr, Bool, true,
  false, List, [], ◌∷◌, ◌++◌, append_assoc, arith, if◌then◌else◌, Bool-cases, length, length-append,
  ◌==◌, nat_eq, string_eq,
}
use zch_coding_agent.Base.Preds.{All, All-append}
use zch_coding_agent.Tagged.{
  replace_char, amp, lt, gt, escape_xml_text, strip_prefix, replace_fuel, replace_text,
  unescape_xml_text,
}

-- A text with the texts `a`, `l` and `g` in the places of `&`, `<` and `>`.
abbrev one : List ℕ → List ℕ → List ℕ → ℕ → List ℕ
one a l g c = if c == b'&' then a else if c == b'<' then l else if c == b'>' then g else c ∷ []

abbrev coded : List ℕ → List ℕ → List ℕ → List ℕ → List ℕ
coded a l g [] = []
coded a l g (c ∷ s) = one a l g c ++ coded a l g s

coded_plain : (s : List ℕ) → coded (b'&' ∷ []) (b'<' ∷ []) (b'>' ∷ []) s ≡ s
coded_plain [] = refl
coded_plain (c ∷ s) = ground (arith, coded_plain s)

replace_char-append :
    (c : ℕ) (by xs ys : List ℕ)
    → replace_char c by (xs ++ ys) ≡ replace_char c by xs ++ replace_char c by ys
unfolding replace_char
replace_char-append c by [] ys = refl
replace_char-append c by (x ∷ xs) ys = elim (Bool-cases (x == c)) [
  | inl hit ↦ rw (hit, replace_char-append c by xs ys) (sym (append_assoc by _ _))
  | inr miss ↦ rw (miss, replace_char-append c by xs ys)
]

-- A pass of `replaceAll` that turns `a`, `l` and `g` into others, and leaves all else.
module _ (d : ℕ) (by a l g a' l' g' : List ℕ) (da : replace_char d by a ≡ a')
    (dl : replace_char d by l ≡ l') (dg : replace_char d by g ≡ g')
    (special : (d ≡ b'&') ⊎ (d ≡ b'<') ⊎ (d ≡ b'>')) where
  replace_char-one : (c : ℕ) → replace_char d by (one a l g c) ≡ one a' l' g' c
  unfolding replace_char
  replace_char-one c = elim (Bool-cases (c == b'&')) [
    | inl e ↦ rw e da
    | inr e1 ↦ elim (Bool-cases (c == b'<')) [
      | inl e ↦ rw (e1, e) dl
      | inr e2 ↦ elim (Bool-cases (c == b'>')) [ inl e ↦ rw (e1, e2, e) dg | inr e3 ↦ ground arith ]
    ]
  ]

  replace_char-coded : (s : List ℕ) → replace_char d by (coded a l g s) ≡ coded a' l' g' s
  unfolding replace_char
  replace_char-coded [] = refl
  replace_char-coded (c ∷ s) =
      replace_char-append d by (one a l g c) (coded a l g s)
      ∙ ap₂ ◌++◌ (replace_char-one c) (replace_char-coded s)

escape-coded : (s : List ℕ) → escape_xml_text s ≡ coded amp lt gt s
unfolding escape_xml_text replace_char
escape-coded s =
    ap (λ t. replace_char b'>' gt (replace_char b'<' lt (replace_char b'&' amp t)))
      (sym (coded_plain s))
    ∙ ap (λ t. replace_char b'>' gt (replace_char b'<' lt t))
        (replace_char-coded b'&' amp (b'&' ∷ []) (b'<' ∷ []) (b'>' ∷ []) amp (b'<' ∷ []) (b'>' ∷ [])
          refl refl refl (inl refl) s)
    ∙ ap (replace_char b'>' gt) (
        replace_char-coded b'<' lt amp (b'<' ∷ []) (b'>' ∷ []) amp lt (b'>' ∷ []) refl refl refl
          (inr (inl refl)) s)
    ∙ replace_char-coded b'>' gt amp lt (b'>' ∷ []) amp lt gt refl refl refl (inr (inr refl)) s

-- A pass over `a`, with fuel for it, gives `a'` and goes on with what fuel is left.
abbrev Passes : List ℕ → ℕ → List ℕ → List ℕ → Type 0
Passes word by a a' =
    (fuel : ℕ) (rest : List ℕ)
    → length a ≤ fuel
    → (left : ℕ) × (fuel ≤ left + length a)
      × (replace_fuel fuel word by (a ++ rest) ≡ a' ++ replace_fuel left word by rest)

-- The words to be replaced begin with `&`, so a pass keeps any other code unit.
pass_plain :
    (word : List ℕ) (by c fuel : ℕ) (rest : List ℕ)
    → (c == b'&') ≡ false
    → replace_fuel (suc fuel) (b'&' ∷ word) by (c ∷ rest)
      ≡ c ∷ replace_fuel fuel (b'&' ∷ word) by rest
unfolding replace_fuel strip_prefix
pass_plain word by c fuel rest h = ground arith

plain-Passes :
    (word : List ℕ) (by c : ℕ) → (c == b'&') ≡ false → Passes (b'&' ∷ word) by (c ∷ []) (c ∷ [])
plain-Passes word by c h zero rest f = absurd (omega arith)
plain-Passes word by c h (suc fuel) rest f = (fuel, omega arith, pass_plain word by c fuel rest h)

module _ (word : List ℕ) (by : ℕ) (a l g a' l' g' : List ℕ) (pa : Passes (b'&' ∷ word) by a a')
    (pl : Passes (b'&' ∷ word) by l l') (pg : Passes (b'&' ∷ word) by g g') where
  one-Passes : (c : ℕ) → Passes (b'&' ∷ word) by (one a l g c) (one a' l' g' c)
  one-Passes c = elim (Bool-cases (c == b'&')) [
    | inl e ↦ rw e pa
    | inr e1 ↦ elim (Bool-cases (c == b'<')) [
      | inl e ↦ rw (e1, e) pl
      | inr e2 ↦ elim (Bool-cases (c == b'>')) [
        | inl e ↦ rw (e1, e2, e) pg
        | inr e3 ↦ rw (e1, e2, e3) (plain-Passes word by c e1)
      ]
    ]
  ]

  replace_fuel-coded :
      (s : List ℕ) (fuel : ℕ)
      → length (coded a l g s) ≤ fuel
      → replace_fuel fuel (b'&' ∷ word) by (coded a l g s) ≡ coded a' l' g' s
  unfolding replace_fuel
  replace_fuel-coded [] zero h = refl
  replace_fuel-coded [] (suc fuel) h = refl
  replace_fuel-coded (c ∷ s) fuel h =
      let whole = length-append (one a l g c) (coded a l g s) in
      let (left, enough, e) = one-Passes c fuel (coded a l g s) (omega (arith, whole)) in
      e ∙ ap (λ t. one a' l' g' c ++ t) (replace_fuel-coded s left (omega (arith, whole)))

-- The passes over the entities.
lt-amp : Passes lt b'<' amp amp
unfolding replace_fuel strip_prefix
lt-amp (suc (suc (suc (suc (suc fuel))))) rest h = (fuel, omega arith, refl)
lt-amp _ rest h = absurd (omega arith)

lt-lt : Passes lt b'<' lt (b'<' ∷ [])
unfolding replace_fuel strip_prefix
lt-lt (suc fuel) rest h = (fuel, omega arith, refl)
lt-lt _ rest h = absurd (omega arith)

lt-gt : Passes lt b'<' gt gt
unfolding replace_fuel strip_prefix
lt-gt (suc (suc (suc (suc fuel)))) rest h = (fuel, omega arith, refl)
lt-gt _ rest h = absurd (omega arith)

gt-amp : Passes gt b'>' amp amp
unfolding replace_fuel strip_prefix
gt-amp (suc (suc (suc (suc (suc fuel))))) rest h = (fuel, omega arith, refl)
gt-amp _ rest h = absurd (omega arith)

gt-gt : Passes gt b'>' gt (b'>' ∷ [])
unfolding replace_fuel strip_prefix
gt-gt (suc fuel) rest h = (fuel, omega arith, refl)
gt-gt _ rest h = absurd (omega arith)

amp-amp : Passes amp b'&' amp (b'&' ∷ [])
unfolding replace_fuel strip_prefix
amp-amp (suc fuel) rest h = (fuel, omega arith, refl)
amp-amp _ rest h = absurd (omega arith)

unescape-coded : (s : List ℕ) → unescape_xml_text (coded amp lt gt s) ≡ s
unfolding unescape_xml_text replace_text
unescape-coded s =
    let less = coded amp (b'<' ∷ []) gt s in
    let greater = coded amp (b'<' ∷ []) (b'>' ∷ []) s in
    ap (λ t. replace_text amp b'&' (replace_text gt b'>' t))
      (replace_fuel-coded (b'l' ∷ b't' ∷ b';' ∷ []) b'<' amp lt gt amp (b'<' ∷ []) gt lt-amp lt-lt
        lt-gt s (length (coded amp lt gt s)) (omega arith))
    ∙ ap (replace_text amp b'&') (
        replace_fuel-coded (b'g' ∷ b't' ∷ b';' ∷ []) b'>' amp (b'<' ∷ []) gt amp (b'<' ∷ [])
          (b'>' ∷ []) gt-amp (plain-Passes (b'g' ∷ b't' ∷ b';' ∷ []) b'>' b'<' refl) gt-gt s
          (length less) (omega arith))
    ∙ replace_fuel-coded (b'a' ∷ b'm' ∷ b'p' ∷ b';' ∷ []) b'&' amp (b'<' ∷ []) (b'>' ∷ [])
        (b'&' ∷ []) (b'<' ∷ []) (b'>' ∷ []) amp-amp
        (plain-Passes (b'a' ∷ b'm' ∷ b'p' ∷ b';' ∷ []) b'&' b'<' refl)
        (plain-Passes (b'a' ∷ b'm' ∷ b'p' ∷ b';' ∷ []) b'&' b'>' refl) s (length greater)
        (omega arith)
    ∙ coded_plain s

-- No code unit of an entity is an angle bracket, which a run of the test shows.
abbrev free : List ℕ → Bool
free [] = true
free (c ∷ s) = if c == b'<' then false else if c == b'>' then false else free s

closed : (s : List ℕ) → free s ≡ true → All (λ d. (d ≢ b'<') × (d ≢ b'>')) s
closed [] h = tt
closed (c ∷ s) h = elim (Bool-cases (c == b'<')) [
  | inl e ↦ absurd (ground arith)
  | inr e1 ↦ elim (Bool-cases (c == b'>')) [
    | inl e ↦ absurd (ground arith)
    | inr e2 ↦ ((ground arith, ground arith), closed s (ground arith))
  ]
]

one-closed : (c : ℕ) → All (λ d. (d ≢ b'<') × (d ≢ b'>')) (one amp lt gt c)
one-closed c = elim (Bool-cases (c == b'&')) [
  | inl e ↦ rw e (closed amp refl)
  | inr e1 ↦ elim (Bool-cases (c == b'<')) [
    | inl e ↦ rw (e1, e) (closed lt refl)
    | inr e2 ↦ elim (Bool-cases (c == b'>')) [
      | inl e ↦ rw (e1, e2, e) (closed gt refl)
      | inr e3 ↦ rw (e1, e2, e3) ((ground arith, ground arith), tt)
    ]
  ]
]

coded-closed : (s : List ℕ) → All (λ d. (d ≢ b'<') × (d ≢ b'>')) (coded amp lt gt s)
coded-closed [] = tt
coded-closed (c ∷ s) =
    All-append (λ d. (d ≢ b'<') × (d ≢ b'>')) (one amp lt gt c) (coded amp lt gt s) (one-closed c)
      (coded-closed s)

-- Unescaping gives every escaped text back, and the escaped text has no angle bracket, so that it
-- can neither close the block that it stands in nor open another.
pub unescape-escape :
    (s : List ℕ)
    → (unescape_xml_text (escape_xml_text s) ≡ s)
      × All (λ c. (c ≢ b'<') × (c ≢ b'>')) (escape_xml_text s)
unescape-escape s = (
  rw (escape-coded s) (unescape-coded s),
  subst (All (λ c. (c ≢ b'<') × (c ≢ b'>'))) (sym (escape-coded s)) (coded-closed s),
)
