-- ===== src/Base/Text.antt =====
-- JavaScript's string operations, on lists of UTF-16 code units.
use zch_coding_agent.Base.{
  ℕ, ◌-◌, ◌≤◌, ◌≡◌, refl, sym, ap, ◌∙◌, Bool, true, false, ◌&&◌, ◌||◌, Option, none, some, List, [],
  ◌∷◌, ◌++◌, reverse, append-nil, arith, leb, if◌then◌else◌, length, length-append, ◌==◌, nat_eq,
  string_eq, option_eq, ==_refl, String,
}
use zch_coding_agent.Base.{drop, drop_eq, drop-append_right}
use mathlib.Core.List.{reverse-append, reverse-reverse}

-- White space and line terminators, as `trim` takes them.
pub is_space : ℕ → Bool
is_space c =
    (leb 0x09 c && leb c 0x0d)
    || c == 0x20
    || c == 0xa0
    || c == 0x1680
    || (leb 0x2000 c && leb c 0x200a)
    || c == 0x2028
    || c == 0x2029
    || c == 0x202f
    || c == 0x205f
    || c == 0x3000
    || c == 0xfeff

pub trim_start : List ℕ → List ℕ
trim_start [] = []
trim_start (c ∷ s) = if is_space c then trim_start s else c ∷ s

unfoldable pub trim : List ℕ → List ℕ
unfolding trim_start is_space
trim s = reverse (trim_start (reverse (trim_start s)))

abbrev pub is_blank : List ℕ → Bool
is_blank [] = true
is_blank (c ∷ s) = false

-- A text that a truth test lets through.
abbrev pub truthy : Option String → Option String
truthy none = none
truthy (some s) = if s == "" then none else some s

-- `startsWith`.
abbrev pub has_prefix : List ℕ → List ℕ → Bool
has_prefix [] s = true
has_prefix (c ∷ p) [] = false
has_prefix (c ∷ p) (d ∷ s) = c == d && has_prefix p s

abbrev pub cons_first : ℕ → List (List ℕ) → List (List ℕ)
cons_first c [] = (c ∷ []) ∷ []
cons_first c (part ∷ parts) = (c ∷ part) ∷ parts

-- `split` at one character: the text without it is a single part.
abbrev pub split : ℕ → List ℕ → List (List ℕ)
split separator [] = [] ∷ []
split separator (c ∷ s) =
    if c == separator then [] ∷ split separator s else cons_first c (split separator s)

-- The part before the first such character.
abbrev pub before : ℕ → List ℕ → List ℕ
before separator [] = []
before separator (c ∷ s) = if c == separator then [] else c ∷ before separator s

and_true : (a b : Bool) → a ≡ true → b ≡ true → (a && b) ≡ true
and_true a b h k = ground arith

le→leb : (a b : ℕ) → a ≤ b → leb a b ≡ true
le→leb a b h = ground arith

-- `endsWith`.
unfoldable pub has_suffix : List ℕ → List ℕ → Bool
has_suffix p s = leb (length p) (length s) && has_prefix p (drop (length s - length p) s)

pub has_prefix-append : (p s : List ℕ) → has_prefix p (p ++ s) ≡ true
has_prefix-append [] s = refl
has_prefix-append (c ∷ p) s = rw (==_refl c) (has_prefix-append p s)

pub has_suffix-append : (s p : List ℕ) → has_suffix p (s ++ p) ≡ true
unfolding has_suffix
has_suffix-append s p =
    let end =
      drop-append_right (length (s ++ p) - length p) s p (omega (arith, length-append s p))
      ∙ drop_eq {m = 0} p (omega (arith, length-append s p)) in
    and_true _ _ (le→leb (length p) (length (s ++ p)) (omega (arith, length-append s p)))
      (ap (has_prefix p) end ∙ ap (has_prefix p) (sym (append-nil p)) ∙ has_prefix-append p [])

trim_start_solid : (c : ℕ) (s : List ℕ) → is_space c ≡ false → trim_start (c ∷ s) ≡ c ∷ s
unfolding trim_start
trim_start_solid c s e = rw e refl

-- A text whose first and last code units are no white space.
pub trim_solid :
    (a b : ℕ) (m : List ℕ)
    → is_space a ≡ false
    → is_space b ≡ false
    → trim ((a ∷ m) ++ b ∷ []) ≡ (a ∷ m) ++ b ∷ []
unfolding trim
trim_solid a b m ea eb =
    let whole = (a ∷ m) ++ b ∷ [] in
    ap (λ t. reverse (trim_start (reverse t))) (trim_start_solid a (m ++ b ∷ []) ea)
    ∙ ap (λ t. reverse (trim_start t)) (reverse-append (a ∷ m) (b ∷ []))
    ∙ ap reverse (trim_start_solid b (reverse (a ∷ m)) eb)
    ∙ ap reverse (sym (reverse-append (a ∷ m) (b ∷ [])))
    ∙ reverse-reverse whole

-- Angle brackets are no white space.
pub less_solid : is_space 0x3c ≡ false
unfolding is_space
less_solid = refl

pub greater_solid : is_space 0x3e ≡ false
unfolding is_space
greater_solid = refl
