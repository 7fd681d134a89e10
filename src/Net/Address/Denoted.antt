-- ===== src/Net/Address/Denoted.antt =====
-- The addresses that a text stands for: dotted IPv4, and IPv4 that is mapped into IPv6.
use zch_coding_agent.Base.{
  ℕ, suc, ◌+◌, ◌*◌, ◌/◌, ◌%◌, ◌≤◌, ◌≡◌, refl, ap, ◌∙◌, ◌≢◌, ◌↔◌, Bool, true, false, not, some, List,
  [], ◌∷◌, ◌++◌, append_assoc, map, arith, ◌==◌, nat_eq, string_eq, option_eq, ==_refl,
}
use zch_coding_agent.Base.Preds.{All}
use zch_coding_agent.Base.Text.{split, cons_first, before}
use zch_coding_agent.Net.Address.{
  AddressHost, octets, ipv4_number, is_blocked_v4, is_empty, dotted, from_words, mapped_suffix,
  mapped_ipv4_address, is_public_within, is_public_network_address,
}
use zch_coding_agent.Net.Address.Ranges.{IsReserved, is_blocked_v4_iff}

-- Documented behaviour of the platform: the decimal numeral of an octet has no dot and reads back as
-- the octet, and a text of four such numerals with dots between them is an IPv4 address.
pub record IsPlatform (h : AddressHost) : Type 0 where
  pub reads_back : (n : ℕ) → n ≤ 255 → h.to_number (h.decimal n) ≡ some n
  pub no_dot : (n : ℕ) → n ≤ 255 → All (λ c. c ≢ 46) (h.decimal n)
  pub is_ipv4 :
      (text : List ℕ) (a b c d : ℕ)
      → a ≤ 255
      → b ≤ 255
      → c ≤ 255
      → d ≤ 255
      → split 46 text ≡ h.decimal a ∷ h.decimal b ∷ h.decimal c ∷ h.decimal d ∷ []
      → h.is_ip text ≡ 4

-- Each is an octet.
abbrev pub AreOctets : ℕ → ℕ → ℕ → ℕ → Type 0
AreOctets a b c d = (a ≤ 255) × (b ≤ 255) × (c ≤ 255) × (d ≤ 255)

-- A dotted text of four numbers.
abbrev pub IsDotted : AddressHost → List ℕ → ℕ → ℕ → ℕ → ℕ → Type 0
IsDotted h text a b c d =
    (h.is_ip text ≡ 4)
    × (map h.to_number (split 46 text) ≡ some a ∷ some b ∷ some c ∷ some d ∷ [])
    × AreOctets a b c d

-- The text is an IPv6 address that the URL parser writes as `::ffff:` and the suffix.
abbrev pub IsMapped : AddressHost → List ℕ → List ℕ → Type 0
IsMapped h text suffix =
    (h.is_ip text ≡ 6)
    × (h.url_hostname (before 37 (h.lower text))
        ≡ some (58 ∷ 58 ∷ 102 ∷ 102 ∷ 102 ∷ 102 ∷ 58 ∷ suffix))

-- The text is an IPv4 address, or an IPv6 address that an IPv4 address is mapped into: with a dotted
-- suffix, or with two words of two octets each.
pub data Denotes (h : AddressHost) (text : List ℕ) (a b c d : ℕ) : Type 0 where
  plain : IsDotted h text a b c d → Denotes h text a b c d
  mapped_dotted :
      (suffix : List ℕ)
      → IsMapped h text suffix
      → is_empty suffix ≡ false
      → IsDotted h suffix a b c d
      → Denotes h text a b c d
  mapped_words :
      (suffix high low : List ℕ)
      → IsMapped h text suffix
      → (h.is_ip suffix == 4) ≡ false
      → split 58 suffix ≡ high ∷ low ∷ []
      → h.parse_hex high ≡ some (a * 256 + b)
      → h.parse_hex low ≡ some (c * 256 + d)
      → AreOctets a b c d
      → Denotes h text a b c d

dotted-ipv4_number :
    (h : AddressHost) (text : List ℕ) (a b c d : ℕ)
    → IsDotted h text a b c d
    → ipv4_number h text ≡ some (octets a b c d)
unfolding ipv4_number
dotted-ipv4_number h text a b c d (ip, parts, (ha, hb, hc, hd)) =
    rw (ipv4_number, parts) ground arith

dotted_public :
    (h : AddressHost) (fuel : ℕ) (text : List ℕ) (a b c d : ℕ)
    → IsDotted h text a b c d
    → is_public_within h (suc fuel) text ≡ not (is_blocked_v4 (octets a b c d))
unfolding is_public_within
dotted_public h fuel text a b c d dots =
    rw (is_public_within, dots.0, dotted-ipv4_number h text a b c d dots) refl

mapped_public :
    (h : AddressHost) (fuel : ℕ) (text mapped : List ℕ)
    → h.is_ip text ≡ 6
    → mapped_ipv4_address h (before 37 (h.lower text)) ≡ some mapped
    → is_empty mapped ≡ false
    → is_public_within h (suc fuel) text ≡ is_public_within h fuel mapped
unfolding is_public_within
mapped_public h fuel text mapped six found full = rw (is_public_within, six, found, full) refl

split-part :
    (separator : ℕ) (xs rest : List ℕ)
    → All (λ c. c ≢ separator) xs
    → split separator (xs ++ separator ∷ rest) ≡ xs ∷ split separator rest
split-part separator [] rest h = rw (==_refl separator) refl
split-part separator (x ∷ xs) rest (p, h) =
    let ne : (x == separator) ≡ false = ground (arith, nat_eq.same_iff x separator) in
    rw ne (ap (cons_first x) (split-part separator xs rest h))

split-last :
    (separator : ℕ) (xs : List ℕ) → All (λ c. c ≢ separator) xs → split separator xs ≡ xs ∷ []
split-last separator [] h = refl
split-last separator (x ∷ xs) (p, h) =
    let ne : (x == separator) ≡ false = ground (arith, nat_eq.same_iff x separator) in
    rw ne (ap (cons_first x) (split-last separator xs h))

join4 : (w x y z : List ℕ) → w ++ 46 ∷ x ++ 46 ∷ y ++ 46 ∷ z ≡ w ++ 46 ∷ (x ++ 46 ∷ (y ++ 46 ∷ z))
join4 w x y z = simp (append_assoc)

is_empty-append : (xs ys : List ℕ) (c : ℕ) → is_empty (xs ++ c ∷ ys) ≡ false
is_empty-append [] ys c = refl
is_empty-append (x ∷ xs) ys c = refl

module _ (h : AddressHost) (platform : IsPlatform h) where
  module _ (a b c d : ℕ) (ha : a ≤ 255) (hb : b ≤ 255) (hc : c ≤ 255) (hd : d ≤ 255) where
    abbrev joined : List ℕ
    joined = h.decimal a ++ 46 ∷ (h.decimal b ++ 46 ∷ (h.decimal c ++ 46 ∷ h.decimal d))

    dotted-joined : dotted h (a * 256 + b) (c * 256 + d) ≡ joined
    dotted-joined =
        let e1 : (a * 256 + b) / 256 ≡ a = omega arith in
        let e2 : (a * 256 + b) % 256 ≡ b = omega arith in
        let e3 : (c * 256 + d) / 256 ≡ c = omega arith in
        let e4 : (c * 256 + d) % 256 ≡ d = omega arith in
        rw (e1, e2, e3, e4) (join4 (h.decimal a) (h.decimal b) (h.decimal c) (h.decimal d))

    split-joined : split 46 joined ≡ h.decimal a ∷ h.decimal b ∷ h.decimal c ∷ h.decimal d ∷ []
    split-joined =
        split-part 46 (h.decimal a) _ (platform.no_dot a ha)
        ∙ ap (λ l. h.decimal a ∷ l)
            (split-part 46 (h.decimal b) _ (platform.no_dot b hb)
              ∙ ap (λ l. h.decimal b ∷ l)
                  (split-part 46 (h.decimal c) _ (platform.no_dot c hc)
                    ∙ ap (λ l. h.decimal c ∷ l)
                        (split-last 46 (h.decimal d) (platform.no_dot d hd))))

    joined-IsDotted : IsDotted h joined a b c d
    joined-IsDotted = (
      platform.is_ipv4 joined a b c d ha hb hc hd split-joined,
      ap (map h.to_number) split-joined
          ∙ rw
              (
                platform.reads_back a ha,
                platform.reads_back b hb,
                platform.reads_back c hc,
                platform.reads_back d hd,
              )
              refl,
      (ha, hb, hc, hd),
    )

    words_mapped :
        (value suffix high low : List ℕ)
        → h.url_hostname value ≡ some (58 ∷ 58 ∷ 102 ∷ 102 ∷ 102 ∷ 102 ∷ 58 ∷ suffix)
        → (h.is_ip suffix == 4) ≡ false
        → split 58 suffix ≡ high ∷ low ∷ []
        → h.parse_hex high ≡ some (a * 256 + b)
        → h.parse_hex low ≡ some (c * 256 + d)
        → mapped_ipv4_address h value ≡ some joined
    unfolding mapped_ipv4_address mapped_suffix
    words_mapped value suffix high low found not_dotted words first second =
        rw (mapped_ipv4_address, found)
          (rw (not_dotted) (
            ap (λ l. from_words h (map h.parse_hex l)) words
            ∙ rw (first, second) (ap some dotted-joined)))

  suffix_mapped :
      (value suffix : List ℕ)
      → h.url_hostname value ≡ some (58 ∷ 58 ∷ 102 ∷ 102 ∷ 102 ∷ 102 ∷ 58 ∷ suffix)
      → h.is_ip suffix ≡ 4
      → mapped_ipv4_address h value ≡ some suffix
  unfolding mapped_ipv4_address mapped_suffix
  suffix_mapped value suffix found four = rw (mapped_ipv4_address, found) (rw four refl)

  Denotes-is_public :
      (text : List ℕ) (a b c d : ℕ)
      → Denotes h text a b c d
      → (is_public_network_address h text ≡ not (is_blocked_v4 (octets a b c d)))
        × AreOctets a b c d
  unfolding is_public_network_address
  Denotes-is_public text a b c d (plain dots) = (dotted_public h 1 text a b c d dots, dots.2)
  Denotes-is_public text a b c d (mapped_dotted suffix (six, found) full dots) = (
    mapped_public h 1 text suffix six (suffix_mapped _ suffix found dots.0) full
        ∙ dotted_public h 0 suffix a b c d dots,
    dots.2,
  )
  Denotes-is_public text a b c d
        (mapped_words suffix high low (six, found) not_dotted words first second (ha, hb, hc, hd)) =
      let written = joined a b c d ha hb hc hd in
      (
        mapped_public h 1 text written six
              (words_mapped a b c d ha hb hc hd _ suffix high low found not_dotted words first
                second)
              (is_empty-append (h.decimal a) _ 46)
            ∙ dotted_public h 0 written a b c d (joined-IsDotted a b c d ha hb hc hd),
        (ha, hb, hc, hd),
      )

false-true : false ≡ true → ⊥
false-true e = absurd cc

not_iff : {x y : Bool} {P : Type 0} → y ≡ not x → (x ≡ true) ↔ P → (y ≡ true) ↔ ¬ P
not_iff {x = true} e (xp, px) = ((λ t. absurd cc), λ n. absurd (n (xp refl)))
not_iff {x = false} e (xp, px) = ((λ t holds. absurd (false-true (px holds))), λ n. e)

-- On a platform that writes octets as documented: an address that is written as four octets, or as an
-- IPv6 address that those octets are mapped into, dotted or as two words, is public exactly when it is
-- in none of 0.0.0.0/8, 10.0.0.0/8, 100.64.0.0/10, 127.0.0.0/8, 169.254.0.0/16, 172.16.0.0/12,
-- 192.0.0.0/24, 192.0.2.0/24, 192.168.0.0/16, 198.18.0.0/15, 198.51.100.0/24, 203.0.113.0/24,
-- 224.0.0.0/4 and 240.0.0.0/4.
pub is_public_network_address_iff :
    (h : AddressHost) (text : List ℕ) (a b c d : ℕ)
    → IsPlatform h
    → Denotes h text a b c d
    → (is_public_network_address h text ≡ true) ↔ ¬ IsReserved a b c
is_public_network_address_iff h text a b c d platform denotes =
    let (public, (ha, hb, hc, hd)) = Denotes-is_public h platform text a b c d denotes in
    not_iff public (is_blocked_v4_iff a b c d ha hb hc hd)
