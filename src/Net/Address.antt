-- ===== src/Net/Address.antt =====
-- electron/net/network-address.ts: which addresses are public. A text is its UTF-16 code units.
pub mod Denoted
pub mod Ranges
use zch_coding_agent.Base.{
  ℕ, zero, suc, ◌+◌, ◌*◌, ◌/◌, ◌%◌, ◌^◌, Bool, true, false, not, ◌&&◌, ◌||◌, Option, none, some,
  List, [], ◌∷◌, ◌++◌, map, leb, if◌then◌else◌, ◌==◌, nat_eq, string_eq, option_eq,
}
use zch_coding_agent.Base.{drop}
use zch_coding_agent.Permission.Policy.{same_units}
use zch_coding_agent.Base.Text.{split, has_prefix, before}

-- The platform: `isIP`, `Number` on a text, where it gives a whole number that is not negative, the
-- hostname of `new URL('http://[' + address + ']/')` without its brackets, `Number.parseInt(text, 16)`,
-- `String` on a number, and `toLowerCase`.
pub record AddressHost : Type 0 where
  pub is_ip : List ℕ → ℕ
  pub to_number : List ℕ → Option ℕ
  pub url_hostname : List ℕ → Option (List ℕ)
  pub parse_hex : List ℕ → Option ℕ
  pub decimal : ℕ → List ℕ
  pub lower : List ℕ → List ℕ

abbrev pub octets : ℕ → ℕ → ℕ → ℕ → ℕ
octets a b c d = (a * 16_777_216 + b * 65_536 + c * 256 + d) % 4_294_967_296

-- Four parts, each at most 255.
abbrev pub from_parts : List (Option ℕ) → Option ℕ
from_parts (some a ∷ some b ∷ some c ∷ some d ∷ []) =
    if leb a 255 && leb b 255 && leb c 255 && leb d 255 then some (octets a b c d) else none
from_parts _ = none

unfoldable pub ipv4_number : AddressHost → List ℕ → Option ℕ
ipv4_number h address = from_parts (map h.to_number (split 46 address))

-- The bits that the mask keeps: all but the last `32 - bits`. `size` is `2 ^ (32 - bits)`.
unfoldable pub in_v4_range : ℕ → ℕ → ℕ → Bool
in_v4_range value base size = value / size * size == base / size * size

-- The blocked ranges: a base and the number of addresses that share its prefix.
abbrev pub blocked : List (ℕ × ℕ)
blocked =
    (octets 0 0 0 0, 2 ^ 24)
    ∷ (octets 10 0 0 0, 2 ^ 24)
    ∷ (octets 100 64 0 0, 2 ^ 22)
    ∷ (octets 127 0 0 0, 2 ^ 24)
    ∷ (octets 169 254 0 0, 2 ^ 16)
    ∷ (octets 172 16 0 0, 2 ^ 20)
    ∷ (octets 192 0 0 0, 2 ^ 8)
    ∷ (octets 192 0 2 0, 2 ^ 8)
    ∷ (octets 192 168 0 0, 2 ^ 16)
    ∷ (octets 198 18 0 0, 2 ^ 17)
    ∷ (octets 198 51 100 0, 2 ^ 8)
    ∷ (octets 203 0 113 0, 2 ^ 8)
    ∷ (octets 224 0 0 0, 2 ^ 28)
    ∷ (octets 240 0 0 0, 2 ^ 28)
    ∷ []

abbrev pub in_any_range : ℕ → List (ℕ × ℕ) → Bool
in_any_range value [] = false
in_any_range value ((base, size) ∷ rest) = in_v4_range value base size || in_any_range value rest

unfoldable pub is_blocked_v4 : ℕ → Bool
is_blocked_v4 value = in_any_range value blocked

-- The bits of `undefined` are those of 0, which is in the first range.
abbrev pub is_public_v4 : Option ℕ → Bool
is_public_v4 none = not (is_blocked_v4 0)
is_public_v4 (some value) = not (is_blocked_v4 value)

abbrev pub dotted : AddressHost → ℕ → ℕ → List ℕ
dotted h high low =
    h.decimal (high / 256)
    ++ 46 ∷ h.decimal (high % 256)
    ++ 46 ∷ h.decimal (low / 256)
    ++ 46 ∷ h.decimal (low % 256)

abbrev pub from_words : AddressHost → List (Option ℕ) → Option (List ℕ)
from_words h (some high ∷ some low ∷ []) = some (dotted h high low)
from_words h _ = none

abbrev pub key_mapped : List ℕ
key_mapped = 58 ∷ 58 ∷ 102 ∷ 102 ∷ 102 ∷ 102 ∷ 58 ∷ []

-- `mappedIpv4Address`, given the address as the URL parser writes it.
unfoldable pub mapped_suffix : AddressHost → List ℕ → Option (List ℕ)
mapped_suffix h normalized =
    let suffix = drop 7 normalized in
    if has_prefix key_mapped normalized
    then if h.is_ip suffix == 4
      then some suffix
      else from_words h (map h.parse_hex (split 58 suffix))
    else none

unfoldable pub mapped_ipv4_address : AddressHost → List ℕ → Option (List ℕ)
mapped_ipv4_address h address = elim (h.url_hostname address) [
  | none ↦ none
  | some normalized ↦ mapped_suffix h normalized
]

abbrev pub is_empty : List ℕ → Bool
is_empty [] = true
is_empty (c ∷ s) = false

abbrev pub contains : ℕ → List ℕ → Bool
contains c [] = false
contains c (d ∷ letters) = c == d || contains c letters

abbrev pub starts_one_of : List ℕ → List ℕ → Bool
starts_one_of letters [] = false
starts_one_of letters (c ∷ s) = contains c letters

-- `/^fe[letters]/`.
abbrev pub fe_then : List ℕ → List ℕ → Bool
fe_then letters value = has_prefix (102 ∷ 101 ∷ []) value && starts_one_of letters (drop 2 value)

-- The reserved IPv6 addresses: unspecified and loopback, `fc`, `fd`, `fe8` to `feb`, `fec` to `fef`,
-- `ff` and `2001:db8:`.
unfoldable pub is_blocked_v6 : List ℕ → Bool
is_blocked_v6 value =
    same_units value (58 ∷ 58 ∷ [])
    || same_units value (58 ∷ 58 ∷ 49 ∷ [])
    || same_units value
        (48 ∷ 58 ∷ 48 ∷ 58 ∷ 48 ∷ 58 ∷ 48 ∷ 58 ∷ 48 ∷ 58 ∷ 48 ∷ 58 ∷ 48 ∷ 58 ∷ 48 ∷ [])
    || same_units value
        (48 ∷ 58 ∷ 48 ∷ 58 ∷ 48 ∷ 58 ∷ 48 ∷ 58 ∷ 48 ∷ 58 ∷ 48 ∷ 58 ∷ 48 ∷ 58 ∷ 49 ∷ [])
    || has_prefix (102 ∷ 99 ∷ []) value
    || has_prefix (102 ∷ 100 ∷ []) value
    || fe_then (56 ∷ 57 ∷ 97 ∷ 98 ∷ []) value
    || fe_then (99 ∷ 100 ∷ 101 ∷ 102 ∷ []) value
    || has_prefix (102 ∷ 102 ∷ []) value
    || has_prefix (50 ∷ 48 ∷ 48 ∷ 49 ∷ 58 ∷ 100 ∷ 98 ∷ 56 ∷ 58 ∷ []) value

-- A mapped address is looked at in its turn; `fuel` bounds how often.
unfoldable pub is_public_within : AddressHost → ℕ → List ℕ → Bool
is_public_within h zero address = false
is_public_within h (suc fuel) address =
    let value = before 37 (h.lower address) in
    let nested : List ℕ → Bool = is_public_within h fuel in
    if h.is_ip address == 4
    then is_public_v4 (ipv4_number h address)
    else if h.is_ip address == 6
    then elim (mapped_ipv4_address h value) [
      | none ↦ not (is_blocked_v6 value)
      | some mapped ↦ if is_empty mapped then not (is_blocked_v6 value) else nested mapped
    ]
    else false

unfoldable pub is_public_network_address : AddressHost → List ℕ → Bool
is_public_network_address h address = is_public_within h 2 address
