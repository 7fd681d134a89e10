-- ===== src/Net/Address/Ranges.antt =====
-- The blocked IPv4 ranges, by the octets of an address.
use zch_coding_agent.Base.{
  ℕ, ◌+◌, ◌*◌, ◌^◌, ◌≤◌, ◌<◌, ◌≡◌, refl, ◌↔◌, ◌⊎◌, inl, inr, Bool, true, false, ◌||◌, arith, nat_eq,
  string_eq, option_eq,
}
use zch_coding_agent.Net.Address.{octets, in_v4_range, is_blocked_v4}

-- The addresses that are not the public's: this network, private networks, the shared space of
-- carriers, loopback, link-local, protocol assignments, the three documentation networks, the
-- benchmarking network, multicast and the reserved rest.
abbrev pub IsReserved : ℕ → ℕ → ℕ → Type 0
IsReserved a b c =
    (a ≡ 0)
    ⊎ (a ≡ 10)
    ⊎ ((a ≡ 100) × (64 ≤ b) × (b < 128))
    ⊎ (a ≡ 127)
    ⊎ ((a ≡ 169) × (b ≡ 254))
    ⊎ ((a ≡ 172) × (16 ≤ b) × (b < 32))
    ⊎ ((a ≡ 192) × (b ≡ 0) × (c ≡ 0))
    ⊎ ((a ≡ 192) × (b ≡ 0) × (c ≡ 2))
    ⊎ ((a ≡ 192) × (b ≡ 168))
    ⊎ ((a ≡ 198) × (18 ≤ b) × (b < 20))
    ⊎ ((a ≡ 198) × (b ≡ 51) × (c ≡ 100))
    ⊎ ((a ≡ 203) × (b ≡ 0) × (c ≡ 113))
    ⊎ ((224 ≤ a) × (a < 240))
    ⊎ (240 ≤ a)

false-true : false ≡ true → ⊥
false-true e = absurd cc

or_iff : {x y : Bool} {P Q : Type 0} → (x ≡ true) ↔ P → (y ≡ true) ↔ Q → ((x || y) ≡ true) ↔ (P ⊎ Q)
or_iff {x = true} (xp, px) (yq, qy) = ((λ e. inl (xp refl)), λ e. refl)
or_iff {x = false} (xp, px) (yq, qy) =
    ((λ e. inr (yq e)), λ e. elim e [ inl h ↦ absurd (false-true (px h)) | inr h ↦ qy h ])

or_last : {x : Bool} {P : Type 0} → (x ≡ true) ↔ P → ((x || false) ≡ true) ↔ P
or_last {x = true} h = h
or_last {x = false} h = h

module _ (a b c d : ℕ) (ha : a ≤ 255) (hb : b ≤ 255) (hc : c ≤ 255) (hd : d ≤ 255) where
  octets_value : octets a b c d ≡ a * 16_777_216 + b * 65_536 + c * 256 + d
  octets_value = omega arith

  this : (in_v4_range (octets a b c d) (octets 0 0 0 0) (2 ^ 24) ≡ true) ↔ (a ≡ 0)
  unfolding in_v4_range
  this = grind (arith, octets_value)

  private_10 : (in_v4_range (octets a b c d) (octets 10 0 0 0) (2 ^ 24) ≡ true) ↔ (a ≡ 10)
  unfolding in_v4_range
  private_10 = grind (arith, octets_value)

  carrier :
      (in_v4_range (octets a b c d) (octets 100 64 0 0) (2 ^ 22) ≡ true)
      ↔ ((a ≡ 100) × (64 ≤ b) × (b < 128))
  unfolding in_v4_range
  carrier = grind (arith, octets_value)

  loopback : (in_v4_range (octets a b c d) (octets 127 0 0 0) (2 ^ 24) ≡ true) ↔ (a ≡ 127)
  unfolding in_v4_range
  loopback = grind (arith, octets_value)

  link_local :
      (in_v4_range (octets a b c d) (octets 169 254 0 0) (2 ^ 16) ≡ true) ↔ ((a ≡ 169) × (b ≡ 254))
  unfolding in_v4_range
  link_local = grind (arith, octets_value)

  private_172 :
      (in_v4_range (octets a b c d) (octets 172 16 0 0) (2 ^ 20) ≡ true)
      ↔ ((a ≡ 172) × (16 ≤ b) × (b < 32))
  unfolding in_v4_range
  private_172 = grind (arith, octets_value)

  protocol :
      (in_v4_range (octets a b c d) (octets 192 0 0 0) (2 ^ 8) ≡ true)
      ↔ ((a ≡ 192) × (b ≡ 0) × (c ≡ 0))
  unfolding in_v4_range
  protocol = grind (arith, octets_value)

  test_1 :
      (in_v4_range (octets a b c d) (octets 192 0 2 0) (2 ^ 8) ≡ true)
      ↔ ((a ≡ 192) × (b ≡ 0) × (c ≡ 2))
  unfolding in_v4_range
  test_1 = grind (arith, octets_value)

  private_192 :
      (in_v4_range (octets a b c d) (octets 192 168 0 0) (2 ^ 16) ≡ true) ↔ ((a ≡ 192) × (b ≡ 168))
  unfolding in_v4_range
  private_192 = grind (arith, octets_value)

  benchmark :
      (in_v4_range (octets a b c d) (octets 198 18 0 0) (2 ^ 17) ≡ true)
      ↔ ((a ≡ 198) × (18 ≤ b) × (b < 20))
  unfolding in_v4_range
  benchmark = grind (arith, octets_value)

  test_2 :
      (in_v4_range (octets a b c d) (octets 198 51 100 0) (2 ^ 8) ≡ true)
      ↔ ((a ≡ 198) × (b ≡ 51) × (c ≡ 100))
  unfolding in_v4_range
  test_2 = grind (arith, octets_value)

  test_3 :
      (in_v4_range (octets a b c d) (octets 203 0 113 0) (2 ^ 8) ≡ true)
      ↔ ((a ≡ 203) × (b ≡ 0) × (c ≡ 113))
  unfolding in_v4_range
  test_3 = grind (arith, octets_value)

  multicast :
      (in_v4_range (octets a b c d) (octets 224 0 0 0) (2 ^ 28) ≡ true) ↔ ((224 ≤ a) × (a < 240))
  unfolding in_v4_range
  multicast = grind (arith, octets_value)

  reserved : (in_v4_range (octets a b c d) (octets 240 0 0 0) (2 ^ 28) ≡ true) ↔ (240 ≤ a)
  unfolding in_v4_range
  reserved = grind (arith, octets_value)

  pub is_blocked_v4_iff : (is_blocked_v4 (octets a b c d) ≡ true) ↔ IsReserved a b c
  unfolding is_blocked_v4
  is_blocked_v4_iff = or_iff this (
      or_iff private_10 (
        or_iff carrier (
          or_iff loopback (
            or_iff link_local (
              or_iff private_172 (
                or_iff protocol (
                  or_iff test_1 (
                    or_iff private_192 (
                      or_iff benchmark (
                        or_iff test_2
                          (or_iff test_3 (or_iff multicast (or_last reserved)))))))))))))
