-- ===== src/Server/Address.antt =====
-- Which IP addresses the gateway takes for public (internal/server/file_url.go, `isPublicIP`). An
-- address is a slice of bytes, 4 or 16 of them if it is valid; the tests of package net are written
-- out, and a prefix of package netip is its bytes and its number of bits.
pub mod Mapped
pub mod Ranges
use llm_file_gateway.Prelude.{
  ℕ, zero, suc, ◌+◌, ◌-◌, ◌*◌, ◌/◌, ◌%◌, ◌^◌, Bool, true, false, not, ◌&&◌, ◌||◌, Option, none,
  some, List, [], ◌∷◌, length, drop, take, any, all, is_some, ◌==◌, if◌then◌else◌,
}

abbrev pub Ip : Type 0
Ip = List ℕ

-- ip[i]
abbrev pub byte : ℕ → Ip → ℕ
byte n [] = 0
byte zero (b ∷ ip) = b
byte (suc n) (b ∷ ip) = byte n ip

abbrev pub zeros : ℕ → List ℕ
zeros zero = []
zeros (suc n) = 0 ∷ zeros n

-- An IPv4 address in its IPv6 form.
abbrev pub is_mapped : Ip → Bool
is_mapped ip =
    length ip == 16 && (all (λ b. b == 0) (take 10 ip) && (byte 10 ip == 255 && byte 11 ip == 255))

-- IP.To4
abbrev pub to4 : Ip → Option Ip
to4 ip = if length ip == 4 then some ip else if is_mapped ip then some (drop 12 ip) else none

-- A test on the IPv4 form of an address if it has one, and else a test on its 16 bytes.
abbrev pub by_family : (Ip → Bool) → (Ip → Bool) → Ip → Bool
by_family v4 v6 ip = elim (to4 ip) [ some ip4 ↦ v4 ip4 | none ↦ length ip == 16 && v6 ip ]

abbrev pub is_private : Ip → Bool
is_private =
    by_family
      (λ ip.
        byte 0 ip == 10
        || ((byte 0 ip == 172 && byte 1 ip / 16 == 1) || (byte 0 ip == 192 && byte 1 ip == 168)))
      λ ip. byte 0 ip / 2 == 126

abbrev pub is_loopback : Ip → Bool
is_loopback =
    by_family (λ ip. byte 0 ip == 127) λ ip. all (λ b. b == 0) (take 15 ip) && byte 15 ip == 1

abbrev pub is_unspecified : Ip → Bool
is_unspecified = by_family (all λ b. b == 0) (all λ b. b == 0)

abbrev pub is_multicast : Ip → Bool
is_multicast = by_family (λ ip. byte 0 ip / 16 == 14) λ ip. byte 0 ip == 255

abbrev pub is_interface_local_multicast : Ip → Bool
is_interface_local_multicast ip = length ip == 16 && (byte 0 ip == 255 && byte 1 ip % 16 == 1)

abbrev pub is_link_local_multicast : Ip → Bool
is_link_local_multicast =
    by_family (λ ip. byte 0 ip == 224 && (byte 1 ip == 0 && byte 2 ip == 0))
      λ ip. byte 0 ip == 255 && byte 1 ip % 16 == 2

abbrev pub is_link_local_unicast : Ip → Bool
is_link_local_unicast =
    by_family (λ ip. byte 0 ip == 169 && byte 1 ip == 254)
      λ ip. byte 0 ip == 254 && byte 1 ip / 64 == 2

pub record Prefix : Type 0 where
  pub address : Ip
  pub bits : ℕ

abbrev pub v4 : ℕ → ℕ → ℕ → ℕ → ℕ → Prefix
v4 a b c d bits = record { address = a ∷ b ∷ c ∷ d ∷ []; bits = bits }

-- An IPv6 prefix by its first four groups of 16 bits; the others are 0.
abbrev pub v6 : ℕ → ℕ → ℕ → ℕ → ℕ → Prefix
v6 a b c d bits = record {
  address = a / 256 ∷ a % 256 ∷ b / 256 ∷ b % 256 ∷ c / 256 ∷ c % 256 ∷ d / 256 ∷ d % 256 ∷ zeros 8;
  bits = bits;
}

-- The first bits of a slice of bytes, as a number.
abbrev pub leading : ℕ → Ip → ℕ
leading bits [] = 0
leading zero (b ∷ ip) = 0
leading (suc (suc (suc (suc (suc (suc (suc (suc bits)))))))) (b ∷ ip) =
    b * 2 ^ bits + leading bits ip
leading bits (b ∷ ip) = b / 2 ^ (8 - bits)

-- Prefix.Contains
abbrev pub contains : Ip → Prefix → Bool
contains ip prefix =
    length ip == length prefix.address
    && leading prefix.bits ip == leading prefix.bits prefix.address

abbrev pub special_use_prefixes : List Prefix
special_use_prefixes =
    v4 0 0 0 0 8
    ∷ v4 100 64 0 0 10
    ∷ v4 192 0 0 0 24
    ∷ v4 192 0 2 0 24
    ∷ v4 192 88 99 2 32
    ∷ v4 198 18 0 0 15
    ∷ v4 198 51 100 0 24
    ∷ v4 203 0 113 0 24
    ∷ v4 240 0 0 0 4
    ∷ v6 0 0 0 0 96
    ∷ v6 100 65435 0 0 96
    ∷ v6 100 65435 1 0 48
    ∷ v6 256 0 0 0 64
    ∷ v6 256 0 0 1 64
    ∷ v6 8193 0 0 0 23
    ∷ v6 8193 3512 0 0 32
    ∷ v6 8194 0 0 0 16
    ∷ v6 16383 0 0 0 20
    ∷ v6 24320 0 0 0 16
    ∷ []

-- The address with Unmap, if the slice is one.
abbrev pub addr_from_slice : Ip → Option Ip
addr_from_slice ip = elim (to4 ip) [
  | some ip4 ↦ some ip4
  | none ↦ if length ip == 16 then some ip else none
]

unfoldable pub is_public_ip : Ip → Bool
is_public_ip ip =
    if is_private ip
      || (is_loopback ip
          || (is_link_local_unicast ip
              || (is_link_local_multicast ip
                  || (is_interface_local_multicast ip || (is_unspecified ip || is_multicast ip)))))
    then false
    else elim (addr_from_slice ip) [
      | none ↦ false
      | some address ↦ not (any (contains address) special_use_prefixes)
    ]
