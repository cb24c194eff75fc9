-- ===== src/Netip.antt =====
-- The types of Go's `net/netip` that the repository uses: addresses and prefixes of addresses.
-- An address is its number; an IPv6 address has a zone, empty for most.
pub mod Cidr
pub mod Parse
pub mod Print
pub mod RoundTrip
pub mod Hex
pub mod Groups
pub mod Compressed
pub mod Colons
pub mod Ipv6
pub mod Ipv4Bounds
pub mod Ipv6Bounds
pub mod Bounds
mod Tests
use cluster_api_ipam_provide.Common.{
  ℕ, ◌-◌, ◌/◌, ◌^◌, String, Bool, true, false, ◌&&◌, ◌==◌, nat_eq, string_eq, leb,
}

-- `netip.Addr`; `invalid` is its zero value.
pub data Addr : Type 0 where
  invalid : Addr
  v4 : ℕ → Addr
  v6 : ℕ → String → Addr

-- `netip.Prefix`
pub record Prefix : Type 0 where
  pub addr : Addr
  pub bits : ℕ

abbrev pub is_valid : Addr → Bool
is_valid invalid = false
is_valid (v4 n) = true
is_valid (v6 n zone) = true

abbrev pub is4 : Addr → Bool
is4 (v4 n) = true
is4 _ = false

abbrev pub is6 : Addr → Bool
is6 (v6 n zone) = true
is6 _ = false

-- Equality of the leading bits, for numbers of `width` bits.
abbrev pub same_network : ℕ → ℕ → ℕ → ℕ → Bool
same_network width bits a b = leb bits width && a / 2 ^ (width - bits) == b / 2 ^ (width - bits)

-- `Prefix.Contains`: an address of the same family, with no zone, that agrees on the leading bits.
abbrev pub contains_addr : Addr → ℕ → Addr → Bool
contains_addr (v4 a) bits (v4 b) = same_network 32 bits a b
contains_addr (v6 a _) bits (v6 b zone) = zone == "" && same_network 128 bits a b
contains_addr _ _ _ = false

unfoldable pub contains : Prefix → Addr → Bool
contains p a = contains_addr p.addr p.bits a
