-- ===== src/Netip/Cidr.antt =====
-- `net.ParseCIDR` of Go's older package `net`; `none` is an error.
use cluster_api_ipam_provide.Common.{
  ℕ, ◌-◌, ◌*◌, ◌/◌, ◌%◌, ◌^◌, String, Option, none, some, List, [], ◌∷◌, ◌==◌, nat_eq, string_eq,
  leb, if◌then◌else◌, codes, cut,
}
use cluster_api_ipam_provide.Netip.{Addr, invalid, v4, v6, Prefix}
use cluster_api_ipam_provide.Netip.Parse.{parse_addr, decimal}

-- The digits behind the slash; leading zeros are accepted here.
mask_bits : ℕ → List ℕ → Option ℕ
unfolding decimal
mask_bits most [] = none
mask_bits most (c ∷ s) = elim (decimal 0 (c ∷ s)) [
  | none ↦ none
  | some n ↦ if leb n most then some n else none
]

-- The number with all but its leading bits cleared, for numbers of `width` bits.
masked : ℕ → ℕ → ℕ → ℕ
masked width bits n = n / 2 ^ (width - bits) * 2 ^ (width - bits)

-- The network as `IPNet` prints it: an IPv4 address in IPv6 counts as IPv4.
network_v6 : ℕ → ℕ → Prefix
network_v6 n bits =
    if n / 2 ^ 32 == 65535
    then record { addr = v4 (n % 2 ^ 32); bits = bits - 96 }
    else record { addr = v6 n ""; bits = bits }

network_of : Addr → List ℕ → Option Prefix
unfolding mask_bits masked network_v6
network_of invalid s = none
network_of (v4 n) s = elim (mask_bits 32 s) [
  | none ↦ none
  | some b ↦ some (record { addr = v4 (masked 32 b n); bits = b })
]
network_of (v6 n zone) s =
    if zone == ""
    then elim (mask_bits 128 s) [ none ↦ none | some b ↦ some (network_v6 (masked 128 b n) b) ]
    else none

unfoldable pub parse_cidr : String → Option Prefix
unfolding parse_addr cut network_of
parse_cidr s = elim (cut s "/") [
  | none ↦ none
  | some (a, mask) ↦ elim (parse_addr a) [ none ↦ none | some ip ↦ network_of ip (codes mask) ]
]
