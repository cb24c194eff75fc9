-- ===== src/Netip/Bounds.antt =====
-- What a text that is accepted can denote.
use cluster_api_ipam_provide.Common.{
  nat_eq, ℕ, ◌<◌, ◌≤◌, ◌≡◌, refl, String, some, List, [], ◌∷◌, arith, codes, inl, inr, Option-cases,
  split, string_eq, cut, ◌⊎◌, if◌then◌else◌,
}
use cluster_api_ipam_provide.Netip.Ipv4Bounds.{four_bound}
use cluster_api_ipam_provide.Netip.Ipv6Bounds.{parse_ipv6_bound}
use cluster_api_ipam_provide.Netip.{Addr, invalid, v4, v6, Prefix, is4}
use cluster_api_ipam_provide.Netip.Parse.{
  four, parse_ipv4_fields, shape, dotted, colons, neither, Shape, parse_addr, prefix_bits,
  prefix_of, two_pieces, parse_prefix, decimal, pieces, parse_ipv6_zone, parse_ipv6,
}

-- The number of an IPv4 address fits 32 bits, that of an IPv6 address 128 bits.
abbrev pub Fits : Addr → Type 0
Fits (v4 n) = n < 4294967296
Fits (v6 n zone) = n < 340282366920938463463374607431768211456
Fits _ = Unit

zoned_Fits : (s : String) (a : Addr) → parse_ipv6_zone s ≡ some a → Fits a
unfolding parse_ipv6_zone
zoned_Fits s invalid e = tt
zoned_Fits s (v6 n zone) e = elim (Option-cases (cut s "%")) [
  | inl whole ↦ elim (Option-cases (parse_ipv6 (codes s))) [
    | inl nothing ↦ absurd (ground arith)
    | inr (m, read) ↦
        let same : m ≡ n = ground arith in rw (← same) (parse_ipv6_bound (codes s) m read)
  ]
  | inr ((front, zone'), parted) ↦ elim (Option-cases (parse_ipv6 (codes front))) [
    | inl nothing ↦ absurd (ground arith)
    | inr (m, read) ↦
        let same : m ≡ n = ground arith in rw (← same) (parse_ipv6_bound (codes front) m read)
  ]
]
zoned_Fits s (v4 n) e = elim (Option-cases (cut s "%")) [
  | inl whole ↦ elim (Option-cases (parse_ipv6 (codes s))) [
    | inl nothing ↦ absurd (ground arith)
    | inr (m, read) ↦ absurd (ground arith)
  ]
  | inr ((front, zone), parted) ↦ elim (Option-cases (parse_ipv6 (codes front))) [
    | inl nothing ↦ absurd (ground arith)
    | inr (m, read) ↦ absurd (ground arith)
  ]
]

Shape-cases : (x : Shape) → (x ≡ dotted) ⊎ ((x ≡ colons) ⊎ (x ≡ neither))
Shape-cases dotted = inl refl
Shape-cases colons = inr (inl refl)
Shape-cases neither = inr (inr refl)

pub parse_addr-Fits : (s : String) (a : Addr) → parse_addr s ≡ some a → Fits a
unfolding parse_addr parse_ipv4_fields
parse_addr-Fits s invalid e = tt
parse_addr-Fits s (v6 n zone) e = elim (Shape-cases (shape (codes s))) [
  | inl dots ↦ elim (Option-cases (four (pieces b'.' (codes s)))) [
    | inl nothing ↦ absurd (ground arith)
    | inr (m, read) ↦ absurd (ground arith)
  ]
  | inr (inl colon) ↦ zoned_Fits s (v6 n zone) (ground arith)
  | inr (inr none_of_them) ↦ absurd (ground arith)
]
parse_addr-Fits s (v4 n) e = elim (Shape-cases (shape (codes s))) [
  | inl dots ↦ elim (Option-cases (four (pieces b'.' (codes s)))) [
    | inl nothing ↦ absurd (ground arith)
    | inr (m, read) ↦
        let same : m ≡ n = ground arith in rw (← same) (four_bound (pieces b'.' (codes s)) m read)
  ]
  | inr (inl colon) ↦ zoned_Fits s (v4 n) (ground arith)
  | inr (inr none_of_them) ↦ absurd (ground arith)
]

prefix_bits_bound : (most : ℕ) (s : List ℕ) (n : ℕ) → prefix_bits most s ≡ some n → n ≤ most
unfolding prefix_bits
prefix_bits_bound most [] n e = absurd (ground arith)
prefix_bits_bound most (c ∷ s) n e = elim (Option-cases (decimal 0 (c ∷ s))) [
  | inl nothing ↦ absurd (ground arith)
  | inr (m, read) ↦ ground arith
]

abbrev FitsFamily : Prefix → Type 0
FitsFamily p = p.bits ≤ (if is4 p.addr then 32 else 128)

prefix_of-FitsFamily : (a : Addr) (s : List ℕ) (p : Prefix) → prefix_of a s ≡ some p → FitsFamily p
unfolding prefix_of
prefix_of-FitsFamily invalid s p e = absurd (ground arith)
prefix_of-FitsFamily (v4 n) s p e = elim (Option-cases (prefix_bits 32 s)) [
  | inl nothing ↦ absurd (ground arith)
  | inr (m, read) ↦ let h = prefix_bits_bound 32 s m read in ground arith
]
prefix_of-FitsFamily (v6 n zone) s p e = elim (Option-cases (prefix_bits 128 s)) [
  | inl nothing ↦ absurd (ground arith)
  | inr (m, read) ↦ let h = prefix_bits_bound 128 s m read in ground arith
]

two_pieces-FitsFamily : (l : List String) (p : Prefix) → two_pieces l ≡ some p → FitsFamily p
unfolding two_pieces
two_pieces-FitsFamily (a ∷ b ∷ []) p e = elim (Option-cases (parse_addr a)) [
  | inl nothing ↦ absurd (ground arith)
  | inr (addr, read) ↦ prefix_of-FitsFamily addr (codes b) p (ground arith)
]
two_pieces-FitsFamily [] p e = absurd (ground arith)
two_pieces-FitsFamily (a ∷ []) p e = absurd (ground arith)
two_pieces-FitsFamily (a ∷ b ∷ c ∷ l) p e = absurd (ground arith)

-- The length of a prefix fits its family.
pub parse_prefix-bits :
    (s : String) (p : Prefix) → parse_prefix s ≡ some p → p.bits ≤ (if is4 p.addr then 32 else 128)
unfolding parse_prefix
parse_prefix-bits s p e = two_pieces-FitsFamily (split s b'/') p e
