-- ===== src/Netip/Ipv6.antt =====
-- IPv6 addresses as texts: what is printed is read back.
use Prim.Native.Nat.{compare}
use Prim.Native.String.{len}
use text.Mathlib.Text.{is_le}
use text.Mathlib.TextFind.{find_cases}
use cluster_api_ipam_provide.Common.{
  nat_eq, ℕ, zero, suc, ◌+◌, ◌-◌, ◌*◌, ◌/◌, ◌%◌, ◌<◌, ◌≤◌, ◌≡◌, refl, sym, ap, ◌∙◌, String, ◌<>◌,
  Bool, true, false, ◌&&◌, Option, none, some, List, [], ◌∷◌, ◌++◌, ◌==◌, arith, codes, All, length,
  inl, inr, Bool-cases, ltb, leb, cut,
}
use cluster_api_ipam_provide.Netip.{v6}
use cluster_api_ipam_provide.Netip.Parse.{
  is_digit, hex_digit, hex_group, parse_groups, prepend_zeros, expand, finish, from_groups,
  parse_ipv6, parse_ipv6_zone, parse_addr, shape, colons,
}
use cluster_api_ipam_provide.Netip.Print.{
  numeral, groups_of, groups_text, ipv4_text, ipv6_text, addr_text,
}
use cluster_api_ipam_provide.Netip.RoundTrip.{
  codes-append, each_under, each_under_sound, fields, codes-ipv4_text, parse_ipv4_fields-fields,
  numeral-octet, all_digits,
}
use cluster_api_ipam_provide.Netip.Hex.{IsGroupText, numeral-IsGroupText}
use cluster_api_ipam_provide.Netip.Groups.{AreGroups, Begins, read_group, after_colon, Stops-colon}
use cluster_api_ipam_provide.Netip.Colons.{
  HasColons, HasNoZone, HasNoZone-append, groups_text-HasColons,
}
use cluster_api_ipam_provide.Netip.Compressed.{parse_ipv6-groups_text}

-- The numbers that fit so many groups.
size : ℕ → ℕ
size zero = 1
size (suc k) = size k * 65536

from_groups-groups_of :
    (k n : ℕ) (acc : List ℕ) → n < size k → from_groups 0 (groups_of k n acc) ≡ from_groups n acc
unfolding size from_groups groups_of
from_groups-groups_of zero n acc below = let nothing : n ≡ 0 = omega arith in rw nothing refl
from_groups-groups_of (suc k) n acc below =
    let again : n / 65536 * 65536 + n % 65536 ≡ n = omega arith in
    from_groups-groups_of k (n / 65536) (n % 65536 ∷ acc) (omega arith)
    ∙ ap (λ m. from_groups m acc) again

AreGroups-groups_of : (k n : ℕ) (acc : List ℕ) → AreGroups acc → AreGroups (groups_of k n acc)
unfolding groups_of
AreGroups-groups_of zero n acc below = below
AreGroups-groups_of (suc k) n acc below =
    AreGroups-groups_of k (n / 65536) (n % 65536 ∷ acc) (omega arith, below)

length-groups_of : (k n : ℕ) (acc : List ℕ) → length (groups_of k n acc) ≡ k + length acc
unfolding groups_of
length-groups_of zero n acc = omega arith
length-groups_of (suc k) n acc =
    let same = length-groups_of k (n / 65536) (n % 65536 ∷ acc) in omega arith

parse_ipv6-groups_of :
    (n : ℕ)
    → n < 340282366920938463463374607431768211456
    → parse_ipv6 (codes (groups_text (groups_of 8 n []))) ≡ some n
unfolding size from_groups
parse_ipv6-groups_of n below =
    parse_ipv6-groups_text (groups_of 8 n []) (AreGroups-groups_of 8 n [] tt)
      (length-groups_of 8 n [])
    ∙ ap some (from_groups-groups_of 8 n [] below)

not_inside : (before behind : List ℕ) → All (λ c. (c == b'%') ≡ false) (before ++ b'%' ∷ behind) → ⊥
not_inside [] behind (h, later) = ground arith
not_inside (c ∷ before) behind (h, later) = not_inside before behind later

codes-around : (u v : String) → codes u ++ b'%' ∷ codes v ≡ codes (u <> ("%" <> v))
codes-around u v = sym (codes-append u ("%" <> v) ∙ ap (λ l. codes u ++ l) (codes-append "%" v))

-- A separator that does not occur does not cut.
cut-none : (s : String) → HasNoZone (codes s) → cut s "%" ≡ none
unfolding cut
cut-none s h = elim (find_cases s "%") [
  | inl (u, v, split, at) ↦
      absurd (not_inside (codes u) (codes v) (rw (codes-around u v) (rw split at h)))
  | inr miss ↦
      let past : is_le (compare (suc (len s)) (len s)) ≡ false = ground arith in
      rw (cut, miss, past) refl
]

-- Decimal digits before a dot are read as a group as well.
hex_group-digits :
    (ds rest : List ℕ) (acc off : ℕ)
    → all_digits ds ≡ true
    → off + length ds ≤ 4
    → (g : ℕ) × (k : ℕ) × (hex_group acc off (ds ++ b'.' ∷ rest) ≡ some (g, k, b'.' ∷ rest))
      × (off + length ds ≤ k)
unfolding hex_group hex_digit
hex_group-digits [] rest acc off h short = (acc, off, refl, omega arith)
hex_group-digits (d ∷ ds) rest acc off h short =
    let decimal : is_digit d ≡ true = ground arith in
    let room : ltb off 4 ≡ true = ground arith in
    let (g, k, e, grown) =
      hex_group-digits ds rest (acc * 16 + (d - b'0')) (suc off) (ground arith) (omega arith) in
    (g, k, rw (hex_group, hex_digit, decimal, room) e, omega arith)

is_short : ℕ → Bool
is_short i = leb 1 (length (codes (numeral 10 i))) && leb (length (codes (numeral 10 i))) 3

all_short : each_under is_short 256 ≡ true
unfolding is_short numeral
all_short = refl

behind_first : ℕ → List ℕ
behind_first m =
    codes (numeral 10 (m / 65536 % 256))
    ++ b'.' ∷ (codes (numeral 10 (m / 256 % 256)) ++ b'.' ∷ codes (numeral 10 (m % 256)))

-- The dotted form of an address is read behind a group.
read_dotted :
    (m : ℕ)
    → m < 4294967296
    → parse_groups 7 (65535 ∷ []) (some 0) (fields m)
      ≡ some (65535 ∷ m / 65536 ∷ m % 65536 ∷ [], some 0)
unfolding fields parse_groups is_short behind_first
read_dotted m below =
    let first = numeral 10 (m / 16777216) in
    let fits : is_short (m / 16777216) ≡ true =
      each_under_sound is_short 256 (m / 16777216) (omega arith) all_short in
    let (digits, _) = numeral-octet (m / 16777216) (omega arith) in
    let (g, k, e, grown) =
      hex_group-digits (codes first) (behind_first m) 0 0 digits (ground arith) in
    let some_digit : (k == 0) ≡ false = ground arith in
    rw (parse_groups, e, some_digit, parse_ipv4_fields-fields m below) refl

mixed_number :
    (n m : ℕ)
    → (n / 4294967296 == 65535) ≡ true
    → n % 4294967296 ≡ m
    → finish (65535 ∷ m / 65536 ∷ m % 65536 ∷ [], some 0) ≡ some n
unfolding finish expand prepend_zeros from_groups
mixed_number n m h e =
    let same : (65535 * 65536 + m / 65536) * 65536 + m % 65536 ≡ n =
      let top : n / 4294967296 ≡ 65535 = ground arith in omega arith in
    ap some same

parse_ipv6-behind :
    (e : ℕ) (cs : List ℕ) (read : List ℕ × Option ℕ) (n : ℕ)
    → parse_groups 8 [] (some 0) (e ∷ cs) ≡ some read
    → finish read ≡ some n
    → parse_ipv6 (b':' ∷ b':' ∷ e ∷ cs) ≡ some n
unfolding parse_ipv6
parse_ipv6-behind e cs read n e' f = rw e' f

Begins-digits : (ds rest : List ℕ) → all_digits ds ≡ true → 0 < length ds → Begins (ds ++ rest)
Begins-digits [] rest h some_digit = absurd (omega arith)
Begins-digits (d ∷ ds) rest h some_digit = record {
  c = d;
  more = ds ++ rest;
  text = refl;
  plain = ground arith;
}

fields-Begins : (m : ℕ) → m < 4294967296 → Begins (fields m)
unfolding fields is_short behind_first
fields-Begins m below =
    let fits : is_short (m / 16777216) ≡ true =
      each_under_sound is_short 256 (m / 16777216) (omega arith) all_short in
    let (digits, _) = numeral-octet (m / 16777216) (omega arith) in
    Begins-digits (codes (numeral 10 (m / 16777216))) (b'.' ∷ behind_first m) digits (ground arith)

four_fs : IsGroupText 65535 (codes "ffff")
unfolding numeral
four_fs = numeral-IsGroupText 65535 (omega arith)

parse_ipv6-mixed :
    (n : ℕ)
    → (n / 4294967296 == 65535) ≡ true
    → parse_ipv6 (codes ("::ffff:" <> ipv4_text (n % 4294967296))) ≡ some n
parse_ipv6-mixed n h =
    let m = n % 4294967296 in
    let below : m < 4294967296 = omega arith in
    let read =
      read_group 65535 7 (codes "ffff") (b':' ∷ fields m) [] (some 0) four_fs
        (Stops-colon (fields m)) refl
      ∙ (after_colon (fields m) (65535 ∷ []) (some 0) (parse_groups 7 (65535 ∷ []))
            (fields-Begins m below)
          ∙ read_dotted m below) in
    rw (codes-append "::ffff:" (ipv4_text m), codes-ipv4_text m)
      (parse_ipv6-behind b'f' (codes "fff" ++ b':' ∷ fields m) _ n read (mixed_number n m h refl))

digits-HasNoZone : (ds : List ℕ) → all_digits ds ≡ true → HasNoZone ds
digits-HasNoZone [] h = tt
digits-HasNoZone (d ∷ ds) h = (ground arith, digits-HasNoZone ds (ground arith))

numeral-digits : (i : ℕ) → i < 256 → HasNoZone (codes (numeral 10 i))
numeral-digits i below = digits-HasNoZone (codes (numeral 10 i)) (numeral-octet i below).0

fields-HasNoZone : (m : ℕ) → m < 4294967296 → HasNoZone (fields m)
unfolding fields
fields-HasNoZone m below = HasNoZone-append _ _ (numeral-digits (m / 16777216) (omega arith)) (
  refl,
  HasNoZone-append _ _ (numeral-digits (m / 65536 % 256) (omega arith)) (
    refl,
    HasNoZone-append _ _ (numeral-digits (m / 256 % 256) (omega arith))
        (refl, numeral-digits (m % 256) (omega arith)),
  ),
)

mixed-HasColons : (m : ℕ) → m < 4294967296 → HasColons (codes ("::ffff:" <> ipv4_text m))
unfolding shape
mixed-HasColons m below =
    rw (codes-append "::ffff:" (ipv4_text m), codes-ipv4_text m)
      (
        refl,
        HasNoZone-append (codes "::ffff:") (fields m)
            (refl, (refl, (refl, (refl, (refl, (refl, (refl, tt))))))) (fields-HasNoZone m below),
      )

ipv6_text-HasColons : (n : ℕ) → HasColons (codes (ipv6_text n))
unfolding ipv6_text
ipv6_text-HasColons n = elim (Bool-cases (n / 4294967296 == 65535)) [
  | inl mixed ↦ rw mixed (mixed-HasColons (n % 4294967296) (omega arith))
  | inr others ↦ rw others (
      groups_text-HasColons (groups_of 8 n []) (AreGroups-groups_of 8 n [] tt)
        (length-groups_of 8 n []))
]

parse_ipv6-ipv6_text :
    (n : ℕ)
    → n < 340282366920938463463374607431768211456
    → parse_ipv6 (codes (ipv6_text n)) ≡ some n
unfolding ipv6_text
parse_ipv6-ipv6_text n below = elim (Bool-cases (n / 4294967296 == 65535)) [
  | inl mixed ↦ rw mixed (parse_ipv6-mixed n mixed)
  | inr others ↦ rw others (parse_ipv6-groups_of n below)
]

whole :
    (s : String) (n : ℕ)
    → shape (codes s) ≡ colons
    → cut s "%" ≡ none
    → parse_ipv6 (codes s) ≡ some n
    → parse_addr s ≡ some (v6 n "")
unfolding parse_addr parse_ipv6_zone
whole s n first no_zone e = rw (parse_addr, first, parse_ipv6_zone, no_zone, e) refl

-- Every IPv6 address with no zone is read back from its text.
pub parse_addr-ipv6_text :
    (n : ℕ)
    → n < 340282366920938463463374607431768211456
    → parse_addr (addr_text (v6 n "")) ≡ some (v6 n "")
unfolding addr_text
parse_addr-ipv6_text n below =
    let (first, no_zone) = ipv6_text-HasColons n in
    whole (ipv6_text n) n first (cut-none (ipv6_text n) no_zone) (parse_ipv6-ipv6_text n below)
