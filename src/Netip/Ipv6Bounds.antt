-- ===== src/Netip/Ipv6Bounds.antt =====
-- What a text of an IPv6 address can denote: a number of 128 bits.
use cluster_api_ipam_provide.Common.{
  nat_eq, ℕ, zero, suc, ◌+◌, ◌-◌, ◌*◌, ◌/◌, ◌%◌, ◌<◌, ◌≤◌, ◌≡◌, refl, sym, ap, Bool, true, false,
  Option, none, some, List, [], ◌∷◌, ◌++◌, ◌==◌, arith, length, inl, inr, ◌⊎◌, Bool-cases,
  Option-cases, ltb, leb, ◌&&◌,
}
use cluster_api_ipam_provide.Netip.Parse.{
  require, Groups, starts, hex_digit, hex_group, after_group, parse_groups, parse_ipv4_fields,
  prepend_zeros, expand, finish, from_groups, parse_ipv6, pieces,
}
use cluster_api_ipam_provide.Netip.Ipv4Bounds.{four_bound}
use cluster_api_ipam_provide.Netip.Groups.{AreGroups, length-append}

hex_digit_bound : (c d : ℕ) → hex_digit c ≡ some d → d < 16
unfolding hex_digit
hex_digit_bound c d e = ground arith

-- The powers of sixteen.
top : ℕ → ℕ
top zero = 1
top (suc k) = top k * 16

top_bound : (k n : ℕ) → k ≤ 4 → n < top k → n < 65536
unfolding top
top_bound zero n h below = omega arith
top_bound (suc zero) n h below = omega arith
top_bound (suc (suc zero)) n h below = omega arith
top_bound (suc (suc (suc zero))) n h below = omega arith
top_bound (suc (suc (suc (suc zero)))) n h below = omega arith
top_bound (suc (suc (suc (suc (suc k))))) n h below = absurd (omega arith)

top_step : (k n d : ℕ) → n < top k → d < 16 → n * 16 + d < top (suc k)
unfolding top
top_step k n d below small = omega arith

hex_group_bound :
    (s : List ℕ) (acc off g k : ℕ) (rest : List ℕ)
    → hex_group acc off s ≡ some (g, k, rest)
    → acc < top off
    → off ≤ 4
    → g < 65536
unfolding hex_group
hex_group_bound [] acc off g k rest e below short =
    let same : acc ≡ g = ground arith in rw (← same) (top_bound off acc short below)
hex_group_bound (c ∷ s) acc off g k rest e below short = elim (Option-cases (hex_digit c)) [
  | inl other ↦ let same : acc ≡ g = ground arith in rw (← same) (top_bound off acc short below)
  | inr (d, digit) ↦ elim (Bool-cases (ltb off 4)) [
    | inl room ↦
        let small = hex_digit_bound c d digit in
        hex_group_bound s (acc * 16 + d) (suc off) g k rest (ground arith)
          (top_step off acc d below small) (ground arith)
    | inr full ↦ absurd (ground arith)
  ]
]

AreGroups-append : (gs hs : List ℕ) → AreGroups gs → AreGroups hs → AreGroups (gs ++ hs)
AreGroups-append [] hs a b = b
AreGroups-append (g ∷ gs) hs (h, a) b = (h, AreGroups-append gs hs a b)

same_groups : (p r : Groups) → (◌≡◌ {A = Option Groups} (some p) (some r)) → p ≡ r
same_groups p r e = cc

-- The end of a round adds nothing, or goes on.
after_group-cases :
    (groups : List ℕ) (ellipsis : Option ℕ) (rest : List ℕ)
    (next : Option ℕ → List ℕ → Option Groups) (r : Groups)
    → after_group groups ellipsis rest next ≡ some r
    → (r.0 ≡ groups) ⊎ ((e : Option ℕ) × (s : List ℕ) × (next e s ≡ some r))
unfolding after_group
after_group-cases groups ellipsis [] next r e =
    let same : (groups, ellipsis) ≡ r = same_groups _ r e in inl (sym (ap (λ p. p.0) same))
after_group-cases groups ellipsis (c ∷ []) next r e = absurd (ground arith)
after_group-cases groups none (c ∷ d ∷ []) next r e = elim (Bool-cases (c == b':')) [
  | inr other ↦ absurd (ground arith)
  | inl colon ↦ elim (Bool-cases (d == b':')) [
    | inr on ↦ inr (none, d ∷ [], rw (colon, on) at e)
    | inl double ↦
        let same : (groups, some (length groups)) ≡ r = same_groups _ r (rw (colon, double) at e) in
        inl (sym (ap (λ p. p.0) same))
  ]
]
after_group-cases groups none (c ∷ d ∷ x ∷ s) next r e = elim (Bool-cases (c == b':')) [
  | inr other ↦ absurd (ground arith)
  | inl colon ↦ elim (Bool-cases (d == b':')) [
    | inr on ↦ inr (none, d ∷ x ∷ s, rw (colon, on) at e)
    | inl double ↦ inr (some (length groups), x ∷ s, rw (colon, double) at e)
  ]
]
after_group-cases groups (some at) (c ∷ d ∷ s) next r e = elim (Bool-cases (c == b':')) [
  | inr other ↦ absurd (ground arith)
  | inl colon ↦ elim (Bool-cases (d == b':')) [
    | inr on ↦ inr (some at, d ∷ s, rw (colon, on) at e)
    | inl double ↦ absurd (ground arith)
  ]
]

required :
    (b : Bool) (p : Groups) (r : Groups)
    → (◌≡◌ {A = Option Groups} (require b (some p)) (some r))
    → (b ≡ true) × (p ≡ r)
required true p r e = (refl, same_groups p r e)
required false p r e = absurd (ground arith)

both_left : (a b : Bool) → (a && b) ≡ true → a ≡ true
both_left true b e = refl
both_left false b e = e

first_zero : 0 < top zero
unfolding top
first_zero = omega arith

ipv4_bound : (s : List ℕ) (n : ℕ) → parse_ipv4_fields s ≡ some n → n < 4294967296
unfolding parse_ipv4_fields
ipv4_bound s n e = four_bound (pieces b'.' s) n e

-- What the loop reads: groups, no more than there is room for.
abbrev Holds : ℕ → Groups → Type 0
Holds most r = AreGroups r.0 × (length r.0 ≤ most)

parse_groups-Holds :
    (room : ℕ) (groups : List ℕ) (ellipsis : Option ℕ) (s : List ℕ) (r : Groups)
    → AreGroups groups
    → parse_groups room groups ellipsis s ≡ some r
    → Holds (length groups + room) r
unfolding parse_groups
parse_groups-Holds zero groups ellipsis [] r below e =
    let same : (groups, ellipsis) ≡ r = same_groups _ r e in rw (← same) (below, omega arith)
parse_groups-Holds zero groups ellipsis (c ∷ s) r below e = absurd (ground arith)
parse_groups-Holds (suc room) groups ellipsis s r below e = elim (Option-cases (hex_group 0 0 s)) [
  | inl nothing ↦ absurd (ground arith)
  | inr ((g, k, rest), read) ↦ elim (Bool-cases (k == 0)) [
    | inl no_digit ↦ absurd (ground arith)
    | inr digits ↦ elim (Bool-cases (starts b'.' rest)) [
      | inl dot ↦ elim (Option-cases (parse_ipv4_fields s)) [
        | inl none_read ↦ absurd (ground arith)
        | inr (n, number) ↦
            let (enough, same) =
              required _ (groups ++ n / 65536 ∷ n % 65536 ∷ [], ellipsis) r
                (rw (parse_groups, read, digits, dot, number) at e) in
            let two = both_left (leb 2 (suc room)) _ enough in
            let n_below = ipv4_bound s n number in
            let count = length-append groups (n / 65536 ∷ n % 65536 ∷ []) in
            rw (← same) (
              AreGroups-append groups (n / 65536 ∷ n % 65536 ∷ []) below
                  (omega arith, (omega arith, tt)),
              ground arith,
            )
      ]
      | inr no_dot ↦
          let more = groups ++ g ∷ [] in
          let count = length-append groups (g ∷ []) in
          let g_below = hex_group_bound s 0 0 g k rest read first_zero (omega arith) in
          let below' = AreGroups-append groups (g ∷ []) below (g_below, tt) in
          elim (after_group-cases more ellipsis rest (parse_groups room more) r
            (rw (parse_groups, read, digits, no_dot) at e)) [
              | inl same ↦ rw same (below', omega arith)
              | inr (e', s', again) ↦
                  let (are, fits) = parse_groups-Holds room more e' s' r below' again in
                  (are, omega arith)
            ]
    ]
  ]
]

prepend_zeros-Holds :
    (n : ℕ) (gs : List ℕ)
    → AreGroups gs
    → AreGroups (prepend_zeros n gs) × (length (prepend_zeros n gs) ≤ n + length gs)
unfolding prepend_zeros
prepend_zeros-Holds zero gs below = (below, omega arith)
prepend_zeros-Holds (suc n) gs below =
    let (are, fits) = prepend_zeros-Holds n gs below in ((omega arith, are), omega arith)

expand-Holds :
    (gap : ℕ) (gs : List ℕ) (at : ℕ)
    → AreGroups gs
    → AreGroups (expand gap gs at) × (length (expand gap gs at) ≤ gap + length gs)
unfolding expand
expand-Holds gap gs zero below = prepend_zeros-Holds gap gs below
expand-Holds gap [] (suc n) below = (tt, omega arith)
expand-Holds gap (g ∷ gs) (suc n) (here, below) =
    let (are, fits) = expand-Holds gap gs n below in ((here, are), omega arith)

-- The bound of what has been read, while so many groups may follow.
bound : ℕ → ℕ
bound zero = 340282366920938463463374607431768211456
bound (suc room) = bound room / 65536

bound_holds : (room n : ℕ) → n < bound room → n < 340282366920938463463374607431768211456
unfolding bound
bound_holds zero n h = h
bound_holds (suc room) n h = bound_holds room n (omega arith)

from_groups-bound :
    (room n : ℕ) (gs : List ℕ)
    → AreGroups gs
    → length gs ≤ room
    → n < bound room
    → from_groups n gs < 340282366920938463463374607431768211456
unfolding bound from_groups
from_groups-bound room n [] below fits small = bound_holds room n small
from_groups-bound zero n (g ∷ gs) below fits small = absurd (omega arith)
from_groups-bound (suc room) n (g ∷ gs) (here, below) fits small =
    from_groups-bound room (n * 65536 + g) gs below (omega arith) (omega arith)

eight_groups :
    (gs : List ℕ)
    → AreGroups gs
    → length gs ≤ 8
    → from_groups 0 gs < 340282366920938463463374607431768211456
unfolding bound
eight_groups gs below fits = from_groups-bound 8 0 gs below fits (omega arith)

finish_bound :
    (r : Groups) (n : ℕ)
    → Holds 8 r
    → finish r ≡ some n
    → n < 340282366920938463463374607431768211456
unfolding finish
finish_bound (gs, none) n (below, fits) e = elim (Bool-cases (length gs == 8)) [
  | inr other ↦ absurd (ground arith)
  | inl eight ↦
      let same : from_groups 0 gs ≡ n = ground arith in rw (← same) (eight_groups gs below fits)
]
finish_bound (gs, some at) n (below, fits) e = elim (Bool-cases (ltb (length gs) 8)) [
  | inr other ↦ absurd (ground arith)
  | inl short ↦
      let same : from_groups 0 (expand (8 - length gs) gs at) ≡ n = ground arith in
      let (are, most) = expand-Holds (8 - length gs) gs at below in
      rw (← same) (eight_groups (expand (8 - length gs) gs at) are (ground arith))
]

read_bound :
    (ellipsis : Option ℕ) (s : List ℕ) (r : Groups) (n : ℕ)
    → parse_groups 8 [] ellipsis s ≡ some r
    → finish r ≡ some n
    → n < 340282366920938463463374607431768211456
read_bound ellipsis s r n e f =
    let (are, fits) = parse_groups-Holds 8 [] ellipsis s r tt e in
    finish_bound r n (are, omega arith) f

-- The number of an IPv6 address fits 128 bits.
pub parse_ipv6_bound :
    (s : List ℕ) (n : ℕ) → parse_ipv6 s ≡ some n → n < 340282366920938463463374607431768211456
unfolding parse_ipv6
parse_ipv6_bound [] n e = absurd (ground arith)
parse_ipv6_bound (c ∷ []) n e = absurd (ground arith)
parse_ipv6_bound (c ∷ d ∷ s) n e = elim (Bool-cases (c == b':' && d == b':')) [
  | inr plain ↦ elim (Option-cases (parse_groups 8 [] none (c ∷ d ∷ s))) [
    | inl nothing ↦ absurd (no_number n (rw (parse_ipv6, plain, nothing) at e))
    | inr (r, read) ↦ read_bound none (c ∷ d ∷ s) r n read (rw (parse_ipv6, plain, read) at e)
  ]
  | inl double ↦ behind_bound s n (rw (parse_ipv6, double) at e)
]
  where
    no_number : (m : ℕ) → (◌≡◌ {A = Option ℕ} none (some m)) → ⊥
    no_number m h = cc

    behind_bound :
        (t : List ℕ) (m : ℕ)
        → parse_ipv6 (b':' ∷ b':' ∷ t) ≡ some m
        → m < 340282366920938463463374607431768211456
    behind_bound [] m h = let zero_read : 0 ≡ m = ground arith in rw (← zero_read) (omega arith)
    behind_bound (x ∷ t) m h = elim (Option-cases (parse_groups 8 [] (some 0) (x ∷ t))) [
      | inl nothing ↦ absurd (no_number m (rw nothing at h))
      | inr (r, read) ↦ read_bound (some 0) (x ∷ t) r m read (rw read at h)
    ]
