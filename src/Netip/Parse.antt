-- ===== src/Netip/Parse.antt =====
-- `netip.ParseAddr` and `netip.ParsePrefix`; `none` is an error.
use cluster_api_ipam_provide.Common.{
  ℕ, zero, suc, ◌+◌, ◌-◌, ◌*◌, ◌/◌, ◌%◌, String, Bool, true, false, not, ◌&&◌, Option, none, some,
  List, [], ◌∷◌, ◌++◌, ◌==◌, nat_eq, string_eq, leb, ltb, if◌then◌else◌, codes, cut, split, length,
}
use cluster_api_ipam_provide.Netip.{Addr, v4, v6, Prefix}

infixl 5 ◌>>=◌
abbrev ◌>>=◌ {ℓ κ} : {A : Type ℓ} {B : Type κ} → Option A → (A → Option B) → Option B
none >>= k = none
some a >>= k = k a

abbrev pub require {ℓ} : {A : Type ℓ} → Bool → Option A → Option A
require true o = o
require false o = none

abbrev pub is_digit : ℕ → Bool
is_digit c = leb b'0' c && leb c b'9'

-- A run of decimal digits, as a number.
unfoldable pub decimal : ℕ → List ℕ → Option ℕ
decimal acc [] = some acc
decimal acc (c ∷ s) = require (is_digit c) (decimal (acc * 10 + (c - b'0')) s)

abbrev has_leading_zero : List ℕ → Bool
has_leading_zero (c ∷ _ ∷ _) = c == b'0'
has_leading_zero _ = false

-- One field of an IPv4 address: at most 255, with no leading zero.
unfoldable pub octet : List ℕ → Option ℕ
unfolding decimal
octet [] = none
octet s = do n ← decimal 0 s; require (if has_leading_zero s then false else leb n 255) (some n)

unfoldable pub pieces : ℕ → List ℕ → List (List ℕ)
pieces sep [] = [] ∷ []
pieces sep (c ∷ s) = elim (pieces sep s) [
  | [] ↦ []
  | p ∷ ps ↦ if c == sep then [] ∷ p ∷ ps else (c ∷ p) ∷ ps
]

unfoldable pub four : List (List ℕ) → Option ℕ
four (a ∷ b ∷ c ∷ d ∷ []) = do
  i ← octet a
  j ← octet b
  k ← octet c
  l ← octet d
  some (((i * 256 + j) * 256 + k) * 256 + l)
four _ = none

-- `parseIPv4Fields`
unfoldable pub parse_ipv4_fields : List ℕ → Option ℕ
unfolding octet pieces four
parse_ipv4_fields s = four (pieces b'.' s)

unfoldable pub hex_digit : ℕ → Option ℕ
hex_digit c =
    if is_digit c
    then some (c - b'0')
    else if leb b'a' c && leb c b'f'
    then some (c - b'a' + 10)
    else if leb b'A' c && leb c b'F'
    then some (c - b'A' + 10)
    else none

-- The hexadecimal digits at the front, their number, and what follows; none if more than four.
unfoldable pub hex_group : ℕ → ℕ → List ℕ → Option (ℕ × ℕ × List ℕ)
unfolding hex_digit
hex_group acc off [] = some (acc, off, [])
hex_group acc off (c ∷ s) = elim (hex_digit c) [
  | none ↦ some (acc, off, c ∷ s)
  | some d ↦ if ltb off 4 then hex_group (acc * 16 + d) (suc off) s else none
]

abbrev pub starts : ℕ → List ℕ → Bool
starts c [] = false
starts c (d ∷ s) = d == c

-- What the loop of `parseIPv6` has read: 16-bit groups, and how many stand before `::`.
abbrev pub Groups : Type 0
Groups = List ℕ × Option ℕ

-- The end of one round, behind a group: `next` is the following round.
unfoldable pub after_group :
    List ℕ → Option ℕ → List ℕ → (Option ℕ → List ℕ → Option Groups) → Option Groups
after_group groups ellipsis [] next = some (groups, ellipsis)
after_group groups ellipsis (c ∷ []) next = none
after_group groups ellipsis (c ∷ d ∷ s) next = require (c == b':') (
    if d == b':'
    then elim ellipsis [
      | some _ ↦ none
      | none ↦ elim s [
        | [] ↦ some (groups, some (length groups))
        | e ∷ r ↦ next (some (length groups)) (e ∷ r)
      ]
    ]
    else next ellipsis (d ∷ s))

-- The loop of `parseIPv6`; `room` is the number of groups that still fit.
unfoldable pub parse_groups : ℕ → List ℕ → Option ℕ → List ℕ → Option Groups
unfolding hex_group parse_ipv4_fields after_group
parse_groups zero groups ellipsis [] = some (groups, ellipsis)
parse_groups zero groups ellipsis (_ ∷ _) = none
parse_groups (suc room) groups ellipsis s = elim (hex_group 0 0 s) [
  | none ↦ none
  | some (acc, off, rest) ↦
      if off == 0
      then none
      else if starts b'.' rest
      then elim (parse_ipv4_fields s) [
        | none ↦ none
        | some n ↦
            require (leb 2 (suc room) && (elim ellipsis [ some _ ↦ true | none ↦ suc room == 2 ]))
              (some (groups ++ (n / 65536) ∷ (n % 65536) ∷ [], ellipsis))
      ]
      else after_group (groups ++ acc ∷ []) ellipsis rest (parse_groups room (groups ++ acc ∷ []))
]

unfoldable pub from_groups : ℕ → List ℕ → ℕ
from_groups acc [] = acc
from_groups acc (g ∷ gs) = from_groups (acc * 65536 + g) gs

unfoldable pub prepend_zeros : ℕ → List ℕ → List ℕ
prepend_zeros zero l = l
prepend_zeros (suc n) l = 0 ∷ prepend_zeros n l

-- Fills the place of `::` with groups of zeros.
unfoldable pub expand : ℕ → List ℕ → ℕ → List ℕ
unfolding prepend_zeros
expand gap gs zero = prepend_zeros gap gs
expand gap [] (suc n) = []
expand gap (g ∷ gs) (suc n) = g ∷ expand gap gs n

unfoldable pub finish : Groups → Option ℕ
unfolding from_groups expand
finish (gs, none) = require (length gs == 8) (some (from_groups 0 gs))
finish (gs, some at) =
    require (ltb (length gs) 8) (some (from_groups 0 (expand (8 - length gs) gs at)))

-- `parseIPv6`, behind the split at the zone.
unfoldable pub parse_ipv6 : List ℕ → Option ℕ
unfolding parse_groups finish
parse_ipv6 [] = none
parse_ipv6 (c ∷ []) = none
parse_ipv6 (c ∷ d ∷ s) = elim (c == b':' && d == b':') [
  | true ↦ elim s [ [] ↦ some 0 | e ∷ r ↦ parse_groups 8 [] (some 0) (e ∷ r) >>= finish ]
  | false ↦ parse_groups 8 [] none (c ∷ d ∷ s) >>= finish
]

unfoldable pub parse_ipv6_zone : String → Option Addr
unfolding parse_ipv6 cut
parse_ipv6_zone s = elim (cut s "%") [
  | none ↦ do n ← parse_ipv6 (codes s); some (v6 n "")
  | some (a, zone) ↦ require (not (zone == "")) (do n ← parse_ipv6 (codes a); some (v6 n zone))
]

-- The first of `.`, `:` and `%` decides.
pub data Shape : Type 0 where
  dotted colons neither : Shape

unfoldable pub shape : List ℕ → Shape
shape [] = neither
shape (c ∷ s) =
    if c == b'.'
    then dotted
    else if c == b':'
    then colons
    else if c == b'%'
    then neither
    else shape s

unfoldable pub parse_addr : String → Option Addr
unfolding shape parse_ipv4_fields parse_ipv6_zone
parse_addr s = elim (shape (codes s)) [
  | dotted ↦ do n ← parse_ipv4_fields (codes s); some (v4 n)
  | colons ↦ parse_ipv6_zone s
  | neither ↦ none
]

-- The number behind the slash: digits, with no sign and no leading zero, at most `most`.
unfoldable pub prefix_bits : ℕ → List ℕ → Option ℕ
unfolding decimal
prefix_bits most [] = none
prefix_bits most s = do
  n ← decimal 0 s
  require (if has_leading_zero s then false else leb n most) (some n)

unfoldable pub prefix_of : Addr → List ℕ → Option Prefix
unfolding prefix_bits
prefix_of (v4 n) s = do b ← prefix_bits 32 s; some (record { addr = v4 n; bits = b })
prefix_of (v6 n zone) s =
    require (zone == "") (do b ← prefix_bits 128 s; some (record { addr = v6 n zone; bits = b }))
prefix_of _ s = none

-- A slash inside the address or its zone is never accepted, so the last slash is the only one.
unfoldable pub two_pieces : List String → Option Prefix
unfolding parse_addr prefix_of
two_pieces (a ∷ b ∷ []) = do addr ← parse_addr a; prefix_of addr (codes b)
two_pieces _ = none

unfoldable pub parse_prefix : String → Option Prefix
unfolding two_pieces split
parse_prefix s = two_pieces (split s b'/')
