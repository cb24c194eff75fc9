-- ===== src/Netip/Print.antt =====
-- `Addr.String` and `Prefix.String`.
use cluster_api_ipam_provide.Common.{
  String, ◌<>◌, ◌++◌, ℕ, zero, suc, ◌/◌, ◌%◌, ◌==◌, nat_eq, string_eq, ltb, if◌then◌else◌, List, [],
  ◌∷◌, join,
}
use cluster_api_ipam_provide.Netip.{Addr, invalid, v4, v6, Prefix}

unfoldable pub digit : ℕ → String
digit n =
    if n == 0
    then "0"
    else if n == 1
    then "1"
    else if n == 2
    then "2"
    else if n == 3
    then "3"
    else if n == 4
    then "4"
    else if n == 5
    then "5"
    else if n == 6
    then "6"
    else if n == 7
    then "7"
    else if n == 8
    then "8"
    else if n == 9
    then "9"
    else if n == 10
    then "a"
    else if n == 11
    then "b"
    else if n == 12
    then "c"
    else if n == 13
    then "d"
    else if n == 14
    then "e"
    else "f"

-- A number of at most `fuel` digits, in a base of at most sixteen.
unfoldable pub numeral_from : ℕ → ℕ → ℕ → String → String
numeral_from zero base n acc = acc
numeral_from (suc fuel) base n acc =
    let more = numeral_from fuel base (n / base) (digit (n % base) <> acc) in
    if ltb n base then digit n <> acc else more

-- Twenty digits are enough for an index, a port and every field of an address.
unfoldable pub numeral : ℕ → ℕ → String
unfolding numeral_from digit
numeral base n = numeral_from 20 base n ""

unfoldable pub ipv4_text : ℕ → String
unfolding numeral join
ipv4_text n =
    join
      (numeral 10 (n / 16777216)
        ∷ numeral 10 (n / 65536 % 256)
        ∷ numeral 10 (n / 256 % 256)
        ∷ numeral 10 (n % 256)
        ∷ [])
      "."

-- The 16-bit groups of an IPv6 address, the first one first.
unfoldable pub groups_of : ℕ → ℕ → List ℕ → List ℕ
groups_of zero n acc = acc
groups_of (suc k) n acc = groups_of k (n / 65536) (n % 65536 ∷ acc)

-- The number of zeros at the front.
unfoldable pub zeros : List ℕ → ℕ
zeros [] = 0
zeros (g ∷ gs) = if g == 0 then suc (zeros gs) else 0

-- The longest run of zeros.
unfoldable pub longest : List ℕ → ℕ
unfolding zeros
longest [] = 0
longest (g ∷ gs) = if ltb (longest gs) (zeros (g ∷ gs)) then zeros (g ∷ gs) else longest gs

unfoldable pub drop : ℕ → List ℕ → List ℕ
drop zero gs = gs
drop (suc k) [] = []
drop (suc k) (g ∷ gs) = drop k gs

unfoldable pub hex_groups : List ℕ → List String
hex_groups [] = []
hex_groups (g ∷ gs) = numeral 16 g ∷ hex_groups gs

-- The groups before the first run of `run` zeros, `::`, and the groups behind it.
unfoldable pub compress : ℕ → List ℕ → List ℕ → String
compress run before [] = ""
compress run before (g ∷ gs) =
    let later = compress run (before ++ g ∷ []) gs in
    if zeros (g ∷ gs) == run
    then join (hex_groups before) ":" <> ("::" <> join (hex_groups (drop run (g ∷ gs))) ":")
    else later

unfoldable pub groups_text : List ℕ → String
unfolding hex_groups numeral compress longest zeros drop join
groups_text gs =
    if ltb (longest gs) 2 then join (hex_groups gs) ":" else compress (longest gs) [] gs

-- An address `::ffff:a.b.c.d` keeps its dotted form.
unfoldable pub ipv6_text : ℕ → String
unfolding groups_text groups_of ipv4_text
ipv6_text n =
    if n / 4294967296 == 65535
    then "::ffff:" <> ipv4_text (n % 4294967296)
    else groups_text (groups_of 8 n [])

unfoldable pub addr_text : Addr → String
unfolding ipv4_text ipv6_text
addr_text invalid = "invalid IP"
addr_text (v4 n) = ipv4_text n
addr_text (v6 n zone) = if zone == "" then ipv6_text n else ipv6_text n <> ("%" <> zone)

unfoldable pub prefix_text : Prefix → String
unfolding addr_text numeral
prefix_text p = addr_text p.addr <> ("/" <> numeral 10 p.bits)
