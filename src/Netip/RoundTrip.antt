-- ===== src/Netip/RoundTrip.antt =====
-- IPv4 addresses as texts: what is printed is read back.
use Prim.Native.Char.{code}
use text.Mathlib.TextLemmas.{nil-append, cons-append}
use cluster_api_ipam_provide.Common.{
  ℕ, zero, suc, ◌+◌, ◌*◌, ◌/◌, ◌%◌, ◌<◌, ◌≡◌, refl, ap, ◌∙◌, String, ◌<>◌, Bool, true, false, ◌&&◌,
  Option, none, some, List, [], ◌∷◌, ◌++◌, ◌==◌, nat_eq, arith, codes, join, inl, inr, Bool-cases,
}
use cluster_api_ipam_provide.Netip.{v4}
use cluster_api_ipam_provide.Netip.Parse.{
  is_digit, octet, pieces, four, parse_ipv4_fields, shape, dotted, parse_addr,
}
use cluster_api_ipam_provide.Netip.Print.{numeral, ipv4_text, addr_text}

-- A test that every number below a bound passes.
abbrev pub each_under : (ℕ → Bool) → ℕ → Bool
each_under test zero = true
each_under test (suc bound) = each_under test bound && test bound

pub each_under_sound :
    (test : ℕ → Bool) (bound m : ℕ) → m < bound → each_under test bound ≡ true → test m ≡ true
each_under_sound test zero m under passed = absurd (omega arith)
each_under_sound test (suc bound) m under passed = elim (Bool-cases (m == bound)) [
  | inr less ↦ each_under_sound test bound m (ground arith) (ground arith)
  | inl last ↦ let e : m ≡ bound = ground arith in rw e (ground arith)
]

abbrev pub all_digits : List ℕ → Bool
all_digits [] = true
all_digits (c ∷ cs) = is_digit c && all_digits cs

abbrev is_some : Option ℕ → ℕ → Bool
is_some none n = false
is_some (some m) n = m == n

abbrev reads_back : ℕ → Bool
reads_back n = all_digits (codes (numeral 10 n)) && is_some (octet (codes (numeral 10 n))) n

all_read_back : each_under reads_back 256 ≡ true
unfolding numeral octet
all_read_back = refl

-- A number that fits an octet is printed in digits, and read back.
pub numeral-octet :
    (i : ℕ)
    → i < 256
    → (all_digits (codes (numeral 10 i)) ≡ true) × (octet (codes (numeral 10 i)) ≡ some i)
numeral-octet i below =
    let h : reads_back i ≡ true = each_under_sound reads_back 256 i below all_read_back in
    (ground arith, is_some-eq (octet (codes (numeral 10 i))) (ground arith))
  where
    is_some-eq : (o : Option ℕ) → is_some o i ≡ true → o ≡ some i
    is_some-eq none e = absurd (ground arith)
    is_some-eq (some m) e = ground arith

pub codes-append : (s t : String) → codes (s <> t) ≡ codes s ++ codes t
codes-append String.[] t = rw (nil-append t)
codes-append (String.◌∷◌ c s) t = rw (cons-append c s t) (ap (λ l. code c ∷ l) (codes-append s t))

pub shape-digits : (ds rest : List ℕ) → all_digits ds ≡ true → shape (ds ++ b'.' ∷ rest) ≡ dotted
unfolding shape
shape-digits [] rest h = refl
shape-digits (d ∷ ds) rest h = ground (arith, shape-digits ds rest)

pieces-digits : (ds : List ℕ) → all_digits ds ≡ true → pieces b'.' ds ≡ ds ∷ []
unfolding pieces
pieces-digits [] h = refl
pieces-digits (d ∷ ds) h = ground (arith, pieces-digits ds)

pieces-append :
    (ds rest : List ℕ) (p : List ℕ) (ps : List (List ℕ))
    → all_digits ds ≡ true
    → pieces b'.' rest ≡ p ∷ ps
    → pieces b'.' (ds ++ b'.' ∷ rest) ≡ ds ∷ p ∷ ps
unfolding pieces
pieces-append [] rest p ps h e = ground arith
pieces-append (d ∷ ds) rest p ps h e = ground (arith, pieces-append ds rest p ps)

four_parts :
    (n : ℕ)
    → n < 4294967296
    → (n / 16777216 < 256)
      × (((n / 16777216 * 256 + n / 65536 % 256) * 256 + n / 256 % 256) * 256 + n % 256 ≡ n)
four_parts n h = (omega arith, omega arith)

codes-dotted : (a b : String) → codes (a <> ("." <> b)) ≡ codes a ++ b'.' ∷ codes b
codes-dotted a b = codes-append a ("." <> b) ∙ ap (λ l. codes a ++ l) (codes-append "." b)

unfoldable pub fields : ℕ → List ℕ
fields n =
    codes (numeral 10 (n / 16777216))
    ++ b'.'
      ∷ (codes (numeral 10 (n / 65536 % 256))
          ++ b'.' ∷ (codes (numeral 10 (n / 256 % 256)) ++ b'.' ∷ codes (numeral 10 (n % 256))))

pub codes-ipv4_text : (n : ℕ) → codes (ipv4_text n) ≡ fields n
unfolding ipv4_text fields join
codes-ipv4_text n = rw (
  codes-dotted (numeral 10 (n / 16777216)) _,
  codes-dotted (numeral 10 (n / 65536 % 256)) _,
  codes-dotted (numeral 10 (n / 256 % 256)) (numeral 10 (n % 256)),
)

pieces-fields :
    (n : ℕ)
    → n < 4294967296
    → pieces b'.' (fields n)
      ≡ codes (numeral 10 (n / 16777216))
        ∷ codes (numeral 10 (n / 65536 % 256))
        ∷ codes (numeral 10 (n / 256 % 256))
        ∷ codes (numeral 10 (n % 256))
        ∷ []
unfolding fields
pieces-fields n h =
    let (a, _) = numeral-octet (n / 16777216) (omega arith) in
    let (b, _) = numeral-octet (n / 65536 % 256) (omega arith) in
    let (c, _) = numeral-octet (n / 256 % 256) (omega arith) in
    let (d, _) = numeral-octet (n % 256) (omega arith) in
    pieces-append _ _ _ _ a (pieces-append _ _ _ _ b (pieces-append _ _ _ _ c (pieces-digits _ d)))

pub parse_ipv4_fields-fields : (n : ℕ) → n < 4294967296 → parse_ipv4_fields (fields n) ≡ some n
unfolding parse_ipv4_fields four
parse_ipv4_fields-fields n h =
    let (_, a) = numeral-octet (n / 16777216) (omega arith) in
    let (_, b) = numeral-octet (n / 65536 % 256) (omega arith) in
    let (_, c) = numeral-octet (n / 256 % 256) (omega arith) in
    let (_, d) = numeral-octet (n % 256) (omega arith) in
    rw (pieces-fields n h, a, b, c, d) (ap some (four_parts n h).1)

shape-fields : (n : ℕ) → n < 4294967296 → shape (fields n) ≡ dotted
unfolding fields
shape-fields n h = let (a, _) = numeral-octet (n / 16777216) (omega arith) in shape-digits _ _ a

parse_addr-fields :
    (s : String) (n : ℕ) → codes s ≡ fields n → n < 4294967296 → parse_addr s ≡ some (v4 n)
unfolding parse_addr
parse_addr-fields s n e h = rw (parse_addr, e, shape-fields n h, e, parse_ipv4_fields-fields n h)

-- Every IPv4 address is read back from its text.
pub parse_addr-addr_text : (n : ℕ) → n < 4294967296 → parse_addr (addr_text (v4 n)) ≡ some (v4 n)
unfolding addr_text
parse_addr-addr_text n h = parse_addr-fields (addr_text (v4 n)) n (codes-ipv4_text n) h
