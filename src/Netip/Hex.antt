-- ===== src/Netip/Hex.antt =====
-- The hexadecimal numerals of the groups of an IPv6 address: what is printed is read back.
use mathlib.Core.List.{append-nil, append_assoc}
use cluster_api_ipam_provide.Common.{
  nat_eq, ℕ, zero, suc, ◌+◌, ◌*◌, ◌/◌, ◌%◌, ◌<◌, ◌≤◌, ◌≡◌, refl, sym, ap, ◌∙◌, String, ◌<>◌, Bool,
  true, false, ◌&&◌, not, Option, none, some, List, [], ◌∷◌, ◌++◌, ◌==◌, arith, codes, All, length,
  inl, inr, Bool-cases, ltb,
}
use cluster_api_ipam_provide.Netip.Parse.{hex_digit, hex_group}
use cluster_api_ipam_provide.Netip.Print.{digit, numeral_from, numeral}
use cluster_api_ipam_provide.Netip.RoundTrip.{codes-append, each_under, each_under_sound}

-- A character that ends no group and decides no shape.
abbrev pub is_plain : ℕ → Bool
is_plain c = not (c == b'.') && (not (c == b':') && not (c == b'%'))

abbrev holds_digit : Option ℕ → ℕ → Bool
holds_digit none d = false
holds_digit (some e) d = e == d

abbrev digit_test : ℕ → List ℕ → Bool
digit_test d (c ∷ []) = holds_digit (hex_digit c) d && is_plain c
digit_test d _ = false

abbrev digit_reads : ℕ → Bool
digit_reads d = digit_test d (codes (digit d))

all_digits_read : each_under digit_reads 16 ≡ true
unfolding digit hex_digit
all_digits_read = refl

holds_digit-some : (o : Option ℕ) (d : ℕ) → holds_digit o d ≡ true → o ≡ some d
holds_digit-some none d e = absurd (ground arith)
holds_digit-some (some m) d e = ground arith

-- The one character of a digit.
record IsDigit (d : ℕ) (cs : List ℕ) : Type 0 where
  c : ℕ
  single : cs ≡ c ∷ []
  reads : hex_digit c ≡ some d
  plain : is_plain c ≡ true

digit_test-IsDigit : (d : ℕ) (cs : List ℕ) → digit_test d cs ≡ true → IsDigit d cs
digit_test-IsDigit d [] h = absurd (ground arith)
digit_test-IsDigit d (c ∷ []) h = record {
  c = c;
  single = refl;
  reads = holds_digit-some (hex_digit c) d (ground arith);
  plain = ground arith;
}
digit_test-IsDigit d (c ∷ e ∷ cs) h = absurd (ground arith)

digit-IsDigit : (d : ℕ) → d < 16 → IsDigit d (codes (digit d))
digit-IsDigit d below =
    digit_test-IsDigit d (codes (digit d)) (each_under_sound digit_reads 16 d below all_digits_read)

-- The characters of digits, the number that they mean behind another, and their number.
hex_codes : List ℕ → List ℕ
hex_codes [] = []
hex_codes (d ∷ ds) = codes (digit d) ++ hex_codes ds

value_from : ℕ → List ℕ → ℕ
value_from acc [] = acc
value_from acc (d ∷ ds) = value_from (acc * 16 + d) ds

AreDigits : List ℕ → Type 0
AreDigits = All (λ d. d < 16)

-- A text at which the reading of a group stops.
abbrev pub Stops : List ℕ → Type 0
Stops rest = (acc off : ℕ) → hex_group acc off rest ≡ some (acc, off, rest)

hex_group-hex_codes :
    (ds rest : List ℕ) (acc off : ℕ)
    → AreDigits ds
    → off + length ds ≤ 4
    → Stops rest
    → (k : ℕ) × (hex_group acc off (hex_codes ds ++ rest) ≡ some (value_from acc ds, k, rest))
      × (off + length ds ≤ k)
unfolding hex_group hex_codes value_from AreDigits
hex_group-hex_codes [] rest acc off digits short stops = (off, stops acc off, omega arith)
hex_group-hex_codes (d ∷ ds) rest acc off (below, digits) short stops =
    let x = digit-IsDigit d below in
    let room : ltb off 4 ≡ true = ground arith in
    let (k, more, grown) =
      hex_group-hex_codes ds rest (acc * 16 + d) (suc off) digits (omega arith) stops in
    (k, rw (hex_group, x.single, x.reads, room) more, omega arith)

-- A number below a power of sixteen is printed in as many digits, and they mean the number.
limit : ℕ → ℕ
limit zero = 16
limit (suc k) = limit k * 16

record IsNumeral (k n : ℕ) (acc : String) (cs : List ℕ) : Type 0 where
  d : ℕ
  ds : List ℕ
  text : cs ≡ hex_codes (d ∷ ds) ++ codes acc
  digits : AreDigits (d ∷ ds)
  means : value_from 0 (d ∷ ds) ≡ n
  short : length ds ≤ k

hex_codes-append : (ds es : List ℕ) → hex_codes (ds ++ es) ≡ hex_codes ds ++ hex_codes es
unfolding hex_codes
hex_codes-append [] es = refl
hex_codes-append (d ∷ ds) es =
    ap (λ l. codes (digit d) ++ l) (hex_codes-append ds es)
    ∙ sym (append_assoc (codes (digit d)) (hex_codes ds) (hex_codes es))

hex_codes-append_one :
    (d : ℕ) (ds : List ℕ) → hex_codes (ds ++ d ∷ []) ≡ hex_codes ds ++ codes (digit d)
unfolding hex_codes
hex_codes-append_one d ds =
    hex_codes-append ds (d ∷ []) ∙ ap (λ l. hex_codes ds ++ l) (append-nil (codes (digit d)))

value_from-append :
    (acc d : ℕ) (ds : List ℕ) → value_from acc (ds ++ d ∷ []) ≡ value_from acc ds * 16 + d
unfolding value_from
value_from-append acc d [] = refl
value_from-append acc d (e ∷ ds) = value_from-append (acc * 16 + e) d ds

AreDigits-append : (d : ℕ) (ds : List ℕ) → d < 16 → AreDigits ds → AreDigits (ds ++ d ∷ [])
unfolding AreDigits
AreDigits-append d [] below digits = (below, tt)
AreDigits-append d (e ∷ ds) below (first, digits) = (first, AreDigits-append d ds below digits)

length-append_one : (d : ℕ) (ds : List ℕ) → length (ds ++ d ∷ []) ≡ suc (length ds)
length-append_one d [] = refl
length-append_one d (e ∷ ds) = ap suc (length-append_one d ds)

one_digit : (k n : ℕ) (acc : String) → n < 16 → IsNumeral k n acc (codes (digit n <> acc))
unfolding hex_codes value_from AreDigits
one_digit k n acc below = record {
  d = n;
  ds = [];
  text = codes-append (digit n) acc ∙ ap (λ l. l ++ codes acc) (sym (append-nil (codes (digit n))));
  digits = (below, tt);
  means = omega arith;
  short = omega arith;
}

numeral_from-IsNumeral :
    (k fuel n : ℕ) (acc : String)
    → k < fuel
    → n < limit k
    → IsNumeral k n acc (codes (numeral_from fuel 16 n acc))
unfolding numeral_from limit
numeral_from-IsNumeral k zero n acc enough small = absurd (omega arith)
numeral_from-IsNumeral zero (suc fuel) n acc enough small =
    let here : ltb n 16 ≡ true = ground arith in rw here (one_digit zero n acc small)
numeral_from-IsNumeral (suc k) (suc fuel) n acc enough small = elim (Bool-cases (ltb n 16)) [
  | inl here ↦ rw here (one_digit (suc k) n acc (ground arith))
  | inr larger ↦
      let low : n % 16 < 16 = omega arith in
      let x =
        numeral_from-IsNumeral k fuel (n / 16) (digit (n % 16) <> acc) (omega arith)
          (omega arith) in
      let means = x.means in
      let back : value_from 0 (x.d ∷ x.ds) * 16 + n % 16 ≡ n =
        ap (λ v. v * 16 + n % 16) means ∙ omega arith in
      rw larger (record {
        d = x.d;
        ds = x.ds ++ (n % 16) ∷ [];
        text =
            x.text
            ∙ (ap (λ l. hex_codes (x.d ∷ x.ds) ++ l) (codes-append (digit (n % 16)) acc)
                ∙ (sym (append_assoc (hex_codes (x.d ∷ x.ds)) (codes (digit (n % 16))) (codes acc))
                    ∙ ap (λ l. l ++ codes acc) (sym (hex_codes-append_one (n % 16) (x.d ∷ x.ds)))));
        digits = AreDigits-append (n % 16) (x.d ∷ x.ds) low x.digits;
        means = value_from-append 0 (n % 16) (x.d ∷ x.ds) ∙ back;
        short = let short = x.short in rw (length-append_one (n % 16) x.ds) (omega arith);
      })
]

-- What is known of the text of a group: it begins with a plain character, and it is read as the
-- group, up to where the reading stops. It decides no shape.
pub record IsGroupText (g : ℕ) (cs : List ℕ) : Type 0 where
  pub c : ℕ
  pub more : List ℕ
  pub text : cs ≡ c ∷ more
  pub plain : is_plain c ≡ true
  pub all_plain : All (λ e. is_plain e ≡ true) cs
  pub reads :
      (rest : List ℕ) → Stops rest → (k : ℕ) × (hex_group 0 0 (cs ++ rest) ≡ some (g, suc k, rest))

hex_codes-plain : (ds : List ℕ) → AreDigits ds → All (λ e. is_plain e ≡ true) (hex_codes ds)
unfolding hex_codes AreDigits
hex_codes-plain [] digits = tt
hex_codes-plain (d ∷ ds) (below, digits) =
    let x = digit-IsDigit d below in rw x.single (x.plain, hex_codes-plain ds digits)

positive : (k : ℕ) → 0 < k → (j : ℕ) × (k ≡ suc j)
positive zero h = absurd (omega arith)
positive (suc j) h = (j, refl)

IsNumeral-IsGroupText : (g : ℕ) (cs : List ℕ) → IsNumeral 3 g "" cs → IsGroupText g cs
unfolding hex_codes AreDigits
IsNumeral-IsGroupText g cs x =
    let text : cs ≡ hex_codes (x.d ∷ x.ds) = x.text ∙ append-nil (hex_codes (x.d ∷ x.ds)) in
    let (below, digits) = x.digits in
    let first = digit-IsDigit x.d below in
    rw text (record {
      c = first.c;
      more = hex_codes x.ds;
      text = rw first.single refl;
      plain = first.plain;
      all_plain = hex_codes-plain (x.d ∷ x.ds) x.digits;
      reads = λ rest stops.
          let short = x.short in
          let (k, e, grown) =
            hex_group-hex_codes (x.d ∷ x.ds) rest 0 0 x.digits (omega arith) stops in
          let (j, same) = positive k (omega arith) in (j, rw (sym x.means, sym same) e);
    })

pub numeral-IsGroupText : (g : ℕ) → g < 65536 → IsGroupText g (codes (numeral 16 g))
unfolding numeral limit
numeral-IsGroupText g below =
    IsNumeral-IsGroupText g (codes (numeral 16 g))
      (numeral_from-IsNumeral 3 20 g "" (omega arith) below)
