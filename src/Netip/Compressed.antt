-- ===== src/Netip/Compressed.antt =====
-- The eight groups of an IPv6 address, printed with their longest run of zeros left out, are read back.
use mathlib.Core.List.{append-nil, append_assoc}
use cluster_api_ipam_provide.Common.{
  nat_eq, ℕ, zero, suc, ◌+◌, ◌-◌, ◌<◌, ◌≤◌, ◌≡◌, refl, sym, ap, ◌∙◌, String, ◌<>◌, true, false,
  Option, none, some, List, [], ◌∷◌, ◌++◌, ◌==◌, arith, codes, length, inl, inr, Bool-cases, ltb,
  join,
}
use cluster_api_ipam_provide.Netip.Parse.{
  parse_groups, prepend_zeros, expand, finish, from_groups, parse_ipv6,
}
use cluster_api_ipam_provide.Netip.Print.{
  hex_groups, zeros, drop, longest, compress, groups_text, numeral,
}
use cluster_api_ipam_provide.Netip.RoundTrip.{codes-append}
use cluster_api_ipam_provide.Netip.Hex.{is_plain, numeral-IsGroupText}
use cluster_api_ipam_provide.Netip.Groups.{
  AreGroups, Begins, codes_of, codes_of-cons, codes_of-Begins, tail_of, read_groups,
  read_compressed, length-append,
}

-- Filling in zeros where the double colon stood.
expand-append :
    (gap : ℕ) (before behind : List ℕ)
    → expand gap (before ++ behind) (length before) ≡ before ++ prepend_zeros gap behind
unfolding expand
expand-append gap [] behind = refl
expand-append gap (g ∷ before) behind = ap (λ l. g ∷ l) (expand-append gap before behind)

finish-compressed :
    (run : ℕ) (before behind : List ℕ)
    → length before + (run + length behind) ≡ 8
    → 0 < run
    → finish (before ++ behind, some (length before))
      ≡ some (from_groups 0 (before ++ prepend_zeros run behind))
unfolding finish
finish-compressed run before behind eight some_zeros =
    let l = length-append before behind in
    let short : ltb (length (before ++ behind)) 8 ≡ true = ground arith in
    let gap : 8 - length (before ++ behind) ≡ run = omega arith in
    rw (short, gap, expand-append run before behind) refl

finish-all : (gs : List ℕ) → length gs ≡ 8 → finish (gs, none) ≡ some (from_groups 0 gs)
unfolding finish
finish-all gs eight = rw eight refl

-- The run of zeros at the front, and what is behind it.
zeros-drop : (gs : List ℕ) → gs ≡ prepend_zeros (zeros gs) (drop (zeros gs) gs)
unfolding zeros drop prepend_zeros
zeros-drop [] = refl
zeros-drop (g ∷ gs) = elim (Bool-cases (g == 0)) [
  | inl is_zero ↦
      let same : g ≡ 0 = ground arith in
      let rest = zeros-drop gs in rw is_zero (rw same (ap (λ l. 0 ∷ l) rest))
  | inr other ↦ rw other refl
]

-- What is printed for groups whose longest run of zeros has a length.
pub record IsCompressed (run : ℕ) (front gs : List ℕ) (text : String) : Type 0 where
  pub before : List ℕ
  pub behind : List ℕ
  pub split : gs ≡ before ++ prepend_zeros run behind
  pub printed :
      text ≡ join (hex_groups (front ++ before)) ":" <> ("::" <> join (hex_groups behind) ":")

pub compress-IsCompressed :
    (run : ℕ) (front gs : List ℕ)
    → longest gs ≡ run
    → 0 < run
    → IsCompressed run front gs (compress run front gs)
unfolding compress longest
compress-IsCompressed run front [] e some_zeros = absurd (omega arith)
compress-IsCompressed run front (g ∷ gs) e some_zeros = elim (Bool-cases (zeros (g ∷ gs) == run)) [
  | inl here ↦
      let same : zeros (g ∷ gs) ≡ run = ground arith in
      rw here (record {
        before = [];
        behind = drop run (g ∷ gs);
        split = rw same at (zeros-drop (g ∷ gs));
        printed = rw (append-nil front) refl;
      })
  | inr later ↦
      let on : longest gs ≡ run = ground arith in
      let x = compress-IsCompressed run (front ++ g ∷ []) gs on some_zeros in
      rw later (record {
        before = g ∷ x.before;
        behind = x.behind;
        split = ap (λ l. g ∷ l) x.split;
        printed = rw (sym (append_assoc front (g ∷ []) x.before)) x.printed;
      })
]

-- A text of at least two characters, the first of them plain.
record IsLong (cs : List ℕ) : Type 0 where
  c : ℕ
  d : ℕ
  more : List ℕ
  text : cs ≡ c ∷ d ∷ more
  plain : is_plain c ≡ true

front : (xs : List ℕ) (y : ℕ) (ys : List ℕ) → (d : ℕ) × (more : List ℕ) × (xs ++ y ∷ ys ≡ d ∷ more)
front [] y ys = (y, ys, refl)
front (x ∷ xs) y ys = (x, xs ++ y ∷ ys, refl)

Begins-IsLong : (cs : List ℕ) (y : ℕ) (ys : List ℕ) → Begins cs → IsLong (cs ++ y ∷ ys)
Begins-IsLong cs y ys x =
    let (d, more, e) = front x.more y ys in
    record { c = x.c; d = d; more = more; text = rw x.text (ap (λ l. x.c ∷ l) e); plain = x.plain }

parse_ipv6-IsLong :
    (cs : List ℕ) (read : List ℕ × Option ℕ) (n : ℕ)
    → IsLong cs
    → parse_groups 8 [] none cs ≡ some read
    → finish read ≡ some n
    → parse_ipv6 cs ≡ some n
unfolding parse_ipv6
parse_ipv6-IsLong cs read n x e f =
    let no_colon : (x.c == b':') ≡ false = let plain = x.plain in ground arith in
    let e' : parse_groups 8 [] none (x.c ∷ x.d ∷ x.more) ≡ some read = rw x.text at e in
    rw (x.text, parse_ipv6, no_colon, e') f

parse_ipv6-double :
    (g : ℕ) (gs : List ℕ) (n : ℕ)
    → AreGroups (g ∷ gs)
    → length (g ∷ gs) ≤ 8
    → finish (g ∷ gs, some 0) ≡ some n
    → parse_ipv6 (b':' ∷ b':' ∷ codes_of (g ∷ gs)) ≡ some n
unfolding parse_ipv6
parse_ipv6-double g gs n (here, below) fits f =
    let x = codes_of-Begins g gs here in
    let e = read_groups 8 g gs [] (some 0) (here, below) fits in
    let e' : parse_groups 8 [] (some 0) (x.c ∷ x.more) ≡ some (g ∷ gs, some 0) = rw x.text at e in
    rw (x.text, e') f

pub All-append :
    (before behind : List ℕ) → AreGroups (before ++ behind) → AreGroups before × AreGroups behind
All-append [] behind below = (tt, below)
All-append (g ∷ before) behind (here, below) =
    let (first, second) = All-append before behind below in ((here, first), second)

pub zeros-AreGroups :
    (run : ℕ) (behind : List ℕ) → AreGroups (prepend_zeros run behind) → AreGroups behind
unfolding prepend_zeros
zeros-AreGroups zero behind below = below
zeros-AreGroups (suc run) behind (here, below) = zeros-AreGroups run behind below

length-prepend_zeros : (run : ℕ) (gs : List ℕ) → length (prepend_zeros run gs) ≡ run + length gs
unfolding prepend_zeros
length-prepend_zeros zero gs = omega arith
length-prepend_zeros (suc run) gs = let same = length-prepend_zeros run gs in omega arith

pub codes-double :
    (before behind : List ℕ)
    → codes (join (hex_groups before) ":" <> ("::" <> join (hex_groups behind) ":"))
      ≡ codes_of before ++ b':' ∷ b':' ∷ tail_of behind
unfolding codes_of
codes-double before [] = codes-append (join (hex_groups before) ":") "::"
codes-double before (g ∷ behind) =
    codes-append (join (hex_groups before) ":") ("::" <> join (hex_groups (g ∷ behind)) ":")
    ∙ ap (λ l. codes_of before ++ l) (codes-append "::" (join (hex_groups (g ∷ behind)) ":"))

-- The text with a double colon is read.
parse_ipv6-compressed :
    (run : ℕ) (before behind : List ℕ)
    → AreGroups before
    → AreGroups behind
    → length before + (run + length behind) ≡ 8
    → 0 < run
    → parse_ipv6 (codes_of before ++ b':' ∷ b':' ∷ tail_of behind)
      ≡ some (from_groups 0 (before ++ prepend_zeros run behind))
unfolding codes_of parse_ipv6 from_groups prepend_zeros
parse_ipv6-compressed run [] [] below later eight some_zeros =
    let all : run ≡ 8 = omega arith in rw all refl
parse_ipv6-compressed run [] (g ∷ behind) below later eight some_zeros =
    parse_ipv6-double g behind _ later (omega arith)
      (finish-compressed run [] (g ∷ behind) eight some_zeros)
parse_ipv6-compressed run (g ∷ before) behind (here, below) later eight some_zeros =
    let all : length {A = ℕ} [] + length (g ∷ before) ≡ length (g ∷ before) = omega arith in
    parse_ipv6-IsLong (codes_of (g ∷ before) ++ b':' ∷ b':' ∷ tail_of behind)
      (g ∷ (before ++ behind), some (length (g ∷ before))) _
      (Begins-IsLong (codes_of (g ∷ before)) b':' (b':' ∷ tail_of behind)
        (codes_of-Begins g before here))
      (read_compressed 8 g before [] behind (here, below) later (omega arith)
        ∙ ap (λ n. some (g ∷ (before ++ behind), some n)) all)
      (finish-compressed run (g ∷ before) behind eight some_zeros)

parse_ipv6-joined :
    (gs : List ℕ)
    → AreGroups gs
    → length gs ≡ 8
    → parse_ipv6 (codes (join (hex_groups gs) ":")) ≡ some (from_groups 0 gs)
unfolding codes_of
parse_ipv6-joined [] below eight = absurd (omega arith)
parse_ipv6-joined (g ∷ []) below eight = absurd (omega arith)
parse_ipv6-joined (g ∷ h ∷ gs) (here, below) eight =
    let x = numeral-IsGroupText g here in
    let long : IsLong (codes_of (g ∷ h ∷ gs)) = rw (codes_of-cons g h gs) (
      Begins-IsLong (codes (numeral 16 g)) b':' (codes_of (h ∷ gs))
        (record { c = x.c; more = x.more; text = x.text; plain = x.plain })) in
    parse_ipv6-IsLong (codes_of (g ∷ h ∷ gs)) (g ∷ h ∷ gs, none) _ long
      (read_groups 8 g (h ∷ gs) [] none (here, below) (omega arith)) (finish-all (g ∷ h ∷ gs) eight)

-- Eight groups are read back from their text.
pub parse_ipv6-groups_text :
    (gs : List ℕ)
    → AreGroups gs
    → length gs ≡ 8
    → parse_ipv6 (codes (groups_text gs)) ≡ some (from_groups 0 gs)
unfolding groups_text
parse_ipv6-groups_text gs below eight = elim (Bool-cases (ltb (longest gs) 2)) [
  | inl short ↦ rw short (parse_ipv6-joined gs below eight)
  | inr long ↦
      let some_zeros : 0 < longest gs = ground arith in
      let x = compress-IsCompressed (longest gs) [] gs refl some_zeros in
      let (first, second) =
        All-append x.before (prepend_zeros (longest gs) x.behind) (rw x.split at below) in
      let count : length x.before + (longest gs + length x.behind) ≡ 8 =
        (let l₀ = ap length x.split in
          let l₁ = length-append x.before (prepend_zeros (longest gs) x.behind) in
          let l₂ = length-prepend_zeros (longest gs) x.behind in omega arith) in
      rw (long, x.printed)
        (ap parse_ipv6 (codes-double x.before x.behind)
          ∙ (parse_ipv6-compressed (longest gs) x.before x.behind first
                (zeros-AreGroups (longest gs) x.behind second) count some_zeros
              ∙ ap (λ l. some (from_groups 0 l)) (sym x.split)))
]
