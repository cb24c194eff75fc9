-- ===== src/Netip/Groups.antt =====
-- The groups of an IPv6 address as texts: what is printed is read back.
use mathlib.Core.List.{append-nil, append_assoc}
use cluster_api_ipam_provide.Common.{
  nat_eq, ℕ, zero, suc, ◌+◌, ◌<◌, ◌≤◌, ◌≡◌, refl, sym, ap, ◌∙◌, ◌<>◌, true, false, Option, none,
  some, List, [], ◌∷◌, ◌++◌, ◌==◌, arith, codes, All, length, join,
}
use cluster_api_ipam_provide.Netip.Parse.{
  hex_digit, hex_group, after_group, parse_groups, Groups, starts,
}
use cluster_api_ipam_provide.Netip.Print.{numeral, hex_groups}
use cluster_api_ipam_provide.Netip.RoundTrip.{codes-append}
use cluster_api_ipam_provide.Netip.Hex.{is_plain, Stops, IsGroupText, numeral-IsGroupText}

abbrev pub AreGroups : List ℕ → Type 0
AreGroups = All (λ g. g < 65536)

unfoldable pub codes_of : List ℕ → List ℕ
unfolding join hex_groups
codes_of gs = codes (join (hex_groups gs) ":")

pub codes_of-one : (g : ℕ) → codes_of (g ∷ []) ≡ codes (numeral 16 g) ++ []
unfolding codes_of
codes_of-one g = sym (append-nil (codes (numeral 16 g)))

pub codes_of-cons :
    (g h : ℕ) (gs : List ℕ)
    → codes_of (g ∷ h ∷ gs) ≡ codes (numeral 16 g) ++ b':' ∷ codes_of (h ∷ gs)
unfolding codes_of
codes_of-cons g h gs =
    codes-append (numeral 16 g) (":" <> join (hex_groups (h ∷ gs)) ":")
    ∙ ap (λ l. codes (numeral 16 g) ++ l) (codes-append ":" (join (hex_groups (h ∷ gs)) ":"))

Stops-nil : Stops []
unfolding hex_group
Stops-nil acc off = refl

pub Stops-colon : (rest : List ℕ) → Stops (b':' ∷ rest)
unfolding hex_group hex_digit
Stops-colon rest acc off = refl

-- A text that begins with a plain character.
pub record Begins (cs : List ℕ) : Type 0 where
  pub c : ℕ
  pub more : List ℕ
  pub text : cs ≡ c ∷ more
  pub plain : is_plain c ≡ true

Begins-append : (g : ℕ) (cs rest : List ℕ) → IsGroupText g cs → Begins (cs ++ rest)
Begins-append g cs rest x = record {
  c = x.c;
  more = x.more ++ rest;
  text = rw x.text refl;
  plain = x.plain;
}

pub codes_of-Begins : (g : ℕ) (gs : List ℕ) → g < 65536 → Begins (codes_of (g ∷ gs))
codes_of-Begins g [] below =
    rw (codes_of-one g) (Begins-append g (codes (numeral 16 g)) [] (numeral-IsGroupText g below))
codes_of-Begins g (h ∷ gs) below = rw (codes_of-cons g h gs) (
    Begins-append g (codes (numeral 16 g)) (b':' ∷ codes_of (h ∷ gs)) (numeral-IsGroupText g below))

-- One round of the loop that reads a group which stands alone or before a colon.
pub read_group :
    (g room : ℕ) (cs rest groups : List ℕ) (ellipsis : Option ℕ)
    → IsGroupText g cs
    → Stops rest
    → starts b'.' rest ≡ false
    → parse_groups (suc room) groups ellipsis (cs ++ rest)
      ≡ after_group (groups ++ g ∷ []) ellipsis rest (parse_groups room (groups ++ g ∷ []))
unfolding parse_groups
read_group g room cs rest groups ellipsis x stops no_dot =
    let (k, e) = x.reads rest stops in
    let some_digit : (suc k == 0) ≡ false = ground arith in
    rw (parse_groups, e, some_digit, no_dot) refl

-- A colon that a plain character follows goes on with the next round.
pub after_colon :
    (cs groups : List ℕ) (ellipsis : Option ℕ) (next : Option ℕ → List ℕ → Option Groups)
    → Begins cs
    → after_group groups ellipsis (b':' ∷ cs) next ≡ next ellipsis cs
unfolding after_group
after_colon cs groups ellipsis next x =
    let no_colon : (x.c == b':') ≡ false = let plain = x.plain in ground arith in
    rw (x.text, no_colon) refl

-- Groups with a colon between each two are read, if there is room for them.
pub read_groups :
    (room g : ℕ) (gs groups : List ℕ) (ellipsis : Option ℕ)
    → AreGroups (g ∷ gs)
    → length (g ∷ gs) ≤ room
    → parse_groups room groups ellipsis (codes_of (g ∷ gs)) ≡ some (groups ++ g ∷ gs, ellipsis)
unfolding after_group
read_groups zero g gs groups ellipsis below fits = absurd (omega arith)
read_groups (suc room) g [] groups ellipsis (below, none_left) fits = rw (codes_of-one g) (
    read_group g room (codes (numeral 16 g)) [] groups ellipsis (numeral-IsGroupText g below)
      Stops-nil refl)
read_groups (suc room) g (h ∷ gs) groups ellipsis (below, (next, later)) fits =
    rw (codes_of-cons g h gs) (
      read_group g room (codes (numeral 16 g)) (b':' ∷ codes_of (h ∷ gs)) groups ellipsis
        (numeral-IsGroupText g below) (Stops-colon (codes_of (h ∷ gs))) refl
      ∙ (after_colon (codes_of (h ∷ gs)) (groups ++ g ∷ []) ellipsis
            (parse_groups room (groups ++ g ∷ [])) (codes_of-Begins h gs next)
          ∙ (read_groups room h gs (groups ++ g ∷ []) ellipsis (next, later) (omega arith)
              ∙ ap (λ l. some (l, ellipsis)) (append_assoc groups (g ∷ []) (h ∷ gs)))))

-- The end of a round before a double colon.
after_double :
    (groups cs : List ℕ) (next : Option ℕ → List ℕ → Option Groups)
    → after_group groups none (b':' ∷ b':' ∷ cs) next ≡ (elim cs [
      | [] ↦ some (groups, some (length groups))
      | e ∷ r ↦ next (some (length groups)) (e ∷ r)
    ])
unfolding after_group
after_double groups cs next = refl

-- What stands behind a double colon: nothing, or groups.
abbrev pub tail_of : List ℕ → List ℕ
tail_of [] = []
tail_of (g ∷ gs) = codes_of (g ∷ gs)

after_double-tail :
    (room : ℕ) (groups behind : List ℕ)
    → AreGroups behind
    → length behind ≤ room
    → after_group groups none (b':' ∷ b':' ∷ tail_of behind) (parse_groups room groups)
      ≡ some (groups ++ behind, some (length groups))
after_double-tail room groups [] below fits =
    after_double groups [] (parse_groups room groups)
    ∙ ap (λ l. some (l, some (length groups))) (sym (append-nil groups))
after_double-tail room groups (g ∷ gs) (here, below) fits =
    let x = codes_of-Begins g gs here in
    let read = read_groups room g gs groups (some (length groups)) (here, below) fits in
    after_double groups (codes_of (g ∷ gs)) (parse_groups room groups)
    ∙ rw x.text (rw x.text at read)

Begins-more : (cs rest : List ℕ) → Begins cs → Begins (cs ++ rest)
Begins-more cs rest x = record {
  c = x.c;
  more = x.more ++ rest;
  text = rw x.text refl;
  plain = x.plain;
}

pub length-append : (xs ys : List ℕ) → length (xs ++ ys) ≡ length xs + length ys
length-append [] ys = omega arith
length-append (x ∷ xs) ys = let same = length-append xs ys in omega arith

-- What has been read, with one more group.
one_more :
    (g n : ℕ) (groups rest : List ℕ)
    → (◌≡◌ {A = Option Groups}
        (some ((groups ++ g ∷ []) ++ rest, some (length (groups ++ g ∷ []) + n)))
        (some (groups ++ g ∷ rest, some (length groups + suc n))))
one_more g n groups rest =
    let same : length (groups ++ g ∷ []) + n ≡ length groups + suc n =
      let l = length-append groups (g ∷ []) in omega arith in
    rw (append_assoc groups (g ∷ []) rest, same) refl

-- Groups, a double colon and groups are read, if there is room for them.
pub read_compressed :
    (room g : ℕ) (before groups behind : List ℕ)
    → AreGroups (g ∷ before)
    → AreGroups behind
    → length (g ∷ before) + length behind ≤ room
    → parse_groups room groups none (codes_of (g ∷ before) ++ b':' ∷ b':' ∷ tail_of behind)
      ≡ some (groups ++ g ∷ (before ++ behind), some (length groups + length (g ∷ before)))
read_compressed zero g before groups behind below later fits = absurd (omega arith)
read_compressed (suc room) g [] groups behind (here, none_left) later fits =
    let tail = b':' ∷ b':' ∷ tail_of behind in
    let no_more : length (groups ++ g ∷ []) ≡ length (groups ++ g ∷ []) + 0 = omega arith in
    rw (codes_of-one g, append-nil (codes (numeral 16 g)))
      (read_group g room (codes (numeral 16 g)) tail groups none (numeral-IsGroupText g here)
          (Stops-colon (b':' ∷ tail_of behind)) refl
        ∙ (after_double-tail room (groups ++ g ∷ []) behind later (omega arith)
            ∙ (ap (λ n. some ((groups ++ g ∷ []) ++ behind, some n)) no_more
                ∙ one_more g 0 groups behind)))
read_compressed (suc room) g (h ∷ before) groups behind (here, (next, below)) later fits =
    let tail = b':' ∷ b':' ∷ tail_of behind in
    let rest = codes_of (h ∷ before) ++ tail in
    rw
      (
        codes_of-cons g h before,
        append_assoc (codes (numeral 16 g)) (b':' ∷ codes_of (h ∷ before)) tail,
      )
      (read_group g room (codes (numeral 16 g)) (b':' ∷ rest) groups none
          (numeral-IsGroupText g here) (Stops-colon rest) refl
        ∙ (after_colon rest (groups ++ g ∷ []) none (parse_groups room (groups ++ g ∷ []))
              (Begins-more (codes_of (h ∷ before)) tail (codes_of-Begins h before next))
            ∙ (read_compressed room h before (groups ++ g ∷ []) behind (next, below) later
                  (omega arith)
                ∙ one_more g (length (h ∷ before)) groups (h ∷ (before ++ behind)))))
