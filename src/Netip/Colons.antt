-- ===== src/Netip/Colons.antt =====
-- The texts of IPv6 addresses have a colon before any dot, and no zone.
use mathlib.Core.List.{append_assoc}
use cluster_api_ipam_provide.Common.{
  nat_eq, ℕ, ◌<◌, ◌≡◌, refl, true, false, List, [], ◌∷◌, ◌++◌, ◌==◌, arith, codes, All, length, inl,
  inr, Bool-cases, ltb,
}
use cluster_api_ipam_provide.Netip.Parse.{prepend_zeros, shape, colons}
use cluster_api_ipam_provide.Netip.Print.{longest, groups_text, numeral}
use cluster_api_ipam_provide.Netip.Hex.{is_plain, numeral-IsGroupText}
use cluster_api_ipam_provide.Netip.Groups.{AreGroups, codes_of, codes_of-cons, tail_of}
use cluster_api_ipam_provide.Netip.Compressed.{
  compress-IsCompressed, All-append, zeros-AreGroups, codes-double,
}

abbrev pub HasNoZone : List ℕ → Type 0
HasNoZone = All (λ c. (c == b'%') ≡ false)

pub HasNoZone-append : (cs ds : List ℕ) → HasNoZone cs → HasNoZone ds → HasNoZone (cs ++ ds)
HasNoZone-append [] ds h k = k
HasNoZone-append (c ∷ cs) ds (e, h) k = (e, HasNoZone-append cs ds h k)

plain-HasNoZone : (cs : List ℕ) → All (λ c. is_plain c ≡ true) cs → HasNoZone cs
plain-HasNoZone [] h = tt
plain-HasNoZone (c ∷ cs) (e, h) = (ground arith, plain-HasNoZone cs h)

numeral-HasNoZone : (g : ℕ) → g < 65536 → HasNoZone (codes (numeral 16 g))
numeral-HasNoZone g below =
    let x = numeral-IsGroupText g below in plain-HasNoZone (codes (numeral 16 g)) x.all_plain

codes_of-HasNoZone : (gs : List ℕ) → AreGroups gs → HasNoZone (codes_of gs)
unfolding codes_of
codes_of-HasNoZone [] below = tt
codes_of-HasNoZone (g ∷ []) (here, below) = numeral-HasNoZone g here
codes_of-HasNoZone (g ∷ h ∷ gs) (here, below) = rw (codes_of-cons g h gs) (
    HasNoZone-append (codes (numeral 16 g)) (b':' ∷ codes_of (h ∷ gs)) (numeral-HasNoZone g here)
      (refl, codes_of-HasNoZone (h ∷ gs) below))

tail_of-HasNoZone : (gs : List ℕ) → AreGroups gs → HasNoZone (tail_of gs)
tail_of-HasNoZone [] below = tt
tail_of-HasNoZone (g ∷ gs) below = codes_of-HasNoZone (g ∷ gs) below

shape-plain :
    (cs rest : List ℕ) → All (λ c. is_plain c ≡ true) cs → shape (cs ++ b':' ∷ rest) ≡ colons
unfolding shape
shape-plain [] rest h = refl
shape-plain (c ∷ cs) rest (e, h) = ground (arith, shape-plain cs rest h)

-- A group and a colon decide the shape.
shape-numeral :
    (g : ℕ) (rest : List ℕ) → g < 65536 → shape (codes (numeral 16 g) ++ b':' ∷ rest) ≡ colons
shape-numeral g rest below =
    let x = numeral-IsGroupText g below in shape-plain (codes (numeral 16 g)) rest x.all_plain

shape-codes_of : (gs rest : List ℕ) → AreGroups gs → shape (codes_of gs ++ b':' ∷ rest) ≡ colons
unfolding codes_of shape
shape-codes_of [] rest below = refl
shape-codes_of (g ∷ []) rest (here, below) = shape-numeral g rest here
shape-codes_of (g ∷ h ∷ gs) rest (here, below) =
    rw
      (
        codes_of-cons g h gs,
        append_assoc (codes (numeral 16 g)) (b':' ∷ codes_of (h ∷ gs)) (b':' ∷ rest),
      )
      (shape-numeral g (codes_of (h ∷ gs) ++ b':' ∷ rest) here)

-- The text has a colon before any dot, and no zone.
abbrev pub HasColons : List ℕ → Type 0
HasColons cs = (shape cs ≡ colons) × HasNoZone cs

joined-HasColons :
    (g h : ℕ) (gs : List ℕ) → AreGroups (g ∷ h ∷ gs) → HasColons (codes_of (g ∷ h ∷ gs))
joined-HasColons g h gs (here, below) = (
  rw (codes_of-cons g h gs) (shape-numeral g (codes_of (h ∷ gs)) here),
  codes_of-HasNoZone (g ∷ h ∷ gs) (here, below),
)

compressed-HasColons :
    (gs : List ℕ) → AreGroups gs → ltb (longest gs) 2 ≡ false → HasColons (codes (groups_text gs))
unfolding groups_text
compressed-HasColons gs below long =
    let some_zeros : 0 < longest gs = ground arith in
    let x = compress-IsCompressed (longest gs) [] gs refl some_zeros in
    let (first, second) =
      All-append x.before (prepend_zeros (longest gs) x.behind) (rw x.split at below) in
    let later = zeros-AreGroups (longest gs) x.behind second in
    rw (long, x.printed, codes-double x.before x.behind)
      (
        shape-codes_of x.before (b':' ∷ tail_of x.behind) first,
        HasNoZone-append (codes_of x.before) (b':' ∷ b':' ∷ tail_of x.behind)
            (codes_of-HasNoZone x.before first) (refl, (refl, tail_of-HasNoZone x.behind later)),
      )

pub groups_text-HasColons :
    (gs : List ℕ) → AreGroups gs → length gs ≡ 8 → HasColons (codes (groups_text gs))
unfolding groups_text codes_of
groups_text-HasColons [] below eight = absurd (omega arith)
groups_text-HasColons (g ∷ []) below eight = absurd (omega arith)
groups_text-HasColons (g ∷ h ∷ gs) below eight = elim (Bool-cases (ltb (longest (g ∷ h ∷ gs)) 2)) [
  | inl short ↦ rw short (joined-HasColons g h gs below)
  | inr long ↦ compressed-HasColons (g ∷ h ∷ gs) below long
]
