-- ===== src/Infoblox/Leases/AtMostOne.antt =====
-- That a host holds at most one address in a subnet is kept by calls for that subnet, and by calls
-- for subnets that have no address in common with it.
use mathlib.Core.List.{Memᴰ, append-nil}
use cluster_api_ipam_provide.Common.{
  ◌≡◌, refl, String, Bool, true, false, List, [], ◌∷◌, ◌++◌, arith, Bool-cases, inl, inr, ◌⊎◌,
}
use cluster_api_ipam_provide.Netip.{Addr, invalid, Prefix, is4, contains}
use cluster_api_ipam_provide.Infoblox.Leases.{Leases, held, forget}
use cluster_api_ipam_provide.Infoblox.Leases.Entries.{of_both}
use cluster_api_ipam_provide.Infoblox.Leases.Cycle.{forget-added, contains-invalid}
use cluster_api_ipam_provide.Infoblox.Leases.Changes.{
  AtMostOne, Changes, kept, grows, drops, same_or_not, other_addresses,
}

-- No address lies in both subnets.
abbrev pub Apart : Prefix → Prefix → Type 0
Apart p q = (a : Addr) → contains p a ≡ true → contains q a ≡ false

forget-none : (p : Prefix) (l : List Addr) → held p l ≡ invalid → forget p l ≡ l
unfolding held forget
forget-none p [] h = refl
forget-none p (a ∷ l) h = elim (Bool-cases (contains p a)) [
  | inl here ↦
      let is_invalid : a ≡ invalid = ground arith in
      absurd (ground (arith, contains-invalid p a is_invalid here))
  | inr apart ↦ ground (arith, forget-none p l)
]

held-append_outside :
    (q : Prefix) (l : List Addr) (a : Addr) → contains q a ≡ false → held q (l ++ a ∷ []) ≡ held q l
unfolding held
held-append_outside q [] a h = ground arith
held-append_outside q (b ∷ l) a h = ground (arith, held-append_outside q l a h)

held-forget-append_outside :
    (q : Prefix) (l : List Addr) (a : Addr)
    → contains q a ≡ false
    → held q (forget q (l ++ a ∷ [])) ≡ held q (forget q l)
unfolding held forget
held-forget-append_outside q [] a h = ground arith
held-forget-append_outside q (b ∷ l) a h = elim (Bool-cases (contains q b)) [
  | inl here ↦ rw here (held-append_outside q l a h)
  | inr apart ↦ rw (apart, apart) (held-forget-append_outside q l a h)
]

held-forget_outside : (p q : Prefix) (l : List Addr) → Apart p q → held q (forget p l) ≡ held q l
unfolding held forget
held-forget_outside p q [] d = refl
held-forget_outside p q (b ∷ l) d = elim (Bool-cases (contains p b)) [
  | inl here ↦ let not_q = d b here in rw (here, not_q) refl
  | inr other ↦ ground (arith, held-forget_outside p q l d)
]

held-forget-forget :
    (p q : Prefix) (l : List Addr)
    → Apart p q
    → held q (forget q (forget p l)) ≡ held q (forget q l)
unfolding held forget
held-forget-forget p q [] d = refl
held-forget-forget p q (b ∷ l) d = elim (Bool-cases (contains p b)) [
  | inl here ↦ let not_q = d b here in ground arith
  | inr other ↦ elim (Bool-cases (contains q b)) [
    | inl in_q ↦ ground (arith, held-forget_outside p q l d)
    | inr not_q ↦ ground (arith, held-forget-forget p q l d)
  ]
]

-- The lists that a call makes, for the subnet of the call and for one apart from it.
HoldsOne : Prefix → List Addr → Type 0
HoldsOne q l = held q (forget q l) ≡ invalid

grown-HoldsOne_self :
    (p : Prefix) (l extra : List Addr)
    → (extra ≡ []) ⊎ ((a : Addr) × (extra ≡ a ∷ []))
    → ((a : Addr) → Memᴰ a extra → contains p a ≡ true)
    → held p l ≡ invalid
    → HoldsOne p l
    → HoldsOne p (l ++ extra)
unfolding HoldsOne
grown-HoldsOne_self p l extra short inside room h = elim short [
  | inl none_added ↦ rw (none_added, append-nil l) h
  | inr (a, one_added) ↦
      let a_inside = inside a (rw one_added (Memᴰ.head refl)) in
      rw (one_added, forget-added p l a room a_inside) room
]

grown-HoldsOne :
    (p q : Prefix) (l extra : List Addr)
    → (extra ≡ []) ⊎ ((a : Addr) × (extra ≡ a ∷ []))
    → ((a : Addr) → Memᴰ a extra → contains p a ≡ true)
    → Apart p q
    → HoldsOne q l
    → HoldsOne q (l ++ extra)
unfolding HoldsOne
grown-HoldsOne p q l extra short inside d h = elim short [
  | inl none_added ↦ rw (none_added, append-nil l) h
  | inr (a, one_added) ↦
      let outside = d a (inside a (rw one_added (Memᴰ.head refl))) in
      rw (one_added, held-forget-append_outside q l a outside) h
]

forget-HoldsOne_self : (p : Prefix) (l : List Addr) → HoldsOne p l → HoldsOne p (forget p l)
unfolding HoldsOne
forget-HoldsOne_self p l h = rw (forget-none p (forget p l) h) h

forget-HoldsOne :
    (p q : Prefix) (l : List Addr) → Apart p q → HoldsOne q l → HoldsOne q (forget p l)
unfolding HoldsOne
forget-HoldsOne p q l d h = rw (held-forget-forget p q l d) h

-- What a call for `p` does to a host's list of a family, as far as `q` is concerned.
own_HoldsOne :
    (before after : Leases) (host : String) (p q : Prefix) (family : Bool)
    → (p ≡ q) ⊎ Apart p q
    → Changes before after host p
    → HoldsOne q (before host family)
    → HoldsOne q (after host family)
own_HoldsOne before after host p q family either (kept same) h = rw (same host) h
own_HoldsOne before after host p q family either (grows g) h =
    of_both (λ f. HoldsOne q (before host f) → HoldsOne q (after host f)) (is4 p.addr) family
      (
        (λ h'. rw g.grown (elim either [
          | inl e ↦ rw (← e) (
              grown-HoldsOne_self p (before host (is4 p.addr)) g.extra g.short g.inside g.room
                (rw (← e) at h'))
          | inr d ↦ grown-HoldsOne p q (before host (is4 p.addr)) g.extra g.short g.inside d h'
        ])),
        λ h'. rw g.family h',
      )
      h
own_HoldsOne before after host p q family either (drops r) h =
    of_both (λ f. HoldsOne q (before host f) → HoldsOne q (after host f)) (is4 p.addr) family
      (
        (λ h'. rw r.dropped (elim either [
          | inl e ↦ rw (← e) (forget-HoldsOne_self p (before host (is4 p.addr)) (rw (← e) at h'))
          | inr d ↦ forget-HoldsOne p q (before host (is4 p.addr)) d h'
        ])),
        λ h'. rw r.family h',
      )
      h

-- A call for a subnet keeps each host to one address in it, and in the subnets apart from it.
pub Changes-AtMostOne :
    (before after : Leases) (host : String) (p q : Prefix)
    → (p ≡ q) ⊎ Apart p q
    → Changes before after host p
    → AtMostOne q before
    → AtMostOne q after
unfolding HoldsOne
Changes-AtMostOne before after host p q either c one other = elim (same_or_not host other) [
  | inl e ↦ rw e (own_HoldsOne before after host p q (is4 q.addr) either c (one host))
  | inr n ↦ rw (other_addresses before after host other p c n) (one other)
]
