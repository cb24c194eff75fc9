-- ===== src/Infoblox/Leases/Changes.antt =====
-- What one call does to the addresses of the hosts, and the invariants that this keeps.
use mathlib.Core.List.{Memᴰ}
use text.Mathlib.TextEquality.{eq_iff}
use cluster_api_ipam_provide.Common.{
  ◌≡◌, ◌≢◌, sym, ◌∙◌, String, Bool, true, not, List, [], ◌∷◌, ◌++◌, arith, Bool-cases, inl, inr,
  ◌==◌, string_eq, ◌⊎◌,
}
use cluster_api_ipam_provide.Netip.{Addr, invalid, Prefix, is4, contains}
use cluster_api_ipam_provide.Infoblox.Leases.{Leases, IsRelease, held, forget}
use cluster_api_ipam_provide.Infoblox.Leases.Entries.{of_both}

-- No two hosts hold one address.
abbrev pub IsUnique : Leases → Type 0
IsUnique l =
    (a : Addr) (family : Bool) (host other : String)
    → Memᴰ a (l host family)
    → Memᴰ a (l other family)
    → host ≡ other

-- No host holds two addresses in the subnet.
abbrev pub AtMostOne : Prefix → Leases → Type 0
AtMostOne subnet l =
    (host : String) → held subnet (forget subnet (l host (is4 subnet.addr))) ≡ invalid

-- A host that held no address in the subnet has been given at most one, which lies in the subnet and
-- which no host held. No other host is concerned.
pub record Grows (before after : Leases) (host : String) (subnet : Prefix) : Type 0 where
  pub extra : List Addr
  pub short : (extra ≡ []) ⊎ ((a : Addr) × (extra ≡ a ∷ []))
  pub room : held subnet (before host (is4 subnet.addr)) ≡ invalid
  pub grown : after host (is4 subnet.addr) ≡ before host (is4 subnet.addr) ++ extra
  pub family : after host (not (is4 subnet.addr)) ≡ before host (not (is4 subnet.addr))
  pub inside : (a : Addr) → Memᴰ a extra → contains subnet a ≡ true
  pub free :
      (a : Addr) (other : String) → Memᴰ a extra → Memᴰ a (before other (is4 subnet.addr)) → ⊥
  pub others : (other : String) → other ≢ host → after other ≡ before other

-- What one call for a host does: nothing, or it gives an address to the host, or it drops one.
pub data Changes (before after : Leases) (host : String) (subnet : Prefix) : Type 0 where
  kept : ((other : String) → after other ≡ before other) → Changes before after host subnet
  grows : Grows before after host subnet → Changes before after host subnet
  drops : IsRelease before after host subnet → Changes before after host subnet

-- The same host, or another one.
pub same_or_not : (host other : String) → (other ≡ host) ⊎ (other ≢ host)
same_or_not host other = elim (Bool-cases (other == host)) [
  | inl same ↦ inl ((eq_iff other host).0 same)
  | inr apart ↦ inr (λ e. ground (arith, eq_iff other host))
]

Memᴰ-append : (a : Addr) (xs ys : List Addr) → Memᴰ a (xs ++ ys) → Memᴰ a xs ⊎ Memᴰ a ys
Memᴰ-append a [] ys m = inr m
Memᴰ-append a (x ∷ xs) ys (Memᴰ.head e) = inl (Memᴰ.head e)
Memᴰ-append a (x ∷ xs) ys (Memᴰ.tail m) = elim (Memᴰ-append a xs ys m) [
  | inl front ↦ inl (Memᴰ.tail front)
  | inr back ↦ inr back
]

Memᴰ-cons :
    (a b : Addr) (l l' : List Addr) → (Memᴰ a l → Memᴰ a l') → Memᴰ a (b ∷ l) → Memᴰ a (b ∷ l')
Memᴰ-cons a b l l' f (Memᴰ.head e) = Memᴰ.head e
Memᴰ-cons a b l l' f (Memᴰ.tail m) = Memᴰ.tail (f m)

Memᴰ-forget : (a : Addr) (subnet : Prefix) (l : List Addr) → Memᴰ a (forget subnet l) → Memᴰ a l
unfolding forget
Memᴰ-forget a subnet [] m = m
Memᴰ-forget a subnet (b ∷ l) m = elim (Bool-cases (contains subnet b)) [
  | inl here ↦ Memᴰ.tail (rw here at m)
  | inr apart ↦ Memᴰ-cons a b (forget subnet l) l (Memᴰ-forget a subnet l) (rw apart at m)
]

-- No host holds the address.
abbrev IsFree : Leases → Bool → Addr → Type 0
IsFree l family a = (host : String) → Memᴰ a (l host family) → ⊥

-- What a host holds after a call for it, it held before, or it was free.
own_addresses :
    (before after : Leases) (host : String) (subnet : Prefix) (a : Addr) (family : Bool)
    → Changes before after host subnet
    → Memᴰ a (after host family)
    → Memᴰ a (before host family) ⊎ IsFree before family a
own_addresses before after host subnet a family (kept same) m = inl (rw (same host) at m)
own_addresses before after host subnet a family (grows g) m =
    of_both (λ f. Memᴰ a (after host f) → Memᴰ a (before host f) ⊎ IsFree before f a)
      (is4 subnet.addr) family
      (
        (λ m'. elim (Memᴰ-append a (before host (is4 subnet.addr)) g.extra (rw g.grown at m')) [
          | inl old ↦ inl old
          | inr new ↦ inr (λ other. g.free a other new)
        ]),
        λ m'. inl (rw g.family at m'),
      )
      m
own_addresses before after host subnet a family (drops r) m =
    of_both (λ f. Memᴰ a (after host f) → Memᴰ a (before host f) ⊎ IsFree before f a)
      (is4 subnet.addr) family
      (
        (λ m'. inl (Memᴰ-forget a subnet (before host (is4 subnet.addr)) (rw r.dropped at m'))),
        λ m'. inl (rw r.family at m'),
      )
      m

pub other_addresses :
    (before after : Leases) (host other : String) (subnet : Prefix)
    → Changes before after host subnet
    → other ≢ host
    → after other ≡ before other
other_addresses before after host other subnet (kept same) apart = same other
other_addresses before after host other subnet (grows g) apart = g.others other apart
other_addresses before after host other subnet (drops r) apart = r.others other apart

-- One call keeps the addresses apart.
pub Changes-IsUnique :
    (before after : Leases) (host : String) (subnet : Prefix)
    → Changes before after host subnet
    → IsUnique before
    → IsUnique after
Changes-IsUnique before after host subnet c u a family one two m₁ m₂ = elim (same_or_not host one) [
  | inl e₁ ↦ elim (same_or_not host two) [
    | inl e₂ ↦ e₁ ∙ sym e₂
    | inr n₂ ↦ given one two e₁ n₂ m₁ m₂
  ]
  | inr n₁ ↦ elim (same_or_not host two) [
    | inl e₂ ↦ sym (given two one e₂ n₁ m₂ m₁)
    | inr n₂ ↦
        u a family one two (rw (other_addresses before after host one subnet c n₁) at m₁)
          (rw (other_addresses before after host two subnet c n₂) at m₂)
  ]
]
  where
    given :
        (p q : String)
        → p ≡ host
        → q ≢ host
        → Memᴰ a (after p family)
        → Memᴰ a (after q family)
        → p ≡ q
    given p q e n m m' =
        let there : Memᴰ a (before q family) =
          rw (other_addresses before after host q subnet c n) at m' in
        elim (own_addresses before after host subnet a family c (rw e at m)) [
          | inl old ↦ e ∙ u a family host q old there
          | inr free ↦ absurd (free q there)
        ]
