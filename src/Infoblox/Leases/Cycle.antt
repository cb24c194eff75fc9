-- ===== src/Infoblox/Leases/Cycle.antt =====
-- A release after an allocation.
use text.Mathlib.TextEquality.{eq_iff}
use cluster_api_ipam_provide.Common.{
  ◌≡◌, ◌≢◌, sym, ap, ◌∙◌, String, Bool, true, false, List, [], ◌∷◌, ◌++◌, arith, returns,
  Bool-cases, inl, inr, ◌==◌, string_eq,
}
use cluster_api_ipam_provide.Netip.{Addr, invalid, Prefix, is4, contains}
use cluster_api_ipam_provide.Infoblox.Wapi.{Wapi}
use cluster_api_ipam_provide.Infoblox.Addresses.{get_or_allocate_address, release_address}
use cluster_api_ipam_provide.Infoblox.Leases.{
  Leases, IsAllocation, IsRelease, held, forget, leases_in,
}
use cluster_api_ipam_provide.Infoblox.Leases.Entries.{of_both}
use cluster_api_ipam_provide.Infoblox.Leases.Book.{Book}
use cluster_api_ipam_provide.Infoblox.Leases.Allocation.{get_or_allocate_address-IsAllocation}
use cluster_api_ipam_provide.Infoblox.Leases.Release.{release_address-IsRelease}

pub contains-invalid :
    (subnet : Prefix) (a : Addr) → a ≡ invalid → contains subnet a ≡ true → true ≡ false
unfolding contains
contains-invalid subnet a e inside = ground arith

-- An address that was added to none in the subnet is the one that is forgotten.
pub forget-added :
    (subnet : Prefix) (l : List Addr) (a : Addr)
    → held subnet l ≡ invalid
    → contains subnet a ≡ true
    → forget subnet (l ++ a ∷ []) ≡ l
unfolding held forget
forget-added subnet [] a nothing inside = ground arith
forget-added subnet (b ∷ l) a nothing inside = elim (Bool-cases (contains subnet b)) [
  | inl here ↦
      let b_invalid : b ≡ invalid = ground arith in
      absurd (ground (arith, contains-invalid subnet b b_invalid here))
  | inr apart ↦ ground (arith, forget-added subnet l a)
]

-- In the abstract view, a release undoes an allocation.
release-allocation :
    (before between after : Leases) (host : String) (subnet : Prefix) (a : Addr)
    → held subnet (before host (is4 subnet.addr)) ≡ invalid
    → IsAllocation before between host subnet a
    → IsRelease between after host subnet
    → (other : String) (family : Bool) → after other family ≡ before other family
release-allocation before between after host subnet a nothing given taken other family =
    elim (Bool-cases (other == host)) [
      | inr apart ↦
          let ne : other ≢ host = (λ e. ground (arith, eq_iff other host)) in
          ap (λ l. l family) (taken.others other ne) ∙ ap (λ l. l family) (given.others other ne)
      | inl same ↦
          let e : other ≡ host = (eq_iff other host).0 same in
          rw e (elim given.change [
            | inl (known, unchanged) ↦
                absurd
                  (ground (arith, contains-invalid subnet a (sym known ∙ nothing) given.inside))
            | inr (none_there, added, kept) ↦
                of_both (λ f. after host f ≡ before host f) (is4 subnet.addr) family
                  (
                    (taken.dropped
                        ∙ (ap (forget subnet) added
                            ∙ forget-added subnet (before host (is4 subnet.addr)) a nothing
                                given.inside)),
                    taken.family ∙ kept,
                  )
          ])
    ]

module _ {S : Type 0} (wapi : Wapi S) (network_view dns_view : String) (subnet : Prefix)
    (hostname dns_zone : String) where
  -- Against a server that keeps book of its hosts, where the host holds no address in the subnet: an
  -- allocation for it and then a release leave every host, this one included, with the addresses
  -- that it held before.
  pub release_address-get_or_allocate_address :
      (s s₁ s₂ : S) (a : Addr)
      → Book wapi network_view
      → held subnet (leases_in wapi network_view s hostname (is4 subnet.addr)) ≡ invalid
      → get_or_allocate_address wapi network_view dns_view subnet hostname dns_zone s ≡ returns a s₁
      → release_address wapi network_view dns_view subnet hostname s₁ ≡ returns tt s₂
      → (host : String) (family : Bool)
      → leases_in wapi network_view s₂ host family ≡ leases_in wapi network_view s host family
  release_address-get_or_allocate_address s s₁ s₂ a b nothing allocated released =
      release-allocation (leases_in wapi network_view s) (leases_in wapi network_view s₁)
        (leases_in wapi network_view s₂) hostname subnet a nothing
        (get_or_allocate_address-IsAllocation wapi network_view dns_view subnet hostname dns_zone s
          s₁ a b allocated)
        (release_address-IsRelease wapi network_view dns_view subnet hostname s₁ s₂ b released)
