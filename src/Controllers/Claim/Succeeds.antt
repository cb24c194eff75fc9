-- ===== src/Controllers/Claim/Succeeds.antt =====
-- When `EnsureAddress` succeeds.
use cluster_api_ipam_provide.Common.{
  ◌↔◌, ◌≡◌, String, List, [], ◌∷◌, ◌++◌, some, none, arith, returns, fails, Error, inl, inr,
  Option-cases, Outcome-cases,
}
use cluster_api_ipam_provide.Netip.{Addr, Prefix}
use cluster_api_ipam_provide.Netip.Parse.{parse_prefix}
use cluster_api_ipam_provide.Infoblox.Client.{Client}
use cluster_api_ipam_provide.Api.{Subnet, InfobloxIpPool, IpAddress}
use cluster_api_ipam_provide.Kube.{Kube}
use cluster_api_ipam_provide.Hostname.{SortFunc}
use cluster_api_ipam_provide.Controllers.Claim.{ensure_hostname, allocate_from, ensure_address}
use cluster_api_ipam_provide.Controllers.Handler.{Handler, filled_in}
use cluster_api_ipam_provide.Controllers.Claim.Names.{ensure_hostname-annotates}
use cluster_api_ipam_provide.Controllers.Claim.Ensure.{request, made_ready}

module _ {S : Type 0} (pool : InfobloxIpPool) (name : String) (address : IpAddress)
    (ib : Client S) where
  -- The subnets are tried one after the other: those that cannot be parsed are skipped, a request
  -- that fails is followed by the next subnet, and the first that succeeds fills in the object.
  pub data Yields : List Subnet → S → IpAddress → S → Type 0 where
    given :
        {sub : Subnet} {subs : List Subnet} {s s' : S} {result : IpAddress} (subnet : Prefix)
        (a : Addr)
        → parse_prefix sub.cidr ≡ some subnet
        → request pool name address ib subnet s ≡ returns a s'
        → result ≡ filled_in address a subnet sub
        → Yields (sub ∷ subs) s result s'
    skipped :
        {sub : Subnet} {subs : List Subnet} {s s' : S} {result : IpAddress}
        → parse_prefix sub.cidr ≡ none
        → Yields subs s result s'
        → Yields (sub ∷ subs) s result s'
    failed :
        {sub : Subnet} {subs : List Subnet} {s s₁ s' : S} {result : IpAddress} (subnet : Prefix)
        (e : Error)
        → parse_prefix sub.cidr ≡ some subnet
        → request pool name address ib subnet s ≡ fails e s₁
        → Yields subs s₁ result s'
        → Yields (sub ∷ subs) s result s'

module _ {S : Type 0} (kube : Kube S) (sort_func : SortFunc) (pool : InfobloxIpPool) (name : String)
    (address : IpAddress) (ib : Client S) where
  allocate_from-Yields :
      (errs : List Error) (subs : List Subnet) (w w' : S × Handler S) (result : IpAddress)
      → w.1.ib_client ≡ some ib
      → allocate_from kube sort_func pool name address errs subs w ≡ returns result w'
      → Yields pool name address ib subs w.0 result w'.0 × (w'.1 ≡ made_ready kube w.1)
  unfolding allocate_from
  allocate_from-Yields errs [] w w' result has_ib h = absurd (ground arith)
  allocate_from-Yields errs (sub ∷ subs) w w' result has_ib h =
      elim (Option-cases (parse_prefix sub.cidr)) [
        | inl bad ↦
            let (y, ready) = allocate_from-Yields errs subs w w' result has_ib (ground arith) in
            (skipped bad y, ready)
        | inr (subnet, parsed) ↦ elim (Outcome-cases (request pool name address ib subnet w.0)) [
          | inl (a, s, sent) ↦
              let at : w'.0 ≡ s = ground arith in
              (rw at (given subnet a parsed sent (ground arith)), ground arith)
          | inr (inl (e, s, lost)) ↦
              let (y, ready) =
                allocate_from-Yields (errs ++ e ∷ []) subs (s, w.1) w' result has_ib
                  (ground arith) in
              (failed subnet e parsed lost y, ready)
          | inr (inr (s, crashed)) ↦ absurd (ground arith)
        ]
      ]

  Yields-allocate_from :
      (errs : List Error) (subs : List Subnet) (s s' : S) (h : Handler S) (result : IpAddress)
      → h.ib_client ≡ some ib
      → Yields pool name address ib subs s result s'
      → allocate_from kube sort_func pool name address errs subs (s, h)
        ≡ returns result (s', made_ready kube h)
  unfolding allocate_from
  Yields-allocate_from errs [] s s' h result has_ib y = elim y [ ]
  Yields-allocate_from errs (sub ∷ subs) s s' h result has_ib (given subnet a parsed sent filled) =
      ground arith
  Yields-allocate_from errs (sub ∷ subs) s s' h result has_ib (skipped bad y) =
      let rest = Yields-allocate_from errs subs s s' h result has_ib y in ground arith
  Yields-allocate_from errs (sub ∷ subs) s s' h result has_ib (failed {s₁} subnet e parsed lost y) =
      let rest = Yields-allocate_from (errs ++ e ∷ []) subs s₁ s' h result has_ib y in ground arith

module _ {S : Type 0} (kube : Kube S) (sort_func : SortFunc) (address : IpAddress) where
  -- For a handler with a pool and a client, `EnsureAddress` succeeds exactly if the hostname is
  -- ensured and one of the pool's subnets yields an address for it: the subnets are tried in their
  -- order from the state that the hostname left, those that cannot be parsed are skipped, an error
  -- of the client is followed by the next subnet, and the first address that the client returns is
  -- filled in, with the length and the gateway of its subnet. The claim is then ready.
  pub ensure_address_iff :
      (w w' : S × Handler S) (pool : InfobloxIpPool) (ib : Client S) (result : IpAddress)
      → w.1.pool ≡ some pool
      → w.1.ib_client ≡ some ib
      → (ensure_address kube sort_func address w ≡ returns result w') ↔ (
          (name : String) × (w₁ : S × Handler S) × (ensure_hostname kube sort_func w
            ≡ returns name w₁)
          × Yields pool name address ib pool.spec.subnets w₁.0 result w'.0
          × (w'.1 ≡ made_ready kube w₁.1))
  unfolding ensure_address
  ensure_address_iff w w' pool ib result has_pool has_ib = (
    (λ h. elim (Outcome-cases (ensure_hostname kube sort_func w)) [
      | inl (name, w₁, named) ↦
          let kept = ensure_hostname-annotates kube sort_func w w₁ name named in
          let (y, ready) =
            allocate_from-Yields kube sort_func pool name address ib [] pool.spec.subnets w₁ w'
              result (ground arith) (ground arith) in
          (name, w₁, named, y, ready)
      | inr other ↦ absurd (ground arith)
    ]),
    λ (name, w₁, named, y, ready).
        let kept = ensure_hostname-annotates kube sort_func w w₁ name named in
        let done =
          Yields-allocate_from kube sort_func pool name address ib [] pool.spec.subnets w₁.0 w'.0
            w₁.1 result (ground arith) y in
        ground arith,
  )
