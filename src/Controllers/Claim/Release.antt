-- ===== src/Controllers/Claim/Release.antt =====
-- `ReleaseAddress` of the claim handler.
use cluster_api_ipam_provide.Common.{
  ◌≡◌, refl, String, List, [], ◌∷◌, some, none, arith, returns, fails, panics, Error, inl, inr,
  Option-cases, Outcome-cases, Action, is_empty, false,
}
use cluster_api_ipam_provide.Netip.{Prefix}
use cluster_api_ipam_provide.Netip.Parse.{parse_prefix}
use cluster_api_ipam_provide.Infoblox.Config.{HostConfig}
use cluster_api_ipam_provide.Infoblox.Wapi.{Wapi}
use cluster_api_ipam_provide.Infoblox.Records.{get_or_new_host_record}
use cluster_api_ipam_provide.Infoblox.Addresses.{remove_entry}
use cluster_api_ipam_provide.Infoblox.Addresses as Addresses
use cluster_api_ipam_provide.Infoblox.Client.{client_over}
use cluster_api_ipam_provide.Api.{Subnet, InfobloxIpPool}
use cluster_api_ipam_provide.Kube.{Kube}
use cluster_api_ipam_provide.Controllers.Pool.{dns_view_of}
use cluster_api_ipam_provide.Controllers.Claim.Names.{get_hostname-keeps}
use cluster_api_ipam_provide.Hostname.{SortFunc}
use cluster_api_ipam_provide.Controllers.Claim.{get_hostname, release_from, release_address}
use cluster_api_ipam_provide.Controllers.Handler.{Handler}

module _ {S : Type 0} (wapi : Wapi S) (network_view dns_view : String) (subnet : Prefix)
    (hostname : String) where
  -- Releasing an address ends with or without an error, but does not panic.
  release-no_panic :
      (s s' : S)
      → Addresses.release_address wapi network_view dns_view subnet hostname s ≡ panics s'
      → ⊥
  unfolding Addresses.release_address get_or_new_host_record
  release-no_panic s s' h = ground arith

module _ {S : Type 0} (wapi : Wapi S) (hc : HostConfig) (pool : InfobloxIpPool)
    (name : String) where
  -- The release in a subnet of the pool.
  abbrev pub request : Prefix → Action S (Unit {0})
  request subnet =
      (client_over wapi hc).release_address pool.spec.network_view
        (dns_view_of pool (client_over wapi hc)) subnet name

  -- A release was tried in each of the subnets, one after the other, but for those that cannot be
  -- parsed.
  pub data Tried : List Subnet → S → S → Type 0 where
    all_tried : {s : S} → Tried [] s s
    skipped :
        {sub : Subnet} {subs : List Subnet} {s s' : S}
        → parse_prefix sub.cidr ≡ none
        → Tried subs s s'
        → Tried (sub ∷ subs) s s'
    released :
        {sub : Subnet} {subs : List Subnet} {s s₁ s' : S} (subnet : Prefix)
        → parse_prefix sub.cidr ≡ some subnet
        → request subnet s ≡ returns tt s₁
        → Tried subs s₁ s'
        → Tried (sub ∷ subs) s s'
    failed :
        {sub : Subnet} {subs : List Subnet} {s s₁ s' : S} (subnet : Prefix) (e : Error)
        → parse_prefix sub.cidr ≡ some subnet
        → request subnet s ≡ fails e s₁
        → Tried subs s₁ s'
        → Tried (sub ∷ subs) s s'

module _ {S : Type 0} (kube : Kube S) (sort_func : SortFunc) where
  release_from_total :
      (wapi : Wapi S) (hc : HostConfig) (pool : InfobloxIpPool) (name : String) (subs : List Subnet)
      (w : S × Handler S)
      → w.1.ib_client ≡ some (client_over wapi hc)
      → (s' : S) × (release_from kube sort_func pool name subs w ≡ returns tt (s', w.1))
        × Tried wapi hc pool name subs w.0 s'
  unfolding release_from
  release_from_total wapi hc pool name [] w has_ib = (w.0, refl, all_tried)
  release_from_total wapi hc pool name (sub ∷ subs) w has_ib =
      elim (Option-cases (parse_prefix sub.cidr)) [
        | inl bad ↦
            let (s', e, tried) = release_from_total wapi hc pool name subs w has_ib in
            (s', ground arith, skipped bad tried)
        | inr (subnet, parsed) ↦ elim (Outcome-cases (request wapi hc pool name subnet w.0)) [
          | inl (u, s, done) ↦
              let (s', e, tried) = release_from_total wapi hc pool name subs (s, w.1) has_ib in
              (s', ground arith, released subnet parsed done tried)
          | inr (inl (e₁, s, lost)) ↦
              let (s', e, tried) = release_from_total wapi hc pool name subs (s, w.1) has_ib in
              (s', ground arith, failed subnet e₁ parsed lost tried)
          | inr (inr (s, crashed)) ↦ absurd (
              release-no_panic wapi pool.spec.network_view (dns_view_of pool (client_over wapi hc))
                subnet name w.0 s crashed)
        ]
      ]

  -- Behind a client of `NewClient`, the release of a claim's addresses ends with success whatever
  -- the server answers, once the hostname is known and the pool has a subnet. A release is tried in
  -- each of the pool's subnets that can be parsed, one after the other, from the state that the
  -- search for the hostname left: an error of one subnet does not keep the others from being tried.
  -- The handler is as it was.
  pub release_address_total :
      (w w₁ : S × Handler S) (pool : InfobloxIpPool) (wapi : Wapi S) (hc : HostConfig)
      (name : String)
      → w.1.pool ≡ some pool
      → w.1.ib_client ≡ some (client_over wapi hc)
      → is_empty pool.spec.subnets ≡ false
      → get_hostname kube sort_func w ≡ returns name w₁
      → (s' : S) × (release_address kube sort_func w ≡ returns tt (s', w.1))
        × Tried wapi hc pool name pool.spec.subnets w₁.0 s'
  unfolding release_address
  release_address_total w w₁ pool wapi hc name has_pool has_ib some_subnet named =
      let kept = get_hostname-keeps kube sort_func w w₁ name named in
      let (s', e, tried) =
        release_from_total wapi hc pool name pool.spec.subnets w₁ (ground arith) in
      (s', ground arith, tried)

  -- With no pool the call panics, for every claim: the test for a missing pool comes too late.
  pub release_address-nil_pool :
      (w : S × Handler S) → w.1.pool ≡ none → release_address kube sort_func w ≡ panics w
  unfolding release_address get_hostname
  release_address-nil_pool w no_pool = ground arith
