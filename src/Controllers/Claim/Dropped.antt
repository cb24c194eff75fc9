-- ===== src/Controllers/Claim/Dropped.antt =====
-- `ReleaseAddress` of the claim handler, in the abstract view of the server.
use cluster_api_ipam_provide.Common.{
  ◌≡◌, String, List, [], ◌∷◌, some, none, returns, fails, Error, is_empty, false,
}
use cluster_api_ipam_provide.Netip.{Prefix}
use cluster_api_ipam_provide.Netip.Parse.{parse_prefix}
use cluster_api_ipam_provide.Infoblox.Config.{HostConfig}
use cluster_api_ipam_provide.Infoblox.Wapi.{Wapi}
use cluster_api_ipam_provide.Infoblox.Client.{client_over}
use cluster_api_ipam_provide.Infoblox.Leases.{IsRelease, leases_in}
use cluster_api_ipam_provide.Infoblox.Leases.Book.{Book}
use cluster_api_ipam_provide.Infoblox.Leases.Release.{release_address-IsRelease}
use cluster_api_ipam_provide.Api.{Subnet, InfobloxIpPool}
use cluster_api_ipam_provide.Kube.{Kube}
use cluster_api_ipam_provide.Hostname.{SortFunc}
use cluster_api_ipam_provide.Controllers.Pool.{dns_view_of}
use cluster_api_ipam_provide.Controllers.Claim.{get_hostname, release_address}
use cluster_api_ipam_provide.Controllers.Handler.{Handler}
use cluster_api_ipam_provide.Controllers.Claim.Release.{
  request, Tried, all_tried, skipped, released, failed, release_address_total,
}

module _ {S : Type 0} (wapi : Wapi S) (hc : HostConfig) (pool : InfobloxIpPool)
    (name : String) where
  -- For each of the subnets that can be parsed, one after the other, the host's first address in it
  -- was dropped, or the call for it failed.
  pub data Dropped : List Subnet → S → S → Type 0 where
    nothing_left : {s : S} → Dropped [] s s
    passed :
        {sub : Subnet} {subs : List Subnet} {s s' : S}
        → parse_prefix sub.cidr ≡ none
        → Dropped subs s s'
        → Dropped (sub ∷ subs) s s'
    dropped :
        {sub : Subnet} {subs : List Subnet} {s s₁ s' : S} (subnet : Prefix)
        → parse_prefix sub.cidr ≡ some subnet
        → IsRelease
            (leases_in wapi pool.spec.network_view s)
            (leases_in wapi pool.spec.network_view s₁)
            name
            subnet
        → Dropped subs s₁ s'
        → Dropped (sub ∷ subs) s s'
    left :
        {sub : Subnet} {subs : List Subnet} {s s₁ s' : S} (subnet : Prefix) (e : Error)
        → parse_prefix sub.cidr ≡ some subnet
        → request wapi hc pool name subnet s ≡ fails e s₁
        → Dropped subs s₁ s'
        → Dropped (sub ∷ subs) s s'

  Tried-Dropped :
      (subs : List Subnet) (s s' : S)
      → Book wapi pool.spec.network_view
      → Tried wapi hc pool name subs s s'
      → Dropped subs s s'
  Tried-Dropped subs s s' b all_tried = nothing_left
  Tried-Dropped (sub ∷ subs) s s' b (skipped bad rest) = passed bad (Tried-Dropped subs s s' b rest)
  Tried-Dropped (sub ∷ subs) s s' b (released {s₁} subnet parsed done rest) =
      dropped subnet parsed
        (release_address-IsRelease wapi pool.spec.network_view
          (dns_view_of pool (client_over wapi hc)) subnet name s s₁ b done)
        (Tried-Dropped subs s₁ s' b rest)
  Tried-Dropped (sub ∷ subs) s s' b (failed {s₁} subnet e parsed lost rest) =
      left subnet e parsed lost (Tried-Dropped subs s₁ s' b rest)

module _ {S : Type 0} (kube : Kube S) (sort_func : SortFunc) where
  -- Behind a client of `NewClient` for a server that keeps book of its hosts, once the hostname is
  -- known and the pool has a subnet, the release of a claim's addresses ends with success, and for
  -- each of the pool's subnets that can be parsed, one after the other: the hostname's first address
  -- in it, if there is one, is dropped, and no other address of any host is; or the call for that
  -- subnet failed.
  pub release_address-Dropped :
      (w w₁ : S × Handler S) (pool : InfobloxIpPool) (wapi : Wapi S) (hc : HostConfig)
      (name : String)
      → Book wapi pool.spec.network_view
      → w.1.pool ≡ some pool
      → w.1.ib_client ≡ some (client_over wapi hc)
      → is_empty pool.spec.subnets ≡ false
      → get_hostname kube sort_func w ≡ returns name w₁
      → (s' : S) × (release_address kube sort_func w ≡ returns tt (s', w.1))
        × Dropped wapi hc pool name pool.spec.subnets w₁.0 s'
  release_address-Dropped w w₁ pool wapi hc name b has_pool has_ib some_subnet named =
      let (s', e, tried) =
        release_address_total kube sort_func w w₁ pool wapi hc name has_pool has_ib some_subnet
          named in
      (s', e, Tried-Dropped wapi hc pool name pool.spec.subnets w₁.0 s' b tried)
