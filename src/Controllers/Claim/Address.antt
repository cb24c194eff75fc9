-- ===== src/Controllers/Claim/Address.antt =====
-- `EnsureAddress`: which address a claim is given, and what the claim says afterwards.
use cluster_api_ipam_provide.Common.{
  ◌≡◌, ap, ◌∙◌, String, List, [], ◌∷◌, ◌++◌, some, arith, returns, fails, Error, text, inl, inr,
  ◌⊎◌, Outcome-cases, true,
}
use cluster_api_ipam_provide.Netip.{Addr, Prefix, contains}
use cluster_api_ipam_provide.Netip.Parse.{parse_prefix}
use cluster_api_ipam_provide.Netip.Print.{addr_text}
use cluster_api_ipam_provide.Infoblox.Config.{HostConfig}
use cluster_api_ipam_provide.Infoblox.Wapi.{Wapi}
use cluster_api_ipam_provide.Infoblox.Client.{Client, client_over}
use cluster_api_ipam_provide.Infoblox.Addresses.Allocate.{get_or_allocate_address-contains}
use cluster_api_ipam_provide.Api.{Subnet, InfobloxIpPool, IpAddress}
use cluster_api_ipam_provide.Kube.{Kube}
use cluster_api_ipam_provide.Hostname.{SortFunc}
use cluster_api_ipam_provide.Controllers.Pool.{dns_view_of}
use cluster_api_ipam_provide.Controllers.Claim.{ensure_address, ensure_hostname}
use cluster_api_ipam_provide.Controllers.Handler.{Handler, annotated}
use cluster_api_ipam_provide.Controllers.Claim.Names.{ensure_hostname-annotates}
use cluster_api_ipam_provide.Controllers.Claim.Ensure.{
  CameFrom, made_ready, made_unready, allocate_from-CameFrom, allocate_from-made_unready,
}

-- The object names an address that lies in one of the subnets, with the length of that subnet's
-- prefix and with its gateway.
pub record IsInOneOf (subs : List Subnet) (result : IpAddress) : Type 0 where
  pub sub : Subnet
  pub before : List Subnet
  pub later : List Subnet
  pub listed : subs ≡ before ++ sub ∷ later
  pub subnet : Prefix
  pub parsed : parse_prefix sub.cidr ≡ some subnet
  pub allocated : Addr
  pub inside : contains subnet allocated ≡ true
  pub address : result.address ≡ addr_text allocated
  pub prefix : result.prefix ≡ some subnet.bits
  pub gateway : result.gateway ≡ sub.gateway

module _ {S : Type 0} (kube : Kube S) (sort_func : SortFunc) (address : IpAddress) where
  -- A success of `EnsureAddress` comes from the first subnet of the pool that yields an address: every
  -- subnet before it cannot be parsed, or its request to the client failed. The address object is
  -- filled in from that subnet and from what the client returned for it, for the hostname that is
  -- then annotated on the claim, and the claim is ready. The world is as that request left it.
  pub ensure_address-CameFrom :
      (w w' : S × Handler S) (pool : InfobloxIpPool) (ib : Client S) (result : IpAddress)
      → w.1.pool ≡ some pool
      → w.1.ib_client ≡ some ib
      → ensure_address kube sort_func address w ≡ returns result w'
      → (name : String) × (c : CameFrom pool name address ib pool.spec.subnets result) × (w'.0
          ≡ c.to)
        × (w'.1 ≡ made_ready kube (annotated name w.1))
  unfolding ensure_address
  ensure_address-CameFrom w w' pool ib result has_pool has_ib h =
      elim (Outcome-cases (ensure_hostname kube sort_func w)) [
        | inl (name, w₁, e) ↦
            let kept = ensure_hostname-annotates kube sort_func w w₁ name e in
            let (c, at, same) =
              allocate_from-CameFrom kube sort_func pool name address ib [] pool.spec.subnets w₁ w'
                result (ground arith) (ground arith) in
            (name, c, at, same ∙ ap (made_ready kube) kept)
        | inr other ↦ absurd (ground arith)
      ]

  -- If the client of the handler is one that `NewClient` makes, whatever server stands behind it, an
  -- address object that `EnsureAddress` fills in names an address inside a subnet of the pool, with
  -- that subnet's prefix length and gateway; all else of the object is as it was. The claim is then
  -- ready with its hostname annotated, and the handler is otherwise unchanged.
  pub ensure_address-IsInOneOf :
      (w w' : S × Handler S) (pool : InfobloxIpPool) (wapi : Wapi S) (hc : HostConfig)
      (result : IpAddress)
      → w.1.pool ≡ some pool
      → w.1.ib_client ≡ some (client_over wapi hc)
      → ensure_address kube sort_func address w ≡ returns result w'
      → IsInOneOf pool.spec.subnets result
        × (result.pool_ref ≡ address.pool_ref)
        × (result.api_version ≡ address.api_version)
        × ((name : String) × (w'.1 ≡ made_ready kube (annotated name w.1)))
  ensure_address-IsInOneOf w w' pool wapi hc result has_pool has_ib h =
      let (name, c, at, same) =
        ensure_address-CameFrom w w' pool (client_over wapi hc) result has_pool has_ib h in
      (
        record {
          sub = c.sub;
          before = c.before;
          later = c.later;
          listed = c.listed;
          subnet = c.subnet;
          parsed = c.parsed;
          allocated = c.allocated;
          inside =
              get_or_allocate_address-contains wapi pool.spec.network_view
                (dns_view_of pool (client_over wapi hc)) c.subnet name pool.spec.dns_zone c.from
                c.to c.allocated c.given;
          address = ap (λ (r : IpAddress). r.address) c.filled;
          prefix = ap (λ (r : IpAddress). r.prefix) c.filled;
          gateway = ap (λ (r : IpAddress). r.gateway) c.filled;
        },
        ap (λ (r : IpAddress). r.pool_ref) c.filled,
        ap (λ (r : IpAddress). r.api_version) c.filled,
        (name, same),
      )

  -- If `EnsureAddress` fails, either the hostname could not be ensured, with the same error, or the
  -- claim is marked as not ready with the error's text as its message.
  pub ensure_address-fails :
      (w w' : S × Handler S) (pool : InfobloxIpPool) (ib : Client S) (e : Error)
      → w.1.pool ≡ some pool
      → w.1.ib_client ≡ some ib
      → ensure_address kube sort_func address w ≡ fails e w'
      → (ensure_hostname kube sort_func w ≡ fails e w')
        ⊎ ((name : String) × (w'.1 ≡ made_unready kube (text e) (annotated name w.1)))
  unfolding ensure_address
  ensure_address-fails w w' pool ib e has_pool has_ib h =
      elim (Outcome-cases (ensure_hostname kube sort_func w)) [
        | inl (name, w₁, named) ↦
            let kept = ensure_hostname-annotates kube sort_func w w₁ name named in
            inr (
              name,
              allocate_from-made_unready kube sort_func pool name address ib [] pool.spec.subnets w₁
                    w' e (ground arith) (ground arith)
                  ∙ ap (made_unready kube (text e)) kept,
            )
        | inr (inl (e₁, w₁, failed)) ↦ inl (ground arith)
        | inr (inr (w₁, crashed)) ↦ absurd (ground arith)
      ]
