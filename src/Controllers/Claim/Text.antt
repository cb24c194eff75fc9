-- ===== src/Controllers/Claim/Text.antt =====
-- What the fields that `EnsureAddress` fills in say when they are read.
use text.Mathlib.TextEquality.{eq_iff}
use cluster_api_ipam_provide.Common.{
  ◌≡◌, ap, String, List, ◌∷◌, ◌++◌, some, arith, returns, ◌≤◌, true, ℕ,
}
use cluster_api_ipam_provide.Netip.{Addr, invalid, v4, v6, Prefix, contains, contains_addr}
use cluster_api_ipam_provide.Netip.Parse.{parse_addr, parse_prefix}
use cluster_api_ipam_provide.Netip.Print.{addr_text}
use cluster_api_ipam_provide.Netip.Bounds.{Fits, parse_prefix-bits}
use cluster_api_ipam_provide.Netip.RoundTrip.{parse_addr-addr_text}
use cluster_api_ipam_provide.Netip.Ipv6.{parse_addr-ipv6_text}
use cluster_api_ipam_provide.Infoblox.Config.{HostConfig}
use cluster_api_ipam_provide.Infoblox.Wapi.{Wapi}
use cluster_api_ipam_provide.Infoblox.Client.{Client, client_over}
use cluster_api_ipam_provide.Infoblox.Addresses.Allocate.{get_or_allocate_address-contains}
use cluster_api_ipam_provide.Infoblox.Addresses.Bounds.{get_or_allocate_address-Fits}
use cluster_api_ipam_provide.Api.{Subnet, InfobloxIpPool, IpAddress}
use cluster_api_ipam_provide.Kube.{Kube}
use cluster_api_ipam_provide.Hostname.{SortFunc}
use cluster_api_ipam_provide.Controllers.Pool.{dns_view_of}
use cluster_api_ipam_provide.Controllers.Claim.{ensure_address}
use cluster_api_ipam_provide.Controllers.Handler.{Handler}
use cluster_api_ipam_provide.Controllers.Claim.Address.{ensure_address-CameFrom}

-- The object's prefix length is that of a subnet, and the text of its address is read back as an
-- address in the subnet.
pub record IsReadable (subs : List Subnet) (result : IpAddress) : Type 0 where
  pub sub : Subnet
  pub before : List Subnet
  pub later : List Subnet
  pub listed : subs ≡ before ++ sub ∷ later
  pub subnet : Prefix
  pub parsed : parse_prefix sub.cidr ≡ some subnet
  pub prefix : result.prefix ≡ some subnet.bits
  pub allocated : Addr
  pub address : parse_addr result.address ≡ some allocated
  pub inside : contains subnet allocated ≡ true

-- An IPv6 address in a subnet has no zone.
zoneless :
    (p : Addr) (n : ℕ) (zone : String) (bits : ℕ)
    → contains_addr p bits (v6 n zone) ≡ true
    → zone ≡ ""
zoneless invalid n zone bits h = absurd (ground arith)
zoneless (v4 m) n zone bits h = absurd (ground arith)
zoneless (v6 m other) n zone bits h = (eq_iff zone "").0 (ground arith)

read-back :
    (subnet : Prefix) (a : Addr) (text : String)
    → contains subnet a ≡ true
    → Fits a
    → text ≡ addr_text a
    → parse_addr text ≡ some a
unfolding contains
read-back subnet (v4 n) text inside fits e = rw e (parse_addr-addr_text n fits)
read-back subnet invalid text inside fits e = absurd (ground arith)
read-back subnet (v6 n zone) text inside fits e =
    let no_zone : zone ≡ "" = zoneless subnet.addr n zone subnet.bits inside in
    rw (e, no_zone) (parse_addr-ipv6_text n fits)

module _ {S : Type 0} (kube : Kube S) (sort_func : SortFunc) (address : IpAddress) where
  -- If the client of the handler is one that `NewClient` makes, whatever server stands behind it, an
  -- address object that `EnsureAddress` fills in has the prefix length of a subnet of the pool, and
  -- the text of the object's address, of either family, can be parsed and gives an address in the
  -- subnet.
  pub ensure_address-IsReadable :
      (w w' : S × Handler S) (pool : InfobloxIpPool) (wapi : Wapi S) (hc : HostConfig)
      (result : IpAddress)
      → w.1.pool ≡ some pool
      → w.1.ib_client ≡ some (client_over wapi hc)
      → ensure_address kube sort_func address w ≡ returns result w'
      → IsReadable pool.spec.subnets result
  ensure_address-IsReadable w w' pool wapi hc result has_pool has_ib h =
      let (name, c, at, same) =
        ensure_address-CameFrom kube sort_func address w w' pool (client_over wapi hc) result
          has_pool has_ib h in
      let dns_view = dns_view_of pool (client_over wapi hc) in
      let inside =
        get_or_allocate_address-contains wapi pool.spec.network_view dns_view c.subnet name
          pool.spec.dns_zone c.from c.to c.allocated c.given in
      let fits =
        get_or_allocate_address-Fits wapi pool.spec.network_view dns_view c.subnet name
          pool.spec.dns_zone c.from c.to c.allocated c.given in
      record {
        sub = c.sub;
        before = c.before;
        later = c.later;
        listed = c.listed;
        subnet = c.subnet;
        parsed = c.parsed;
        prefix = ap (λ (r : IpAddress). r.prefix) c.filled;
        allocated = c.allocated;
        address =
            read-back c.subnet c.allocated result.address inside fits
              (ap (λ (r : IpAddress). r.address) c.filled);
        inside = inside;
      }

  -- Whatever the client, the prefix length that `EnsureAddress` writes is at most 128.
  pub ensure_address-bits :
      (w w' : S × Handler S) (pool : InfobloxIpPool) (ib : Client S) (result : IpAddress)
      → w.1.pool ≡ some pool
      → w.1.ib_client ≡ some ib
      → ensure_address kube sort_func address w ≡ returns result w'
      → (n : ℕ) × (result.prefix ≡ some n) × (n ≤ 128)
  ensure_address-bits w w' pool ib result has_pool has_ib h =
      let (name, c, at, same) =
        ensure_address-CameFrom kube sort_func address w w' pool ib result has_pool has_ib h in
      let short = parse_prefix-bits c.sub.cidr c.subnet c.parsed in
      let at_most : c.subnet.bits ≤ 128 = ground arith in
      (c.subnet.bits, ap (λ (r : IpAddress). r.prefix) c.filled, at_most)
