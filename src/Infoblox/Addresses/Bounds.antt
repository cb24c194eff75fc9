-- ===== src/Infoblox/Addresses/Bounds.antt =====
-- `GetOrAllocateAddress` returns addresses that were read from texts, which bounds their numbers.
use cluster_api_ipam_provide.Common.{
  ◌≡◌, String, List, [], ◌∷◌, arith, some, returns, inl, inr, Option-cases, Bool-cases,
}
use cluster_api_ipam_provide.Netip.{Addr, Prefix, contains}
use cluster_api_ipam_provide.Netip.Bounds.{Fits, parse_addr-Fits}
use cluster_api_ipam_provide.Infoblox.Wapi.{HostRecordAddr, HostRecord, Wapi}
use cluster_api_ipam_provide.Infoblox.Records.{
  entry_addr, first_in, get_allocated_host_record_addr_in_subnet,
}
use cluster_api_ipam_provide.Infoblox.Addresses.{get_or_allocate_address}

entry_addr-Fits : (ip : HostRecordAddr) (a : Addr) → entry_addr ip ≡ some a → Fits a
unfolding entry_addr
entry_addr-Fits ip a e = elim (Option-cases ip.address) [
  | inl nothing ↦ absurd (ground arith)
  | inr (s, there) ↦ parse_addr-Fits s a (ground arith)
]

first_in-Fits : (subnet : Prefix) (ips : List HostRecordAddr) → Fits (first_in subnet ips)
unfolding first_in
first_in-Fits subnet [] = tt
first_in-Fits subnet (ip ∷ ips) = elim (Option-cases (entry_addr ip)) [
  | inl nothing ↦ rw (first_in, nothing) (first_in-Fits subnet ips)
  | inr (a, there) ↦ elim (Bool-cases (contains subnet a)) [
    | inl inside ↦ rw (first_in, there, inside) (entry_addr-Fits ip a there)
    | inr outside ↦ rw (first_in, there, outside) (first_in-Fits subnet ips)
  ]
]

found-Fits :
    (hr : HostRecord) (subnet : Prefix) → Fits (get_allocated_host_record_addr_in_subnet hr subnet)
unfolding get_allocated_host_record_addr_in_subnet
found-Fits hr subnet = first_in-Fits subnet _

module _ {S : Type 0} (wapi : Wapi S) (network_view dns_view : String) (subnet : Prefix)
    (hostname dns_zone : String) where
  pub get_or_allocate_address-Fits :
      (s s' : S) (a : Addr)
      → get_or_allocate_address wapi network_view dns_view subnet hostname dns_zone s ≡ returns a s'
      → Fits a
  unfolding get_or_allocate_address
  get_or_allocate_address-Fits s s' a h = grind (arith, found-Fits)
