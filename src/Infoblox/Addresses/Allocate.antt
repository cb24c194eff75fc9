-- ===== src/Infoblox/Addresses/Allocate.antt =====
-- `GetOrAllocateAddress`: what it returns, and what it asks of the server on the way.
use cluster_api_ipam_provide.Common.{
  ◌≡◌, String, true, List, [], ◌∷◌, ◌++◌, arith, some, returns, ok,
}
use cluster_api_ipam_provide.Netip.{Addr, Prefix, contains}
use cluster_api_ipam_provide.Infoblox.Wapi.{HostRecordAddr, HostRecord, Wapi}
use cluster_api_ipam_provide.Infoblox.Records.{
  entry_addr, get_or_new_host_record, host_query, family_entries,
}
use cluster_api_ipam_provide.Infoblox.Records.Laws.{
  NoneIn, found_sound, found_first, contains-is_valid,
}
use cluster_api_ipam_provide.Infoblox.Addresses.{get_or_allocate_address}

module _ {S : Type 0} (wapi : Wapi S) (network_view dns_view : String) (subnet : Prefix)
    (hostname dns_zone : String) where
  -- Whatever the server answers, an address that is returned lies in the subnet that was asked for.
  pub get_or_allocate_address-contains :
      (s s' : S) (a : Addr)
      → get_or_allocate_address wapi network_view dns_view subnet hostname dns_zone s ≡ returns a s'
      → contains subnet a ≡ true
  unfolding get_or_allocate_address
  get_or_allocate_address-contains s s' a h = grind (arith, found_sound)

  -- If the server knows the host by one record, and an entry of that record lies in the subnet, the
  -- first such entry's address is returned, and after the search nothing is sent to the server.
  get_or_allocate_address-existing :
      (s s₁ : S) (hr : HostRecord) (before after : List HostRecordAddr) (ip : HostRecordAddr)
      (a : Addr)
      → wapi.find_host_records (host_query network_view hostname) s ≡ (ok (hr ∷ []), s₁)
      → family_entries hr subnet ≡ before ++ ip ∷ after
      → NoneIn subnet before
      → entry_addr ip ≡ some a
      → contains subnet a ≡ true
      → get_or_allocate_address wapi network_view dns_view subnet hostname dns_zone s ≡ returns a s₁
  unfolding get_or_allocate_address get_or_new_host_record
  get_or_allocate_address-existing s s₁ hr before after ip a found split ns e c =
      ground
        (arith, found_first hr subnet before after ip a split ns e c, contains-is_valid subnet a c)
