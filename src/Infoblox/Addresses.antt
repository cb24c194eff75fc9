-- ===== src/Infoblox/Addresses.antt =====
-- pkg/infoblox/addresses.go: allocating and releasing the address of a host in a subnet.
pub mod Again
pub mod Allocate
pub mod Bounds
pub mod Allocated
pub mod Release
pub mod Released
pub mod Converse
pub mod FirstEntry
pub mod WithoutFirst
pub mod Sent
pub mod Succeeds
pub mod Ended
pub mod Unreleased
use mathlib.Core.Option
use cluster_api_ipam_provide.Common.{
  String, Bool, false, ◌&&◌, Option, none, some, List, [], ◌∷◌, if◌then◌else◌, plain, wrap, Action,
  call, pure, throw, map_error, ◌>>=◌, ◌>>◌, elements, append_one, is_empty,
}
use cluster_api_ipam_provide.Netip.{Addr, is_valid, is4, Prefix}
use cluster_api_ipam_provide.Infoblox.Wapi.{HostRecordAddr, HostRecord, Wapi}
use cluster_api_ipam_provide.Infoblox.Records.{
  is_in, get_allocated_host_record_addr_in_subnet, next_available_ib_func, parse_error,
  prepare_host_record_for_update, get_or_new_host_record, create_or_update_host_record,
}

-- The loop of `ReleaseAddress`: drops the first entry in the subnet, if there is one.
unfoldable pub remove_first : Prefix → List HostRecordAddr → Option (List HostRecordAddr)
remove_first subnet [] = none
remove_first subnet (ip ∷ ips) =
    if is_in subnet ip then some ips else Option.map (λ rest. ip ∷ rest) (remove_first subnet ips)

-- The record without that entry; `none` if nothing was removed.
unfoldable pub remove_entry : HostRecord → Prefix → Option HostRecord
unfolding remove_first
remove_entry hr subnet =
    if is4 subnet.addr
    then Option.map (λ ips. record hr { ipv4_addrs = some ips })
        (remove_first subnet (elements hr.ipv4_addrs))
    else Option.map (λ ips. record hr { ipv6_addrs = some ips })
        (remove_first subnet (elements hr.ipv6_addrs))

abbrev pub has_no_entries : HostRecord → Bool
has_no_entries hr = is_empty (elements hr.ipv4_addrs) && is_empty (elements hr.ipv6_addrs)

module _ {S : Type 0} (wapi : Wapi S) where
  -- The record with an entry that asks the server for the next free address of the subnet.
  unfoldable pub with_request : HostRecord → Prefix → String → HostRecord
  with_request hr subnet network_view =
      let request = next_available_ib_func subnet network_view in
      if is4 subnet.addr
      then record hr {
        ipv4_addrs = append_one hr.ipv4_addrs (wapi.new_host_record_ipv4_addr request "" false "");
      }
      else record hr {
        ipv6_addrs = append_one hr.ipv6_addrs (wapi.new_host_record_ipv6_addr request "" false "");
      }

  -- The address of a record that was written, or the error that it has none.
  abbrev pub allocated_or_fail : Prefix → HostRecord → Action S Addr
  allocated_or_fail subnet hr =
      let a = get_allocated_host_record_addr_in_subnet hr subnet in
      if is_valid a
      then pure a
      else throw (
          plain
            "failed to allocate IP address: Infoblox host record does not contain a matching IP address")

  -- `GetOrAllocateAddress`
  unfoldable pub get_or_allocate_address :
      String → String → Prefix → String → String → Action S Addr
  unfolding with_request
  get_or_allocate_address network_view dns_view subnet hostname dns_zone = do
    hr ←
        map_error (wrap "failed to get or create Infoblox host record")
          (get_or_new_host_record wapi network_view dns_view dns_zone hostname)
    let found = get_allocated_host_record_addr_in_subnet hr subnet
    if is_valid found then pure found else (do
      written ←
          map_error (wrap "failed to create or update Infoblox host record")
            (create_or_update_host_record wapi (with_request hr subnet network_view))
      allocated_or_fail subnet written)

  -- The write of `ReleaseAddress`: a record that has lost its last entry is deleted.
  unfoldable pub store_removal : HostRecord → Action S (Unit {0})
  unfolding prepare_host_record_for_update
  store_removal hr =
      if has_no_entries hr
      then (do
        map_error (λ e. wrap "failed to delete Infoblox host record" (parse_error wapi e))
            (call (wapi.delete_object hr.ref))
        pure tt)
      else do
        let prepared = prepare_host_record_for_update hr
        map_error (λ e. wrap "failed to update Infoblox host record" (parse_error wapi e))
            (call (wapi.update_object prepared prepared.ref))
        pure tt

  -- `ReleaseAddress`
  unfoldable pub release_address : String → String → Prefix → String → Action S (Unit {0})
  unfolding remove_entry store_removal
  release_address network_view dns_view subnet hostname = do
    hr ← get_or_new_host_record wapi network_view dns_view "" hostname
    elim (remove_entry hr subnet) [ none ↦ pure tt | some rest ↦ store_removal rest ]
