-- ===== src/Tests/Leases.antt =====
-- Runs of allocation and release against a server that keeps book of several hosts.
use cluster_api_ipam_provide.Common.{
  ◌≡◌, ◌↔◌, returns, refl, String, List, some, none, true, [], ◌∷◌,
}
use cluster_api_ipam_provide.Netip.{v4, contains}
use cluster_api_ipam_provide.Netip.Parse.{parse_addr}
use cluster_api_ipam_provide.Netip.Print.{prefix_text}
use cluster_api_ipam_provide.Infoblox.Wapi.{HostRecord, HostRecordAddr}
use cluster_api_ipam_provide.Infoblox.Records.{
  host_query, entry_addr, is_in, first_in, get_or_new_host_record,
  get_allocated_host_record_addr_in_subnet, next_available_ib_func, create_or_update_host_record,
  prepare_host_record_for_update,
}
use cluster_api_ipam_provide.Infoblox.Addresses.{
  get_or_allocate_address, with_request, release_address, remove_entry, remove_first,
}
use cluster_api_ipam_provide.Infoblox.Leases.{
  IsAllocation, IsRelease, leases_in, shown, addrs, held,
}
use cluster_api_ipam_provide.Infoblox.Leases.Cycle.{release_address-get_or_allocate_address}
use cluster_api_ipam_provide.Infoblox.Leases.Allocation.{get_or_allocate_address-IsAllocation}
use cluster_api_ipam_provide.Infoblox.Leases.Release.{release_address-IsRelease}
use cluster_api_ipam_provide.Infoblox.Addresses.Succeeds.{
  Grants, Drops, get_or_allocate_address_iff, release_address_iff,
}
use cluster_api_ipam_provide.Tests.World.{entry, no_record, subnet}
use cluster_api_ipam_provide.Tests.Ledger.{Ledger, ledger_wapi, set_host}
use cluster_api_ipam_provide.Tests.Ledger.Book.{ledger_book}

abbrev known_host : String → List HostRecordAddr → HostRecord
known_host name ips = record no_record {
  ref = String.◌∷◌ "r" name;
  name = some name;
  ipv4_addrs = some ips;
}

-- Two hosts; the second holds an address in the subnet.
abbrev two_hosts : Ledger
two_hosts = set_host "host" (some (known_host "host" (entry "10.1.0.7" ∷ []))) (
    set_host "other" (some (known_host "other" (entry "10.1.0.8" ∷ entry "10.0.0.9" ∷ [])))
      (λ h. none))

-- An allocation for the first host.
abbrev after_allocation : Ledger
after_allocation =
    set_host "host"
      (some
        (record (known_host "host"
          (entry "10.1.0.7" ∷ entry "func:nextavailableip:10.0.0.0/24,default" ∷ [])) {
            ipv6_addrs = some [];
          }))
      two_hosts

-- A release for the second host.
abbrev after_release : Ledger
after_release =
    set_host "other"
      (some (record (known_host "other" (entry "10.1.0.8" ∷ [])) { ipv6_addrs = some [] }))
      two_hosts

get_or_allocate_address-IsAllocation_example :
    IsAllocation
      (leases_in ledger_wapi "default" two_hosts)
      (leases_in ledger_wapi "default" after_allocation)
      "host"
      subnet
      (v4 167772165)
unfolding get_or_allocate_address get_or_new_host_record host_query first_in
    get_allocated_host_record_addr_in_subnet with_request next_available_ib_func prefix_text
    create_or_update_host_record prepare_host_record_for_update entry_addr parse_addr contains shown
    addrs held
get_or_allocate_address-IsAllocation_example =
    get_or_allocate_address-IsAllocation ledger_wapi "default" "" subnet "host" "zone" two_hosts
      after_allocation (v4 167772165) (ledger_book "default") refl

release_address-IsRelease_example :
    IsRelease
      (leases_in ledger_wapi "default" two_hosts)
      (leases_in ledger_wapi "default" after_release)
      "other"
      subnet
unfolding release_address remove_entry remove_first is_in host_query get_or_new_host_record
    prepare_host_record_for_update entry_addr parse_addr contains shown addrs held
release_address-IsRelease_example =
    release_address-IsRelease ledger_wapi "default" "" subnet "other" two_hosts after_release
      (ledger_book "default") refl

-- The first host has lost again what was allocated for it.
abbrev after_both : Ledger
after_both =
    set_host "host"
      (some (record (known_host "host" (entry "10.1.0.7" ∷ [])) { ipv6_addrs = some [] }))
      after_allocation

release_address-get_or_allocate_address_example :
    leases_in ledger_wapi "default" after_both "host" true
    ≡ leases_in ledger_wapi "default" two_hosts "host" true
unfolding get_or_allocate_address get_or_new_host_record host_query first_in
    get_allocated_host_record_addr_in_subnet with_request next_available_ib_func prefix_text
    create_or_update_host_record prepare_host_record_for_update entry_addr parse_addr contains shown
    addrs held release_address remove_entry remove_first is_in leases_in
release_address-get_or_allocate_address_example =
    release_address-get_or_allocate_address ledger_wapi "default" "" subnet "host" "zone" two_hosts
      after_allocation after_both (v4 167772165) (ledger_book "default") refl refl refl "host" true

get_or_allocate_address_iff_example :
    (get_or_allocate_address ledger_wapi "default" "" subnet "host" "zone" two_hosts
      ≡ returns (v4 167772165) after_allocation)
    ↔ Grants ledger_wapi "default" "" subnet "host" "zone" two_hosts after_allocation (v4 167772165)
get_or_allocate_address_iff_example =
    get_or_allocate_address_iff ledger_wapi "default" "" subnet "host" "zone" two_hosts
      after_allocation (v4 167772165) (ledger_book "default").basics

release_address_iff_example :
    (release_address ledger_wapi "default" "" subnet "other" two_hosts ≡ returns tt after_release)
    ↔ Drops ledger_wapi "default" "" subnet "other" two_hosts after_release
release_address_iff_example =
    release_address_iff ledger_wapi "default" "" subnet "other" two_hosts after_release
      (ledger_book "default").basics
