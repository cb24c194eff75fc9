-- ===== src/Tests/Addresses.antt =====
-- Allocating, releasing and reading host records, on concrete records.
use cluster_api_ipam_provide.Common.{
  ◌≡◌, ◌≢◌, refl, sym, String, true, none, some, [], ◌∷◌, ok, arith, returns,
}
use cluster_api_ipam_provide.Netip.{v4, contains}
use cluster_api_ipam_provide.Netip.Parse.{parse_addr}
use cluster_api_ipam_provide.Netip.Print.{prefix_text}
use cluster_api_ipam_provide.Infoblox.Records.{
  return_fields, entry_addr, first_in, get_allocated_host_record_addr_in_subnet,
  next_available_ib_func, prepare_host_record_for_update, new_host_record, get_or_new_host_record,
  create_or_update_host_record, host_query,
}
use cluster_api_ipam_provide.Infoblox.Addresses.{get_or_allocate_address, with_request}
use cluster_api_ipam_provide.Infoblox.Addresses.Again.{Remembers, get_or_allocate_address-again}
use cluster_api_ipam_provide.Infoblox.Addresses.Allocate.{get_or_allocate_address-contains}
use cluster_api_ipam_provide.Infoblox.Wapi.{HostRecord}
use cluster_api_ipam_provide.Tests.World.{Server, wapi, subnet, host_record, entry, no_record}

-- A new host gets the address that the server grants.
get_or_allocate_address-contains_example : contains subnet (v4 167772165) ≡ true
unfolding get_or_allocate_address get_or_new_host_record new_host_record host_query first_in
    get_allocated_host_record_addr_in_subnet with_request next_available_ib_func prefix_text
    create_or_update_host_record prepare_host_record_for_update entry_addr parse_addr contains
get_or_allocate_address-contains_example =
    get_or_allocate_address-contains wapi "default" "" subnet "host" "zone" none
      (some (record no_record {
        name = some "host";
        network_view = "default";
        enable_dns = some true;
        ipv4_addrs = some (entry "10.0.0.5" ∷ []);
      }))
      (v4 167772165) refl

-- The server remembers what it is sent.
searches-wapi :
    (network_view hostname : String) (s : Server)
    → (wapi.find_host_records (host_query network_view hostname) s).1 ≡ s
searches-wapi network_view hostname none = refl
searches-wapi network_view hostname (some hr) = refl

referenced-wapi :
    (network_view hostname : String) (s s' : Server) (hr : HostRecord)
    → wapi.find_host_records (host_query network_view hostname) s ≡ (ok (hr ∷ []), s')
    → hr.ref ≢ ""
referenced-wapi network_view hostname none s' hr e = absurd (ground arith)
referenced-wapi network_view hostname (some x) s' hr e =
    let same : "ref" ≡ hr.ref = ground arith in rw (sym same) (λ bad. cc)

fetched-wapi :
    (network_view hostname ref : String) (written hr : HostRecord) (s s' : Server)
    → wapi.get_host_record ref (return_fields ∷ []) written s ≡ (ok hr, s')
    → wapi.find_host_records (host_query network_view hostname) s' ≡ (ok (hr ∷ []), s')
fetched-wapi network_view hostname ref written hr none s' e = absurd (ground arith)
fetched-wapi network_view hostname ref written hr (some x) s' e = ground arith

pub remembers : Remembers wapi
remembers = record {
  basics = record {
    searches = searches-wapi;
    referenced = referenced-wapi;
    blank = (refl, refl, refl);
  };
  created = λ view host m s s₀ s' written hr missing named st.
      fetched-wapi view host st.ref written hr st.between s' st.fetched;
  updated = λ view host s s₀ s' old written hr found same st.
      fetched-wapi view host st.ref written hr st.between s' st.fetched;
}

get_or_allocate_address-again_example :
    let written = record (host_record (entry "10.1.0.7" ∷ entry "10.0.0.5" ∷ [])) {
      ipv6_addrs = some [];
    } in
    get_or_allocate_address wapi "default" "" subnet "host" "zone" (some written)
    ≡ returns (v4 167772165) (some written)
unfolding get_or_allocate_address get_or_new_host_record host_query first_in
    get_allocated_host_record_addr_in_subnet with_request next_available_ib_func prefix_text
    create_or_update_host_record prepare_host_record_for_update entry_addr parse_addr contains
get_or_allocate_address-again_example =
    get_or_allocate_address-again wapi "default" "" subnet "host" "zone"
      (some (host_record (entry "10.1.0.7" ∷ [])))
      (some (record no_record {
        ref = "ref";
        name = some "host";
        ipv4_addrs = some (entry "10.1.0.7" ∷ entry "10.0.0.5" ∷ []);
        ipv6_addrs = some [];
      }))
      (v4 167772165) remembers refl
