-- ===== src/Infoblox/Records.antt =====
-- pkg/infoblox/addresses.go: host records, found or made, searched, written and fetched.
pub mod Laws
use cluster_api_ipam_provide.Common.{
  String, ◌<>◌, Bool, true, false, Option, none, some, List, [], ◌∷◌, map, ◌==◌, string_eq,
  if◌then◌else◌, Error, plain, is_wapi_not_found, Action, call, pure, throw, try_catch, map_error,
  deref, ◌>>=◌, ◌>>◌, Slice, elements, join,
}
use cluster_api_ipam_provide.Netip.{Addr, invalid, is4, Prefix, contains}
use cluster_api_ipam_provide.Netip.Parse.{parse_addr}
use cluster_api_ipam_provide.Netip.Print.{prefix_text}
use cluster_api_ipam_provide.Infoblox.Wapi.{HostRecordAddr, HostRecord, QueryParams, Wapi}
use cluster_api_ipam_provide.Infoblox.Errors.{try_parse_wapi_error}

abbrev pub host_record_return_fields : List String
host_record_return_fields =
    "ipv4addrs" ∷ "ipv6addrs" ∷ "name" ∷ "view" ∷ "zone" ∷ "network_view" ∷ "configure_for_dns" ∷ []

-- `toDNSView`
abbrev pub to_dns_view : String → Option String
to_dns_view dns_view = if dns_view == "" then none else some dns_view

abbrev pub return_fields : String × String
return_fields = ("_return_fields", join host_record_return_fields ",")

-- The parameters of the search for a host.
unfoldable pub host_query : String → String → QueryParams
host_query network_view hostname =
    ("name", hostname)
    ∷ return_fields
    ∷ (if network_view == "" then [] else ("network_view", network_view) ∷ [])

-- The address that an entry of a host record holds, if it holds one that can be parsed.
unfoldable pub entry_addr : HostRecordAddr → Option Addr
entry_addr ip = elim ip.address [ none ↦ none | some s ↦ parse_addr s ]

-- The test that the loops over the entries of a record make.
unfoldable pub is_in : Prefix → HostRecordAddr → Bool
is_in subnet ip = elim (entry_addr ip) [ none ↦ false | some a ↦ contains subnet a ]

unfoldable pub first_in : Prefix → List HostRecordAddr → Addr
first_in subnet [] = invalid
first_in subnet (ip ∷ ips) = elim (entry_addr ip) [
  | none ↦ first_in subnet ips
  | some a ↦ if contains subnet a then a else first_in subnet ips
]

-- The entries of the subnet's family.
abbrev pub family_entries : HostRecord → Prefix → List HostRecordAddr
family_entries hr subnet =
    if is4 subnet.addr then elements hr.ipv4_addrs else elements hr.ipv6_addrs

-- `getAllocatedHostRecordAddrInSubnet`; the zero address stands for none.
unfoldable pub get_allocated_host_record_addr_in_subnet : HostRecord → Prefix → Addr
unfolding first_in
get_allocated_host_record_addr_in_subnet hr subnet = first_in subnet (family_entries hr subnet)

-- `nextAvailableIBFunc`
unfoldable pub next_available_ib_func : Prefix → String → String
next_available_ib_func subnet view =
    "func:nextavailableip:" <> (prefix_text subnet <> ("," <> view))

abbrev pub clear_host : HostRecordAddr → HostRecordAddr
clear_host ip = record ip { host = "" }

-- A nil slice becomes an empty one.
abbrev pub non_nil : Slice HostRecordAddr → Slice HostRecordAddr
non_nil s = some (map clear_host (elements s))

-- `prepareHostRecordForUpdate`
unfoldable pub prepare_host_record_for_update : HostRecord → HostRecord
prepare_host_record_for_update hr = record hr {
  zone = "";
  network_view = "";
  ipv4_addrs = non_nil hr.ipv4_addrs;
  ipv6_addrs = non_nil hr.ipv6_addrs;
}

module _ {S : Type 0} (wapi : Wapi S) where
  abbrev pub parse_error : Error → Error
  parse_error = try_parse_wapi_error wapi.unmarshal_error

  -- The record that `getOrNewHostRecord` makes for a host that the server does not know.
  unfoldable pub new_host_record : String → String → String → String → HostRecord
  new_host_record network_view dns_view dns_zone hostname =
      let hr = record wapi.new_empty_host_record {
        name = some hostname;
        network_view = network_view;
        enable_dns = some false;
      } in
      if dns_zone == ""
      then hr
      else record hr { enable_dns = some true; view = to_dns_view dns_view }

  -- Exactly one record is expected.
  abbrev pub only_record : String → String → String → List HostRecord → Action S HostRecord
  only_record network_view dns_view hostname (hr ∷ []) = pure hr
  only_record network_view dns_view hostname _ = throw (
      plain (
        "multiple host records found for hostname \""
        <> (hostname
            <> ("\" in network view \""
                <> (network_view <> ("\" and dns view \"" <> (dns_view <> "\"")))))))

  -- `getOrNewHostRecord`
  unfoldable pub get_or_new_host_record : String → String → String → String → Action S HostRecord
  unfolding new_host_record host_query
  get_or_new_host_record network_view dns_view dns_zone hostname =
      try_catch (call (wapi.find_host_records (host_query network_view hostname)))
        (only_record network_view dns_view hostname)
        (λ e.
          if is_wapi_not_found e
          then pure (new_host_record network_view dns_view dns_zone hostname)
          else throw (parse_error e))

  -- The write of `createOrUpdateHostRecord`, with the record as it stands after it. The name is
  -- dereferenced for the log.
  abbrev pub write_host_record : HostRecord → Action S (String × HostRecord)
  write_host_record hr =
      if hr.ref == ""
      then (do
        deref hr.name
        ref ← map_error parse_error (call (wapi.create_object hr))
        pure (ref, hr))
      else do
        let prepared = prepare_host_record_for_update hr
        deref prepared.name
        ref ← map_error parse_error (call (wapi.update_object prepared prepared.ref))
        pure (ref, prepared)

  -- `createOrUpdateHostRecord`, with the record that the caller's pointer leads to afterwards
  unfoldable pub create_or_update_host_record : HostRecord → Action S HostRecord
  unfolding prepare_host_record_for_update
  create_or_update_host_record hr = do
    (ref, written) ← write_host_record hr
    deref written.name
    map_error parse_error (call (wapi.get_host_record ref (return_fields ∷ []) written))
