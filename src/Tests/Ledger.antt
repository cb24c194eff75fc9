-- ===== src/Tests/Ledger.antt =====
-- A server with a record for each host.
pub mod Book
pub mod Grants
use cluster_api_ipam_provide.Common.{
  refl, String, Bool, true, false, Option, none, some, List, [], ◌∷◌, map, ok, err, wapi_not_found,
  plain, not, ◌&&◌, ◌||◌, elements, if◌then◌else◌, ◌==◌, string_eq, value_at, Result,
}
use cluster_api_ipam_provide.Netip.{Addr, v4, is_valid}
use cluster_api_ipam_provide.Infoblox.Wapi.{HostRecordAddr, HostRecord, Wapi}
use cluster_api_ipam_provide.Infoblox.Leases.{held, shown}
use cluster_api_ipam_provide.Infoblox.Leases.Entries.{is_request}
use cluster_api_ipam_provide.Tests.World.{entry, no_record}

abbrev pub Ledger : Type 0
Ledger = String → Option HostRecord

-- A request is answered with 10.0.0.5 for the host of that name, and with 10.0.0.6 for another.
abbrev pub granted_text : String → String
granted_text host = if host == "host" then "10.0.0.5" else "10.0.0.6"

abbrev pub granted_addr : String → Addr
granted_addr host = if host == "host" then v4 167772165 else v4 167772166

abbrev pub answered_entry : String → HostRecordAddr → HostRecordAddr
answered_entry host ip = if is_request ip then entry (granted_text host) else ip

abbrev pub shown_record : String → HostRecord → HostRecord
shown_record host hr = record hr {
  ref = String.◌∷◌ "r" host;
  name = some host;
  ipv4_addrs = some (map (answered_entry host) (elements hr.ipv4_addrs));
  ipv6_addrs = some (map (answered_entry host) (elements hr.ipv6_addrs));
}

abbrev pub set_host : String → Option HostRecord → Ledger → Ledger
set_host host r s other = if other == host then r else s other

abbrev pub host_of : String → String
host_of String.[] = ""
host_of (String.◌∷◌ c s) = s

abbrev pub find_answer : String → Option HostRecord → Result (List HostRecord)
find_answer host none = err (wapi_not_found "not found")
find_answer host (some hr) = ok (shown_record host hr ∷ [])

abbrev pub get_answer : String → Option HostRecord → Result HostRecord
get_answer host none = err (wapi_not_found "not found")
get_answer host (some hr) = ok (shown_record host hr)

-- The server knows two hosts.
abbrev pub listed : String → Bool
listed host = host == "host" || host == "other"

abbrev pub row : Ledger → String → Option HostRecord
row s host = if listed host then s host else none

abbrev pub find_in : Ledger → String → Result (List HostRecord)
find_in s host = find_answer host (row s host)

abbrev pub name_or_empty : HostRecord → String
name_or_empty hr = elim hr.name [ none ↦ "" | some n ↦ n ]

abbrev pub asking : List HostRecordAddr → Bool
asking [] = false
asking (ip ∷ ips) = is_request ip || asking ips

-- Whether another host, or this one, does not hold the address that is granted to the host.
abbrev pub is_free_at : Ledger → String → String → Bool → Bool
is_free_at s host other family = not (
    is_valid
      (held (record { addr = granted_addr host; bits = 32 }) (shown (find_in s other) family)))

abbrev pub is_free : Ledger → String → Bool
is_free s host =
    (is_free_at s host "host" true && is_free_at s host "host" false)
    && (is_free_at s host "other" true && is_free_at s host "other" false)

-- A write for an unknown host is refused, and so is one that asks for an address that is held.
abbrev pub allowed : String → HostRecord → Ledger → Bool
allowed host hr s =
    listed host
    && (not (asking (elements hr.ipv4_addrs) || asking (elements hr.ipv6_addrs)) || is_free s host)

abbrev pub written_in : String → HostRecord → Ledger → Result String × Ledger
written_in host hr s =
    if allowed host hr s
    then (ok (String.◌∷◌ "r" host), set_host host (some hr) s)
    else (err (plain "refused"), s)

abbrev pub ledger_wapi : Wapi Ledger
ledger_wapi = record {
  new_empty_host_record = no_record;
  new_host_record_ipv4_addr = λ a mac dhcp duid. entry a;
  new_host_record_ipv6_addr = λ a duid dhcp mac. entry a;
  find_host_records = λ q s. (find_in s (value_at "name" q), s);
  get_host_record = λ ref q hr s. (get_answer (host_of ref) (row s (host_of ref)), s);
  create_object = λ hr s. written_in (name_or_empty hr) hr s;
  update_object = λ hr ref s. written_in (host_of ref) hr s;
  delete_object = λ ref s. (ok ref, set_host (host_of ref) none s);
  get_network_view = λ v s. (ok tt, s);
  get_dns_view = λ v s. (ok tt, s);
  get_network = λ v c six s. (ok tt, s);
  unmarshal_error = λ s. none;
}
