-- ===== src/Tests/Exclusive.antt =====
-- Claims for two hosts, handled one after the other.
use mathlib.Core.List.{Memᴰ}
use cluster_api_ipam_provide.Common.{
  ◌≡◌, refl, ap, String, Bool, Option, some, false, [], ◌∷◌, final, has_suffix, split,
}
use cluster_api_ipam_provide.Netip.{Addr, Prefix, contains}
use cluster_api_ipam_provide.Netip.Parse.{parse_addr, parse_prefix}
use cluster_api_ipam_provide.Netip.Print.{prefix_text, addr_text}
use cluster_api_ipam_provide.Infoblox.Client.{client_over}
use cluster_api_ipam_provide.Infoblox.Records.{
  host_query, entry_addr, first_in, get_or_new_host_record,
  get_allocated_host_record_addr_in_subnet, next_available_ib_func, create_or_update_host_record,
  prepare_host_record_for_update,
}
use cluster_api_ipam_provide.Infoblox.Addresses as Addresses
use cluster_api_ipam_provide.Infoblox.Addresses.{with_request}
use cluster_api_ipam_provide.Infoblox.Leases.{leases_in, shown, addrs, held}
use cluster_api_ipam_provide.Api.{Subnet}
use cluster_api_ipam_provide.Kube.{Kube}
use cluster_api_ipam_provide.Controllers.Claim.{
  get_hostname, ensure_hostname, allocate_from, ensure_address,
}
use cluster_api_ipam_provide.Controllers.Handler.{Handler, annotated}
use cluster_api_ipam_provide.Controllers.Claim.Ensure.{made_ready}
use cluster_api_ipam_provide.Controllers.Claim.Served.{IsListed}
use cluster_api_ipam_provide.Controllers.Claim.Exclusive.{
  Serves, start, ensured, ensure_address-IsExclusive,
}
use cluster_api_ipam_provide.Tests.World.{claim, pool, host_config, cluster, unsorted, subnet}
use cluster_api_ipam_provide.Tests.Claims.{blank}
use cluster_api_ipam_provide.Tests.Ledger.{Ledger, ledger_wapi}
use cluster_api_ipam_provide.Tests.Runs.{no_hosts, ledger_reliable, nobody_holds}

abbrev ledger_kube : Kube Ledger
ledger_kube = cluster pool [] false

-- The handler of the claim for a host.
abbrev handler_of : String → Handler Ledger
handler_of host = record {
  claim = record claim { name = host };
  pool = some pool;
  ib_client = some (client_over ledger_wapi host_config);
}

abbrev ensured_for : String → Ledger → Ledger
ensured_for host s = (final (ensure_address ledger_kube unsorted blank (s, handler_of host))).0

-- The claim for the second host is handled twice; the one of a host that the server does not know
-- fails.
abbrev served : Ledger
served = ensured_for "nobody" (ensured_for "other" (ensured_for "other" no_hosts))

only_subnet : IsListed ledger_kube unsorted ledger_wapi (subnet ∷ []) pool pool.spec.subnets
unfolding parse_prefix parse_addr split
only_subnet sub p (Memᴰ.head e) parsed =
    let read : (◌≡◌ {A = Option Prefix} (some subnet) (some p)) =
      rw (ap (λ (t : Subnet). t.cidr) e) at parsed in
    Memᴰ.head (same_some p read)
  where
    same_some : (q : Prefix) → (◌≡◌ {A = Option Prefix} (some subnet) (some q)) → q ≡ subnet
    same_some q h = cc
only_subnet sub p (Memᴰ.tail m) parsed = elim m [ ]

serves :
    (host : String)
    → Serves ledger_kube unsorted ledger_wapi "default" (subnet ∷ []) (handler_of host)
serves host = record {
  pool = pool;
  hc = host_config;
  has_pool = refl;
  has_ib = refl;
  viewed = refl;
  listed = only_subnet;
}

ensure_address-IsExclusive_example :
    (name : String) × (a : Addr) × (family : Bool) × (made_ready ledger_kube
        (annotated "host" (handler_of "host"))
      ≡ made_ready ledger_kube (annotated name (handler_of "host")))
    × ("10.0.0.5" ≡ addr_text a)
    × Memᴰ a (leases_in ledger_wapi "default" (ensured_for "host" served) name family)
    × ((other : String)
        → Memᴰ a (leases_in ledger_wapi "default" (ensured_for "host" served) other family)
        → other ≡ name)
unfolding ensure_address ensure_hostname get_hostname allocate_from has_suffix parse_prefix
    Addresses.get_or_allocate_address get_or_new_host_record host_query first_in
    get_allocated_host_record_addr_in_subnet with_request next_available_ib_func prefix_text
    create_or_update_host_record prepare_host_record_for_update entry_addr parse_addr contains shown
    addrs held leases_in addr_text
ensure_address-IsExclusive_example =
    ensure_address-IsExclusive ledger_kube unsorted ledger_wapi "default" (subnet ∷ []) no_hosts
      (served, handler_of "host")
      (ensured_for "host" served, made_ready ledger_kube (annotated "host" (handler_of "host")))
      blank (record blank { address = "10.0.0.5"; prefix = some 24; gateway = "10.0.0.1" })
      ledger_reliable (λ api_version kind namespace name s. refl)
      (λ a family host other m m'. absurd (nobody_holds a host family m))
      (ensured _ (handler_of "nobody") blank (serves "nobody") (
        ensured _ (handler_of "other") blank (serves "other")
          (ensured _ (handler_of "other") blank (serves "other") start)))
      (serves "host") refl
