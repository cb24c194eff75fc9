-- ===== src/Tests/Claims.antt =====
-- The handler of a claim, on a concrete claim, pool, server and cluster.
use cluster_api_ipam_provide.Common.{
  ◌↔◌, ◌≡◌, ◌≢◌, ◌⊎◌, refl, String, ◌<>◌, false, none, some, [], ◌∷◌, returns, fails, panics, plain,
  ok, has_suffix, split, nat_eq, ℕ, ◌≤◌,
}
use cluster_api_ipam_provide.Netip.{contains}
use cluster_api_ipam_provide.Netip.Parse.{parse_addr, parse_prefix}
use cluster_api_ipam_provide.Netip.Print.{addr_text}
use cluster_api_ipam_provide.Infoblox.Records.{
  entry_addr, first_in, get_allocated_host_record_addr_in_subnet, get_or_new_host_record,
  host_query,
}
use cluster_api_ipam_provide.Infoblox.Addresses as Addresses
use cluster_api_ipam_provide.Infoblox.Client.{Client}
use cluster_api_ipam_provide.Infoblox.Config.{auth_config_from_secret_data}
use cluster_api_ipam_provide.Api.{InfobloxIpPool, IpAddress, ready}
use cluster_api_ipam_provide.Hostname.{
  api_version_to_group_version, has_group_kind, first_with, visit, find, search_hostname,
  object_of_claim,
}
use cluster_api_ipam_provide.Hostname.Chain.{IsChain, owner_chain_hostname_sound}
use cluster_api_ipam_provide.Api.{GroupKind}
use cluster_api_ipam_provide.Hostname.{
  owner_chain_hostname, follow_chain, find_owner_reference_with_gk,
}
use cluster_api_ipam_provide.Hostname.Search.{IsOwnedBy, search_hostname_sound}
use cluster_api_ipam_provide.Controllers.Util.{get_infoblox_client_for_instance}
use cluster_api_ipam_provide.Controllers.Claim.{
  get_hostname, ensure_hostname, allocate_from, ensure_address, release_address, connect_to_pool,
  fetch_pool,
}
use cluster_api_ipam_provide.Controllers.Handler.{
  Handler, annotation, hostname_annotation, machine_kind, annotated,
}
use cluster_api_ipam_provide.Controllers.Claim.Names.{
  ensure_hostname-remembers, ensure_hostname-fresh,
}
use cluster_api_ipam_provide.Controllers.Claim.Ensure.{made_ready, made_unready}
use cluster_api_ipam_provide.Controllers.Claim.Address.{
  IsInOneOf, ensure_address-IsInOneOf, ensure_address-fails,
}
use cluster_api_ipam_provide.Controllers.Claim.Succeeds.{Yields, ensure_address_iff}
use cluster_api_ipam_provide.Controllers.Claim.Text.{
  IsReadable, ensure_address-IsReadable, ensure_address-bits,
}
use cluster_api_ipam_provide.Controllers.Claim.Release.{
  release_address_total, Tried, release_address-nil_pool,
}
use cluster_api_ipam_provide.Controllers.Claim.Fetch.{fetch_pool_sound}
use cluster_api_ipam_provide.Tests.World.{
  Server, wapi, host_config, ib, host_record, entry, pool, claim, kube, unsorted, handler,
  new_client_fn,
}

abbrev pub blank : IpAddress
blank = record {
  api_version = "ipam.cluster.x-k8s.io/v1beta2";
  pool_ref = record { api_group = "ipam.cluster.x-k8s.io"; kind = "InfobloxIPPool"; name = "pool" };
  address = "";
  prefix = none;
  gateway = "";
}

-- The server already has an address for the host.
abbrev pub known : Server
known = some (host_record (entry "10.0.0.9" ∷ []))

abbrev pub filled : IpAddress
filled = record blank { address = "10.0.0.9"; prefix = some 24; gateway = "10.0.0.1" }

ensure_address-IsInOneOf_example :
    IsInOneOf pool.spec.subnets filled
    × (filled.pool_ref ≡ blank.pool_ref)
    × (filled.api_version ≡ blank.api_version)
    × ((name : String) × (made_ready kube (annotated "host" (handler pool))
          ≡ made_ready kube (annotated name (handler pool))))
unfolding ensure_address ensure_hostname get_hostname allocate_from has_suffix parse_prefix
    Addresses.get_or_allocate_address get_or_new_host_record host_query first_in entry_addr
    parse_addr contains get_allocated_host_record_addr_in_subnet addr_text
ensure_address-IsInOneOf_example =
    ensure_address-IsInOneOf kube unsorted blank (known, handler pool)
      (known, made_ready kube (annotated "host" (handler pool))) pool wapi host_config filled refl
      refl refl

ensure_address_iff_example :
    (ensure_address kube unsorted blank (known, handler pool)
      ≡ returns filled (known, made_ready kube (annotated "host" (handler pool))))
    ↔ ((name : String) × (w : Server × Handler Server) × (ensure_hostname kube unsorted
            (known, handler pool)
          ≡ returns name w)
        × Yields pool name blank ib pool.spec.subnets w.0 filled known
        × (made_ready kube (annotated "host" (handler pool)) ≡ made_ready kube w.1))
ensure_address_iff_example =
    ensure_address_iff kube unsorted blank (known, handler pool)
      (known, made_ready kube (annotated "host" (handler pool))) pool ib filled refl refl

abbrev no_subnets : InfobloxIpPool
no_subnets = record pool { spec = record pool.spec { subnets = [] } }

abbrev unready : Handler Server
unready = made_unready kube "no (valid) subnets in IPPool" (annotated "host" (handler no_subnets))

ensure_address-fails_example :
    (ensure_hostname kube unsorted (known, handler no_subnets)
      ≡ fails (plain "no (valid) subnets in IPPool") (known, unready))
    ⊎ ((name : String) × (unready
          ≡ made_unready kube "no (valid) subnets in IPPool" (annotated name (handler no_subnets))))
unfolding ensure_address ensure_hostname get_hostname allocate_from has_suffix
ensure_address-fails_example =
    ensure_address-fails kube unsorted blank (known, handler no_subnets) (known, unready) no_subnets
      ib (plain "no (valid) subnets in IPPool") refl refl refl

-- A pool with a zone.
abbrev zoned : InfobloxIpPool
zoned = record pool { spec = record pool.spec { dns_zone = "lab" } }

ensure_hostname-remembers_example :
    ((p : String) × ("machine.lab" ≡ p <> "lab"))
    × ((s : Server)
        → get_hostname kube unsorted (s, annotated "machine.lab" (handler zoned))
          ≡ returns "machine.lab" (s, annotated "machine.lab" (handler zoned)))
unfolding ensure_hostname get_hostname has_suffix search_hostname find first_with has_group_kind
    api_version_to_group_version split visit
ensure_hostname-remembers_example =
    ensure_hostname-remembers kube unsorted (none, handler zoned)
      (none, annotated "machine.lab" (handler zoned)) zoned "machine.lab" refl refl (λ e. cc)

ensure_hostname-fresh_example :
    (h' : Handler Server) × (ensure_hostname kube unsorted (none, handler zoned)
      ≡ returns "machine.lab" (none, h'))
    × (annotation hostname_annotation h'.claim.annotations ≡ "machine.lab")
unfolding search_hostname find first_with has_group_kind api_version_to_group_version split visit
ensure_hostname-fresh_example =
    ensure_hostname-fresh kube unsorted (none, handler zoned) zoned "machine" none refl refl
      (λ e. cc) refl

release_address_total_example :
    (s' : Server) × (release_address kube unsorted (known, handler pool)
      ≡ returns tt (s', handler pool))
    × Tried wapi host_config pool "host" pool.spec.subnets known s'
unfolding get_hostname
release_address_total_example =
    release_address_total kube unsorted (known, handler pool) (known, handler pool) pool wapi
      host_config "host" refl refl refl refl

abbrev no_pool : Handler Server
no_pool = record (handler pool) { pool = none }

release_address-nil_pool_example :
    release_address kube unsorted (known, no_pool) ≡ panics (known, no_pool)
release_address-nil_pool_example = release_address-nil_pool kube unsorted (known, no_pool) refl

search_hostname_sound_example :
    (◌≢◌ {A = String} "machine" "")
    × IsOwnedBy kube machine_kind 4 (object_of_claim claim) "machine"
unfolding search_hostname find first_with has_group_kind api_version_to_group_version split visit
search_hostname_sound_example =
    search_hostname_sound kube unsorted machine_kind 5 claim none none "machine" (λ cmp os o m. m)
      refl

fetch_pool_sound_example :
    (p : InfobloxIpPool) × (c : Client Server) × (s₁ s₂ : Server) × (some pool ≡ some p)
    × (kube.get_pool "ns" "pool" none ≡ (ok p, s₁))
    × (kube.is_false ready p.conditions ≡ false)
    × (get_infoblox_client_for_instance kube p.spec.instance_ref.name "system" new_client_fn s₁
        ≡ returns c s₂)
    × (◌≡◌ {A = Server × Handler Server}
        (none, handler pool)
        (s₂, record (handler pool) { pool = some p; ib_client = some c }))
unfolding fetch_pool connect_to_pool get_infoblox_client_for_instance auth_config_from_secret_data
fetch_pool_sound_example =
    fetch_pool_sound kube "system" new_client_fn (none, handler pool) (none, handler pool)
      (some pool) refl

abbrev vm_kind : GroupKind
vm_kind = record { group = "infrastructure.cluster.x-k8s.io"; kind = "VM" }

-- The machine that owns the virtual machine that owns the claim.
owner_chain_hostname_sound_example :
    IsChain kube (vm_kind ∷ machine_kind ∷ []) (object_of_claim claim) "machine"
unfolding owner_chain_hostname follow_chain find_owner_reference_with_gk first_with has_group_kind
    api_version_to_group_version split
owner_chain_hostname_sound_example =
    owner_chain_hostname_sound kube (vm_kind ∷ machine_kind ∷ []) claim none none "machine" refl

ensure_address-IsReadable_example : IsReadable pool.spec.subnets filled
unfolding ensure_address ensure_hostname get_hostname allocate_from has_suffix parse_prefix
    Addresses.get_or_allocate_address get_or_new_host_record host_query first_in entry_addr
    parse_addr contains get_allocated_host_record_addr_in_subnet addr_text
ensure_address-IsReadable_example =
    ensure_address-IsReadable kube unsorted blank (known, handler pool)
      (known, made_ready kube (annotated "host" (handler pool))) pool wapi host_config filled refl
      refl refl

ensure_address-bits_example : (n : ℕ) × (filled.prefix ≡ some n) × (n ≤ 128)
unfolding ensure_address ensure_hostname get_hostname allocate_from has_suffix parse_prefix
    Addresses.get_or_allocate_address get_or_new_host_record host_query first_in entry_addr
    parse_addr contains get_allocated_host_record_addr_in_subnet addr_text
ensure_address-bits_example =
    ensure_address-bits kube unsorted blank (known, handler pool)
      (known, made_ready kube (annotated "host" (handler pool))) pool ib filled refl refl refl
