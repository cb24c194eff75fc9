-- ===== src/Tests/Webhooks.antt =====
-- The webhook, on concrete pools.
use cluster_api_ipam_provide.Common.{
  ◌≡◌, ◌≢◌, ◌↔◌, ◌⊎◌, refl, String, true, false, none, [], ◌∷◌, All, returns,
}
use cluster_api_ipam_provide.Api.{InfobloxIpPool}
use cluster_api_ipam_provide.Netip.Cidr.{parse_cidr}
use cluster_api_ipam_provide.Netip.Parse.{parse_addr}
use cluster_api_ipam_provide.Netip.Print.{addr_text, prefix_text}
use cluster_api_ipam_provide.Pools.{list_addresses_in_use}
use cluster_api_ipam_provide.Controllers.Pool.{pool_type_ref}
use cluster_api_ipam_provide.Webhooks as Webhooks
use cluster_api_ipam_provide.Webhooks.Laws.{
  IsWellFormed, HasUnparsed, validate_iff, validate-panicked_iff, validate_delete_iff,
}
use cluster_api_ipam_provide.Tests.World.{Server, pool, kube}

validate_iff_example :
    (Webhooks.validate pool ≡ Webhooks.allowed)
    ↔ ((false ≡ false) × (◌≢◌ {A = String} "instance" "") × All IsWellFormed pool.spec.subnets)
validate_iff_example = validate_iff pool

-- A pool with a CIDR that is not one.
abbrev unparsed : InfobloxIpPool
unparsed = record pool {
  spec = record pool.spec { subnets = record { cidr = "10.0.0.0"; gateway = "10.0.0.1" } ∷ [] };
}

validate-panicked_iff_example :
    (Webhooks.validate unparsed ≡ Webhooks.panicked) ↔ HasUnparsed unparsed.spec.subnets
validate-panicked_iff_example = validate-panicked_iff unparsed

validate_delete_iff_example :
    (Webhooks.validate_delete kube (Webhooks.pool pool) none ≡ Webhooks.allowed) ↔ (
      (false ≡ true)
      ⊎ ((s' : Server) × (list_addresses_in_use kube "ns" (pool_type_ref pool) none
            ≡ returns [] s')))
validate_delete_iff_example = validate_delete_iff kube pool none

-- What the webhook says of the two pools.
accepted : Webhooks.validate pool ≡ Webhooks.allowed
unfolding Webhooks.validate Webhooks.subnets_errors Webhooks.subnet_errors parse_cidr parse_addr
    addr_text prefix_text
accepted = refl

crashed : Webhooks.validate unparsed ≡ Webhooks.panicked
unfolding Webhooks.validate Webhooks.subnets_errors Webhooks.subnet_errors parse_cidr
crashed = refl
