-- ===== src/Controllers/Pool.antt =====
-- internal/controllers/infobloxippool.go: the reconciler of pools.
pub mod Checks
pub mod Deletion
pub mod Patching
use cluster_api_ipam_provide.Common.{
  String, ◌<>◌, Bool, true, false, not, ◌&&◌, ◌||◌, Option, none, some, List, [], ◌∷◌, ◌==◌,
  string_eq, if◌then◌else◌, Error, plain, text, is_api_not_found, Outcome, returns, fails, panics,
  Action, call, pure, throw, try_catch, ◌>>=◌, ◌>>◌, lift, read, write, if_holds, is_empty,
}
use cluster_api_ipam_provide.Netip.{Prefix}
use cluster_api_ipam_provide.Netip.Parse.{parse_prefix}
use cluster_api_ipam_provide.Netip.Print.{prefix_text}
use cluster_api_ipam_provide.Infoblox.Config.{Config}
use cluster_api_ipam_provide.Infoblox.Client.{Client}
use cluster_api_ipam_provide.Api.{
  pool_conditions, set_pool_conditions, Condition, holds, fails_with, authentication_failed_reason,
  network_view_not_found_reason, dns_view_not_found_reason, network_not_found_reason, ready_reason,
  Subnet, InfobloxIpPool, IpPoolReference, IpAddressClaim,
}
use cluster_api_ipam_provide.Kube.{Kube}
use cluster_api_ipam_provide.Controllers.Patched.{patch_after}
use cluster_api_ipam_provide.Pools.{list_claims_referencing_pool}
use cluster_api_ipam_provide.Controllers.Util.{get_infoblox_client_for_instance, determine_dns_view}

abbrev pub protect_pool_finalizer : String
protect_pool_finalizer = "ipam.cluster.x-k8s.io/ProtectPool"

-- The verb `%q`, for texts with nothing to escape.
abbrev pub quote : String → String
quote s = "\"" <> (s <> "\"")

-- The conditions for what Infoblox does not have.
abbrev pub network_missing : String → Prefix → Condition
network_missing network_view subnet = fails_with network_not_found_reason (
    "could not find network "
    <> (quote (prefix_text subnet) <> (" in view " <> quote network_view)))

abbrev pub dns_view_missing : String → Condition
dns_view_missing dns_view =
    fails_with dns_view_not_found_reason ("could not find DNS view " <> quote dns_view)

abbrev pub network_view_missing : String → Condition
network_view_missing network_view =
    fails_with network_view_not_found_reason ("could not find network view " <> quote network_view)

-- The DNS view of a pool, and the one that `reconcile` checks.
abbrev pub dns_view_of : {S : Type 0} → InfobloxIpPool → Client S → String
dns_view_of pool ib =
    determine_dns_view pool.spec.dns_view ib.get_host_config.default_dns_view pool.spec.network_view

abbrev pub in_use_message : String
in_use_message =
    "pool has IPAddresses or IPAddressClaims allocated. Cannot delete Pool until all IPAddresses and IPAddressClaims have been removed"

-- The default network view of the instance replaces an empty one.
abbrev pub default_network_view_for : {S : Type 0} → Client S → InfobloxIpPool → InfobloxIpPool
default_network_view_for ib pool =
    if pool.spec.network_view == ""
    then record pool {
      spec = record pool.spec { network_view = ib.get_host_config.default_network_view };
    }
    else pool

-- A step of the reconciler: it changes the world and the pool that it has fetched.
abbrev pub PoolAction : Type 0 → Type 0
PoolAction S = Action (S × InfobloxIpPool) (Unit {0})

abbrev pub pool_type_ref : InfobloxIpPool → IpPoolReference
pool_type_ref pool = record { api_group = pool.group; kind = pool.kind; name = pool.name }

abbrev pub is_marked : InfobloxIpPool → Bool
is_marked pool = elim pool.deletion_timestamp [ none ↦ false | some t ↦ true ]

module _ {S : Type 0} (kube : Kube S) where
  -- `conditions.Set(pool, …)`
  abbrev pub set_pool_condition : Condition → PoolAction S
  set_pool_condition c w =
      returns tt (w.0, set_pool_conditions (kube.set_condition c (pool_conditions w.1)) w.1)

  -- The loop over the subnets, and what follows it.
  unfoldable pub check_subnets : Client S → String → List Subnet → PoolAction S
  check_subnets ib network_view [] = set_pool_condition (holds ready_reason "pool is ready")
  check_subnets ib network_view (sub ∷ subs) = elim (parse_prefix sub.cidr) [
    | none ↦ throw (plain "failed to parse subnet")
    | some subnet ↦
        if_holds (ib.check_network_exists network_view subnet) (check_subnets ib network_view subs)
          (set_pool_condition (network_missing network_view subnet))
  ]

  -- The check of the DNS view; it is left out if there is no name to check.
  unfoldable pub check_dns_view : Client S → String → PoolAction S → PoolAction S
  check_dns_view ib dns_view next =
      if dns_view == ""
      then next
      else if_holds (ib.check_dns_view_exists dns_view) next
          (set_pool_condition (dns_view_missing dns_view))

  -- `reconcile`, behind the creation of the client, of a pool with its network view filled in
  unfoldable pub check_pool : Client S → InfobloxIpPool → PoolAction S
  check_pool ib pool =
      if_holds (ib.check_network_view_exists pool.spec.network_view)
        (check_dns_view ib (dns_view_of pool ib)
          (check_subnets ib pool.spec.network_view pool.spec.subnets))
        (set_pool_condition (network_view_missing pool.spec.network_view))

  -- What is done with the claims that still refer to a pool marked for deletion.
  abbrev pub drop_finalizer_if_unused : List IpAddressClaim → PoolAction S
  drop_finalizer_if_unused in_use_claims w =
      if is_empty in_use_claims
      then returns tt (
        w.0,
        record w.1 { finalizers = (kube.remove_finalizer protect_pool_finalizer w.1.finalizers).0 },
      )
      else fails (plain in_use_message) w

  module _ (operator_namespace : String) (new_client_fn : Config → Action S (Client S)) where
    -- `reconcile`
    unfoldable pub reconcile : PoolAction S
    reconcile = do
      pool ← read
      try_catch
          (lift (
            get_infoblox_client_for_instance kube pool.spec.instance_ref.name operator_namespace
              new_client_fn))
          (λ ib. do
            write (default_network_view_for ib pool)
            check_pool ib (default_network_view_for ib pool))
          (λ e. do
            set_pool_condition (
                fails_with authentication_failed_reason (
                  "client creation failed for instance "
                  <> (quote pool.spec.instance_ref.name <> (": " <> text e))))
            throw e)

    -- The body of `Reconcile`, between the patch helper and the deferred patch
    unfoldable pub reconcile_fetched : PoolAction S
    reconcile_fetched = do
      pool ← read
      if is_marked pool
          then (do
            in_use_claims ←
                lift (list_claims_referencing_pool kube pool.namespace (pool_type_ref pool))
            drop_finalizer_if_unused in_use_claims)
          else (let (finalizers, changed) =
                kube.add_finalizer protect_pool_finalizer pool.finalizers in
              let kept : InfobloxIpPool = record pool { finalizers = finalizers } in
              do write kept; if changed then pure tt else reconcile)

    -- `Reconcile`, of a namespaced name; the result is always the empty one.
    unfoldable pub reconcile_pool : String → String → Action S (Unit {0})
    reconcile_pool namespace name =
        try_catch (call (kube.get_pool namespace name))
          (λ pool. do
            call (kube.new_pool_patch_helper pool)
            λ s. patch_after kube.new_aggregate kube.patch_pool (reconcile_fetched (s, pool)))
          (λ e. if is_api_not_found e then pure tt else throw e)
