-- ===== src/Controllers/Claim.antt =====
-- internal/controllers/ipaddressclaim.go: the handler of one claim.
pub mod Names
pub mod Ensure
pub mod Address
pub mod Succeeds
pub mod Text
pub mod Again
pub mod Release
pub mod Dropped
pub mod Fetch
pub mod Served
pub mod Exclusive
use cluster_api_ipam_provide.Common.{
  ℕ, String, ◌<>◌, Bool, true, false, not, ◌||◌, Option, none, some, List, [], ◌∷◌, ◌++◌, map, ◌==◌,
  string_eq, if◌then◌else◌, Error, plain, text, wrap, is_api_not_found, Action, call, pure, throw,
  deref, crash, try_catch, map_error, ◌>>=◌, ◌>>◌, lift, read, write, is_empty, value_at,
  has_suffix, join,
}
use cluster_api_ipam_provide.Common.{returns}
use cluster_api_ipam_provide.Controllers.Pool.{dns_view_of, quote}
use cluster_api_ipam_provide.Netip.{Addr, Prefix}
use cluster_api_ipam_provide.Netip.Parse.{parse_prefix}
use cluster_api_ipam_provide.Netip.Print.{addr_text}
use cluster_api_ipam_provide.Infoblox.Config.{Config}
use cluster_api_ipam_provide.Infoblox.Client.{Client}
use cluster_api_ipam_provide.Api.{
  Condition, ready, holds, fails_with, pool_not_ready_reason, address_allocated_reason,
  allocation_failed_reason, Subnet, InfobloxIpPool, IpAddressClaim, IpAddress, GroupKind,
}
use cluster_api_ipam_provide.Kube.{Kube}
use cluster_api_ipam_provide.Hostname.{SortFunc, search_hostname}
use cluster_api_ipam_provide.Controllers.Util.{get_infoblox_client_for_instance, determine_dns_view}
use cluster_api_ipam_provide.Controllers.Handler.{
  hostname_annotation, Handler, HandlerAction, set_annotation, annotation, annotated, machine_kind,
  resolver_max_depth, claim_handler_for, zero_pool, filled_in, allocation_error, Fetched,
}

module _ {S : Type 0} (kube : Kube S) where
  -- `conditions.Set(h.claim, …)`
  abbrev pub set_claim_condition : Condition → HandlerAction S (Unit {0})
  set_claim_condition c w =
      let claim : IpAddressClaim = w.1.claim in
      returns tt (
        w.0,
        record w.1 { claim = record claim { conditions = kube.set_condition c claim.conditions } },
      )

  abbrev pub set_pool : InfobloxIpPool → HandlerAction S (Unit {0})
  set_pool pool w = returns tt (w.0, record w.1 { pool = some pool })

  abbrev pub set_ib_client : Option (Client S) → HandlerAction S (Unit {0})
  set_ib_client ib w = returns tt (w.0, record w.1 { ib_client = ib })

  -- `h.pool` and `h.ibclient`, where they are dereferenced
  abbrev pub the_pool : HandlerAction S InfobloxIpPool
  the_pool w = deref w.1.pool w

  abbrev pub the_ib_client : HandlerAction S (Client S)
  the_ib_client w = deref w.1.ib_client w

  module _ (sort_func : SortFunc) where
    -- `getHostname`
    unfoldable pub get_hostname : HandlerAction S String
    get_hostname = do
      h ← read
      let host_name = annotation hostname_annotation h.claim.annotations
      if host_name == ""
          then (do
            pool ← the_pool
            if pool.spec.dns_zone == "" then pure h.claim.name else (do
              machine ←
                  lift (search_hostname kube sort_func machine_kind resolver_max_depth h.claim)
              pure (machine <> ("." <> pool.spec.dns_zone))))
          else pure host_name

    abbrev pub annotate : String → HandlerAction S (Unit {0})
    annotate hostname w = returns tt (w.0, annotated hostname w.1)

    -- `ensureHostname`
    unfoldable pub ensure_hostname : HandlerAction S String
    ensure_hostname = do
      hostname ← map_error (wrap "failed to get hostname") get_hostname
      annotate hostname
      pool ← the_pool
      if has_suffix hostname pool.spec.dns_zone
          then pure hostname
          else throw (
              plain (
                "hostname "
                <> (quote hostname
                    <> (" must have DNS zone " <> (quote pool.spec.dns_zone <> " as suffix")))))

    -- The loop of `EnsureAddress` over the subnets, with the errors so far, and what follows it.
    unfoldable pub allocate_from :
        InfobloxIpPool → String → IpAddress → List Error → List Subnet → HandlerAction S IpAddress
    unfolding determine_dns_view
    allocate_from pool host_name address errs [] = do
      set_claim_condition (fails_with allocation_failed_reason (text (allocation_error errs)))
      throw (allocation_error errs)
    allocate_from pool host_name address errs (sub ∷ subs) = elim (parse_prefix sub.cidr) [
      | none ↦ allocate_from pool host_name address errs subs
      | some subnet ↦ do
        ib ← the_ib_client
        try_catch
            (lift (
              ib.get_or_allocate_address pool.spec.network_view (dns_view_of pool ib) subnet
                host_name pool.spec.dns_zone))
            (λ allocated. do
              set_claim_condition (holds address_allocated_reason "")
              pure (filled_in address allocated subnet sub))
            (λ e. allocate_from pool host_name address (errs ++ e ∷ []) subs)
    ]

    -- `EnsureAddress`; the address that is passed in changes only if the call succeeds.
    unfoldable pub ensure_address : IpAddress → HandlerAction S IpAddress
    unfolding allocate_from
    ensure_address address = do
      host_name ← ensure_hostname
      pool ← the_pool
      allocate_from pool host_name address [] pool.spec.subnets

    -- The loop of `ReleaseAddress`: errors are logged only.
    unfoldable pub release_from : InfobloxIpPool → String → List Subnet → HandlerAction S (Unit {0})
    unfolding determine_dns_view
    release_from pool host_name [] = pure tt
    release_from pool host_name (sub ∷ subs) = elim (parse_prefix sub.cidr) [
      | none ↦ release_from pool host_name subs
      | some subnet ↦ do
        ib ← the_ib_client
        try_catch
            (lift
              (ib.release_address pool.spec.network_view (dns_view_of pool ib) subnet host_name))
            (λ _. release_from pool host_name subs) (λ e. release_from pool host_name subs)
    ]

    -- `ReleaseAddress`; the pool is dereferenced before it is compared with nil.
    unfoldable pub release_address : HandlerAction S (Unit {0})
    unfolding get_hostname release_from
    release_address = do
      host_name ← map_error (wrap "failed to get hostname") get_hostname
      pool ← the_pool
      if is_empty pool.spec.subnets
          then throw (plain "no subnets found in pool or pool not found")
          else release_from pool host_name pool.spec.subnets

  module _ (operator_namespace : String) (new_client_fn : Config → Action S (Client S)) where
    -- `FetchPool`, behind the fetching of the pool
    unfoldable pub connect_to_pool : InfobloxIpPool → HandlerAction S Fetched
    connect_to_pool pool =
        if kube.is_false ready pool.conditions
        then (do
          set_claim_condition (fails_with pool_not_ready_reason "the referenced pool is not ready")
          pure (some pool, some (plain "pool not ready")))
        else try_catch
            (lift (
              get_infoblox_client_for_instance kube pool.spec.instance_ref.name operator_namespace
                new_client_fn))
            (λ ib. do set_ib_client (some ib); pure (some pool, none))
            (λ e. do
              set_ib_client none
              pure (some pool, some (wrap "failed to get infoblox client" e)))

    -- `FetchPool`
    unfoldable pub fetch_pool : HandlerAction S Fetched
    unfolding connect_to_pool
    fetch_pool = do
      h ← read
      set_pool zero_pool
      try_catch (lift (call (kube.get_pool h.claim.namespace h.claim.pool_ref.name)))
          (λ pool. do set_pool pool; connect_to_pool pool)
          (λ e. pure (
            none,
            some (
                if is_api_not_found e
                then wrap "pool not found" (plain "pool could not be found")
                else wrap "failed to fetch pool" e),
          ))
