-- ===== src/Controllers/Pool/Deletion.antt =====
-- The finalizer of a pool: when it is added, and when it is taken away.
use mathlib.Core.List.{Memᴰ}
use cluster_api_ipam_provide.Common.{
  ◌↔◌, ◌≡◌, ◌≢◌, refl, ◌∙◌, ◌==◌, string_eq, String, Bool, true, false, List, [], ◌∷◌, arith, ◌⊎◌,
  inl, inr, Action, Error, plain, returns, fails, panics, final, Outcome-cases, Option-cases,
  Bool-cases, if_holds,
}
use cluster_api_ipam_provide.Netip.Parse.{parse_prefix}
use cluster_api_ipam_provide.Infoblox.Config.{Config}
use cluster_api_ipam_provide.Infoblox.Client.{Client}
use cluster_api_ipam_provide.Api.{Subnet, InfobloxIpPool, IpAddressClaim, IpPoolReference}
use cluster_api_ipam_provide.Kube.{Kube}
use cluster_api_ipam_provide.Pools.{list_claims_referencing_pool}
use cluster_api_ipam_provide.Controllers.Util.{get_infoblox_client_for_instance}
use cluster_api_ipam_provide.Controllers.Pool.{
  PoolAction, set_pool_condition, check_subnets, check_dns_view, check_pool, reconcile,
  reconcile_fetched, is_marked, pool_type_ref, protect_pool_finalizer, in_use_message,
  network_missing, dns_view_missing, network_view_missing, dns_view_of, default_network_view_for,
}

-- `AddFinalizer` adds the finalizer that is given, if the list does not have it, and says whether it
-- changed the list.
abbrev pub AddsFinalizer : (String → List String → List String × Bool) → Type 0
AddsFinalizer add_finalizer =
    ((f : String) (fs : List String) (x : String)
      → Memᴰ x (add_finalizer f fs).0 ↔ ((x ≡ f) ⊎ Memᴰ x fs))
    × ((f : String) (fs : List String)
        → (add_finalizer f fs).1 ≡ false
        → (add_finalizer f fs).0 ≡ fs)

list_claims-no_panic :
    {S : Type 0} (kube : Kube S) (namespace : String) (ref : IpPoolReference) (s s₁ : S)
    → list_claims_referencing_pool kube namespace ref s ≢ panics s₁
unfolding list_claims_referencing_pool
list_claims-no_panic kube namespace ref s s₁ e = ground arith

module _ {S : Type 0} (kube : Kube S) where
  -- The step leaves the finalizers and the mark of deletion alone, however it ends.
  abbrev Keeps : PoolAction S → Type 0
  Keeps act = (w : S × InfobloxIpPool) → (final (act w)).1.finalizers ≡ w.1.finalizers

  if_holds-Keeps :
      (test : Action S Bool) (found missing : PoolAction S)
      → Keeps found
      → Keeps missing
      → Keeps (if_holds test found missing)
  if_holds-Keeps test found missing f m w = elim (Outcome-cases (test w.0)) [
    | inl (true, s, e) ↦ rw e (f (s, w.1))
    | inl (false, s, e) ↦ rw e (m (s, w.1))
    | inr (inl (e₁, s, e)) ↦ rw e (m (s, w.1))
    | inr (inr (s, e)) ↦ rw e
  ]

  check_subnets-Keeps :
      (ib : Client S) (network_view : String) (subs : List Subnet)
      → Keeps (check_subnets kube ib network_view subs)
  unfolding check_subnets
  check_subnets-Keeps ib network_view [] w = refl
  check_subnets-Keeps ib network_view (sub ∷ subs) w = elim (Option-cases (parse_prefix sub.cidr)) [
    | inl bad ↦ rw (bad, check_subnets)
    | inr (p, parsed) ↦
        rw (parsed, check_subnets)
          (if_holds-Keeps (ib.check_network_exists network_view p)
            (check_subnets kube ib network_view subs)
            (set_pool_condition kube (network_missing network_view p))
            (check_subnets-Keeps ib network_view subs) (λ w'. refl) w)
  ]

  check_dns_view-Keeps :
      (ib : Client S) (dns_view : String) (next : PoolAction S)
      → Keeps next
      → Keeps (check_dns_view kube ib dns_view next)
  unfolding check_dns_view
  check_dns_view-Keeps ib dns_view next k w = elim (Bool-cases (dns_view == "")) [
    | inl empty ↦ rw empty (k w)
    | inr given ↦ rw given (
        if_holds-Keeps (ib.check_dns_view_exists dns_view) next
          (set_pool_condition kube (dns_view_missing dns_view)) k (λ w'. refl) w)
  ]

  check_pool-Keeps : (ib : Client S) (pool : InfobloxIpPool) → Keeps (check_pool kube ib pool)
  unfolding check_pool
  check_pool-Keeps ib pool =
      if_holds-Keeps (ib.check_network_view_exists pool.spec.network_view)
        (check_dns_view kube ib (dns_view_of pool ib)
          (check_subnets kube ib pool.spec.network_view pool.spec.subnets))
        (set_pool_condition kube (network_view_missing pool.spec.network_view))
        (check_dns_view-Keeps ib (dns_view_of pool ib)
          (check_subnets kube ib pool.spec.network_view pool.spec.subnets)
          (check_subnets-Keeps ib pool.spec.network_view pool.spec.subnets))
        (λ w. refl)

  finalizers-default :
      (ib : Client S) (pool : InfobloxIpPool)
      → (default_network_view_for ib pool).finalizers ≡ pool.finalizers
  finalizers-default ib pool = ground arith

  module _ (operator_namespace : String) (new_client_fn : Config → Action S (Client S)) where
    reconcile-Keeps : Keeps (reconcile kube operator_namespace new_client_fn)
    unfolding reconcile
    reconcile-Keeps w =
        elim (Outcome-cases (
          get_infoblox_client_for_instance kube w.1.spec.instance_ref.name operator_namespace
            new_client_fn w.0)) [
              | inl (ib, s, e) ↦ rw e (
                  check_pool-Keeps ib (default_network_view_for ib w.1)
                    (s, default_network_view_for ib w.1)
                  ∙ finalizers-default ib w.1)
              | inr (inl (e₁, s, e)) ↦ rw e
              | inr (inr (s, e)) ↦ rw e
            ]

    finalizers_kept :
        (s : S) (pool : InfobloxIpPool)
        → is_marked pool ≡ false
        → (final (reconcile_fetched kube operator_namespace new_client_fn (s, pool))).1.finalizers
          ≡ (kube.add_finalizer protect_pool_finalizer pool.finalizers).0
    unfolding reconcile_fetched
    finalizers_kept s pool unmarked =
        let kept : InfobloxIpPool = record pool {
          finalizers = (kube.add_finalizer protect_pool_finalizer pool.finalizers).0;
        } in
        elim (Bool-cases (kube.add_finalizer protect_pool_finalizer pool.finalizers).1) [
          | inl changed ↦ rw (unmarked, changed)
          | inr same ↦ rw (unmarked, same) (reconcile-Keeps (s, kept))
        ]

    added_first :
        (s : S) (pool : InfobloxIpPool)
        → is_marked pool ≡ false
        → (kube.add_finalizer protect_pool_finalizer pool.finalizers).1 ≡ true
        → reconcile_fetched kube operator_namespace new_client_fn (s, pool)
          ≡ returns tt (
            s,
            record pool {
              finalizers = (kube.add_finalizer protect_pool_finalizer pool.finalizers).0;
            },
          )
    unfolding reconcile_fetched
    added_first s pool unmarked changed = rw (unmarked, changed)

    -- What is assumed of `AddFinalizer` is that the list then has the finalizer and all that it had,
    -- and nothing else, and that an answer of no change is true. Then a pool that is not marked for
    -- deletion has the protecting finalizer when the reconciler is done with it, however that ends,
    -- with all the finalizers that it had and no other. And if it did not have it before, the call
    -- ends without an error as soon as it is added: the world is as it was, and nothing of the pool
    -- is changed but its finalizers.
    pub reconcile_fetched-unmarked :
        (s : S) (pool : InfobloxIpPool)
        → AddsFinalizer kube.add_finalizer
        → is_marked pool ≡ false
        → ((f : String)
            → Memᴰ f
                (final
                  (reconcile_fetched kube operator_namespace new_client_fn (s, pool))).1.finalizers
              ↔ ((f ≡ protect_pool_finalizer) ⊎ Memᴰ f pool.finalizers))
          × (Memᴰ protect_pool_finalizer pool.finalizers
              ⊎ ((fs : List String) × (reconcile_fetched kube operator_namespace new_client_fn
                      (s, pool)
                    ≡ returns tt (s, record pool { finalizers = fs }))))
    reconcile_fetched-unmarked s pool adds unmarked =
        let answer = kube.add_finalizer protect_pool_finalizer pool.finalizers in
        let kept = finalizers_kept s pool unmarked in
        (
          (λ f. rw kept (adds.0 protect_pool_finalizer pool.finalizers f)),
          elim (Bool-cases answer.1) [
            | inl changed ↦ inr (answer.0, added_first s pool unmarked changed)
            | inr same ↦
                let there : Memᴰ protect_pool_finalizer answer.0 =
                  (adds.0 protect_pool_finalizer pool.finalizers protect_pool_finalizer).1
                    (inl refl) in
                let unchanged = adds.1 protect_pool_finalizer pool.finalizers same in
                inl (rw unchanged at there)
          ],
        )

    -- The three ways in which the reconciling of a pool that is marked for deletion ends. The
    -- finalizer goes only if the claims could be listed and none is left; otherwise the pool is as it
    -- was, and the call fails. Infoblox is not asked for anything.
    pub reconcile_fetched-marked :
        (s : S) (pool : InfobloxIpPool)
        → is_marked pool ≡ true
        → ((s₁ : S) × (list_claims_referencing_pool kube pool.namespace (pool_type_ref pool) s
              ≡ returns [] s₁)
            × (reconcile_fetched kube operator_namespace new_client_fn (s, pool)
                ≡ returns tt (
                  s₁,
                  record pool {
                    finalizers = (kube.remove_finalizer protect_pool_finalizer pool.finalizers).0;
                  },
                )))
          ⊎ (((c : IpAddressClaim) × (cs : List IpAddressClaim) × (s₁ : S)
                × (list_claims_referencing_pool kube pool.namespace (pool_type_ref pool) s
                    ≡ returns (c ∷ cs) s₁)
                × (reconcile_fetched kube operator_namespace new_client_fn (s, pool)
                    ≡ fails (plain in_use_message) (s₁, pool)))
              ⊎ ((e : Error) × (s₁ : S) × (list_claims_referencing_pool kube pool.namespace
                      (pool_type_ref pool)
                      s
                    ≡ fails e s₁)
                  × (reconcile_fetched kube operator_namespace new_client_fn (s, pool)
                      ≡ fails e (s₁, pool))))
    unfolding reconcile_fetched
    reconcile_fetched-marked s pool marked =
        elim (Outcome-cases
          (list_claims_referencing_pool kube pool.namespace (pool_type_ref pool) s)) [
            | inl ([], s₁, e) ↦ inl (s₁, e, ground arith)
            | inl (c ∷ cs, s₁, e) ↦ inr (inl (c, cs, s₁, e, rw (marked, e)))
            | inr (inl (e₁, s₁, e)) ↦ inr (inr (e₁, s₁, e, ground arith))
            | inr (inr (s₁, e)) ↦
                absurd (list_claims-no_panic kube pool.namespace (pool_type_ref pool) s s₁ e)
          ]
