-- ===== src/Tests/Reconcilers.antt =====
-- The reconcilers of pools and instances, on concrete objects.
use mathlib.Core.List.{Memᴰ}
use mathlib.Core.List.Memᴰ
use text.Mathlib.TextEquality.{eq_iff}
use cluster_api_ipam_provide.Common.{
  ◌≡◌, ◌⊎◌, ◌↔◌, refl, sym, true, String, arith, inr, Bool-cases, ◌==◌, string_eq, false, none,
  some, List, [], ◌∷◌, returns, fails, final, Error, plain, inl, has_suffix,
}
use cluster_api_ipam_provide.Infoblox.Client.{
  exists_unless_not_found, check_network_view_exists, check_dns_view_exists, check_network_exists,
}
use cluster_api_ipam_provide.Infoblox.Errors.{is_not_found}
use cluster_api_ipam_provide.Infoblox.Config.{auth_config_from_secret_data}
use cluster_api_ipam_provide.Api.{InfobloxIpPool, IpAddressClaim, Condition}
use cluster_api_ipam_provide.Pools.{list_claims_referencing_pool}
use cluster_api_ipam_provide.Kube.{Kube}
use cluster_api_ipam_provide.Controllers.Pool as Pool
use cluster_api_ipam_provide.Controllers.Pool.Checks as Checks
use cluster_api_ipam_provide.Controllers.Pool.Deletion.{
  AddsFinalizer, reconcile_fetched-marked, reconcile_fetched-unmarked,
}
use cluster_api_ipam_provide.Controllers.Pool.Patching.{reconcile_pool_iff}
use cluster_api_ipam_provide.Controllers.Instance.Patching.{reconcile_instance_iff}
use cluster_api_ipam_provide.Controllers.Patched.{MissingOrPatched}
use cluster_api_ipam_provide.Controllers.Instance as Instance
use cluster_api_ipam_provide.Controllers.Instance.Checks as InstanceChecks
use cluster_api_ipam_provide.Tests.World.{
  Server, has_finalizer, add_if_missing, ib, pool, claim, secret, auth, instance_object, cluster,
  kube, new_client_fn,
}

-- The server of the tests knows every network and network view, and no DNS view.
inventory : Checks.Inventory ib
unfolding check_network_view_exists check_dns_view_exists check_network_exists
    exists_unless_not_found is_not_found has_suffix
inventory = record {
  has_network_view = λ v. true;
  has_dns_view = λ v. false;
  has_network = λ v p. true;
  network_view_lem = λ v s. inl refl;
  dns_view_lem = λ v s. inl refl;
  network_lem = λ v p s. inl refl;
}

check_pool-Decides_example :
    Checks.Decides kube ib inventory
      (none, pool)
      (Pool.check_pool kube ib pool)
      (Checks.IsBacked kube ib inventory pool)
check_pool-Decides_example = Checks.check_pool-Decides kube ib inventory pool (none, pool)

abbrev marked : InfobloxIpPool
marked = record pool {
  finalizers = Pool.protect_pool_finalizer ∷ [];
  deletion_timestamp = some "now";
}

abbrev in_use : Kube Server
in_use = cluster marked (claim ∷ []) false

-- One claim still refers to the pool.
reconcile_fetched-marked_example :
    ((s₁ : Server) × (list_claims_referencing_pool in_use "ns" (Pool.pool_type_ref marked) none
        ≡ returns [] s₁)
      × (Pool.reconcile_fetched in_use "system" new_client_fn (none, marked)
          ≡ returns tt (s₁, record marked { finalizers = [] })))
    ⊎ (((c : IpAddressClaim) × (cs : List IpAddressClaim) × (s₁ : Server)
          × (list_claims_referencing_pool in_use "ns" (Pool.pool_type_ref marked) none
              ≡ returns (c ∷ cs) s₁)
          × (Pool.reconcile_fetched in_use "system" new_client_fn (none, marked)
              ≡ fails (plain Pool.in_use_message) (s₁, marked)))
        ⊎ ((e : Error) × (s₁ : Server) × (list_claims_referencing_pool in_use "ns"
                (Pool.pool_type_ref marked)
                none
              ≡ fails e s₁)
            × (Pool.reconcile_fetched in_use "system" new_client_fn (none, marked)
                ≡ fails e (s₁, marked))))
reconcile_fetched-marked_example =
    reconcile_fetched-marked in_use "system" new_client_fn none marked refl

has_finalizer-Memᴰ : (f : String) (fs : List String) → has_finalizer f fs ≡ true → Memᴰ f fs
has_finalizer-Memᴰ f [] h = absurd (ground arith)
has_finalizer-Memᴰ f (x ∷ xs) h = elim (Bool-cases (x == f)) [
  | inl here ↦ let same : x ≡ f = (eq_iff x f).0 here in Memᴰ.head (sym same)
  | inr apart ↦ Memᴰ.tail (has_finalizer-Memᴰ f xs (ground arith))
]

Memᴰ-one : (f x : String) → Memᴰ x (f ∷ []) → x ≡ f
Memᴰ-one f x (Memᴰ.head same) = same
Memᴰ-one f x (Memᴰ.tail m) = elim m [ ]

add_if_missing-AddsFinalizer : AddsFinalizer add_if_missing
add_if_missing-AddsFinalizer = (
  (λ f fs x. elim (Bool-cases (has_finalizer f fs)) [
    | inl there ↦ rw there (
      (λ m. inr m),
      (λ either. elim either [ inl same ↦ rw same (has_finalizer-Memᴰ f fs there) | inr m ↦ m ]),
    )
    | inr missing ↦ rw missing (
      (λ m. elim (Memᴰ.append_cases fs m) [
        | inl before ↦ inr before
        | inr last ↦ inl (Memᴰ-one f x last)
      ]),
      (λ either. elim either [
        | inl same ↦ Memᴰ.append_right fs (Memᴰ.head same)
        | inr m ↦ Memᴰ.append_left (f ∷ []) m
      ]),
    )
  ]),
  λ f fs unchanged. ground arith,
)

reconcile_fetched-unmarked_example :
    ((f : String)
      → Memᴰ f
          (final (Pool.reconcile_fetched kube "system" new_client_fn (none, pool))).1.finalizers
        ↔ ((f ≡ Pool.protect_pool_finalizer) ⊎ Memᴰ f pool.finalizers))
    × (Memᴰ Pool.protect_pool_finalizer pool.finalizers
        ⊎ ((fs : List String) × (Pool.reconcile_fetched kube "system" new_client_fn (none, pool)
              ≡ returns tt (none, record pool { finalizers = fs }))))
reconcile_fetched-unmarked_example =
    reconcile_fetched-unmarked kube "system" new_client_fn none pool add_if_missing-AddsFinalizer
      refl

reconcile-Decides_example :
    (c : Condition) × (Instance.reconcile kube "system" new_client_fn (none, instance_object)
      ≡ returns tt (none, record instance_object { conditions = c ∷ [] }))
    × ((c ≡ InstanceChecks.valid_condition)
        ↔ InstanceChecks.IsBacked kube inventory instance_object)
unfolding auth_config_from_secret_data
reconcile-Decides_example =
    InstanceChecks.reconcile-Decides kube "system" new_client_fn none none none instance_object
      secret auth ib inventory refl refl refl

-- The pool is there, and gets its finalizer.
reconcile_pool_iff_example :
    (Pool.reconcile_pool kube "system" new_client_fn "ns" "pool" none ≡ returns tt none)
    ↔ MissingOrPatched
        (kube.get_pool "ns" "pool")
        kube.new_pool_patch_helper
        kube.patch_pool
        (Pool.reconcile_fetched kube "system" new_client_fn)
        none
        none
reconcile_pool_iff_example = reconcile_pool_iff kube "system" new_client_fn "ns" "pool" none none

-- The instance is there, and gets its condition.
reconcile_instance_iff_example :
    (Instance.reconcile_instance kube "system" new_client_fn "instance" none ≡ returns tt none)
    ↔ MissingOrPatched
        (kube.get_instance "instance")
        kube.new_instance_patch_helper
        kube.patch_instance
        (Instance.reconcile kube "system" new_client_fn)
        none
        none
reconcile_instance_iff_example =
    reconcile_instance_iff kube "system" new_client_fn "instance" none none

succeeds : Pool.reconcile_pool kube "system" new_client_fn "ns" "pool" none ≡ returns tt none
unfolding Pool.reconcile_pool Pool.reconcile_fetched
succeeds = refl
