-- ===== src/Controllers/Pool/Patching.antt =====
-- `Reconcile` of a pool as a whole: what is fetched, what is patched, and when it succeeds.
use cluster_api_ipam_provide.Common.{◌≡◌, ◌↔◌, String, returns, Action}
use cluster_api_ipam_provide.Infoblox.Config.{Config}
use cluster_api_ipam_provide.Infoblox.Client.{Client}
use cluster_api_ipam_provide.Kube.{Kube}
use cluster_api_ipam_provide.Controllers.Pool.{reconcile_fetched, reconcile_pool}
use cluster_api_ipam_provide.Controllers.Patched.{MissingOrPatched, run_iff}

module _ {S : Type 0} (kube : Kube S) (operator_namespace : String)
    (new_client_fn : Config → Action S (Client S)) (namespace name : String) where
  -- The reconciler succeeds in two cases only: the pool does not exist, and nothing else was asked;
  -- or its body succeeded, and the pool, with all that the body has changed of it, was patched.
  pub reconcile_pool_iff :
      (s s' : S)
      → (reconcile_pool kube operator_namespace new_client_fn namespace name s ≡ returns tt s')
        ↔ MissingOrPatched
            (kube.get_pool namespace name)
            kube.new_pool_patch_helper
            kube.patch_pool
            (reconcile_fetched kube operator_namespace new_client_fn)
            s
            s'
  unfolding reconcile_pool
  reconcile_pool_iff =
      run_iff (kube.get_pool namespace name) kube.new_pool_patch_helper kube.patch_pool
        (reconcile_fetched kube operator_namespace new_client_fn) kube.new_aggregate
