-- ===== src/Controllers/Instance/Patching.antt =====
-- `Reconcile` of an instance as a whole: what is fetched, what is patched, and when it succeeds.
use cluster_api_ipam_provide.Common.{◌≡◌, ◌↔◌, String, returns, Action}
use cluster_api_ipam_provide.Infoblox.Config.{Config}
use cluster_api_ipam_provide.Infoblox.Client.{Client}
use cluster_api_ipam_provide.Kube.{Kube}
use cluster_api_ipam_provide.Controllers.Instance.{reconcile, reconcile_instance}
use cluster_api_ipam_provide.Controllers.Patched.{MissingOrPatched, run_iff}

module _ {S : Type 0} (kube : Kube S) (operator_namespace : String)
    (new_client_fn : Config → Action S (Client S)) (name : String) where
  -- The reconciler succeeds in two cases only: the instance does not exist, and nothing else was
  -- asked; or its body succeeded, and the instance, with all that the body has changed of it, was
  -- patched.
  pub reconcile_instance_iff :
      (s s' : S)
      → (reconcile_instance kube operator_namespace new_client_fn name s ≡ returns tt s')
        ↔ MissingOrPatched
            (kube.get_instance name)
            kube.new_instance_patch_helper
            kube.patch_instance
            (reconcile kube operator_namespace new_client_fn)
            s
            s'
  unfolding reconcile_instance
  reconcile_instance_iff =
      run_iff (kube.get_instance name) kube.new_instance_patch_helper kube.patch_instance
        (reconcile kube operator_namespace new_client_fn) kube.new_aggregate
