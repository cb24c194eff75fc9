-- ===== src/Setup.antt =====
-- main.go, SetupIndexes of internal/index/index.go, and the functions SetupWithManager of the
-- reconcilers and the webhook: how the program is put together.
pub mod Manager
pub mod Steps
pub mod Started
use cluster_api_ipam_provide.Common.{
  String, Bool, false, ℕ, List, [], ◌∷◌, ◌==◌, string_eq, if◌then◌else◌, wrap, returns, Call,
  Action, call, pure, crash, try_catch, map_error, ◌>>=◌, ◌>>◌,
}
use cluster_api_ipam_provide.Infoblox.Config.{Connection}
use cluster_api_ipam_provide.Infoblox.Wapi.{Wapi}
use cluster_api_ipam_provide.Infoblox.Client.{new_client}
use cluster_api_ipam_provide.Hostname.{SortFunc}
use cluster_api_ipam_provide.Kube.{Kube}
use cluster_api_ipam_provide.Pools.{
  ip_address_by_combined_pool_ref, ip_address_claim_by_combined_pool_ref,
}
use cluster_api_ipam_provide.Controllers.Pool.{reconcile_pool}
use cluster_api_ipam_provide.Controllers.Instance.{reconcile_instance}
use cluster_api_ipam_provide.Controllers.Claim.{fetch_pool, ensure_address, release_address}
use cluster_api_ipam_provide.Controllers.Handler.{claim_handler_for, get_pool}
use cluster_api_ipam_provide.Webhooks.{
  default_pool, validate_create, validate_update, validate_delete,
}
use cluster_api_ipam_provide.Setup.Manager.{
  Flags, ManagerFlags, Options, setup_claims, ProviderAdapter, Registration, address_index,
  claim_index, claim_controller, instance_controller, pool_controller, pool_webhook, healthz,
  readyz, Runtime,
}

-- The fields of the indexes.
abbrev pub ip_address_pool_ref_combined_field : String
ip_address_pool_ref_combined_field = "index.poolRef"

abbrev pub ip_address_claim_pool_ref_combined_field : String
ip_address_claim_pool_ref_combined_field = "index.poolRef"

-- The values of the flags where none is given, over those of the manager's and webhook's flags.
abbrev pub default_flags : ManagerFlags → ℕ → Flags
default_flags manager default_port = record {
  probe_addr = ":8081";
  enable_leader_election = false;
  watch_namespace = "";
  watch_filter = "";
  manager = manager;
  webhook = record { port = default_port; cert_dir = ""; cert_name = ""; key_name = "" };
}

-- The options of the manager.
abbrev pub options_for : Flags → Options
options_for flags = record {
  webhook = flags.webhook;
  health_probe_bind_address = flags.probe_addr;
  leader_election = flags.enable_leader_election;
  leader_election_id = "7bb7acb4.ipam.cluster.x-k8s.io";
  default_namespaces = if flags.watch_namespace == "" then [] else flags.watch_namespace ∷ [];
}

-- The groups of types that `init` adds to the scheme, one of them twice.
abbrev pub scheme_groups : List String
scheme_groups =
    "k8s.io/client-go/kubernetes/scheme" ∷ "sigs.k8s.io/cluster-api/api/ipam/v1beta2"
    ∷ "sigs.k8s.io/cluster-api/api/core/v1beta2"
    ∷ "sigs.k8s.io/cluster-api-ipam-provider-in-cluster/api/v1alpha2"
    ∷ "sigs.k8s.io/cluster-api-ipam-provider-in-cluster/api/v1alpha2"
    ∷ "github.com/telekom/cluster-api-ipam-provider-infoblox/api/v1alpha1" ∷ []

module _ {S : Type 0} where
  -- `utilruntime.Must` panics at an error.
  abbrev pub must : Call S (Unit {0}) → Action S (Unit {0})
  must c = try_catch (call c) pure (λ e. crash)

  -- At an error, `main` logs the message with it and exits with status 1.
  abbrev pub or_exit {ℓ} : {A : Type ℓ} → String → Action S A → Action S A
  or_exit message m = map_error (wrap message) m

module _ {S : Type 0} (runtime : Runtime S) where
  -- `init`
  unfoldable pub add_to_scheme : List String → Action S (Unit {0})
  add_to_scheme [] = pure tt
  add_to_scheme (group ∷ groups) = do must (runtime.add_to_scheme group); add_to_scheme groups

  -- `SetupIndexes`
  unfoldable pub setup_indexes : Action S (Unit {0})
  setup_indexes = do
    call (
        runtime.register
          (address_index ip_address_pool_ref_combined_field ip_address_by_combined_pool_ref))
    call (
        runtime.register (
          claim_index ip_address_claim_pool_ref_combined_field
            ip_address_claim_by_combined_pool_ref))

  module _ (kube : Kube S) (sort_func : SortFunc) (connect : Connection → Call S (Wapi S)) where
    -- The adapter for claims that `main` makes.
    abbrev pub claim_adapter : String → ProviderAdapter S
    claim_adapter pod_namespace = record {
      setup_with_manager = setup_claims;
      claim_handler_for = claim_handler_for;
      fetch_pool = fetch_pool kube pod_namespace (new_client connect);
      ensure_address = ensure_address kube sort_func;
      release_address = release_address kube sort_func;
      get_pool = get_pool;
    }

    -- `SetupWithManager` of the reconciler of claims, as `main` makes it
    abbrev pub setup_claim_reconciler : String → String → Action S (Unit {0})
    setup_claim_reconciler watch_filter pod_namespace =
        call (runtime.register (claim_controller watch_filter (claim_adapter pod_namespace)))

    -- `SetupWithManager` of the reconciler of instances, as `main` makes it
    abbrev pub setup_instance_reconciler : String → Action S (Unit {0})
    setup_instance_reconciler pod_namespace = call (
        runtime.register
          (instance_controller (reconcile_instance kube pod_namespace (new_client connect))))

    -- `SetupWithManager` of the reconciler of pools, as `main` makes it
    abbrev pub setup_pool_reconciler : String → Action S (Unit {0})
    setup_pool_reconciler pod_namespace = call (
        runtime.register (pool_controller (reconcile_pool kube pod_namespace (new_client connect))))

    -- `SetupWebhookWithManager`
    abbrev pub setup_webhook : Action S (Unit {0})
    setup_webhook = call (
        runtime.register (
          pool_webhook (record {
            default_pool = default_pool;
            validate_create = validate_create;
            validate_update = validate_update;
            validate_delete = validate_delete kube;
          })))

    -- `main` behind the making of the manager
    unfoldable pub run_manager : Flags → Action S (Unit {0})
    unfolding setup_indexes
    run_manager flags = do
      or_exit "failed to setup indexes" setup_indexes
      pod_namespace ← λ s. returns (runtime.getenv "NAMESPACE" s) s
      or_exit "unable to create controller"
          (setup_claim_reconciler flags.watch_filter pod_namespace)
      or_exit "unable to create controller" (setup_instance_reconciler pod_namespace)
      or_exit "unable to create controller" (setup_pool_reconciler pod_namespace)
      or_exit "unable to create webhook" setup_webhook
      or_exit "unable to set up health check" (call (runtime.register (healthz "healthz")))
      or_exit "unable to set up ready check" (call (runtime.register (readyz "readyz")))
      or_exit "problem running manager" (call runtime.start)

    -- `init` and `main`
    unfoldable pub main : ManagerFlags → ℕ → Action S (Unit {0})
    unfolding run_manager add_to_scheme
    main manager_flags default_port = do
      add_to_scheme scheme_groups
      flags ← runtime.parse_flags (default_flags manager_flags default_port)
      or_exit "unable to get manager options" (call (runtime.get_manager_options flags.manager))
      runtime.get_config_or_die
      or_exit "unable to start manager" (call (runtime.new_manager (options_for flags)))
      run_manager flags
