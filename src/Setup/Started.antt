-- ===== src/Setup/Started.antt =====
-- When the program ends without an error, and what is registered with the manager by then.
use text.Mathlib.TextEquality.{eq_iff}
use cluster_api_ipam_provide.Common.{
  ◌≡◌, ◌↔◌, String, ℕ, List, [], ◌∷◌, ◌++◌, some, ok, returns, Call, Action, call, refl, wrap, ◌≢◌,
  ◌⊎◌, inl, inr, false, arith, string_eq,
}
use cluster_api_ipam_provide.Api.{GroupKind}
use cluster_api_ipam_provide.Infoblox.Config.{Connection}
use cluster_api_ipam_provide.Infoblox.Wapi.{Wapi}
use cluster_api_ipam_provide.Infoblox.Client.{new_client}
use cluster_api_ipam_provide.Hostname.{SortFunc}
use cluster_api_ipam_provide.Kube.{Kube}
use cluster_api_ipam_provide.Pools.{
  claim_references_pool_kind, address_references_pool_kind, ip_address_by_combined_pool_ref,
  ip_address_claim_by_combined_pool_ref,
}
use cluster_api_ipam_provide.Controllers.Pool.{reconcile_pool}
use cluster_api_ipam_provide.Controllers.Instance.{reconcile_instance}
use cluster_api_ipam_provide.Controllers.Claim.{fetch_pool, ensure_address, release_address}
use cluster_api_ipam_provide.Controllers.Handler.{claim_handler_for, get_pool}
use cluster_api_ipam_provide.Webhooks.{
  default_pool, validate_create, validate_update, validate_delete,
}
use cluster_api_ipam_provide.Setup.Manager.{
  Flags, ManagerFlags, Options, ProviderAdapter, Builder, ip_address_claims, ip_addresses,
  setup_claims, Registration, address_index, claim_index, claim_controller, instance_controller,
  pool_controller, pool_webhook, healthz, readyz, Runtime,
}
use cluster_api_ipam_provide.Setup.{
  default_flags, options_for, scheme_groups, or_exit, add_to_scheme, setup_indexes, run_manager,
  main,
}
use cluster_api_ipam_provide.Setup.Steps.{
  bind_iff, map_error_iff, call_iff, Succeed, add_to_scheme_iff, exit_iff, register_all, registered,
  register_all_iff,
}

module _ {S : Type 0} (runtime : Runtime S) (kube : Kube S) (sort_func : SortFunc)
    (connect : Connection → Call S (Wapi S)) where
  abbrev index_registrations : List (Registration S)
  index_registrations =
      address_index "index.poolRef" ip_address_by_combined_pool_ref
      ∷ claim_index "index.poolRef" ip_address_claim_by_combined_pool_ref
      ∷ []

  abbrev pools_of_provider : GroupKind
  pools_of_provider = record { group = "ipam.cluster.x-k8s.io"; kind = "InfobloxIPPool" }

  -- Claims that refer to pools of this provider are reconciled, one at a time, also when one of their
  -- addresses changes.
  abbrev claim_builder : Builder → Builder
  claim_builder b = record b {
    reconciled = some (record {
      kind = ip_address_claims;
      predicate = claim_references_pool_kind pools_of_provider;
    });
    max_concurrent_reconciles = 1;
    owned =
        b.owned
        ++ record {
          kind = ip_addresses;
          predicate = address_references_pool_kind pools_of_provider;
        }
          ∷ [];
  }

  -- The operations of the claims' handler, over this cluster, the connections to Infoblox and the
  -- namespace of the operator.
  abbrev claim_operations : String → ProviderAdapter S
  claim_operations pod_namespace = record {
    setup_with_manager = claim_builder;
    claim_handler_for = claim_handler_for;
    fetch_pool = fetch_pool kube pod_namespace (new_client connect);
    ensure_address = ensure_address kube sort_func;
    release_address = release_address kube sort_func;
    get_pool = get_pool;
  }

  -- What `main` registers behind the indexes, with its messages.
  abbrev named_registrations : String → String → List (String × Registration S)
  named_registrations watch_filter pod_namespace =
      (
        "unable to create controller",
        claim_controller watch_filter (claim_operations pod_namespace),
      )
      ∷ (
        "unable to create controller",
        instance_controller (reconcile_instance kube pod_namespace (new_client connect)),
      )
      ∷ (
        "unable to create controller",
        pool_controller (reconcile_pool kube pod_namespace (new_client connect)),
      )
      ∷ (
        "unable to create webhook",
        pool_webhook (record {
          default_pool = default_pool;
          validate_create = validate_create;
          validate_update = validate_update;
          validate_delete = validate_delete kube;
        }),
      )
      ∷ ("unable to set up health check", healthz "healthz")
      ∷ ("unable to set up ready check", readyz "readyz")
      ∷ []

  -- Everything was registered, and then the manager was started and ended without an error.
  pub record IsRun (flags : Flags) (s s' : S) : Type 0 where
    pub indexed : S
    pub complete : S
    pub indexes : Succeed runtime.register index_registrations s indexed
    pub others :
        Succeed runtime.register
          (registered runtime
            (named_registrations flags.watch_filter (runtime.getenv "NAMESPACE" indexed)))
          indexed
          complete
    pub started : runtime.start complete ≡ (ok tt, s')

  setup_indexes_iff :
      (s s' : S)
      → (setup_indexes runtime s ≡ returns tt s')
        ↔ Succeed runtime.register index_registrations s s'
  unfolding setup_indexes
  setup_indexes_iff s s' =
      let first =
        runtime.register (address_index "index.poolRef" ip_address_by_combined_pool_ref) in
      let second =
        runtime.register (claim_index "index.poolRef" ip_address_claim_by_combined_pool_ref) in
      let both = bind_iff (call first) (λ _. call second) s s' tt in
      (
        λ h.
            let (u, s₁, e, h₁) = both.0 h in
            (s₁, (call_iff first s s₁ tt).0 e, (s', (call_iff second s₁ s' tt).0 h₁, refl)),
        λ (s₁, e, (s₂, e₁, same)).
            both.1
              (tt, s₁, (call_iff first s s₁ tt).1 e, (call_iff second s₁ s' tt).1 (rw same at e₁)),
      )

  -- `run_manager` behind the indexes.
  abbrev behind_indexes : Flags → Action S (Unit {0})
  behind_indexes flags s =
      register_all runtime (named_registrations flags.watch_filter (runtime.getenv "NAMESPACE" s))
        (or_exit "problem running manager" (call runtime.start)) s

  run_manager_iff :
      (flags : Flags) (s s' : S)
      → (run_manager runtime kube sort_func connect flags s ≡ returns tt s') ↔ IsRun flags s s'
  unfolding run_manager setup_claims
  run_manager_iff flags s s' =
      let last = exit_iff runtime "problem running manager" runtime.start in
      let others = (λ (s₁ : S).
        register_all_iff runtime
          (named_registrations flags.watch_filter (runtime.getenv "NAMESPACE" s₁))
          (or_exit "problem running manager" (call runtime.start)) s₁ s') in
      let indexes = (λ (s₁ : S).
        map_error_iff (wrap "failed to setup indexes") (setup_indexes runtime) s s₁ tt) in
      let both =
        bind_iff (or_exit "failed to setup indexes" (setup_indexes runtime))
          (λ _. behind_indexes flags) s s' tt in
      (
        λ h.
            let (u, s₁, first, h₁) = both.0 h in
            let (s₂, more, h₂) = (others s₁).0 h₁ in
            record {
              indexed = s₁;
              complete = s₂;
              indexes = (setup_indexes_iff s s₁).0 ((indexes s₁).0 first);
              others = more;
              started = (last s₂ s' tt).0 h₂;
            },
        λ r. both.1 (
          tt,
          r.indexed,
          (indexes r.indexed).1 ((setup_indexes_iff s r.indexed).1 r.indexes),
          (others r.indexed).1 (r.complete, r.others, (last r.complete s' tt).1 r.started),
        ),
      )

  -- The values of flags that are not given: the probes on port 8081, no leader election, all
  -- namespaces, no filter, and the manager's and the webhook's own.
  abbrev flags_not_given : ManagerFlags → ℕ → Flags
  flags_not_given manager_flags default_port = record {
    probe_addr = ":8081";
    enable_leader_election = false;
    watch_namespace = "";
    watch_filter = "";
    manager = manager_flags;
    webhook = record { port = default_port; cert_dir = ""; cert_name = ""; key_name = "" };
  }

  -- The options of a manager that watches the namespace that the flags name, if they name one.
  pub record FollowsFlags (flags : Flags) (options : Options) : Type 0 where
    pub webhook : options.webhook ≡ flags.webhook
    pub probes : options.health_probe_bind_address ≡ flags.probe_addr
    pub election : options.leader_election ≡ flags.enable_leader_election
    pub election_id : options.leader_election_id ≡ "7bb7acb4.ipam.cluster.x-k8s.io"
    pub namespaces :
        ((flags.watch_namespace ≡ "") × (options.default_namespaces ≡ []))
        ⊎ ((flags.watch_namespace ≢ "") × (options.default_namespaces ≡ flags.watch_namespace ∷ []))

  options_for-FollowsFlags : (flags : Flags) → FollowsFlags flags (options_for flags)
  options_for-FollowsFlags flags = record {
    webhook = refl;
    probes = refl;
    election = refl;
    election_id = refl;
    namespaces = ground (arith, eq_iff flags.watch_namespace "");
  }

  FollowsFlags-options_for :
      (flags : Flags) (options : Options) → FollowsFlags flags options → options ≡ options_for flags
  FollowsFlags-options_for flags options f =
      let webhook = f.webhook in
      let probes = f.probes in
      let election = f.election in
      let election_id = f.election_id in
      elim f.namespaces [
        | inl (everywhere, none_named) ↦ ground (arith, eq_iff flags.watch_namespace "")
        | inr (one, named) ↦ ground (arith, eq_iff flags.watch_namespace "")
      ]

  -- The scheme was filled, the flags were read, a manager was made with their options, and it was
  -- run.
  pub record IsStarted (manager_flags : ManagerFlags) (default_port : ℕ) (s s' : S) : Type 0 where
    pub flags : Flags
    pub filled : S
    pub parsed : S
    pub optioned : S
    pub configured : S
    pub made : S
    pub options : Options
    pub scheme :
        Succeed runtime.add_to_scheme
          ("k8s.io/client-go/kubernetes/scheme" ∷ "sigs.k8s.io/cluster-api/api/ipam/v1beta2"
            ∷ "sigs.k8s.io/cluster-api/api/core/v1beta2"
            ∷ "sigs.k8s.io/cluster-api-ipam-provider-in-cluster/api/v1alpha2"
            ∷ "sigs.k8s.io/cluster-api-ipam-provider-in-cluster/api/v1alpha2"
            ∷ "github.com/telekom/cluster-api-ipam-provider-infoblox/api/v1alpha1" ∷ [])
          s
          filled
    pub parsing :
        runtime.parse_flags (flags_not_given manager_flags default_port) filled
        ≡ returns flags parsed
    pub optioning : runtime.get_manager_options flags.manager parsed ≡ (ok tt, optioned)
    pub configuring : runtime.get_config_or_die optioned ≡ returns tt configured
    pub following : FollowsFlags flags options
    pub making : runtime.new_manager options configured ≡ (ok tt, made)
    pub run : IsRun flags made s'

  -- The program ends without an error exactly if each of its steps succeeds in turn. The scheme is
  -- filled with the six groups. The flags are parsed over their defaults: the probes on port 8081, no
  -- leader election, no namespace and no filter, and the manager's and the webhook's own. The
  -- manager's options are valid, a cluster is configured, and a manager is made that has the webhook,
  -- the probes and the leader election of the flags, and watches the namespace that the flags name,
  -- or all if they name none. Both indexes are registered, then the controllers of claims, with the
  -- operations of the claims' handler and for claims and addresses of this provider's pools only, of
  -- instances and of pools, the webhook, the health check and the readiness check, for the flags'
  -- filter and the namespace that the environment names. And the manager, started after all of that
  -- only, ends without an error.
  pub main_iff :
      (manager_flags : ManagerFlags) (default_port : ℕ) (s s' : S)
      → (main runtime kube sort_func connect manager_flags default_port s ≡ returns tt s')
        ↔ IsStarted manager_flags default_port s s'
  unfolding main
  main_iff manager_flags default_port s s' = (
    λ h.
        let (u, s₁, h₁, rest₁) = (bind_iff (add_to_scheme runtime scheme_groups) _ s s' tt).0 h in
        let (flags, s₂, h₂, rest₂) =
          (bind_iff (runtime.parse_flags (default_flags manager_flags default_port)) _ s₁ s' tt).0
            rest₁ in
        let (u₃, s₃, h₃, rest₃) =
          (bind_iff
              (or_exit "unable to get manager options"
                (call (runtime.get_manager_options flags.manager)))
              _ s₂ s' tt).0
            rest₂ in
        let (u₄, s₄, h₄, rest₄) = (bind_iff runtime.get_config_or_die _ s₃ s' tt).0 rest₃ in
        let (u₅, s₅, h₅, rest₅) =
          (bind_iff
              (or_exit "unable to start manager" (call (runtime.new_manager (options_for flags)))) _
              s₄ s' tt).0
            rest₄ in
        record {
          flags = flags;
          filled = s₁;
          parsed = s₂;
          optioned = s₃;
          configured = s₄;
          made = s₅;
          options = options_for flags;
          following = options_for-FollowsFlags flags;
          scheme = (add_to_scheme_iff runtime scheme_groups s s₁).0 h₁;
          parsing = h₂;
          optioning =
              (exit_iff runtime "unable to get manager options"
                  (runtime.get_manager_options flags.manager) s₂ s₃ tt).0
                h₃;
          configuring = h₄;
          making =
              (exit_iff runtime "unable to start manager" (runtime.new_manager (options_for flags))
                  s₄ s₅ tt).0
                h₅;
          run = (run_manager_iff flags s₅ s').0 rest₅;
        },
    λ p.
        let scheme = (add_to_scheme_iff runtime scheme_groups s p.filled).1 p.scheme in
        let run = (run_manager_iff p.flags p.made s').1 p.run in
        let parsing = p.parsing in
        let optioning = p.optioning in
        let configuring = p.configuring in
        let making = rw (FollowsFlags-options_for p.flags p.options p.following) at p.making in
        rw (scheme, parsing, optioning, configuring, making, run),
  )
