-- ===== src/Setup/Manager.antt =====
-- What main.go calls of controller-runtime, Cluster API and pflag, and what it passes to them.
use cluster_api_ipam_provide.Common.{
  String, Bool, ℕ, Option, some, List, [], ◌∷◌, ◌++◌, Error, Call, Action,
}
use cluster_api_ipam_provide.Api.{
  group_version, InfobloxIpPool, IpAddressClaim, IpAddress, GroupKind,
}
use cluster_api_ipam_provide.Pools.{Event, claim_references_pool_kind, address_references_pool_kind}
use cluster_api_ipam_provide.Controllers.Handler.{Handler, HandlerAction, Fetched}
use cluster_api_ipam_provide.Webhooks.{Sent, Verdict}

-- `flags.ManagerOptions`: the minimal version of TLS, the cipher suites, and the diagnostics.
pub record ManagerFlags : Type 0 where
  pub tls_min_version : String
  pub tls_cipher_suites : List String
  pub diagnostics_address : String
  pub insecure_diagnostics : Bool

-- `webhook.Options`
pub record WebhookOptions : Type 0 where
  pub port : ℕ
  pub cert_dir : String
  pub cert_name : String
  pub key_name : String

-- The variables behind the flags.
pub record Flags : Type 0 where
  pub probe_addr : String
  pub enable_leader_election : Bool
  pub watch_namespace : String
  pub watch_filter : String
  pub manager : ManagerFlags
  pub webhook : WebhookOptions

-- `ctrl.Options`; the scheme, the metrics and TLS settings are in the world.
pub record Options : Type 0 where
  pub webhook : WebhookOptions
  pub health_probe_bind_address : String
  pub leader_election : Bool
  pub leader_election_id : String
  pub default_namespaces : List String

-- A `ctrl.Builder`, as far as the adapter uses it.
pub data WatchedKind : Type 0 where
  ip_address_claims : WatchedKind
  ip_addresses : WatchedKind

pub record Watched : Type 0 where
  pub kind : WatchedKind
  pub predicate : Event → Bool

pub record Builder : Type 0 where
  pub reconciled : Option Watched
  pub max_concurrent_reconciles : ℕ
  pub owned : List Watched

abbrev pub infoblox_ip_pool_kind : GroupKind
infoblox_ip_pool_kind = record { group = group_version.group; kind = "InfobloxIPPool" }

-- `InfobloxProviderAdapter.SetupWithManager`
unfoldable pub setup_claims : Builder → Builder
setup_claims b = record b {
  reconciled = some (record {
    kind = ip_address_claims;
    predicate = claim_references_pool_kind infoblox_ip_pool_kind;
  });
  max_concurrent_reconciles = 1;
  owned =
      b.owned
      ++ record {
        kind = ip_addresses;
        predicate = address_references_pool_kind infoblox_ip_pool_kind;
      }
        ∷ [];
}

-- `ipamutil.ProviderAdapter` with the `ipamutil.ClaimHandler` that it makes for a claim.
pub record ProviderAdapter (S : Type 0) : Type 0 where
  pub setup_with_manager : Builder → Builder
  pub claim_handler_for : IpAddressClaim → Handler S
  pub fetch_pool : HandlerAction S Fetched
  pub ensure_address : IpAddress → HandlerAction S IpAddress
  pub release_address : HandlerAction S (Unit {0})
  pub get_pool : Handler S → Option InfobloxIpPool

-- `webhook.CustomDefaulter` and `webhook.CustomValidator`
pub record PoolWebhook (S : Type 0) : Type 0 where
  pub default_pool : Sent → Option Error
  pub validate_create : Sent → Verdict
  pub validate_update : Sent → Sent → Verdict
  pub validate_delete : Sent → S → Verdict

-- What is registered with a manager.
pub data Registration (S : Type 0) : Type 0 where
  address_index : String → (IpAddress → List String) → Registration S
  claim_index : String → (IpAddressClaim → List String) → Registration S
  claim_controller : String → ProviderAdapter S → Registration S
  instance_controller : (String → Action S (Unit {0})) → Registration S
  pool_controller : (String → String → Action S (Unit {0})) → Registration S
  pool_webhook : PoolWebhook S → Registration S
  healthz : String → Registration S
  readyz : String → Registration S

-- The foreign calls; the manager is in the world.
pub record Runtime (S : Type 0) : Type 0 where
  pub add_to_scheme : String → Call S (Unit {0})
  -- `pflag.Parse`, over the values that the variables have; it may exit
  pub parse_flags : Flags → Action S Flags
  -- `flags.GetManagerOptions`
  pub get_manager_options : ManagerFlags → Call S (Unit {0})
  -- `ctrl.GetConfigOrDie`, which may exit
  pub get_config_or_die : Action S (Unit {0})
  -- `ctrl.NewManager`
  pub new_manager : Options → Call S (Unit {0})
  -- `IndexField`, `SetupWithManager` of `ClaimReconciler`, `Complete`, `AddHealthzCheck` and
  -- `AddReadyzCheck`
  pub register : Registration S → Call S (Unit {0})
  -- `os.Getenv`
  pub getenv : String → S → String
  -- `mgr.Start`
  pub start : Call S (Unit {0})
