-- ===== src/Tests/Setup.antt =====
-- A start of the program where every call succeeds.
use cluster_api_ipam_provide.Common.{refl, Call, [], ok, false, returns, none}
use cluster_api_ipam_provide.Infoblox.Config.{Connection}
use cluster_api_ipam_provide.Infoblox.Wapi.{Wapi}
use cluster_api_ipam_provide.Setup.Manager.{ManagerFlags, Runtime}
use cluster_api_ipam_provide.Setup.{main, run_manager, setup_indexes, add_to_scheme}
use cluster_api_ipam_provide.Setup.Started.{IsStarted, main_iff}
use cluster_api_ipam_provide.Tests.World.{Server, wapi, kube, unsorted}

abbrev manager_flags : ManagerFlags
manager_flags = record {
  tls_min_version = "VersionTLS12";
  tls_cipher_suites = [];
  diagnostics_address = ":8443";
  insecure_diagnostics = false;
}

-- The namespaces of the cluster are watched that the flag names.
abbrev test_runtime : Runtime Server
test_runtime = record {
  add_to_scheme = λ group s. (ok tt, s);
  parse_flags = λ flags s. returns (record flags { watch_namespace = "ns" }) s;
  get_manager_options = λ flags s. (ok tt, s);
  get_config_or_die = λ s. returns tt s;
  new_manager = λ options s. (ok tt, s);
  register = λ r s. (ok tt, s);
  getenv = λ name s. "system";
  start = λ s. (ok tt, s);
}

abbrev connect : Connection → Call Server (Wapi Server)
connect c s = (ok wapi, s)

main_iff_example : IsStarted test_runtime kube unsorted connect manager_flags 9443 none none
unfolding main run_manager setup_indexes add_to_scheme
main_iff_example = (main_iff test_runtime kube unsorted connect manager_flags 9443 none none).0 refl
