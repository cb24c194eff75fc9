-- ===== src/Controllers/Util.antt =====
-- internal/controllers/util.go and `determineDNSView`.
pub mod Laws
use cluster_api_ipam_provide.Common.{
  String, ◌<>◌, ◌||◌, ◌==◌, string_eq, if◌then◌else◌, Result, wrap, Action, Call, call, map_error,
  ◌>>=◌,
}
use cluster_api_ipam_provide.Infoblox.Config.{
  Config, HostConfig, AuthConfig, SecretData, auth_config_from_secret_data,
}
use cluster_api_ipam_provide.Infoblox.Client.{Client}
use cluster_api_ipam_provide.Api.{InfobloxInstance}
use cluster_api_ipam_provide.Kube.{Kube}

-- The configuration that `getInfobloxClientForInstance` makes; the path of a custom certificate
-- authority keeps its zero value there.
unfoldable pub config_for : InfobloxInstance → AuthConfig → Config
config_for instance_object ac = record {
  host_config = record {
    host = instance_object.spec.host <> (":" <> instance_object.spec.port);
    version = instance_object.spec.wapi_version;
    disable_tls_verification = instance_object.spec.disable_tls_verification;
    custom_ca_path = "";
    default_network_view = instance_object.spec.default_network_view;
    default_dns_view = instance_object.spec.default_dns_view;
  };
  auth_config = ac;
}

-- A value of foreign or pure code as a step.
abbrev pub of_result : {S A : Type 0} → Result A → Call S A
of_result r s = (r, s)

-- `getInfobloxClientForInstance`
unfoldable pub get_infoblox_client_for_instance :
    {S : Type 0} → Kube S → String → String → (Config → Action S (Client S)) → Action S (Client S)
unfolding config_for
get_infoblox_client_for_instance kube name secret_namespace new_client_fn = do
  inst ← map_error (wrap "failed to fetch instance") (call (kube.get_instance name))
  secret ←
      map_error (wrap "failed to fetch secret")
        (call (kube.get_secret secret_namespace inst.spec.credentials_secret_ref.name))
  ac ←
      map_error (wrap "credentials secret is invalid")
        (call (of_result (auth_config_from_secret_data secret)))
  new_client_fn (config_for inst ac)

-- `determineDNSView`
unfoldable pub determine_dns_view : String → String → String → String
determine_dns_view pool_dns_view instance_default_dns_view network_view =
    if pool_dns_view == ""
    then if instance_default_dns_view == ""
      then if network_view == "" || network_view == "default"
        then "default"
        else "default." <> network_view
      else instance_default_dns_view
    else pool_dns_view
