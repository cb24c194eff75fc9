-- ===== src/Tests/Rules.antt =====
-- Configurations, records, references and checks, on concrete values.
use cluster_api_ipam_provide.Common.{◌≡◌, ◌≢◌, ◌↔◌, value_at, ◌⊎◌, refl, none, ok, cut}
use cluster_api_ipam_provide.Infoblox.Config.{auth_config_from_secret_data, connection_of}
use cluster_api_ipam_provide.Infoblox.Config.Laws.{auth_config_from_secret_data_iff, Has}
use cluster_api_ipam_provide.Pools.{list_claims_referencing_pool}
use cluster_api_ipam_provide.Pools.Laws.{list_claims_referencing_pool-ambiguous}
use cluster_api_ipam_provide.Controllers.Util.{config_for}
use cluster_api_ipam_provide.Controllers.Util.Laws.{connections_differ}
use cluster_api_ipam_provide.Controllers.Instance.{host_config_of}
use cluster_api_ipam_provide.Tests.World.{kube, secret, auth, instance_object}

auth_config_from_secret_data_iff_example : (auth_config_from_secret_data secret ≡ ok auth) ↔ (
    ((Has "username" secret × Has "password" secret)
      ⊎ (Has "clientCert" secret × Has "clientKey" secret))
    × (auth.username ≡ value_at "username" secret)
    × (auth.password ≡ value_at "password" secret)
    × (auth.client_cert ≡ value_at "clientCert" secret)
    × (auth.client_key ≡ value_at "clientKey" secret))
auth_config_from_secret_data_iff_example = auth_config_from_secret_data_iff secret auth

list_claims_referencing_pool-ambiguous_example :
    list_claims_referencing_pool kube "ns"
      (record { api_group = "a"; kind = "IPPool"; name = "2x" })
      none
    ≡ list_claims_referencing_pool kube "ns"
        (record { api_group = "b"; kind = "IPPool2"; name = "x" })
        none
list_claims_referencing_pool-ambiguous_example =
    list_claims_referencing_pool-ambiguous kube "ns" "a" "b" "IPPool" "2" "x" none

connections_differ_example :
    let validating =
      connection_of (record { host_config = host_config_of instance_object; auth_config = auth }) in
    let allocating = connection_of (config_for instance_object auth) in
    (validating ≢ allocating)
    × (validating.tls_verify ≡ "/ca.pem")
    × (allocating.tls_verify ≡ "true")
    × (validating.host ≡ "infoblox.example")
    × (validating.port ≡ "443")
unfolding cut
connections_differ_example = connections_differ instance_object auth refl (λ e. cc) (λ e. cc) refl
