-- ===== src/Infoblox/Config.antt =====
-- pkg/infoblox/client.go: the configuration of a client and where its credentials come from.
pub mod Laws
use cluster_api_ipam_provide.Common.{
  Bool, not, ◌&&◌, ◌||◌, none, some, List, String, ◌==◌, string_eq, if◌then◌else◌, Result, ok, err,
  plain, value_at, cut,
}

-- Certificates and keys are byte strings; here they are texts.
pub record AuthConfig : Type 0 where
  pub username : String
  pub password : String
  pub client_cert : String
  pub client_key : String

pub record HostConfig : Type 0 where
  pub host : String
  pub version : String
  pub disable_tls_verification : Bool
  pub custom_ca_path : String
  pub default_network_view : String
  pub default_dns_view : String

pub record Config : Type 0 where
  pub host_config : HostConfig
  pub auth_config : AuthConfig

-- The data of a `Secret`.
abbrev pub SecretData : Type 0
SecretData = List (String × String)

abbrev pub secret_key_username : String
secret_key_username = "username"

abbrev pub secret_key_password : String
secret_key_password = "password"

abbrev pub secret_key_client_cert : String
secret_key_client_cert = "clientCert"

abbrev pub secret_key_client_key : String
secret_key_client_key = "clientKey"

abbrev pub is_set : String → Bool
is_set s = not (s == "")

abbrev pub is_usable : AuthConfig → Bool
is_usable a =
    (is_set a.username && is_set a.password) || (is_set a.client_cert && is_set a.client_key)

abbrev pub auth_config_of : SecretData → AuthConfig
auth_config_of data_map = record {
  username = value_at secret_key_username data_map;
  password = value_at secret_key_password data_map;
  client_cert = value_at secret_key_client_cert data_map;
  client_key = value_at secret_key_client_key data_map;
}

unfoldable pub auth_config_from_secret_data : SecretData → Result AuthConfig
auth_config_from_secret_data data_map =
    if is_usable (auth_config_of data_map)
    then ok (auth_config_of data_map)
    else err (
        plain
          "no usable pair of credentials found. provide either username/password or clientCert/clientKey")

-- What `NewClient` hands to the connector of the Infoblox library.
pub record Connection : Type 0 where
  pub host : String
  pub port : String
  pub version : String
  pub auth : AuthConfig
  pub tls_verify : String

-- `strings.SplitN(config.Host, ":", 2)`, with port 443 where there is one part only.
unfoldable pub host_and_port : String → String × String
host_and_port s = elim (cut s ":") [ none ↦ (s, "443") | some (h, p) ↦ (h, p) ]

unfoldable pub tls_verify_of : HostConfig → String
tls_verify_of hc =
    if hc.disable_tls_verification
    then "false"
    else if is_set hc.custom_ca_path
    then hc.custom_ca_path
    else "true"

unfoldable pub connection_of : Config → Connection
unfolding host_and_port tls_verify_of
connection_of c =
    let (host, port) = host_and_port c.host_config.host in
    record {
      host = host;
      port = port;
      version = c.host_config.version;
      auth = c.auth_config;
      tls_verify = tls_verify_of c.host_config;
    }
