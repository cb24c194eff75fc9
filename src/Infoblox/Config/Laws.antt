-- ===== src/Infoblox/Config/Laws.antt =====
-- Which secrets are accepted.
use text.Mathlib.TextEquality.{eq_iff}
use cluster_api_ipam_provide.Common.{
  ◌≡◌, ◌≢◌, ◌↔◌, ◌⊎◌, String, true, arith, ok, value_at, string_eq,
}
use cluster_api_ipam_provide.Infoblox.Config.{
  AuthConfig, SecretData, auth_config_from_secret_data, auth_config_of, is_usable,
}

-- The secret has a value for the key.
abbrev pub Has : String → SecretData → Type 0
Has key secret = value_at key secret ≢ ""

is_usable_iff :
    (secret : SecretData)
    → (is_usable (auth_config_of secret) ≡ true) ↔ (
        (Has "username" secret × Has "password" secret)
        ⊎ (Has "clientCert" secret × Has "clientKey" secret))
is_usable_iff secret = ground (
  arith,
  eq_iff (value_at "username" secret) "",
  eq_iff (value_at "password" secret) "",
  eq_iff (value_at "clientCert" secret) "",
  eq_iff (value_at "clientKey" secret) "",
)

-- A secret is accepted, with some configuration, exactly if it has a user name with a password, or a
-- certificate with a key, under the keys `username`, `password`, `clientCert` and `clientKey`, and
-- the configuration is the one that holds the secret's four values, each under its own name and a
-- missing one as the empty text.
pub auth_config_from_secret_data_iff :
    (secret : SecretData) (ac : AuthConfig)
    → (auth_config_from_secret_data secret ≡ ok ac) ↔ (
        ((Has "username" secret × Has "password" secret)
          ⊎ (Has "clientCert" secret × Has "clientKey" secret))
        × (ac.username ≡ value_at "username" secret)
        × (ac.password ≡ value_at "password" secret)
        × (ac.client_cert ≡ value_at "clientCert" secret)
        × (ac.client_key ≡ value_at "clientKey" secret))
unfolding auth_config_from_secret_data
auth_config_from_secret_data_iff secret ac =
    ((λ h. ground (arith, is_usable_iff secret)), λ h. ground (arith, is_usable_iff secret))
