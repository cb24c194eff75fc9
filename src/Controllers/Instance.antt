-- ===== src/Controllers/Instance.antt =====
-- internal/controllers/infobloxinstance.go: the reconciler of instances.
pub mod Checks
pub mod Patching
use cluster_api_ipam_provide.Common.{
  String, ◌<>◌, Bool, true, false, Option, none, some, ◌==◌, string_eq, if◌then◌else◌, Error, text,
  is_api_not_found, Outcome, returns, fails, panics, Action, call, pure, throw, try_catch, ◌>>=◌,
  ◌>>◌, lift, read, if_holds, Result, ok, err,
}
use cluster_api_ipam_provide.Infoblox.Config.{
  Config, HostConfig, AuthConfig, SecretData, auth_config_from_secret_data,
}
use cluster_api_ipam_provide.Infoblox.Client.{Client}
use cluster_api_ipam_provide.Api.{
  instance_conditions, set_instance_conditions, Condition, holds, fails_with,
  authentication_failed_reason, network_view_not_found_reason, dns_view_not_found_reason,
  configuration_valid_reason, InfobloxInstance,
}
use cluster_api_ipam_provide.Kube.{Kube}
use cluster_api_ipam_provide.Controllers.Patched.{patch_after}
use cluster_api_ipam_provide.Controllers.Pool.{quote}

-- A step of the reconciler: it changes the world and the instance that it has fetched.
abbrev pub InstanceAction : Type 0 → Type 0
InstanceAction S = Action (S × InfobloxInstance) (Unit {0})

-- The host configuration that the reconciler makes.
unfoldable pub host_config_of : InfobloxInstance → HostConfig
host_config_of inst = record {
  host = inst.spec.host;
  version = inst.spec.wapi_version;
  disable_tls_verification = inst.spec.disable_tls_verification;
  custom_ca_path = inst.spec.custom_ca_path;
  default_network_view = inst.spec.default_network_view;
  default_dns_view = inst.spec.default_dns_view;
}

-- The conditions for default views that Infoblox does not have.
abbrev pub view_missing : InfobloxInstance → Condition
view_missing inst =
    fails_with network_view_not_found_reason
      ("could not find default network view " <> quote inst.spec.default_network_view)

abbrev pub dns_missing : InfobloxInstance → Condition
dns_missing inst =
    fails_with dns_view_not_found_reason
      ("could not find default DNS view " <> quote inst.spec.default_dns_view)

module _ {S : Type 0} (kube : Kube S) where
  abbrev pub set_instance_condition : Condition → InstanceAction S
  set_instance_condition c w =
      returns tt (w.0, set_instance_conditions (kube.set_condition c (instance_conditions w.1)) w.1)

  -- A check that is left out for an empty name.
  abbrev pub check_if_named :
      String → (String → Action S Bool) → InstanceAction S → InstanceAction S → InstanceAction S
  check_if_named name test found missing =
      if name == "" then found else if_holds (test name) found missing

  -- `reconcile`, behind the creation of the client
  unfoldable pub check_instance : Client S → InfobloxInstance → InstanceAction S
  check_instance ib inst =
      check_if_named inst.spec.default_network_view ib.check_network_view_exists
        (check_if_named inst.spec.default_dns_view ib.check_dns_view_exists
          (set_instance_condition (
            holds configuration_valid_reason
              "Successfully connected to Infoblox instance and validated configuration"))
          (set_instance_condition (dns_missing inst)))
        (set_instance_condition (view_missing inst))

  module _ (operator_namespace : String) (new_client_fn : Config → Action S (Client S)) where
    -- `reconcile`, behind the check of the secret's data
    unfoldable pub connect_and_check : InfobloxInstance → AuthConfig → InstanceAction S
    connect_and_check inst ac =
        try_catch
          (lift (new_client_fn (record { host_config = host_config_of inst; auth_config = ac })))
          (λ ib. check_instance ib inst)
          (λ e. set_instance_condition (
            fails_with authentication_failed_reason
              ("could not create infoblox client: " <> text e)))

    -- `reconcile`, behind the fetching of the secret
    unfoldable pub use_secret : InfobloxInstance → SecretData → InstanceAction S
    use_secret inst secret = elim (auth_config_from_secret_data secret) [
      | ok ac ↦ connect_and_check inst ac
      | err e ↦ set_instance_condition (
          fails_with authentication_failed_reason
            ("the referenced settings secret is invalid: " <> text e))
    ]

    -- `reconcile`
    unfoldable pub reconcile : InstanceAction S
    reconcile = do
      inst ← read
      try_catch
          (lift (call (kube.get_secret operator_namespace inst.spec.credentials_secret_ref.name)))
          (use_secret inst)
          (λ e.
            if is_api_not_found e
            then set_instance_condition (
                fails_with authentication_failed_reason (
                  "the referenced settings secret "
                  <> (quote inst.spec.credentials_secret_ref.name
                      <> (" could not be found in namespace " <> quote operator_namespace))))
            else throw e)

    -- `Reconcile`; instances are named with no namespace.
    unfoldable pub reconcile_instance : String → Action S (Unit {0})
    reconcile_instance name =
        try_catch (call (kube.get_instance name))
          (λ inst. do
            call (kube.new_instance_patch_helper inst)
            λ s. patch_after kube.new_aggregate kube.patch_instance (reconcile (s, inst)))
          (λ e. if is_api_not_found e then pure tt else throw e)
