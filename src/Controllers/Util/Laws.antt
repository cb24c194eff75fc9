-- ===== src/Controllers/Util/Laws.antt =====
-- The DNS view that is used, and the two configurations that the repository makes of an instance.
use text.Mathlib.TextEquality.{eq_iff}
use text.Mathlib.TextLemmas.{cons-ne-nil, append-eq-nil_iff}
use cluster_api_ipam_provide.Common.{
  ◌≡◌, ◌≢◌, sym, ap, ◌∙◌, String, ◌<>◌, false, none, arith, string_eq, cut,
}
use cluster_api_ipam_provide.Infoblox.Config.{AuthConfig, Connection, connection_of}
use cluster_api_ipam_provide.Api.{InfobloxInstance}
use cluster_api_ipam_provide.Controllers.Util.{config_for, determine_dns_view}
use cluster_api_ipam_provide.Controllers.Instance.{host_config_of}

prefixed-ne-nil : (s : String) → ◌≢◌ {A = String} ("default." <> s) ""
prefixed-ne-nil s e = cons-ne-nil _ _ ((append-eq-nil_iff {p = "default."} {q = s}).0 e).0

-- There is always a DNS view to use.
pub determine_dns_view-ne-nil : (p i n : String) → determine_dns_view p i n ≢ ""
unfolding determine_dns_view
determine_dns_view-ne-nil p i n = grind (
  arith,
  prefixed-ne-nil n,
  eq_iff p "",
  eq_iff i "",
  eq_iff n "",
  eq_iff n "default",
  eq_iff "default" "",
)

-- For an instance that asks for TLS to be verified, that names a path of a custom certificate
-- authority (other than the text `true`), and whose host has no colon, the client that validates the
-- instance and the client that allocates addresses connect differently: the first verifies with that
-- path, the second with the text `true`, so not with the path. The first takes the host as it stands
-- and port 443, whatever port the instance names.
pub connections_differ :
    (inst : InfobloxInstance) (ac : AuthConfig)
    → inst.spec.disable_tls_verification ≡ false
    → inst.spec.custom_ca_path ≢ ""
    → inst.spec.custom_ca_path ≢ "true"
    → cut inst.spec.host ":" ≡ none
    → let validating =
        connection_of (record { host_config = host_config_of inst; auth_config = ac }) in
      let allocating = connection_of (config_for inst ac) in
      (validating ≢ allocating)
      × (validating.tls_verify ≡ inst.spec.custom_ca_path)
      × (allocating.tls_verify ≡ "true")
      × (validating.host ≡ inst.spec.host)
      × (validating.port ≡ "443")
unfolding connection_of config_for host_config_of
connections_differ inst ac verify custom other no_colon =
    let validating =
      connection_of (record { host_config = host_config_of inst; auth_config = ac }) in
    let allocating = connection_of (config_for inst ac) in
    let path : validating.tls_verify ≡ inst.spec.custom_ca_path =
      ground (arith, eq_iff inst.spec.custom_ca_path "", eq_iff "" "") in
    let plain_true : allocating.tls_verify ≡ "true" = ground (arith, eq_iff "" "") in
    (
      (λ same. other (sym path ∙ (ap (λ (c : Connection). c.tls_verify) same ∙ plain_true))),
      path,
      plain_true,
      ground arith,
      ground arith,
    )
