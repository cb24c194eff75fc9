-- ===== src/Webhooks.antt =====
-- internal/webhooks/infobloxippool.go: the webhook of pools.
pub mod Laws
use cluster_api_ipam_provide.Common.{
  ℕ, suc, String, ◌<>◌, Bool, true, false, not, ◌&&◌, ◌||◌, Option, none, some, List, [], ◌∷◌, ◌++◌,
  ◌==◌, string_eq, if◌then◌else◌, Error, Outcome, returns, fails, panics, Action, is_empty,
}
use cluster_api_ipam_provide.Netip.{Addr, invalid, is4, is6, Prefix}
use cluster_api_ipam_provide.Netip.Cidr.{parse_cidr}
use cluster_api_ipam_provide.Netip.Parse.{parse_addr}
use cluster_api_ipam_provide.Netip.Print.{addr_text, prefix_text}
use cluster_api_ipam_provide.Api.{Subnet, InfobloxIpPool, IpAddress}
use cluster_api_ipam_provide.Kube.{Kube}
use cluster_api_ipam_provide.Pools.{list_addresses_in_use}
use cluster_api_ipam_provide.Controllers.Pool.{pool_type_ref}

abbrev pub skip_validate_delete_webhook_annotation : String
skip_validate_delete_webhook_annotation = "ipam.cluster.x-k8s.io/skip-validate-delete-webhook"

-- An object that is sent to the webhook: a pool, or another object, with the name of its type.
pub data Sent : Type 0 where
  pool : InfobloxIpPool → Sent
  other : String → Sent

-- The errors of `validate`, each with the value that is refused, and the subnet's position.
pub data FieldError : Type 0 where
  subnets_required : FieldError
  instance_name_required : String → FieldError
  cidr_not_valid cidr_not_parsed versions_mixed : ℕ → String → FieldError
  gateway_not_valid : ℕ → String → FieldError

-- How a request is answered; a panic is no answer.
pub data Verdict : Type 0 where
  allowed : Verdict
  invalid_fields : List FieldError → Verdict
  bad_request : String → Verdict
  internal_error : Error → Verdict
  panicked : Verdict

abbrev pub only_if : Bool → FieldError → List FieldError
only_if true e = e ∷ []
only_if false e = []

-- A failed parse leaves the zero address.
abbrev pub or_zero : Option Addr → Addr
or_zero none = invalid
or_zero (some a) = a

abbrev pub is_missing : {A : Type 0} → Option A → Bool
is_missing none = true
is_missing (some a) = false

abbrev pub versions_match : Addr → Addr → Bool
versions_match a b = (is4 a && is4 b) || (is6 a && is6 b)

-- One round of the loop; `none` is the dereference of the network that was not parsed.
unfoldable pub subnet_errors : ℕ → Subnet → Option (List FieldError)
subnet_errors i sub = elim (parse_cidr sub.cidr) [
  | none ↦ none
  | some network ↦
      let gateway_ip = parse_addr sub.gateway in
      let network_ip = parse_addr (addr_text network.addr) in
      some (
        only_if (not (prefix_text network == sub.cidr)) (cidr_not_valid i sub.cidr)
        ++ (only_if (is_missing gateway_ip) (gateway_not_valid i sub.gateway)
            ++ (only_if (is_missing network_ip) (cidr_not_parsed i sub.cidr)
                ++ only_if (not (versions_match (or_zero network_ip) (or_zero gateway_ip)))
                    (versions_mixed i sub.cidr))))
]

-- The loop over the subnets, from a position on.
unfoldable pub subnets_errors : ℕ → List Subnet → Option (List FieldError)
unfolding subnet_errors
subnets_errors i [] = some []
subnets_errors i (sub ∷ subs) = elim (subnet_errors i sub) [
  | none ↦ none
  | some here ↦ elim (subnets_errors (suc i) subs) [
    | none ↦ none
    | some later ↦ some (here ++ later)
  ]
]

abbrev pub verdict_on : List FieldError → Verdict
verdict_on [] = allowed
verdict_on (e ∷ errs) = invalid_fields (e ∷ errs)

-- `validate`
unfoldable pub validate : InfobloxIpPool → Verdict
unfolding subnets_errors
validate new_pool = elim (subnets_errors 0 new_pool.spec.subnets) [
  | none ↦ panicked
  | some errs ↦ verdict_on (
      only_if (is_empty new_pool.spec.subnets) subnets_required
      ++ (only_if (new_pool.spec.instance_ref.name == "")
            (instance_name_required new_pool.spec.instance_ref.name)
          ++ errs))
]

-- `Default`
abbrev pub default_pool : Sent → Option Error
default_pool sent = none

-- `ValidateCreate`
unfoldable pub validate_create : Sent → Verdict
unfolding validate
validate_create (pool p) = validate p
validate_create (other t) = bad_request ("expected an InfobloxIPPool but got a " <> t)

-- `ValidateUpdate`, of the old and the new object
unfoldable pub validate_update : Sent → Sent → Verdict
unfolding validate
validate_update old (other t) = bad_request ("expected an InfbloxIPPool but got a " <> t)
validate_update (other t) (pool p) = bad_request ("expected an InfbloxIPPool but got a " <> t)
validate_update (pool old) (pool p) = validate p

abbrev pub has_key : String → List (String × String) → Bool
has_key key [] = false
has_key key ((k, v) ∷ m) = k == key || has_key key m

abbrev pub verdict_on_delete : {S : Type 0} → Outcome S (List IpAddress) → Verdict
verdict_on_delete (returns in_use s) =
    if is_empty in_use
    then allowed
    else bad_request
        "Pool has IPAddresses allocated. Cannot delete Pool until all IPAddresses have been removed."
verdict_on_delete (fails e s) = internal_error e
verdict_on_delete (panics s) = panicked

-- `ValidateDelete`, in a state of the world
unfoldable pub validate_delete : {S : Type 0} → Kube S → Sent → S → Verdict
validate_delete kube (other t) s = bad_request ("expected an InfobloxIPPool but got a " <> t)
validate_delete kube (pool p) s =
    if has_key skip_validate_delete_webhook_annotation p.annotations
    then allowed
    else verdict_on_delete (list_addresses_in_use kube p.namespace (pool_type_ref p) s)
