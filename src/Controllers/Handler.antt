-- ===== src/Controllers/Handler.antt =====
-- internal/controllers/ipaddressclaim.go: the handler of a claim, its state and its constants.
use cluster_api_ipam_provide.Common.{
  ℕ, String, Option, none, some, List, [], ◌∷◌, map, string_eq, Error, plain, text, Action,
  value_at, join,
}
use cluster_api_ipam_provide.Netip.{Addr, Prefix}
use cluster_api_ipam_provide.Netip.Print.{addr_text}
use cluster_api_ipam_provide.Infoblox.Client.{Client}
use cluster_api_ipam_provide.Api.{Subnet, InfobloxIpPool, IpAddressClaim, IpAddress, GroupKind}

abbrev pub hostname_annotation : String
hostname_annotation = "ipam.cluster.x-k8s.io/hostname"

-- `InfobloxClaimHandler`: the claim, and what `FetchPool` fills in.
pub record Handler (S : Type 0) : Type 0 where
  pub claim : IpAddressClaim
  pub pool : Option InfobloxIpPool
  pub ib_client : Option (Client S)

-- A step of the handler, which changes the world and the handler.
abbrev pub HandlerAction : Type 0 → Type 0 → Type 0
HandlerAction S A = Action (S × Handler S) A

-- `m[key] = value`, for a map that may be nil; the code makes an empty one first.
abbrev pub set_annotation :
    String → String → Option (List (String × String)) → Option (List (String × String))
set_annotation key value none = some ((key, value) ∷ [])
set_annotation key value (some m) = some ((key, value) ∷ m)

abbrev pub annotation : String → Option (List (String × String)) → String
annotation key none = ""
annotation key (some m) = value_at key m

-- `h.claim.Annotations[hostnameAnnotation] = hostname`
abbrev pub annotated : {S : Type 0} → String → Handler S → Handler S
annotated hostname h =
    let claim : IpAddressClaim = h.claim in
    record h {
      claim = record claim {
        annotations = set_annotation hostname_annotation hostname claim.annotations;
      };
    }

-- `getHostnameResolver`
abbrev pub machine_kind : GroupKind
machine_kind = record { group = "cluster.x-k8s.io"; kind = "Machine" }

abbrev pub resolver_max_depth : ℕ
resolver_max_depth = 5

-- `ClaimHandlerFor`
abbrev pub claim_handler_for : {S : Type 0} → IpAddressClaim → Handler S
claim_handler_for claim = record { claim = claim; pool = none; ib_client = none }

-- The zero value of a pool, before it is fetched.
abbrev pub zero_pool : InfobloxIpPool
zero_pool = record {
  group = "";
  kind = "";
  name = "";
  namespace = "";
  annotations = [];
  finalizers = [];
  deletion_timestamp = none;
  spec = record {
    instance_ref = record { name = "" };
    subnets = [];
    network_view = "";
    dns_view = "";
    dns_zone = "";
  };
  conditions = [];
}

-- The fields of the address that an allocation fills in.
abbrev pub filled_in : IpAddress → Addr → Prefix → Subnet → IpAddress
filled_in address allocated subnet sub = record address {
  address = addr_text allocated;
  prefix = some subnet.bits;
  gateway = sub.gateway;
}

-- The error for which an allocation gives up: the errors of the subnets, or that there were none.
abbrev pub allocation_error : List Error → Error
allocation_error [] = plain "no (valid) subnets in IPPool"
allocation_error (e ∷ errs) = plain (join (map text (e ∷ errs)) "\n")

-- What `FetchPool` returns: the pool, if any, and the error, if any.
abbrev pub Fetched : Type 0
Fetched = Option InfobloxIpPool × Option Error

-- `GetPool`
abbrev pub get_pool : {S : Type 0} → Handler S → Option InfobloxIpPool
get_pool h = h.pool
