-- ===== src/Tests/World.antt =====
-- A server that holds at most one host record, and a cluster around it, for runs on concrete input.
use cluster_api_ipam_provide.Common.{
  String, Bool, true, false, Option, none, some, List, [], ◌∷◌, map, ok, err, wapi_not_found, plain,
  Action, returns, elements, if◌then◌else◌, ◌==◌, string_eq, ◌||◌, ◌++◌,
}
use cluster_api_ipam_provide.Netip.{v4, Prefix}
use cluster_api_ipam_provide.Infoblox.Config.{AuthConfig, HostConfig, Config, SecretData}
use cluster_api_ipam_provide.Infoblox.Wapi.{HostRecordAddr, HostRecord, Wapi}
use cluster_api_ipam_provide.Infoblox.Client.{Client, client_over}
use cluster_api_ipam_provide.Api.{InfobloxIpPool, InfobloxInstance, OwnerReference, IpAddressClaim}
use cluster_api_ipam_provide.Kube.{Kube}
use cluster_api_ipam_provide.Hostname.{SortFunc}
use cluster_api_ipam_provide.Controllers.Handler.{Handler}

abbrev pub Server : Type 0
Server = Option HostRecord

abbrev pub entry : String → HostRecordAddr
entry s = record { address = some s; host = "" }

abbrev pub no_record : HostRecord
no_record = record {
  ref = "";
  name = none;
  network_view = "";
  enable_dns = none;
  view = none;
  zone = "";
  ipv4_addrs = none;
  ipv6_addrs = none;
}

-- The server gives 10.0.0.5 to every request for the subnet of the tests.
abbrev pub granted : HostRecordAddr → HostRecordAddr
granted ip = elim ip.address [
  | none ↦ ip
  | some s ↦
      if s == "func:nextavailableip:10.0.0.0/24,default"
      then record ip { address = some "10.0.0.5" }
      else ip
]

abbrev pub stored : HostRecord → HostRecord
stored hr = record hr { ipv4_addrs = some (map granted (elements hr.ipv4_addrs)) }

abbrev pub with_ref : HostRecord → HostRecord
with_ref hr = record hr { ref = "ref" }

abbrev pub wapi : Wapi Server
wapi = record {
  new_empty_host_record = no_record;
  new_host_record_ipv4_addr = λ a mac dhcp duid. entry a;
  new_host_record_ipv6_addr = λ a duid dhcp mac. entry a;
  find_host_records = λ q s. elim s [
    | none ↦ (err (wapi_not_found "not found"), none)
    | some hr ↦ (ok (with_ref hr ∷ []), some hr)
  ];
  get_host_record = λ ref q hr s. elim s [
    | none ↦ (err (wapi_not_found "not found"), none)
    | some found ↦ (ok (with_ref found), some found)
  ];
  create_object = λ hr s. (ok "ref", some (stored hr));
  update_object = λ hr ref s. (ok ref, some (stored hr));
  delete_object = λ ref s. (ok ref, none);
  get_network_view = λ v s. (ok tt, s);
  get_dns_view = λ v s. (err (plain "view not found"), s);
  get_network = λ v c six s. (ok tt, s);
  unmarshal_error = λ s. none;
}

abbrev pub host_config : HostConfig
host_config = record {
  host = "infoblox.example";
  version = "2.12";
  disable_tls_verification = false;
  custom_ca_path = "/ca.pem";
  default_network_view = "default";
  default_dns_view = "";
}

abbrev pub ib : Client Server
ib = client_over wapi host_config

abbrev pub subnet : Prefix
subnet = record { addr = v4 167772160; bits = 24 }

abbrev pub host_record : List HostRecordAddr → HostRecord
host_record ips = record no_record { ref = "ref"; name = some "host"; ipv4_addrs = some ips }

abbrev pub pool : InfobloxIpPool
pool = record {
  group = "ipam.cluster.x-k8s.io";
  kind = "InfobloxIPPool";
  name = "pool";
  namespace = "ns";
  annotations = [];
  finalizers = [];
  deletion_timestamp = none;
  spec = record {
    instance_ref = record { name = "instance" };
    subnets = record { cidr = "10.0.0.0/24"; gateway = "10.0.0.1" } ∷ [];
    network_view = "default";
    dns_view = "";
    dns_zone = "";
  };
  conditions = [];
}

abbrev pub secret : SecretData
secret = ("username", "user") ∷ ("password", "pass") ∷ []

abbrev pub auth : AuthConfig
auth = record { username = "user"; password = "pass"; client_cert = ""; client_key = "" }

abbrev pub instance_object : InfobloxInstance
instance_object = record {
  name = "instance";
  spec = record {
    host = "infoblox.example";
    port = "8443";
    wapi_version = "2.12";
    credentials_secret_ref = record { name = "secret" };
    default_network_view = "default";
    default_dns_view = "";
    disable_tls_verification = false;
    custom_ca_path = "/ca.pem";
  };
  conditions = [];
}

abbrev pub claim : IpAddressClaim
claim = record {
  api_version = "ipam.cluster.x-k8s.io/v1beta2";
  name = "host";
  namespace = "ns";
  annotations = none;
  owner_references =
      record { api_version = "infrastructure.cluster.x-k8s.io/v1"; kind = "VM"; name = "vm" } ∷ [];
  pool_ref = record { api_group = "ipam.cluster.x-k8s.io"; kind = "InfobloxIPPool"; name = "pool" };
  conditions = [];
}

abbrev pub machine_reference : OwnerReference
machine_reference = record {
  api_version = "cluster.x-k8s.io/v1beta1";
  kind = "Machine";
  name = "machine";
}

abbrev pub has_finalizer : String → List String → Bool
has_finalizer f [] = false
has_finalizer f (x ∷ xs) = x == f || has_finalizer f xs

abbrev pub add_if_missing : String → List String → List String × Bool
add_if_missing f fs = if has_finalizer f fs then (fs, false) else (fs ++ f ∷ [], true)

-- A cluster that answers with the given pool and the given claims.
abbrev pub cluster : {S : Type 0} → InfobloxIpPool → List IpAddressClaim → Bool → Kube S
cluster p claims unready = record {
  set_condition = λ c cs. c ∷ [];
  is_false = λ t cs. unready;
  add_finalizer = add_if_missing;
  remove_finalizer = λ f fs. ([], true);
  new_aggregate = λ e₀ e. e;
  parse_group = λ s. "ipam.cluster.x-k8s.io";
  group_kind_text = λ gk. gk.kind;
  get_pool = λ namespace name s. (ok p, s);
  get_instance = λ name s. (ok instance_object, s);
  get_secret = λ namespace name s. (ok secret, s);
  get_owner = λ api_version kind namespace name s.
      (ok (record { namespace = "ns"; owner_references = machine_reference ∷ [] }), s);
  list_claims = λ key namespace s. (ok claims, s);
  list_addresses = λ key namespace s. (ok [], s);
  new_pool_patch_helper = λ p' s. (ok tt, s);
  patch_pool = λ p' s. (ok tt, s);
  new_instance_patch_helper = λ i s. (ok tt, s);
  patch_instance = λ i s. (ok tt, s);
}

abbrev pub kube : Kube Server
kube = cluster pool [] false

-- The owners as they come.
abbrev pub unsorted : SortFunc
unsorted cmp os = os

abbrev pub handler : InfobloxIpPool → Handler Server
handler p = record { claim = claim; pool = some p; ib_client = some ib }

abbrev pub new_client_fn : Config → Action Server (Client Server)
new_client_fn config s = returns ib s
