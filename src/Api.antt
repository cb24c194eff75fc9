-- ===== src/Api.antt =====
-- The objects of the cluster that the code reads and writes: the types of api/v1alpha1, and of the
-- types of Cluster API and Kubernetes the fields that the code uses.
use cluster_api_ipam_provide.Common.{ℕ, String, Bool, List, Option}

-- The one type of condition that the code uses, `clusterv1.ReadyCondition`.
pub data ConditionType : Type 0 where
  ready : ConditionType

pub data ConditionStatus : Type 0 where
  condition_true condition_false : ConditionStatus

-- `metav1.Condition`
pub record Condition : Type 0 where
  pub type : ConditionType
  pub status : ConditionStatus
  pub reason : String
  pub message : String

-- api/v1alpha1/condition_consts.go
abbrev pub ready_reason : String
ready_reason = "Ready"

abbrev pub pool_not_ready_reason : String
pool_not_ready_reason = "PoolNotReady"

abbrev pub address_allocated_reason : String
address_allocated_reason = "AddressAllocated"

abbrev pub allocation_failed_reason : String
allocation_failed_reason = "AllocationFailed"

abbrev pub authentication_failed_reason : String
authentication_failed_reason = "AuthenticationFailed"

abbrev pub network_view_not_found_reason : String
network_view_not_found_reason = "NetworkViewNotFound"

abbrev pub dns_view_not_found_reason : String
dns_view_not_found_reason = "DNSViewNotFound"

abbrev pub network_not_found_reason : String
network_not_found_reason = "NetworkNotFound"

abbrev pub configuration_valid_reason : String
configuration_valid_reason = "ConfigurationValid"

-- A condition with status true, or with status false.
abbrev pub holds : String → String → Condition
holds reason message = record {
  type = ready;
  status = condition_true;
  reason = reason;
  message = message;
}

abbrev pub fails_with : String → String → Condition
fails_with reason message = record {
  type = ready;
  status = condition_false;
  reason = reason;
  message = message;
}

pub record InstanceReference : Type 0 where
  pub name : String

pub record Subnet : Type 0 where
  pub cidr : String
  pub gateway : String

pub record InfobloxIpPoolSpec : Type 0 where
  pub instance_ref : InstanceReference
  pub subnets : List Subnet
  pub network_view : String
  pub dns_view : String
  pub dns_zone : String

-- The group and kind stand for the `TypeMeta`; a deletion timestamp is some text.
pub record InfobloxIpPool : Type 0 where
  pub group : String
  pub kind : String
  pub name : String
  pub namespace : String
  pub annotations : List (String × String)
  pub finalizers : List String
  pub deletion_timestamp : Option String
  pub spec : InfobloxIpPoolSpec
  pub conditions : List Condition

-- `GetConditions` and `SetConditions` of a pool
abbrev pub pool_conditions : InfobloxIpPool → List Condition
pool_conditions pool = pool.conditions

abbrev pub set_pool_conditions : List Condition → InfobloxIpPool → InfobloxIpPool
set_pool_conditions conditions pool = record pool { conditions = conditions }

pub record CredentialsReference : Type 0 where
  pub name : String

pub record InfobloxInstanceSpec : Type 0 where
  pub host : String
  pub port : String
  pub wapi_version : String
  pub credentials_secret_ref : CredentialsReference
  pub default_network_view : String
  pub default_dns_view : String
  pub disable_tls_verification : Bool
  pub custom_ca_path : String

pub record InfobloxInstance : Type 0 where
  pub name : String
  pub spec : InfobloxInstanceSpec
  pub conditions : List Condition

-- `GetConditions` and `SetConditions` of an instance
abbrev pub instance_conditions : InfobloxInstance → List Condition
instance_conditions inst = inst.conditions

abbrev pub set_instance_conditions : List Condition → InfobloxInstance → InfobloxInstance
set_instance_conditions conditions inst = record inst { conditions = conditions }

-- `metav1.OwnerReference` and `metav1.GroupKind`
pub record OwnerReference : Type 0 where
  pub api_version : String
  pub kind : String
  pub name : String

-- `metav1.GroupVersion`, `schema.GroupVersion`
pub record GroupVersion : Type 0 where
  pub group : String
  pub version : String

-- api/v1alpha1/groupversion_info.go, `GroupVersion`
abbrev pub group_version : GroupVersion
group_version = record { group = "ipam.cluster.x-k8s.io"; version = "v1alpha1" }

pub record GroupKind : Type 0 where
  pub group : String
  pub kind : String

-- `ipamv1.IPPoolReference`
pub record IpPoolReference : Type 0 where
  pub api_group : String
  pub kind : String
  pub name : String

-- `ipamv1.IPAddressClaim`; a nil map of annotations is `none`.
pub record IpAddressClaim : Type 0 where
  pub api_version : String
  pub name : String
  pub namespace : String
  pub annotations : Option (List (String × String))
  pub owner_references : List OwnerReference
  pub pool_ref : IpPoolReference
  pub conditions : List Condition

-- `ipamv1.IPAddress`
pub record IpAddress : Type 0 where
  pub api_version : String
  pub pool_ref : IpPoolReference
  pub address : String
  pub prefix : Option ℕ
  pub gateway : String

-- What the resolvers read of an object: a claim, or an `unstructured.Unstructured`.
pub record OwnedObject : Type 0 where
  pub namespace : String
  pub owner_references : List OwnerReference
