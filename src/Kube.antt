-- ===== src/Kube.antt =====
-- What the code calls of Kubernetes, controller-runtime and Cluster API, over a world `S`. The
-- operations are parameters.
use cluster_api_ipam_provide.Common.{String, Bool, List, Option, Error, Call}
use cluster_api_ipam_provide.Infoblox.Config.{SecretData}
use cluster_api_ipam_provide.Api.{
  Condition, ConditionType, InfobloxIpPool, InfobloxInstance, IpAddressClaim, IpAddress,
  OwnedObject, GroupKind,
}

pub record Kube (S : Type 0) : Type 0 where
  -- `conditions.Set` and `conditions.IsFalse`
  pub set_condition : Condition → List Condition → List Condition
  pub is_false : ConditionType → List Condition → Bool
  -- `controllerutil.AddFinalizer` and `RemoveFinalizer`: the finalizers, and whether they changed
  pub add_finalizer : String → List String → List String × Bool
  pub remove_finalizer : String → List String → List String × Bool
  -- `kerrors.NewAggregate` of the error that is returned, if any, and a further one
  pub new_aggregate : Option Error → Error → Error
  -- the group of `schema.ParseGroupVersion`, whose error is dropped
  pub parse_group : String → String
  -- `GroupKind.String`
  pub group_kind_text : GroupKind → String
  -- `client.Get`, by namespace and name; owners by API version, kind, namespace and name
  pub get_pool : String → String → Call S InfobloxIpPool
  pub get_instance : String → Call S InfobloxInstance
  pub get_secret : String → String → Call S SecretData
  pub get_owner : String → String → String → String → Call S OwnedObject
  -- `client.List` in a namespace, by the value of the index field
  pub list_claims : String → String → Call S (List IpAddressClaim)
  pub list_addresses : String → String → Call S (List IpAddress)
  -- `patch.NewHelper` and `Helper.Patch`
  pub new_pool_patch_helper : InfobloxIpPool → Call S (Unit {0})
  pub patch_pool : InfobloxIpPool → Call S (Unit {0})
  pub new_instance_patch_helper : InfobloxInstance → Call S (Unit {0})
  pub patch_instance : InfobloxInstance → Call S (Unit {0})
