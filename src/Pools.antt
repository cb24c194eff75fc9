-- ===== src/Pools.antt =====
-- internal/index/index.go, internal/poolutil/pool.go and pkg/predicates/references.go: which claims
-- and addresses belong to a pool.

pub mod Laws
use cluster_api_ipam_provide.Common.{
  String, ◌<>◌, Bool, true, false, List, [], ◌∷◌, ◌==◌, string_eq, if◌then◌else◌, split, Action,
  call, pure, ◌>>=◌,
}
use cluster_api_ipam_provide.Api.{IpPoolReference, IpAddressClaim, IpAddress, GroupKind}
use cluster_api_ipam_provide.Kube.{Kube}

-- `IPPoolRefValue`
unfoldable pub ip_pool_ref_value : IpPoolReference → String
ip_pool_ref_value ref = ref.kind <> ref.name

-- `IPAddressByCombinedPoolRef`, of an address
unfoldable pub ip_address_by_combined_pool_ref : IpAddress → List String
unfolding ip_pool_ref_value
ip_address_by_combined_pool_ref ip = ip_pool_ref_value ip.pool_ref ∷ []

-- `ipAddressClaimByCombinedPoolRef`, of a claim
unfoldable pub ip_address_claim_by_combined_pool_ref : IpAddressClaim → List String
unfolding ip_pool_ref_value
ip_address_claim_by_combined_pool_ref claim = ip_pool_ref_value claim.pool_ref ∷ []

abbrev pub ipam_group : String
ipam_group = "ipam.cluster.x-k8s.io"

module _ {ℓ} {A : Type ℓ} (group_of : A → String) where
  -- The loop that keeps what belongs to the IPAM group.
  unfoldable pub keep_ipam : List A → List A
  keep_ipam [] = []
  keep_ipam (a ∷ rest) = if group_of a == ipam_group then a ∷ keep_ipam rest else keep_ipam rest

-- The objects that an event can be about.
pub data Object : Type 0 where
  claim : IpAddressClaim → Object
  address : IpAddress → Object
  other : Object

abbrev pub references : GroupKind → IpPoolReference → Bool
references gk ref =
    if ref.kind == gk.kind then (if ref.api_group == gk.group then true else false) else false

-- `processIfClaimReferencesPoolKind`
unfoldable pub process_if_claim_references_pool_kind : GroupKind → Object → Bool
process_if_claim_references_pool_kind gk (claim c) = references gk c.pool_ref
process_if_claim_references_pool_kind gk _ = false

-- `processIfAddressReferencesPoolKind`
unfoldable pub process_if_address_references_pool_kind : GroupKind → Object → Bool
process_if_address_references_pool_kind gk (address a) = references gk a.pool_ref
process_if_address_references_pool_kind gk _ = false

-- The events of controller-runtime; an update has the old and the new object.
pub data Event : Type 0 where
  created deleted generic : Object → Event
  updated : Object → Object → Event

abbrev pub event_object : Event → Object
event_object (created o) = o
event_object (deleted o) = o
event_object (generic o) = o
event_object (updated old new) = new

-- `ClaimReferencesPoolKind` and `AddressReferencesPoolKind`
unfoldable pub claim_references_pool_kind : GroupKind → Event → Bool
unfolding process_if_claim_references_pool_kind
claim_references_pool_kind gk e = process_if_claim_references_pool_kind gk (event_object e)

unfoldable pub address_references_pool_kind : GroupKind → Event → Bool
unfolding process_if_address_references_pool_kind
address_references_pool_kind gk e = process_if_address_references_pool_kind gk (event_object e)

module _ {S : Type 0} (kube : Kube S) where
  -- `ListClaimsReferencingPool`
  unfoldable pub list_claims_referencing_pool :
      String → IpPoolReference → Action S (List IpAddressClaim)
  unfolding ip_pool_ref_value keep_ipam
  list_claims_referencing_pool namespace ref = do
    items ← call (kube.list_claims (ip_pool_ref_value ref) namespace)
    pure (keep_ipam (λ c. kube.parse_group c.api_version) items)

  -- `ListAddressesInUse`
  unfoldable pub list_addresses_in_use : String → IpPoolReference → Action S (List IpAddress)
  unfolding ip_pool_ref_value keep_ipam
  list_addresses_in_use namespace ref = do
    items ← call (kube.list_addresses (ip_pool_ref_value ref) namespace)
    pure (keep_ipam (λ a. kube.parse_group a.api_version) items)
