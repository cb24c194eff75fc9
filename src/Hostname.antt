-- ===== src/Hostname.antt =====
-- internal/hostname/resolver.go: the hostname of a claim, from its chain of owners.
pub mod Chain
pub mod Search
pub mod Complete
pub mod Steady
use cluster_api_ipam_provide.Common.{
  ℕ, zero, suc, ◌-◌, String, ◌<>◌, Bool, true, false, not, ◌&&◌, ◌||◌, Option, none, some, List, [],
  ◌∷◌, ◌==◌, nat_eq, string_eq, if◌then◌else◌, has_infix, has_prefix, split, plain, wrap, Action,
  call, pure, throw, map_error, ◌>>=◌, ◌>>◌,
}
use cluster_api_ipam_provide.Api.{
  GroupVersion, OwnerReference, GroupKind, OwnedObject, IpAddressClaim,
}
use cluster_api_ipam_provide.Kube.{Kube}

abbrev group_version_of : String → List String → GroupVersion
group_version_of api_version (g ∷ v ∷ []) = record { group = g; version = v }
group_version_of api_version _ = record { group = ""; version = api_version }

-- `apiVersionToGroupVersion`
unfoldable pub api_version_to_group_version : String → GroupVersion
api_version_to_group_version api_version = group_version_of api_version (split api_version b'/')

-- The test for an owner of a kind, in both resolvers.
unfoldable pub has_group_kind : GroupKind → OwnerReference → Bool
unfolding api_version_to_group_version
has_group_kind gk o =
    o.kind == gk.kind && (api_version_to_group_version o.api_version).group == gk.group

unfoldable pub first_with : GroupKind → List OwnerReference → Option OwnerReference
unfolding has_group_kind
first_with gk [] = none
first_with gk (o ∷ os) = if has_group_kind gk o then some o else first_with gk os

abbrev pub object_of_claim : IpAddressClaim → OwnedObject
object_of_claim claim = record {
  namespace = claim.namespace;
  owner_references = claim.owner_references;
}

-- The result of a comparison of Go's `slices`: negative, zero or positive.
pub data Comparison : Type 0 where
  before same after : Comparison

-- The comparison by which `find` sorts the owners that it will visit.
unfoldable pub compare_references : OwnerReference → OwnerReference → Comparison
compare_references a b =
    if has_infix b.kind "Machine"
    then after
    else if has_infix a.kind "Machine" || has_prefix b.api_version "infrastructure"
    then before
    else if has_prefix b.api_version "infrastructure"
    then after
    else same

-- `slices.SortFunc`. The comparison is no ordering, so the order of the result is not specified.
abbrev pub SortFunc : Type 0
SortFunc =
    (OwnerReference → OwnerReference → Comparison) → List OwnerReference → List OwnerReference

module _ {S : Type 0} (kube : Kube S) where
  -- `findOwnerReferenceWithGK`
  unfoldable pub find_owner_reference_with_gk : OwnedObject → GroupKind → Action S OwnerReference
  unfolding first_with
  find_owner_reference_with_gk obj gk = elim (first_with gk obj.owner_references) [
    | none ↦
        throw
          (plain ("failed to find owner reference with kind '" <> (kube.group_kind_text gk <> "'")))
    | some o ↦ pure o
  ]

  -- The loop of `OwnerChainResolver.GetHostname`
  unfoldable pub follow_chain : List GroupKind → OwnedObject → Action S String
  unfolding find_owner_reference_with_gk
  follow_chain [] obj = throw (plain "failed to follow owner chain")
  follow_chain (gk ∷ []) obj = do
    ref ←
        map_error (wrap "failed to find next owner in chain") (find_owner_reference_with_gk obj gk)
    pure ref.name
  follow_chain (gk ∷ next ∷ chain) obj = do
    ref ←
        map_error (wrap "failed to find next owner in chain") (find_owner_reference_with_gk obj gk)
    owner ←
        map_error (wrap "failed to fetch next owner in chain")
          (call (kube.get_owner ref.api_version ref.kind obj.namespace ref.name))
    follow_chain (next ∷ chain) owner

  -- `OwnerChainResolver.GetHostname`
  unfoldable pub owner_chain_hostname : List GroupKind → IpAddressClaim → Action S String
  unfolding follow_chain
  owner_chain_hostname chain claim = follow_chain chain (object_of_claim claim)

  module _ (sort_func : SortFunc) (search_for : GroupKind) where
    -- The loop of `find` over the sorted owners; `next` is `find` one level deeper.
    unfoldable pub visit :
        (OwnedObject → Action S String) → String → List OwnerReference → Action S String
    visit next namespace [] = pure ""
    visit next namespace (o ∷ os) = do
      owner ← call (kube.get_owner o.api_version o.kind namespace o.name)
      name ← next owner
      if name == "" then visit next namespace os else pure name

    -- `find`; `levels` is how many levels of owners may still be fetched, `MaxDepth - currentDepth`.
    unfoldable pub find : ℕ → OwnedObject → Action S String
    unfolding first_with visit
    find zero obj = elim (first_with search_for obj.owner_references) [
      | some o ↦ pure o.name
      | none ↦ pure ""
    ]
    find (suc levels) obj = elim (first_with search_for obj.owner_references) [
      | some o ↦ pure o.name
      | none ↦ visit (find levels) obj.namespace (sort_func compare_references obj.owner_references)
    ]

    abbrev pub depth_or_default : ℕ → ℕ
    depth_or_default max_depth = if max_depth == 0 then 5 else max_depth

    -- `SearchOwnerReferenceResolver.GetHostname`
    unfoldable pub search_hostname : ℕ → IpAddressClaim → Action S String
    search_hostname max_depth claim = do
      name ← find (depth_or_default max_depth - 1) (object_of_claim claim)
      if name == ""
          then throw (plain "failed to find owner reference to specified group and kind")
          else pure name
