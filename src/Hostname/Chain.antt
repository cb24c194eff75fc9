-- ===== src/Hostname/Chain.antt =====
-- The resolver that follows a chain of owners: what its result says.
use mathlib.Core.List.{Memᴰ}
use cluster_api_ipam_provide.Common.{
  ◌≡◌, String, true, List, [], ◌∷◌, arith, inl, inr, ok, returns, Option-cases, Call-cases,
}
use cluster_api_ipam_provide.Api.{OwnerReference, GroupKind, OwnedObject, IpAddressClaim}
use cluster_api_ipam_provide.Kube.{Kube}
use cluster_api_ipam_provide.Hostname.{
  has_group_kind, first_with, find_owner_reference_with_gk, follow_chain, owner_chain_hostname,
  object_of_claim,
}
use cluster_api_ipam_provide.Hostname.Search.{first_with_sound}

-- A chain of owners, one of each kind in turn, that ends in an owner with this name; each owner but
-- the last is fetched.
pub data IsChain {S : Type 0} (kube : Kube S) : List GroupKind → OwnedObject → String → Type 0 where
  last :
      {gk : GroupKind} {obj : OwnedObject} {name : String} (o : OwnerReference)
      → Memᴰ o obj.owner_references
      → has_group_kind gk o ≡ true
      → name ≡ o.name
      → IsChain kube (gk ∷ []) obj name
  link :
      {gk next : GroupKind} {chain : List GroupKind} {obj : OwnedObject} {name : String}
      (o : OwnerReference) (owner : OwnedObject) (s s' : S)
      → Memᴰ o obj.owner_references
      → has_group_kind gk o ≡ true
      → kube.get_owner o.api_version o.kind obj.namespace o.name s ≡ (ok owner, s')
      → IsChain kube (next ∷ chain) owner name
      → IsChain kube (gk ∷ next ∷ chain) obj name

module _ {S : Type 0} (kube : Kube S) where
  follow_chain_sound :
      (chain : List GroupKind) (obj : OwnedObject) (s s' : S) (name : String)
      → follow_chain kube chain obj s ≡ returns name s'
      → IsChain kube chain obj name
  unfolding follow_chain find_owner_reference_with_gk
  follow_chain_sound [] obj s s' name h = absurd (ground arith)
  follow_chain_sound (gk ∷ []) obj s s' name h =
      elim (Option-cases (first_with gk obj.owner_references)) [
        | inl nobody ↦ absurd (ground arith)
        | inr (o, first) ↦
            let (m, fits) = first_with_sound gk obj.owner_references o first in
            last o m fits (ground arith)
      ]
  follow_chain_sound (gk ∷ next ∷ chain) obj s s' name h =
      elim (Option-cases (first_with gk obj.owner_references)) [
        | inl nobody ↦ absurd (ground arith)
        | inr (o, first) ↦
            let (m, fits) = first_with_sound gk obj.owner_references o first in
            elim (Call-cases (kube.get_owner o.api_version o.kind obj.namespace o.name s)) [
              | inr (e, s₁, failed) ↦ absurd (ground arith)
              | inl (owner, s₁, got) ↦
                  link o owner s s₁ m fits got
                    (follow_chain_sound (next ∷ chain) owner s₁ s' name (ground arith))
            ]
      ]

  -- A hostname that the resolver of chains returns is the name of the last of a chain of owners of
  -- the claim, one of each kind of the configured chain in turn.
  pub owner_chain_hostname_sound :
      (chain : List GroupKind) (claim : IpAddressClaim) (s s' : S) (name : String)
      → owner_chain_hostname kube chain claim s ≡ returns name s'
      → IsChain kube chain (object_of_claim claim) name
  unfolding owner_chain_hostname
  owner_chain_hostname_sound chain claim s s' name h =
      follow_chain_sound chain (object_of_claim claim) s s' name h
