-- ===== src/Hostname/Steady.antt =====
-- What the fetching of an owner keeps, the search for an owner keeps.
use cluster_api_ipam_provide.Common.{
  ℕ, zero, suc, String, List, [], ◌∷◌, inl, inr, Action, final, ◌==◌, string_eq, Option-cases,
  Bool-cases, Outcome-cases, Call-cases, ◌-◌,
}
use cluster_api_ipam_provide.Api.{OwnerReference, GroupKind, OwnedObject, IpAddressClaim}
use cluster_api_ipam_provide.Kube.{Kube}
use cluster_api_ipam_provide.Hostname.{
  first_with, compare_references, SortFunc, visit, find, search_hostname, object_of_claim,
  depth_or_default,
}

module _ {S : Type 0} (kube : Kube S) (Inv : S → Type 0) where
  -- Fetching an owner keeps it.
  abbrev pub IsSteady : Type 0
  IsSteady =
      (api_version kind namespace name : String) (s : S)
      → Inv s
      → Inv (kube.get_owner api_version kind namespace name s).1

  module _ (sort_func : SortFunc) (gk : GroupKind) where
    visit-keeps :
        (next : OwnedObject → Action S String) (namespace : String) (os : List OwnerReference)
        (s : S)
        → IsSteady
        → ((obj : OwnedObject) (t : S) → Inv t → Inv (final (next obj t)))
        → Inv s
        → Inv (final (visit kube sort_func gk next namespace os s))
    unfolding visit
    visit-keeps next namespace [] s steady deeper i = i
    visit-keeps next namespace (o ∷ os) s steady deeper i =
        let i₁ = steady o.api_version o.kind namespace o.name s i in
        elim (Call-cases (kube.get_owner o.api_version o.kind namespace o.name s)) [
          | inr (e, s₁, lost) ↦ rw lost (rw lost at i₁)
          | inl (owner, s₁, got) ↦
              let i₂ = deeper owner s₁ (rw got at i₁) in
              elim (Outcome-cases (next owner s₁)) [
                | inl (name, s₂, named) ↦ elim (Bool-cases (name == "")) [
                  | inl empty ↦
                      rw (got, named, empty)
                        (visit-keeps next namespace os s₂ steady deeper (rw named at i₂))
                  | inr there ↦ rw (got, named, there) (rw named at i₂)
                ]
                | inr (inl (e, s₂, lost)) ↦ rw (got, lost) (rw lost at i₂)
                | inr (inr (s₂, crashed)) ↦ rw (got, crashed) (rw crashed at i₂)
              ]
        ]

    find-keeps :
        (levels : ℕ) (obj : OwnedObject) (s : S)
        → IsSteady
        → Inv s
        → Inv (final (find kube sort_func gk levels obj s))
    unfolding find
    find-keeps zero obj s steady i = elim (Option-cases (first_with gk obj.owner_references)) [
      | inl nothing ↦ rw (find, nothing) i
      | inr (o, found) ↦ rw (find, found) i
    ]
    find-keeps (suc levels) obj s steady i =
        elim (Option-cases (first_with gk obj.owner_references)) [
          | inl nothing ↦
              rw (find, nothing)
                (visit-keeps (find kube sort_func gk levels) obj.namespace
                  (sort_func compare_references obj.owner_references) s steady
                  (λ owner t. find-keeps levels owner t steady) i)
          | inr (o, found) ↦ rw (find, found) i
        ]

    pub search_hostname-keeps :
        (max_depth : ℕ) (claim : IpAddressClaim) (s : S)
        → IsSteady
        → Inv s
        → Inv (final (search_hostname kube sort_func gk max_depth claim s))
    unfolding search_hostname
    search_hostname-keeps max_depth claim s steady i =
        let levels = depth_or_default kube sort_func gk max_depth - 1 in
        let i₁ = find-keeps levels (object_of_claim claim) s steady i in
        elim (Outcome-cases (find kube sort_func gk levels (object_of_claim claim) s)) [
          | inl (name, s₁, found) ↦ elim (Bool-cases (name == "")) [
            | inl empty ↦ rw (found, empty) (rw found at i₁)
            | inr there ↦ rw (found, there) (rw found at i₁)
          ]
          | inr (inl (e, s₁, lost)) ↦ rw lost (rw lost at i₁)
          | inr (inr (s₁, crashed)) ↦ rw crashed (rw crashed at i₁)
        ]
