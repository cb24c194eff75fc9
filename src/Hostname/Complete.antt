-- ===== src/Hostname/Complete.antt =====
-- The search for an owner finds one, if there is one within the depth.
use mathlib.Core.List.{Memᴰ}
use text.Mathlib.TextEquality.{eq_iff}
use cluster_api_ipam_provide.Common.{
  ◌↔◌, ◌≡◌, ◌≢◌, refl, ℕ, zero, suc, String, true, false, List, [], ◌∷◌, some, none, arith, inl,
  inr, ok, returns, Action, ◌==◌, ◌-◌, nat_eq, string_eq, if◌then◌else◌, ◌∙◌, Option-cases,
  Bool-cases,
}
use cluster_api_ipam_provide.Api.{OwnerReference, GroupKind, OwnedObject, IpAddressClaim}
use cluster_api_ipam_provide.Kube.{Kube}
use cluster_api_ipam_provide.Hostname.{
  Comparison, has_group_kind, first_with, compare_references, SortFunc, visit, find,
  search_hostname, object_of_claim,
}
use cluster_api_ipam_provide.Hostname.Search.{
  first_with_sound, IsOwnedBy, direct, through, KeepsMembers, find-visit, search_hostname_sound,
}

-- What is assumed of the sorting: it loses no owners.
abbrev pub LosesNone : SortFunc → Type 0
LosesNone sort_func =
    (cmp : OwnerReference → OwnerReference → Comparison) (os : List OwnerReference)
    (o : OwnerReference)
    → Memᴰ o os
    → Memᴰ o (sort_func cmp os)

first_with_complete :
    (gk : GroupKind) (os : List OwnerReference) (o : OwnerReference)
    → Memᴰ o os
    → has_group_kind gk o ≡ true
    → (x : OwnerReference) × (first_with gk os ≡ some x)
unfolding first_with
first_with_complete gk [] o m fits = elim m [ ]
first_with_complete gk (x ∷ xs) o (Memᴰ.head e) fits =
    let here : has_group_kind gk x ≡ true = rw e at fits in (x, ground arith)
first_with_complete gk (x ∷ xs) o (Memᴰ.tail m) fits = elim (Bool-cases (has_group_kind gk x)) [
  | inl here ↦ (x, ground arith)
  | inr other ↦ let (y, found) = first_with_complete gk xs o m fits in (y, ground arith)
]

not_empty : (name : String) → name ≢ "" → (name == "") ≡ false
not_empty name given = elim (Bool-cases (name == "")) [
  | inl empty ↦ absurd (given ((eq_iff name "").0 empty))
  | inr unlike ↦ unlike
]

module _ {S : Type 0} (kube : Kube S) (sort_func : SortFunc) (gk : GroupKind) where
  -- What is assumed of the cluster, for a set of objects: every owner of one of them can be fetched,
  -- which changes nothing, and is one of them; and its owners of the kind have names.
  pub record IsClosed (Known : OwnedObject → Type 0) : Type 0 where
    pub fetched :
        (obj : OwnedObject) (o : OwnerReference)
        → Known obj
        → Memᴰ o obj.owner_references
        → (x : OwnedObject) × Known x
          × ((s : S) → kube.get_owner o.api_version o.kind obj.namespace o.name s ≡ (ok x, s))
    pub named :
        (obj : OwnedObject) (o : OwnerReference)
        → Known obj
        → Memᴰ o obj.owner_references
        → has_group_kind gk o ≡ true
        → o.name ≢ ""

  -- A step that returns some name, and leaves the world as it is.
  abbrev Returns : Action S String → Type 0
  Returns m = (s : S) → (name : String) × (m s ≡ returns name s)

  -- It returns a name that is not empty.
  abbrev Yields : Action S String → Type 0
  Yields m = (s : S) → (name : String) × (name ≢ "") × (m s ≡ returns name s)

  -- Each of the owners can be fetched, and the step returns for it.
  abbrev CanVisit : (OwnedObject → Action S String) → String → List OwnerReference → Type 0
  CanVisit next namespace os =
      (o : OwnerReference)
      → Memᴰ o os
      → (x : OwnedObject) × Returns (next x)
        × ((s : S) → kube.get_owner o.api_version o.kind namespace o.name s ≡ (ok x, s))

  visit-Returns :
      (next : OwnedObject → Action S String) (namespace : String) (os : List OwnerReference)
      → CanVisit next namespace os
      → Returns (visit kube sort_func gk next namespace os)
  unfolding visit
  visit-Returns next namespace [] can s = ("", refl)
  visit-Returns next namespace (o ∷ os) can s =
      let (x, total, got) = can o (Memᴰ.head refl) in
      let (name, e) = total s in
      let (later, e') = visit-Returns next namespace os (λ p m. can p (Memᴰ.tail m)) s in
      let here = got s in
      elim (Bool-cases (name == "")) [
        | inl empty ↦ (later, ground arith)
        | inr given ↦ (name, ground arith)
      ]

  visit-Yields :
      (next : OwnedObject → Action S String) (namespace : String) (os : List OwnerReference)
      (o : OwnerReference) (owner : OwnedObject)
      → CanVisit next namespace os
      → Memᴰ o os
      → ((s : S) → kube.get_owner o.api_version o.kind namespace o.name s ≡ (ok owner, s))
      → Yields (next owner)
      → Yields (visit kube sort_func gk next namespace os)
  unfolding visit
  visit-Yields next namespace [] o owner can m got yields s = elim m [ ]
  visit-Yields next namespace (x ∷ os) o owner can (Memᴰ.head same) got yields s =
      let (name, given, e) = yields s in
      let got' : kube.get_owner x.api_version x.kind namespace x.name s ≡ (ok owner, s) =
        rw same at (got s) in
      let unlike : (name == "") ≡ false = not_empty name given in (name, given, ground arith)
  visit-Yields next namespace (x ∷ os) o owner can (Memᴰ.tail m) got yields s =
      let (y, total, got') = can x (Memᴰ.head refl) in
      let (name, e) = total s in
      let (later, given, e') =
        visit-Yields next namespace os o owner (λ p m'. can p (Memᴰ.tail m')) m got yields s in
      let here = got' s in
      elim (Bool-cases (name == "")) [
        | inl empty ↦ (later, given, ground arith)
        | inr named ↦ (name, (λ bad. ground (arith, eq_iff name "")), ground arith)
      ]

  module _ (Known : OwnedObject → Type 0) (closed : IsClosed Known)
      (keeps : KeepsMembers sort_func) where
    -- What `find` visits can be visited, if it returns one level deeper.
    can_visit :
        (levels : ℕ) (obj : OwnedObject)
        → Known obj
        → ((x : OwnedObject) → Known x → Returns (find kube sort_func gk levels x))
        → CanVisit
            (find kube sort_func gk levels)
            obj.namespace
            (sort_func compare_references obj.owner_references)
    can_visit levels obj known deeper o m =
        let (x, known_x, got) = closed.fetched obj o known (keeps compare_references _ o m) in
        (x, deeper x known_x, got)

    find-first :
        (levels : ℕ) (obj : OwnedObject) (o : OwnerReference) (s : S)
        → first_with gk obj.owner_references ≡ some o
        → find kube sort_func gk levels obj s ≡ returns o.name s
    unfolding find
    find-first zero obj o s first = rw (first, find)
    find-first (suc levels) obj o s first = rw (first, find)

    find-nobody :
        (obj : OwnedObject) (s : S)
        → first_with gk obj.owner_references ≡ none
        → find kube sort_func gk zero obj s ≡ returns "" s
    unfolding find
    find-nobody obj s nobody = rw (nobody, find)

    find-Returns :
        (levels : ℕ) (obj : OwnedObject) → Known obj → Returns (find kube sort_func gk levels obj)
    find-Returns zero obj known s = elim (Option-cases (first_with gk obj.owner_references)) [
      | inl nobody ↦ ("", find-nobody obj s nobody)
      | inr (o, first) ↦ (o.name, find-first zero obj o s first)
    ]
    find-Returns (suc levels) obj known s =
        elim (Option-cases (first_with gk obj.owner_references)) [
          | inl nobody ↦
              let (name, e) =
                visit-Returns (find kube sort_func gk levels) obj.namespace
                  (sort_func compare_references obj.owner_references)
                  (can_visit levels obj known (find-Returns levels)) s in
              (name, find-visit kube sort_func gk levels obj s nobody ∙ e)
          | inr (o, first) ↦ (o.name, find-first (suc levels) obj o s first)
        ]

    first-Yields :
        (levels : ℕ) (obj : OwnedObject) (o : OwnerReference)
        → Known obj
        → first_with gk obj.owner_references ≡ some o
        → Yields (find kube sort_func gk levels obj)
    first-Yields levels obj o known first s =
        let (m, fits) = first_with_sound gk obj.owner_references o first in
        (o.name, closed.named obj o known m fits, find-first levels obj o s first)

    find-Yields :
        (losing : LosesNone sort_func) (levels : ℕ) (obj : OwnedObject) (name : String)
        → Known obj
        → IsOwnedBy kube gk levels obj name
        → Yields (find kube sort_func gk levels obj)
    find-Yields losing levels obj name known (direct o m fits e) =
        let (x, first) = first_with_complete gk obj.owner_references o m fits in
        first-Yields levels obj x known first
    find-Yields losing (suc levels) obj name known (through o owner s₁ s₂ m got owned) =
        elim (Option-cases (first_with gk obj.owner_references)) [
          | inr (x, first) ↦ first-Yields (suc levels) obj x known first
          | inl nobody ↦ λ s.
              let (x, known_x, got_x) = closed.fetched obj o known m in
              let agreed = got_x s₁ in
              let same : x ≡ owner = cc in
              let (name', given, e) =
                visit-Yields (find kube sort_func gk levels) obj.namespace
                  (sort_func compare_references obj.owner_references) o x
                  (can_visit levels obj known (find-Returns levels))
                  (losing compare_references obj.owner_references o m) got_x
                  (find-Yields losing levels x name known_x (rw same owned)) s in
              (name', given, find-visit kube sort_func gk levels obj s nobody ∙ e)
        ]

    -- The search of a claim's owners succeeds, with some name, exactly if an owner of the kind is
    -- reached over fewer fetched objects than the maximal depth, five if none is given. That is so
    -- in a cluster where every owner that is met can be fetched, with no change of the cluster,
    -- and owners of the kind have names, if the sorting keeps all owners and makes none up.
    pub search_hostname_iff :
        (max_depth : ℕ) (claim : IpAddressClaim) (s : S)
        → LosesNone sort_func
        → Known (object_of_claim claim)
        → ((name : String) × (search_hostname kube sort_func gk max_depth claim s ≡ returns name s))
          ↔ ((name : String) × IsOwnedBy kube gk
                ((if max_depth == 0 then 5 else max_depth) - 1)
                (object_of_claim claim)
                name)
    unfolding search_hostname
    search_hostname_iff max_depth claim s losing known =
        let levels = (if max_depth == 0 then 5 else max_depth) - 1 in
        (
          λ (name, e).
              (name, (search_hostname_sound kube sort_func gk max_depth claim s s name keeps e).1),
          λ (name, owned).
              let (name', given, e) =
                find-Yields losing levels (object_of_claim claim) name known owned s in
              let unlike : (name' == "") ≡ false = not_empty name' given in (name', ground arith),
        )
