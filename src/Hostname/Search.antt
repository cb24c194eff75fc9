-- ===== src/Hostname/Search.antt =====
-- The search for an owner: what its result says about the chain of owners.
use mathlib.Core.List.{Memᴰ}
use cluster_api_ipam_provide.Common.{
  ◌↔◌, ◌≡◌, ◌≢◌, refl, ℕ, zero, suc, String, true, false, List, [], ◌∷◌, some, none, arith, inl,
  inr, ok, returns, Action, ◌==◌, ◌-◌, nat_eq, string_eq, if◌then◌else◌, sym, ◌∙◌, Option-cases,
  Bool-cases, Outcome-cases, Call-cases, has_infix, has_prefix,
}
use text.Mathlib.TextEquality.{eq_iff}
use cluster_api_ipam_provide.Api.{OwnerReference, GroupKind, OwnedObject, IpAddressClaim}
use cluster_api_ipam_provide.Kube.{Kube}
use cluster_api_ipam_provide.Hostname.{
  Comparison, same, has_group_kind, first_with, compare_references, SortFunc, visit, find,
  search_hostname, object_of_claim,
}

-- Two owners that are alike, both or neither named after machines and both or neither of the
-- infrastructure group, compare the same way in both orders, and as equal only if they are neither.
compare_references-alike :
    (a b : OwnerReference)
    → has_infix a.kind "Machine" ≡ has_infix b.kind "Machine"
    → has_prefix a.api_version "infrastructure" ≡ has_prefix b.api_version "infrastructure"
    → (compare_references a b ≡ compare_references b a)
      × ((compare_references a b ≡ same) ↔ (
          (has_infix b.kind "Machine" ≡ false)
          × (has_prefix b.api_version "infrastructure" ≡ false)))
unfolding compare_references
compare_references-alike a b alike g = (ground arith, ground arith)

-- The first owner of a kind is one of the owners, and of that kind.
pub first_with_sound :
    (gk : GroupKind) (os : List OwnerReference) (o : OwnerReference)
    → first_with gk os ≡ some o
    → Memᴰ o os × (has_group_kind gk o ≡ true)
unfolding first_with
first_with_sound gk [] o e = absurd (ground arith)
first_with_sound gk (x ∷ xs) o e = elim (Bool-cases (has_group_kind gk x)) [
  | inl fits ↦ let found : x ≡ o = ground arith in (Memᴰ.head (sym found), rw found at fits)
  | inr other ↦ let (m, fits) = first_with_sound gk xs o (ground arith) in (Memᴰ.tail m, fits)
]

-- An object is owned by something of the kind with this name, over at most so many objects that are
-- fetched in between.
pub data IsOwnedBy {S : Type 0} (kube : Kube S) (gk : GroupKind)
    : ℕ → OwnedObject → String → Type 0 where
  direct :
      {levels : ℕ} {obj : OwnedObject} {name : String} (o : OwnerReference)
      → Memᴰ o obj.owner_references
      → has_group_kind gk o ≡ true
      → name ≡ o.name
      → IsOwnedBy kube gk levels obj name
  through :
      {levels : ℕ} {obj : OwnedObject} {name : String} (o : OwnerReference) (owner : OwnedObject)
      (s s' : S)
      → Memᴰ o obj.owner_references
      → kube.get_owner o.api_version o.kind obj.namespace o.name s ≡ (ok owner, s')
      → IsOwnedBy kube gk levels owner name
      → IsOwnedBy kube gk (suc levels) obj name

-- What is assumed of the sorting: it makes no owners up.
abbrev pub KeepsMembers : SortFunc → Type 0
KeepsMembers sort_func =
    (cmp : OwnerReference → OwnerReference → Comparison) (os : List OwnerReference)
    (o : OwnerReference)
    → Memᴰ o (sort_func cmp os)
    → Memᴰ o os

module _ {S : Type 0} (kube : Kube S) (sort_func : SortFunc) (gk : GroupKind) where
  -- A visited owner that yields a name.
  record Visited (next : OwnedObject → Action S String) (namespace : String)
      (os : List OwnerReference) (name : String) : Type 0 where
    o : OwnerReference
    owner : OwnedObject
    from : S
    fetched : S
    to : S
    listed : Memᴰ o os
    got : kube.get_owner o.api_version o.kind namespace o.name from ≡ (ok owner, fetched)
    named : next owner fetched ≡ returns name to

  visit_sound :
      (next : OwnedObject → Action S String) (namespace : String) (os : List OwnerReference)
      (s s' : S) (name : String)
      → name ≢ ""
      → visit kube sort_func gk next namespace os s ≡ returns name s'
      → Visited next namespace os name
  unfolding visit
  visit_sound next namespace [] s s' name n e = absurd (n (ground arith))
  visit_sound next namespace (o ∷ os) s s' name n e =
      elim (Call-cases (kube.get_owner o.api_version o.kind namespace o.name s)) [
        | inr (e₁, s₁, failed) ↦ absurd (ground arith)
        | inl (owner, s₁, got) ↦ elim (Outcome-cases (next owner s₁)) [
          | inr other ↦ absurd (ground arith)
          | inl (name₁, s₂, named) ↦ elim (Bool-cases (name₁ == "")) [
            | inr given ↦ record {
              o = o;
              owner = owner;
              from = s;
              fetched = s₁;
              to = s₂;
              listed = Memᴰ.head refl;
              got = got;
              named = ground arith;
            }
            | inl empty ↦
                let v = visit_sound next namespace os s₂ s' name n (ground arith) in
                record {
                  o = v.o;
                  owner = v.owner;
                  from = v.from;
                  fetched = v.fetched;
                  to = v.to;
                  listed = Memᴰ.tail v.listed;
                  got = v.got;
                  named = v.named;
                }
          ]
        ]
      ]

  pub find-visit :
      (levels : ℕ) (obj : OwnedObject) (s : S)
      → first_with gk obj.owner_references ≡ none
      → find kube sort_func gk (suc levels) obj s
        ≡ visit kube sort_func gk
            (find kube sort_func gk levels)
            obj.namespace
            (sort_func compare_references obj.owner_references)
            s
  unfolding find
  find-visit levels obj s nobody = rw (nobody, find)

  find_sound :
      (levels : ℕ) (obj : OwnedObject) (s s' : S) (name : String)
      → KeepsMembers sort_func
      → name ≢ ""
      → find kube sort_func gk levels obj s ≡ returns name s'
      → IsOwnedBy kube gk levels obj name
  unfolding find
  find_sound zero obj s s' name k n e = elim (Option-cases (first_with gk obj.owner_references)) [
    | inl nobody ↦ absurd (n (ground arith))
    | inr (o, first) ↦
        let (m, fits) = first_with_sound gk obj.owner_references o first in
        direct o m fits (ground arith)
  ]
  find_sound (suc levels) obj s s' name k n e =
      elim (Option-cases (first_with gk obj.owner_references)) [
        | inr (o, first) ↦
            let (m, fits) = first_with_sound gk obj.owner_references o first in
            direct o m fits (ground arith)
        | inl nobody ↦
            let v =
              visit_sound (find kube sort_func gk levels) obj.namespace
                (sort_func compare_references obj.owner_references) s s' name n
                (sym (find-visit levels obj s nobody) ∙ e) in
            through v.o v.owner v.from v.fetched
              (k compare_references obj.owner_references v.o v.listed) v.got
              (find_sound levels v.owner v.fetched v.to name k n v.named)
      ]

  -- A hostname that the resolver returns is the name of an owner of the kind that is searched for,
  -- reached over fewer fetched objects than the maximal depth; five is the depth if none is given.
  -- The name is not empty.
  pub search_hostname_sound :
      (max_depth : ℕ) (claim : IpAddressClaim) (s s' : S) (name : String)
      → KeepsMembers sort_func
      → search_hostname kube sort_func gk max_depth claim s ≡ returns name s'
      → (name ≢ "")
        × IsOwnedBy kube gk
            ((if max_depth == 0 then 5 else max_depth) - 1)
            (object_of_claim claim)
            name
  unfolding search_hostname
  search_hostname_sound max_depth claim s s' name k e =
      let levels = (if max_depth == 0 then 5 else max_depth) - 1 in
      elim (Outcome-cases (find kube sort_func gk levels (object_of_claim claim) s)) [
        | inr other ↦ absurd (ground arith)
        | inl (name₁, s₁, found) ↦
            let given : name ≢ "" = (λ empty. ground (arith, eq_iff name "")) in
            (given, find_sound levels (object_of_claim claim) s s₁ name k given (ground arith))
      ]
