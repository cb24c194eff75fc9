-- ===== src/Pools/Laws.antt =====
-- Which events are handled, and how far the value of the index tells pools apart.
use text.Mathlib.TextEquality.{eq_iff}
use text.Mathlib.TextLemmas.{append_cancel_left, append_assoc}
use cluster_api_ipam_provide.Common.{
  List, Action, call, pure, ◌>>=◌, ◌≡◌, ◌↔◌, refl, sym, ap, ◌∙◌, String, ◌<>◌, true, arith,
  string_eq,
}
use cluster_api_ipam_provide.Api.{IpPoolReference, IpAddressClaim, GroupKind}
use cluster_api_ipam_provide.Kube.{Kube}
use cluster_api_ipam_provide.Pools.{
  list_claims_referencing_pool, keep_ipam, ip_pool_ref_value, Object, claim, address, other, Event,
  event_object, references, claim_references_pool_kind, process_if_claim_references_pool_kind,
}

-- The reference names a pool of this kind and group.
abbrev pub Names : GroupKind → IpPoolReference → Type 0
Names gk ref = (ref.kind ≡ gk.kind) × (ref.api_group ≡ gk.group)

references_iff :
    (gk : GroupKind) (ref : IpPoolReference) → (references gk ref ≡ true) ↔ Names gk ref
references_iff gk ref = ground (arith, eq_iff ref.kind gk.kind, eq_iff ref.api_group gk.group)

claim_iff :
    (gk : GroupKind) (o : Object)
    → (process_if_claim_references_pool_kind gk o ≡ true)
      ↔ ((c : IpAddressClaim) × (o ≡ claim c) × Names gk c.pool_ref)
unfolding process_if_claim_references_pool_kind
claim_iff gk (claim c) = (
  (λ h. (c, refl, (references_iff gk c.pool_ref).0 h)),
  (λ (d, e, n). let same : c ≡ d = cc in (references_iff gk c.pool_ref).1 (rw same n)),
)
claim_iff gk (address a) = ((λ h. absurd (cc)), (λ (d, e, n). absurd (cc)))
claim_iff gk other = ((λ h. absurd (cc)), (λ (d, e, n). absurd (cc)))

-- An event is handled exactly if its object, the new one of an update, is a claim whose reference
-- names a pool of the kind and group.
claim_references_pool_kind_iff :
    (gk : GroupKind) (e : Event)
    → (claim_references_pool_kind gk e ≡ true)
      ↔ ((c : IpAddressClaim) × (event_object e ≡ claim c) × Names gk c.pool_ref)
unfolding claim_references_pool_kind
claim_references_pool_kind_iff gk e = claim_iff gk (event_object e)

-- Two references of one kind have the same value in the index only if they name the same pool.
ip_pool_ref_value-injective :
    (a b : IpPoolReference)
    → a.kind ≡ b.kind
    → ip_pool_ref_value a ≡ ip_pool_ref_value b
    → a.name ≡ b.name
unfolding ip_pool_ref_value
ip_pool_ref_value-injective a b k e =
    append_cancel_left b.kind a.name b.name (ap (λ (s : String). s <> a.name) (sym k) ∙ e)

-- The value does not tell where the kind ends, and it leaves out the group: for references to two
-- pools of which one has the longer kind and the other the longer name, the same claims are listed
-- as referring to them.
pub list_claims_referencing_pool-ambiguous :
    {S : Type 0} (kube : Kube S) (namespace g h kind middle name : String) (s : S)
    → list_claims_referencing_pool kube namespace
        (record { api_group = g; kind = kind; name = middle <> name })
        s
      ≡ list_claims_referencing_pool kube namespace
          (record { api_group = h; kind = kind <> middle; name = name })
          s
unfolding list_claims_referencing_pool ip_pool_ref_value
list_claims_referencing_pool-ambiguous kube namespace g h kind middle name s =
    ap (λ (value : String). listed kube namespace value s) (sym (append_assoc kind middle name))
  where
    listed : {S : Type 0} → Kube S → String → String → Action S (List IpAddressClaim)
    listed kube' namespace' value = do
      items ← call (kube'.list_claims value namespace')
      pure (keep_ipam (λ c. kube'.parse_group c.api_version) items)
