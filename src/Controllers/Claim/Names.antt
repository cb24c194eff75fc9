-- ===== src/Controllers/Claim/Names.antt =====
-- `getHostname` and `ensureHostname`: the name of a claim's host, and its annotation.
use text.Mathlib.TextPositions.{eq_refl}
use text.Mathlib.TextLemmas.{append_assoc}
use text.Mathlib.TextEquality.{eq_iff}
use cluster_api_ipam_provide.Common.{
  ◌≡◌, ◌≢◌, refl, String, ◌<>◌, true, some, arith, returns, inl, inr, string_eq, has_suffix,
  has_suffix-append, has_suffix_sound, Outcome-cases,
}
use cluster_api_ipam_provide.Api.{InfobloxIpPool}
use cluster_api_ipam_provide.Kube.{Kube}
use cluster_api_ipam_provide.Hostname.{SortFunc, search_hostname}
use cluster_api_ipam_provide.Controllers.Claim.{get_hostname, ensure_hostname}
use cluster_api_ipam_provide.Controllers.Handler.{
  Handler, annotation, hostname_annotation, machine_kind, resolver_max_depth, annotated,
}

module _ {S : Type 0} (kube : Kube S) (sort_func : SortFunc) where
  -- A name in the annotation is returned as it is, and the world is not asked.
  pub get_hostname-annotated :
      (w : S × Handler S) (name : String)
      → annotation hostname_annotation w.1.claim.annotations ≡ name
      → name ≢ ""
      → get_hostname kube sort_func w ≡ returns name w
  unfolding get_hostname
  get_hostname-annotated w name e h = ground (arith, eq_iff name "")

  -- The search for the name leaves the handler as it is.
  pub get_hostname-keeps :
      (w w₁ : S × Handler S) (name : String)
      → get_hostname kube sort_func w ≡ returns name w₁
      → w₁.1 ≡ w.1
  unfolding get_hostname
  get_hostname-keeps w w₁ name h = ground arith

  pub ensure_hostname-checks :
      (w w' : S × Handler S) (pool : InfobloxIpPool) (name : String)
      → w.1.pool ≡ some pool
      → ensure_hostname kube sort_func w ≡ returns name w'
      → (has_suffix name pool.spec.dns_zone ≡ true)
        × (annotation hostname_annotation w'.1.claim.annotations ≡ name)
  unfolding ensure_hostname
  ensure_hostname-checks w w' pool name has_pool h =
      elim (Outcome-cases (get_hostname kube sort_func w)) [
        | inl (n, w₁, e) ↦ ground (arith, get_hostname-keeps w w₁ n e, eq_refl hostname_annotation)
        | inr other ↦ ground arith
      ]

  -- A success changes nothing of the handler but the annotation.
  pub ensure_hostname-annotates :
      (w w' : S × Handler S) (name : String)
      → ensure_hostname kube sort_func w ≡ returns name w'
      → w'.1 ≡ annotated name w.1
  unfolding ensure_hostname
  ensure_hostname-annotates w w' name h = elim (Outcome-cases (get_hostname kube sort_func w)) [
    | inl (n, w₁, e) ↦ ground (arith, get_hostname-keeps w w₁ n e)
    | inr other ↦ ground arith
  ]

  -- If a hostname that is not empty is ensured for a handler with a pool, it ends in the zone of the
  -- pool, and it is written to the claim in such a way that the next search for it, whatever has
  -- become of the owners, finds it there and asks nothing of the cluster.
  pub ensure_hostname-remembers :
      (w w' : S × Handler S) (pool : InfobloxIpPool) (name : String)
      → w.1.pool ≡ some pool
      → ensure_hostname kube sort_func w ≡ returns name w'
      → name ≢ ""
      → ((p : String) × (name ≡ p <> pool.spec.dns_zone))
        × ((s : S) → get_hostname kube sort_func (s, w'.1) ≡ returns name (s, w'.1))
  ensure_hostname-remembers w w' pool name has_pool h n =
      let (suffix, noted) = ensure_hostname-checks w w' pool name has_pool h in
      (
        has_suffix_sound name pool.spec.dns_zone suffix,
        λ s. get_hostname-annotated (s, w'.1) name noted n,
      )

  get_hostname-searched :
      (w : S × Handler S) (pool : InfobloxIpPool) (machine : String) (s' : S)
      → annotation hostname_annotation w.1.claim.annotations ≡ ""
      → w.1.pool ≡ some pool
      → pool.spec.dns_zone ≢ ""
      → search_hostname kube sort_func machine_kind resolver_max_depth w.1.claim w.0
        ≡ returns machine s'
      → get_hostname kube sort_func w ≡ returns (machine <> ("." <> pool.spec.dns_zone)) (s', w.1)
  unfolding get_hostname
  get_hostname-searched w pool machine s' no_name has_pool zone found = ground (
    arith,
    eq_iff pool.spec.dns_zone "",
    eq_iff (annotation hostname_annotation w.1.claim.annotations) "",
  )

  pub ensure_hostname-accepts :
      (w : S × Handler S) (pool : InfobloxIpPool) (name : String) (w₁ : S × Handler S)
      → w.1.pool ≡ some pool
      → get_hostname kube sort_func w ≡ returns name w₁
      → w₁.1 ≡ w.1
      → has_suffix name pool.spec.dns_zone ≡ true
      → ensure_hostname kube sort_func w ≡ returns name (w₁.0, annotated name w.1)
  unfolding ensure_hostname
  ensure_hostname-accepts w pool name w₁ has_pool got kept suffix = ground arith

  pub annotation-annotated :
      (name : String) (h : Handler S)
      → annotation hostname_annotation (annotated name h).claim.annotations ≡ name
  annotation-annotated name h = ground (arith, eq_refl hostname_annotation)

  -- A claim with no annotation, of a pool with a zone, is named after its machine, in the zone; such
  -- a name always passes the check of the zone.
  pub ensure_hostname-fresh :
      (w : S × Handler S) (pool : InfobloxIpPool) (machine : String) (s' : S)
      → annotation hostname_annotation w.1.claim.annotations ≡ ""
      → w.1.pool ≡ some pool
      → pool.spec.dns_zone ≢ ""
      → search_hostname kube sort_func machine_kind resolver_max_depth w.1.claim w.0
        ≡ returns machine s'
      → (h' : Handler S) × (ensure_hostname kube sort_func w
          ≡ returns (machine <> ("." <> pool.spec.dns_zone)) (s', h'))
        × (annotation hostname_annotation h'.claim.annotations
            ≡ machine <> ("." <> pool.spec.dns_zone))
  ensure_hostname-fresh w pool machine s' no_name has_pool zone found =
      let name = machine <> ("." <> pool.spec.dns_zone) in
      let suffix : has_suffix name pool.spec.dns_zone ≡ true =
        rw (append_assoc machine "." pool.spec.dns_zone) at
          (has_suffix-append (machine <> ".") pool.spec.dns_zone) in
      (
        annotated name w.1,
        ensure_hostname-accepts w pool name (s', w.1) has_pool
            (get_hostname-searched w pool machine s' no_name has_pool zone found) refl suffix,
        annotation-annotated name w.1,
      )
