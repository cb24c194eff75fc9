-- ===== src/Controllers/Claim/Again.antt =====
-- Ensuring the address of a claim twice.
use text.Mathlib.TextEquality.{eq_iff}
use text.Mathlib.TextLemmas.{nil-append, cons-append}
use cluster_api_ipam_provide.Common.{
  ◌≡◌, ◌≢◌, refl, sym, ap, ◌∙◌, String, ◌<>◌, List, [], ◌∷◌, some, arith, returns, fails, panics,
  Error, ◌⊎◌, Option-cases, inl, inr, Bool-cases, Outcome-cases, string_eq, ◌==◌,
}
use cluster_api_ipam_provide.Netip.{Addr, Prefix}
use cluster_api_ipam_provide.Netip.Parse.{parse_prefix}
use cluster_api_ipam_provide.Infoblox.Config.{HostConfig}
use cluster_api_ipam_provide.Infoblox.Wapi.{Wapi}
use cluster_api_ipam_provide.Infoblox.Client.{Client, client_over}
use cluster_api_ipam_provide.Infoblox.Addresses.Again.{Remembers, get_or_allocate_address-again}
use cluster_api_ipam_provide.Api.{Subnet, InfobloxIpPool, IpAddress}
use cluster_api_ipam_provide.Kube.{Kube}
use cluster_api_ipam_provide.Hostname.{SortFunc, search_hostname}
use cluster_api_ipam_provide.Controllers.Pool.{dns_view_of}
use cluster_api_ipam_provide.Controllers.Claim.{
  get_hostname, ensure_hostname, ensure_address, allocate_from,
}
use cluster_api_ipam_provide.Controllers.Handler.{
  Handler, machine_kind, resolver_max_depth, annotated, annotation, hostname_annotation, filled_in,
}
use cluster_api_ipam_provide.Controllers.Claim.Names.{
  ensure_hostname-annotates, ensure_hostname-checks, ensure_hostname-accepts,
  get_hostname-annotated,
}
use cluster_api_ipam_provide.Controllers.Claim.Ensure.{request, made_ready}

dotted-ne : (a b : String) → a <> ("." <> b) ≢ ""
dotted-ne String.[] b e =
    let e₁ = rw nil-append at e in let e₂ = rw (cons-append _ "" b) at e₁ in cc
dotted-ne (String.◌∷◌ c a) b e = let e₁ = rw (cons-append c a ("." <> b)) at e in cc

module _ {S : Type 0} (kube : Kube S) (sort_func : SortFunc) where
  get_hostname-ne :
      (w w₁ : S × Handler S) (name : String)
      → w.1.claim.name ≢ ""
      → get_hostname kube sort_func w ≡ returns name w₁
      → name ≢ ""
  unfolding get_hostname
  get_hostname-ne w w₁ name named h =
      elim (Bool-cases (annotation hostname_annotation w.1.claim.annotations == "")) [
        | inr noted ↦
            λ bad. ground (arith, eq_iff (annotation hostname_annotation w.1.claim.annotations) "")
        | inl unnoted ↦ elim (Option-cases w.1.pool) [
          | inl nil ↦ absurd (ground arith)
          | inr (pool, has_pool) ↦ elim (Bool-cases (pool.spec.dns_zone == "")) [
            | inl no_zone ↦ let same : w.1.claim.name ≡ name = ground arith in rw (← same) named
            | inr zone ↦
                elim (Outcome-cases
                  (search_hostname kube sort_func machine_kind resolver_max_depth w.1.claim w.0)) [
                    | inl (machine, s, found) ↦
                        let same : machine <> ("." <> pool.spec.dns_zone) ≡ name = ground arith in
                        rw (← same) (dotted-ne machine pool.spec.dns_zone)
                    | inr other ↦ absurd (ground arith)
                  ]
          ]
        ]
      ]

  ensure_hostname-ne :
      (w w' : S × Handler S) (name : String)
      → w.1.claim.name ≢ ""
      → ensure_hostname kube sort_func w ≡ returns name w'
      → name ≢ ""
  unfolding ensure_hostname
  ensure_hostname-ne w w' name named h = elim (Outcome-cases (get_hostname kube sort_func w)) [
    | inl (n, w₁, e) ↦ let given = get_hostname-ne w w₁ n named e in ground arith
    | inr other ↦ absurd (ground arith)
  ]

  -- Ensured once, a hostname is ensured again with no question to the world.
  ensure_hostname-again :
      (w w₁ : S × Handler S) (s : S) (h : Handler S) (pool : InfobloxIpPool) (name : String)
      → w.1.pool ≡ some pool
      → w.1.claim.name ≢ ""
      → ensure_hostname kube sort_func w ≡ returns name w₁
      → h ≡ made_ready kube w₁.1
      → ensure_hostname kube sort_func (s, h) ≡ returns name (s, annotated name h)
  ensure_hostname-again w w₁ s h pool name has_pool named e same =
      let given = ensure_hostname-ne w w₁ name named e in
      let (suffix, noted) = ensure_hostname-checks kube sort_func w w₁ pool name has_pool e in
      let kept = ensure_hostname-annotates kube sort_func w w₁ name e in
      let has_pool' : h.pool ≡ some pool =
        ap (λ (x : Handler S). x.pool) same ∙ (ap (λ (x : Handler S). x.pool) kept ∙ has_pool) in
      let noted' : annotation hostname_annotation h.claim.annotations ≡ name =
        ap (λ (x : Handler S). annotation hostname_annotation x.claim.annotations) same ∙ noted in
      ensure_hostname-accepts kube sort_func (s, h) pool name (s, h) has_pool'
        (get_hostname-annotated kube sort_func (s, h) name noted' given) refl suffix

  module _ (pool : InfobloxIpPool) (host_name : String) (ib : Client S) (sub : Subnet) where
    -- A success for a single subnet.
    record Single (address : IpAddress) (w w' : S × Handler S) (result : IpAddress) : Type 0 where
      subnet : Prefix
      allocated : Addr
      parsed : parse_prefix sub.cidr ≡ some subnet
      given : request pool host_name address ib subnet w.0 ≡ returns allocated w'.0
      filled : result ≡ filled_in address allocated subnet sub
      kept : w'.1 ≡ made_ready kube w.1

    allocate_from-Single :
        (address : IpAddress) (w w' : S × Handler S) (result : IpAddress)
        → w.1.ib_client ≡ some ib
        → allocate_from kube sort_func pool host_name address [] (sub ∷ []) w ≡ returns result w'
        → Single address w w' result
    unfolding allocate_from
    allocate_from-Single address w w' result has_ib h =
        elim (Option-cases (parse_prefix sub.cidr)) [
          | inl bad ↦ absurd (ground arith)
          | inr (subnet, parsed) ↦
              elim (Outcome-cases (request pool host_name address ib subnet w.0)) [
                | inl (a, s, given) ↦ record {
                  subnet = subnet;
                  allocated = a;
                  parsed = parsed;
                  given = ground arith;
                  filled = ground arith;
                  kept = ground arith;
                }
                | inr other ↦ absurd (ground arith)
              ]
        ]

    Single-allocate_from :
        (address : IpAddress) (w : S × Handler S) (s : S) (subnet : Prefix) (a : Addr)
        → w.1.ib_client ≡ some ib
        → parse_prefix sub.cidr ≡ some subnet
        → request pool host_name address ib subnet w.0 ≡ returns a s
        → allocate_from kube sort_func pool host_name address [] (sub ∷ []) w
          ≡ returns (filled_in address a subnet sub) (s, made_ready kube w.1)
    unfolding allocate_from
    Single-allocate_from address w s subnet a has_ib parsed given = ground arith

  ensure_address-needs :
      (address : IpAddress) (w w' : S × Handler S) (result : IpAddress)
      → ((e : Error) × (w₁ : S × Handler S) × (ensure_hostname kube sort_func w ≡ fails e w₁))
        ⊎ ((w₁ : S × Handler S) × (ensure_hostname kube sort_func w ≡ panics w₁))
      → ensure_address kube sort_func address w ≢ returns result w'
  unfolding ensure_address
  ensure_address-needs address w w' result other h = elim other [
    | inl (e, w₁, failed) ↦ ground arith
    | inr (w₁, crashed) ↦ ground arith
  ]

  -- Behind the hostname there is the loop over the subnets of the pool.
  ensure_address-loop :
      (address : IpAddress) (w w₁ : S × Handler S) (pool : InfobloxIpPool) (name : String)
      (subs : List Subnet)
      → ensure_hostname kube sort_func w ≡ returns name w₁
      → w₁.1.pool ≡ some pool
      → pool.spec.subnets ≡ subs
      → ensure_address kube sort_func address w
        ≡ allocate_from kube sort_func pool name address [] subs w₁
  unfolding ensure_address
  ensure_address-loop address w w₁ pool name subs e has_pool listed =
      rw (ensure_address, e, has_pool, listed)

  -- `EnsureAddress` is idempotent for a pool of a single subnet, if the client is one that `NewClient`
  -- makes for a server that remembers what it is sent, and the claim has a name: once it has filled
  -- in an address, the same call, from the world and the handler that it left, fills in the same
  -- address, prefix length and gateway, and leaves the world as it is.
  pub ensure_address-again :
      (address address₂ result : IpAddress) (w w' : S × Handler S) (pool : InfobloxIpPool)
      (wapi : Wapi S) (hc : HostConfig) (sub : Subnet)
      → Remembers wapi
      → w.1.pool ≡ some pool
      → w.1.ib_client ≡ some (client_over wapi hc)
      → pool.spec.subnets ≡ sub ∷ []
      → w.1.claim.name ≢ ""
      → ensure_address kube sort_func address w ≡ returns result w'
      → (again : IpAddress) × (h' : Handler S) × (ensure_address kube sort_func address₂ w'
          ≡ returns again (w'.0, h'))
        × (again.address ≡ result.address)
        × (again.prefix ≡ result.prefix)
        × (again.gateway ≡ result.gateway)
  ensure_address-again address address₂ result w w' pool wapi hc sub r has_pool has_ib single named
        h =
      let ib = client_over wapi hc in
      elim (Outcome-cases (ensure_hostname kube sort_func w)) [
        | inr other ↦ absurd (ensure_address-needs address w w' result other h)
        | inl (name, w₁, e) ↦
            let kept = ensure_hostname-annotates kube sort_func w w₁ name e in
            let has_ib₁ : w₁.1.ib_client ≡ some ib =
              ap (λ (x : Handler S). x.ib_client) kept ∙ has_ib in
            let has_pool₁ : w₁.1.pool ≡ some pool =
              ap (λ (x : Handler S). x.pool) kept ∙ has_pool in
            let first = allocate_from-Single pool name ib sub address w₁ w' result has_ib₁ (
              sym (ensure_address-loop address w w₁ pool name (sub ∷ []) e has_pool₁ single) ∙ h) in
            let ensured =
              ensure_hostname-again w w₁ w'.0 w'.1 pool name has_pool named e first.kept in
            let repeated =
              get_or_allocate_address-again wapi pool.spec.network_view (dns_view_of pool ib)
                first.subnet name pool.spec.dns_zone w₁.0 w'.0 first.allocated r first.given in
            let has_ib₂ : w'.1.ib_client ≡ some ib =
              ap (λ (x : Handler S). x.ib_client) first.kept ∙ has_ib₁ in
            let has_pool₂ : w'.1.pool ≡ some pool =
              ap (λ (x : Handler S). x.pool) first.kept ∙ has_pool₁ in
            let second =
              Single-allocate_from pool name ib sub address₂ (w'.0, annotated name w'.1) w'.0
                first.subnet first.allocated has_ib₂ first.parsed repeated in
            (
              filled_in address₂ first.allocated first.subnet sub,
              made_ready kube (annotated name w'.1),
              ensure_address-loop address₂ w' (w'.0, annotated name w'.1) pool name (sub ∷ [])
                    ensured has_pool₂ single
                  ∙ second,
              ap (λ (x : IpAddress). x.address) (sym first.filled),
              ap (λ (x : IpAddress). x.prefix) (sym first.filled),
              ap (λ (x : IpAddress). x.gateway) (sym first.filled),
            )
      ]
