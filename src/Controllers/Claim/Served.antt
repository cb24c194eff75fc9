-- ===== src/Controllers/Claim/Served.antt =====
-- Runs of `EnsureAddress` and `ReleaseAddress` for many claims, against one server.
use mathlib.Core.List.{Memᴰ}
use cluster_api_ipam_provide.Common.{
  ◌≡◌, ◌∙◌, refl, ap, String, List, [], ◌∷◌, some, arith, Error, inl, inr, Option-cases,
  Outcome-cases, Bool-cases, final, ◌==◌, string_eq, is_empty, has_suffix, ◌++◌,
}
use cluster_api_ipam_provide.Netip.{Prefix}
use cluster_api_ipam_provide.Netip.Parse.{parse_prefix}
use cluster_api_ipam_provide.Infoblox.Config.{HostConfig}
use cluster_api_ipam_provide.Infoblox.Wapi.{Wapi}
use cluster_api_ipam_provide.Infoblox.Client.{client_over}
use cluster_api_ipam_provide.Infoblox.Leases.{leases_in}
use cluster_api_ipam_provide.Infoblox.Leases.Run.{Run, allocate, release, elsewhere}
use cluster_api_ipam_provide.Api.{Subnet, InfobloxIpPool, IpAddress}
use cluster_api_ipam_provide.Kube.{Kube}
use cluster_api_ipam_provide.Hostname.{SortFunc, search_hostname}
use cluster_api_ipam_provide.Hostname.Steady.{search_hostname-keeps}
use cluster_api_ipam_provide.Controllers.Pool.{dns_view_of}
use cluster_api_ipam_provide.Controllers.Claim.{
  get_hostname, ensure_hostname, allocate_from, ensure_address, release_from, release_address,
}
use cluster_api_ipam_provide.Controllers.Handler.{
  Handler, annotation, hostname_annotation, machine_kind, resolver_max_depth,
}
use cluster_api_ipam_provide.Controllers.Claim.Names.{ensure_hostname-annotates}
use cluster_api_ipam_provide.Controllers.Claim.Ensure as Ensure
use cluster_api_ipam_provide.Controllers.Claim.Release as Release

-- What is assumed of the cluster: fetching an owner leaves the addresses of the hosts as they are.
abbrev pub LeavesAddresses : {S : Type 0} → Kube S → Wapi S → String → Type 0
LeavesAddresses {S} kube wapi network_view =
    (api_version kind namespace name : String) (s : S)
    → leases_in wapi network_view (kube.get_owner api_version kind namespace name s).1
      ≡ leases_in wapi network_view s

module _ {S : Type 0} (kube : Kube S) (sort_func : SortFunc) (wapi : Wapi S) (subnets : List Prefix)
    (pool : InfobloxIpPool) where
  -- The subnets of the list that can be parsed are among those of the runs.
  abbrev pub IsListed : List Subnet → Type 0
  IsListed subs =
      (sub : Subnet) (subnet : Prefix)
      → Memᴰ sub subs
      → parse_prefix sub.cidr ≡ some subnet
      → Memᴰ subnet subnets

  abbrev Reaches : S → S → Type 0
  Reaches = Run wapi pool.spec.network_view subnets

  search_hostname-Run :
      (s s₁ : S) (h : Handler S)
      → LeavesAddresses kube wapi pool.spec.network_view
      → Reaches s s₁
      → Reaches s
          (final (search_hostname kube sort_func machine_kind resolver_max_depth h.claim s₁))
  search_hostname-Run s s₁ h leaves run =
      let view = leases_in wapi pool.spec.network_view in
      elsewhere s₁ _
        (search_hostname-keeps kube (λ t. view t ≡ view s₁) sort_func machine_kind
          resolver_max_depth h.claim s₁
          (λ api_version kind namespace name t i. leaves api_version kind namespace name t ∙ i)
          refl)
        run

  -- The search for the hostname is a run, and leaves the handler as it is.
  get_hostname-Run :
      (s s₁ : S) (h : Handler S)
      → h.pool ≡ some pool
      → LeavesAddresses kube wapi pool.spec.network_view
      → Reaches s s₁
      → Reaches s (final (get_hostname kube sort_func (s₁, h))).0
        × ((final (get_hostname kube sort_func (s₁, h))).1 ≡ h)
  unfolding get_hostname
  get_hostname-Run s s₁ h has_pool leaves run =
      elim (Bool-cases (annotation hostname_annotation h.claim.annotations == "")) [
        | inr named ↦ rw named (run, refl)
        | inl unnamed ↦ elim (Bool-cases (pool.spec.dns_zone == "")) [
          | inl no_zone ↦ rw (unnamed, has_pool, no_zone) (run, refl)
          | inr zone ↦
              let ran = search_hostname-Run s s₁ h leaves run in
              elim (Outcome-cases
                (search_hostname kube sort_func machine_kind resolver_max_depth h.claim s₁)) [
                  | inl (machine, s₂, found) ↦
                      rw (unnamed, has_pool, zone, found) (rw found at ran, refl)
                  | inr (inl (e, s₂, lost)) ↦
                      rw (unnamed, has_pool, zone, lost) (rw lost at ran, refl)
                  | inr (inr (s₂, crashed)) ↦
                      rw (unnamed, has_pool, zone, crashed) (rw crashed at ran, refl)
                ]
        ]
      ]

  ensure_hostname-Run :
      (s s₁ : S) (h : Handler S)
      → h.pool ≡ some pool
      → LeavesAddresses kube wapi pool.spec.network_view
      → Reaches s s₁
      → Reaches s (final (ensure_hostname kube sort_func (s₁, h))).0
  unfolding ensure_hostname
  ensure_hostname-Run s s₁ h has_pool leaves run =
      let (ran, kept) = get_hostname-Run s s₁ h has_pool leaves run in
      elim (Outcome-cases (get_hostname kube sort_func (s₁, h))) [
        | inl (name, w₂, found) ↦
            let there : w₂.1.pool ≡ some pool =
              ap (λ (t : Handler S). t.pool) (rw found at kept) ∙ has_pool in
            elim (Bool-cases (has_suffix name pool.spec.dns_zone)) [
              | inl ends ↦ rw (found, there, ends) (rw found at ran)
              | inr apart ↦ rw (found, there, apart) (rw found at ran)
            ]
        | inr (inl (e, w₂, lost)) ↦ rw lost (rw lost at ran)
        | inr (inr (w₂, crashed)) ↦ rw crashed (rw crashed at ran)
      ]

  allocate_from-Run :
      (hc : HostConfig) (name : String) (address : IpAddress) (errs : List Error)
      (subs : List Subnet) (s : S) (w : S × Handler S)
      → w.1.ib_client ≡ some (client_over wapi hc)
      → IsListed subs
      → Reaches s w.0
      → Reaches s (final (allocate_from kube sort_func pool name address errs subs w)).0
  unfolding allocate_from
  allocate_from-Run hc name address errs [] s w has_ib listed run = run
  allocate_from-Run hc name address errs (sub ∷ subs) s w has_ib listed run =
      let rest : IsListed subs = (λ sub' p m parsed. listed sub' p (Memᴰ.tail m) parsed) in
      elim (Option-cases (parse_prefix sub.cidr)) [
        | inl bad ↦
            rw (allocate_from, bad)
              (allocate_from-Run hc name address errs subs s w has_ib rest run)
        | inr (subnet, parsed) ↦
            let ran =
              allocate w.0 (dns_view_of pool (client_over wapi hc)) name pool.spec.dns_zone subnet
                (listed sub subnet (Memᴰ.head refl) parsed) run in
            elim (Outcome-cases
              (Ensure.request pool name address (client_over wapi hc) subnet w.0)) [
                | inl (a, s₂, given) ↦ rw (allocate_from, parsed, has_ib, given) (rw given at ran)
                | inr (inl (e, s₂, lost)) ↦
                    let next : allocate_from kube sort_func pool name address errs (sub ∷ subs) w
                        ≡ allocate_from kube sort_func pool name address (errs ++ e ∷ []) subs
                            (s₂, w.1) =
                      ground arith in
                    rw next (
                      allocate_from-Run hc name address (errs ++ e ∷ []) subs s (s₂, w.1) has_ib
                        rest (rw lost at ran))
                | inr (inr (s₂, crashed)) ↦
                    rw (allocate_from, parsed, has_ib, crashed) (rw crashed at ran)
              ]
      ]

  release_from-Run :
      (hc : HostConfig) (name : String) (subs : List Subnet) (s : S) (w : S × Handler S)
      → w.1.ib_client ≡ some (client_over wapi hc)
      → IsListed subs
      → Reaches s w.0
      → Reaches s (final (release_from kube sort_func pool name subs w)).0
  unfolding release_from
  release_from-Run hc name [] s w has_ib listed run = run
  release_from-Run hc name (sub ∷ subs) s w has_ib listed run =
      let rest : IsListed subs = (λ sub' p m parsed. listed sub' p (Memᴰ.tail m) parsed) in
      elim (Option-cases (parse_prefix sub.cidr)) [
        | inl bad ↦ rw (release_from, bad) (release_from-Run hc name subs s w has_ib rest run)
        | inr (subnet, parsed) ↦
            let ran =
              release w.0 (dns_view_of pool (client_over wapi hc)) name subnet
                (listed sub subnet (Memᴰ.head refl) parsed) run in
            elim (Outcome-cases (Release.request wapi hc pool name subnet w.0)) [
              | inl (u, s₂, given) ↦
                  let next : release_from kube sort_func pool name (sub ∷ subs) w
                      ≡ release_from kube sort_func pool name subs (s₂, w.1) =
                    ground arith in
                  rw next (release_from-Run hc name subs s (s₂, w.1) has_ib rest (rw given at ran))
              | inr (inl (e, s₂, lost)) ↦
                  let next : release_from kube sort_func pool name (sub ∷ subs) w
                      ≡ release_from kube sort_func pool name subs (s₂, w.1) =
                    ground arith in
                  rw next (release_from-Run hc name subs s (s₂, w.1) has_ib rest (rw lost at ran))
              | inr (inr (s₂, crashed)) ↦
                  rw (release_from, parsed, has_ib, crashed) (rw crashed at ran)
            ]
      ]

  -- However it ends, `EnsureAddress` for a claim of the pool is a run of calls to the server.
  pub ensure_address-Run :
      (hc : HostConfig) (address : IpAddress) (s s₁ : S) (h : Handler S)
      → h.pool ≡ some pool
      → h.ib_client ≡ some (client_over wapi hc)
      → IsListed pool.spec.subnets
      → LeavesAddresses kube wapi pool.spec.network_view
      → Run wapi pool.spec.network_view subnets s s₁
      → Run wapi pool.spec.network_view subnets s
          (final (ensure_address kube sort_func address (s₁, h))).0
  unfolding ensure_address
  ensure_address-Run hc address s s₁ h has_pool has_ib listed leaves run =
      let ran = ensure_hostname-Run s s₁ h has_pool leaves run in
      elim (Outcome-cases (ensure_hostname kube sort_func (s₁, h))) [
        | inl (name, w₂, found) ↦
            let kept = ensure_hostname-annotates kube sort_func (s₁, h) w₂ name found in
            let there : w₂.1.pool ≡ some pool = ap (λ (t : Handler S). t.pool) kept ∙ has_pool in
            let same_ib = ap (λ (t : Handler S). t.ib_client) kept ∙ has_ib in
            let next : ensure_address kube sort_func address (s₁, h)
                ≡ allocate_from kube sort_func pool name address [] pool.spec.subnets w₂ =
              ground arith in
            rw next (
              allocate_from-Run hc name address [] pool.spec.subnets s w₂ same_ib listed
                (rw found at ran))
        | inr (inl (e, w₂, lost)) ↦ rw lost (rw lost at ran)
        | inr (inr (w₂, crashed)) ↦ rw crashed (rw crashed at ran)
      ]

  -- However it ends, so is `ReleaseAddress`.
  pub release_address-Run :
      (hc : HostConfig) (s s₁ : S) (h : Handler S)
      → h.pool ≡ some pool
      → h.ib_client ≡ some (client_over wapi hc)
      → IsListed pool.spec.subnets
      → LeavesAddresses kube wapi pool.spec.network_view
      → Run wapi pool.spec.network_view subnets s s₁
      → Run wapi pool.spec.network_view subnets s (final (release_address kube sort_func (s₁, h))).0
  unfolding release_address
  release_address-Run hc s s₁ h has_pool has_ib listed leaves run =
      let (ran, same) = get_hostname-Run s s₁ h has_pool leaves run in
      elim (Outcome-cases (get_hostname kube sort_func (s₁, h))) [
        | inl (name, w₂, found) ↦
            let kept : w₂.1 ≡ h = rw found at same in
            let there : w₂.1.pool ≡ some pool = ap (λ (t : Handler S). t.pool) kept ∙ has_pool in
            let same_ib = ap (λ (t : Handler S). t.ib_client) kept ∙ has_ib in
            elim (Bool-cases (is_empty pool.spec.subnets)) [
              | inl nothing ↦ rw (found, there, nothing) (rw found at ran)
              | inr some_subnet ↦
                  let next : release_address kube sort_func (s₁, h)
                      ≡ release_from kube sort_func pool name pool.spec.subnets w₂ =
                    ground arith in
                  rw next (
                    release_from-Run hc name pool.spec.subnets s w₂ same_ib listed
                      (rw found at ran))
            ]
        | inr (inl (e, w₂, lost)) ↦ rw lost (rw lost at ran)
        | inr (inr (w₂, crashed)) ↦ rw crashed (rw crashed at ran)
      ]
