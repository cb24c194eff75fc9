-- ===== src/Infoblox/Addresses/Unreleased.antt =====
-- A release that does not succeed leaves the server as it was.
use cluster_api_ipam_provide.Common.{
  Error, ◌≡◌, ap, String, List, [], ◌∷◌, arith, ok, err, Result, wapi_not_found, api_not_found,
  plain, fails, panics, final, Call-cases, Bool-cases, Option-cases, Outcome-cases, inl, inr, ◌⊎◌,
}
use cluster_api_ipam_provide.Netip.{Prefix}
use cluster_api_ipam_provide.Infoblox.Wapi.{HostRecord, Wapi}
use cluster_api_ipam_provide.Infoblox.Records.{
  host_query, get_or_new_host_record, prepare_host_record_for_update,
}
use cluster_api_ipam_provide.Infoblox.Addresses.{
  release_address, remove_entry, store_removal, has_no_entries,
}
use cluster_api_ipam_provide.Infoblox.Addresses.Release.{remove_entry-new_host_record}
use cluster_api_ipam_provide.Infoblox.Addresses.Allocated.{Basics}
use cluster_api_ipam_provide.Infoblox.Addresses.Ended.{Careful}
use cluster_api_ipam_provide.Infoblox.Addresses.Released.{Released, release_address-Released}

module _ {S : Type 0} (wapi : Wapi S) (network_view dns_view : String) (subnet : Prefix)
    (hostname : String) where
  store_removal-fails :
      (rest : HostRecord) (s s' : S) (e : Error)
      → Careful wapi
      → store_removal wapi rest s ≡ fails e s'
      → s ≡ s'
  unfolding store_removal
  store_removal-fails rest s s' e c h = elim (Bool-cases (has_no_entries rest)) [
    | inl empty ↦ elim (Call-cases (wapi.delete_object rest.ref s)) [
      | inl (ref, s₁, sent) ↦ absurd (ground arith)
      | inr (e₁, s₁, lost) ↦ let same = c.deleted rest.ref s s₁ e₁ lost in ground arith
    ]
    | inr others ↦
        let prepared = prepare_host_record_for_update rest in
        elim (Call-cases (wapi.update_object prepared prepared.ref s)) [
          | inl (ref, s₁, sent) ↦ absurd (ground arith)
          | inr (e₁, s₁, lost) ↦
              let same = c.updated prepared prepared.ref s s₁ e₁ lost in ground arith
        ]
  ]

  fails_after :
      (s s' : S) (e : Error) (found : Result (List HostRecord))
      → Basics wapi
      → Careful wapi
      → wapi.find_host_records (host_query network_view hostname) s ≡ (found, s)
      → release_address wapi network_view dns_view subnet hostname s ≡ fails e s'
      → s ≡ s'
  unfolding release_address get_or_new_host_record
  fails_after s s' e (ok (hr ∷ [])) r c found h = elim (Option-cases (remove_entry hr subnet)) [
    | inl nothing ↦ absurd (ground arith)
    | inr (rest, removed) ↦ store_removal-fails rest s s' e c (ground arith)
  ]
  fails_after s s' e (err (wapi_not_found m)) r c found h =
      let nothing =
        remove_entry-new_host_record wapi network_view dns_view "" hostname subnet r.blank.1
          r.blank.2 in
      absurd (ground arith)
  fails_after s s' e (ok []) r c found h = ground arith
  fails_after s s' e (ok (x ∷ y ∷ more)) r c found h = ground arith
  fails_after s s' e (err (api_not_found m)) r c found h = ground arith
  fails_after s s' e (err (plain m)) r c found h = ground arith

  no_panic :
      (s s' : S) → release_address wapi network_view dns_view subnet hostname s ≡ panics s' → ⊥
  unfolding release_address get_or_new_host_record
  no_panic s s' h = ground arith

  -- However a release ends, nothing has changed, or it has taken place.
  pub release_address-final :
      (s : S)
      → Basics wapi
      → Careful wapi
      → (s ≡ final (release_address wapi network_view dns_view subnet hostname s))
        ⊎ Released wapi network_view dns_view subnet hostname s
            (final (release_address wapi network_view dns_view subnet hostname s))
  release_address-final s r c =
      let answer = wapi.find_host_records (host_query network_view hostname) s in
      let unchanged : answer ≡ (answer.0, s) =
        ap (λ (t : S). (answer.0, t)) (r.searches network_view hostname s) in
      elim (Outcome-cases (release_address wapi network_view dns_view subnet hostname s)) [
        | inl (u, s₁, e) ↦
            inr
              (rw e (release_address-Released wapi network_view dns_view subnet hostname s s₁ r e))
        | inr (inl (e₁, s₁, e)) ↦ inl (rw e (fails_after s s₁ e₁ answer.0 r c unchanged e))
        | inr (inr (s₁, e)) ↦ absurd (no_panic s s₁ e)
      ]
