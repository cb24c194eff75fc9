-- ===== src/Infoblox/Addresses/Released.antt =====
-- The ways in which `ReleaseAddress` succeeds, against a server that keeps to the basics.
use cluster_api_ipam_provide.Common.{
  ◌≡◌, ap, String, true, false, some, none, List, [], ◌∷◌, arith, ok, err, Result, wapi_not_found,
  api_not_found, plain, returns, Call-cases, Bool-cases, Option-cases, inl, inr,
}
use cluster_api_ipam_provide.Netip.{Prefix}
use cluster_api_ipam_provide.Infoblox.Wapi.{HostRecord, Wapi}
use cluster_api_ipam_provide.Infoblox.Records.{
  host_query, get_or_new_host_record, prepare_host_record_for_update,
}
use cluster_api_ipam_provide.Infoblox.Addresses.{
  release_address, remove_entry, store_removal, has_no_entries,
}
use cluster_api_ipam_provide.Infoblox.Addresses.Release.{remove_entry-new_host_record}
use cluster_api_ipam_provide.Infoblox.Addresses.Allocated.{Basics}

module _ {S : Type 0} (wapi : Wapi S) (network_view dns_view : String) (subnet : Prefix)
    (hostname : String) where
  -- The host was unknown; or its record had no entry in the subnet; or the record was deleted with
  -- its last entry; or it was updated without the entry.
  pub data Released (s s' : S) : Type 0 where
    unknown :
        (m : String)
        → wapi.find_host_records (host_query network_view hostname) s ≡ (err (wapi_not_found m), s)
        → s ≡ s'
        → Released s s'
    absent :
        (hr : HostRecord)
        → wapi.find_host_records (host_query network_view hostname) s ≡ (ok (hr ∷ []), s)
        → remove_entry hr subnet ≡ none
        → s ≡ s'
        → Released s s'
    deleted :
        (hr rest : HostRecord) (ref : String)
        → wapi.find_host_records (host_query network_view hostname) s ≡ (ok (hr ∷ []), s)
        → remove_entry hr subnet ≡ some rest
        → has_no_entries rest ≡ true
        → wapi.delete_object rest.ref s ≡ (ok ref, s')
        → Released s s'
    shortened :
        (hr rest : HostRecord) (ref : String)
        → wapi.find_host_records (host_query network_view hostname) s ≡ (ok (hr ∷ []), s)
        → remove_entry hr subnet ≡ some rest
        → has_no_entries rest ≡ false
        → wapi.update_object
            (prepare_host_record_for_update rest)
            (prepare_host_record_for_update rest).ref
            s
          ≡ (ok ref, s')
        → Released s s'

  after_removal :
      (s s' : S) (hr rest : HostRecord)
      → wapi.find_host_records (host_query network_view hostname) s ≡ (ok (hr ∷ []), s)
      → remove_entry hr subnet ≡ some rest
      → store_removal wapi rest s ≡ returns tt s'
      → Released s s'
  unfolding store_removal
  after_removal s s' hr rest found removed h = elim (Bool-cases (has_no_entries rest)) [
    | inl empty ↦ elim (Call-cases (wapi.delete_object rest.ref s)) [
      | inl (ref, s₁, e) ↦ deleted hr rest ref found removed empty (ground arith)
      | inr (e₁, s₁, e) ↦ absurd (ground arith)
    ]
    | inr others ↦
        elim (Call-cases (
          wapi.update_object (prepare_host_record_for_update rest)
            (prepare_host_record_for_update rest).ref s)) [
              | inl (ref, s₁, e) ↦ shortened hr rest ref found removed others (ground arith)
              | inr (e₁, s₁, e) ↦ absurd (ground arith)
            ]
  ]

  after_search :
      (s s' : S) (found : Result (List HostRecord))
      → Basics wapi
      → wapi.find_host_records (host_query network_view hostname) s ≡ (found, s)
      → release_address wapi network_view dns_view subnet hostname s ≡ returns tt s'
      → Released s s'
  unfolding release_address get_or_new_host_record
  after_search s s' (ok (hr ∷ [])) r e h = elim (Option-cases (remove_entry hr subnet)) [
    | inl nothing ↦ absent hr e nothing (ground arith)
    | inr (rest, removed) ↦ after_removal s s' hr rest e removed (ground arith)
  ]
  after_search s s' (err (wapi_not_found m)) r e h =
      let nothing =
        remove_entry-new_host_record wapi network_view dns_view "" hostname subnet r.blank.1
          r.blank.2 in
      unknown m e (ground arith)
  after_search s s' (ok []) r e h = absurd (ground arith)
  after_search s s' (ok (x ∷ y ∷ more)) r e h = absurd (ground arith)
  after_search s s' (err (api_not_found m)) r e h = absurd (ground arith)
  after_search s s' (err (plain m)) r e h = absurd (ground arith)

  pub release_address-Released :
      (s s' : S)
      → Basics wapi
      → release_address wapi network_view dns_view subnet hostname s ≡ returns tt s'
      → Released s s'
  release_address-Released s s' r h =
      let answer = wapi.find_host_records (host_query network_view hostname) s in
      let unchanged : answer ≡ (answer.0, s) =
        ap (λ (t : S). (answer.0, t)) (r.searches network_view hostname s) in
      after_search s s' answer.0 r unchanged h
