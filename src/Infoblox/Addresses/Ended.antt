-- ===== src/Infoblox/Addresses/Ended.antt =====
-- What `GetOrAllocateAddress` and `ReleaseAddress` have done when they end, with or without an error.
use cluster_api_ipam_provide.Common.{
  Error, ◌≡◌, sym, ap, ◌∙◌, String, true, false, List, [], ◌∷◌, arith, ok, err, Result,
  wapi_not_found, api_not_found, plain, returns, final, Call-cases, Bool-cases, Option-cases,
  Outcome-cases, inl, inr, ◌⊎◌, ◌==◌, string_eq,
}
use cluster_api_ipam_provide.Netip.{Prefix, is_valid}
use cluster_api_ipam_provide.Infoblox.Wapi.{HostRecord, Wapi}
use cluster_api_ipam_provide.Infoblox.Records.{
  host_query, return_fields, get_or_new_host_record, get_allocated_host_record_addr_in_subnet,
  prepare_host_record_for_update, create_or_update_host_record,
}
use cluster_api_ipam_provide.Infoblox.Addresses.{get_or_allocate_address, with_request}
use cluster_api_ipam_provide.Infoblox.Addresses.Allocated.{
  Basics, fresh_record, fresh_record-no_address, with_request-fresh, with_request-known,
}

module _ {S : Type 0} (wapi : Wapi S) where
  -- What is assumed of the server besides: a write that fails changes nothing, and neither does
  -- fetching a record.
  pub record Careful : Type 0 where
    pub created :
        (hr : HostRecord) (s s₁ : S) (e : Error) → wapi.create_object hr s ≡ (err e, s₁) → s ≡ s₁
    pub updated :
        (hr : HostRecord) (ref : String) (s s₁ : S) (e : Error)
        → wapi.update_object hr ref s ≡ (err e, s₁)
        → s ≡ s₁
    pub deleted :
        (ref : String) (s s₁ : S) (e : Error) → wapi.delete_object ref s ≡ (err e, s₁) → s ≡ s₁
    pub fetched :
        (ref : String) (hr : HostRecord) (s : S)
        → (wapi.get_host_record ref (return_fields ∷ []) hr s).1 ≡ s

  -- The end of `createOrUpdateHostRecord` for a record that has no reference, and for one that has.
  created-final :
      (hr : HostRecord) (s : S)
      → Careful
      → (hr.ref == "") ≡ true
      → (s ≡ final (create_or_update_host_record wapi hr s))
        ⊎ ((ref : String) × (wapi.create_object hr s
              ≡ (ok ref, final (create_or_update_host_record wapi hr s))))
  unfolding create_or_update_host_record
  created-final hr s c fresh = elim (Option-cases hr.name) [
    | inl nameless ↦ inl (ground arith)
    | inr (name, named) ↦ elim (Call-cases (wapi.create_object hr s)) [
      | inr (e, s₁, lost) ↦ let same = c.created hr s s₁ e lost in inl (ground arith)
      | inl (ref, s₁, sent) ↦
          let same = c.fetched ref hr s₁ in
          elim (Call-cases (wapi.get_host_record ref (return_fields ∷ []) hr s₁)) [
            | inl (x, s₂, got) ↦ inr (ref, ground arith)
            | inr (e, s₂, lost) ↦ inr (ref, ground arith)
          ]
    ]
  ]

  updated-final :
      (hr : HostRecord) (s : S)
      → Careful
      → (hr.ref == "") ≡ false
      → (s ≡ final (create_or_update_host_record wapi hr s))
        ⊎ ((ref : String) × (wapi.update_object
                (prepare_host_record_for_update hr)
                (prepare_host_record_for_update hr).ref
                s
              ≡ (ok ref, final (create_or_update_host_record wapi hr s))))
  unfolding create_or_update_host_record prepare_host_record_for_update
  updated-final hr s c known = elim (Option-cases hr.name) [
    | inl nameless ↦ inl (ground arith)
    | inr (name, named) ↦
        elim (Call-cases (wapi.update_object (prepare_host_record_for_update hr) hr.ref s)) [
          | inr (e, s₁, lost) ↦
              let same = c.updated (prepare_host_record_for_update hr) hr.ref s s₁ e lost in
              inl (ground arith)
          | inl (ref, s₁, sent) ↦
              let same = c.fetched ref (prepare_host_record_for_update hr) s₁ in
              elim (Call-cases (
                wapi.get_host_record ref (return_fields ∷ []) (prepare_host_record_for_update hr)
                  s₁)) [
                    | inl (x, s₂, got) ↦ inr (ref, ground arith)
                    | inr (e, s₂, lost) ↦ inr (ref, ground arith)
                  ]
        ]
  ]

  module _ (network_view dns_view : String) (subnet : Prefix) (hostname dns_zone : String) where
    abbrev asked : HostRecord → HostRecord
    asked hr = with_request wapi hr subnet network_view

    abbrev fresh : HostRecord
    fresh = fresh_record wapi network_view dns_view subnet hostname dns_zone

    abbrev end_of : S → S
    end_of s = final (get_or_allocate_address wapi network_view dns_view subnet hostname dns_zone s)

    -- Nothing was written; or a record for the unknown host was created; or the record of the host,
    -- which had no address in the subnet, was extended.
    pub data Wrote (s s' : S) : Type 0 where
      nothing : s ≡ s' → Wrote s s'
      created :
          (m ref : String)
          → wapi.find_host_records (host_query network_view hostname) s
            ≡ (err (wapi_not_found m), s)
          → wapi.create_object (asked fresh) s ≡ (ok ref, s')
          → Wrote s s'
      extended :
          (old : HostRecord) (ref : String)
          → wapi.find_host_records (host_query network_view hostname) s ≡ (ok (old ∷ []), s)
          → is_valid (get_allocated_host_record_addr_in_subnet old subnet) ≡ false
          → wapi.update_object
              (prepare_host_record_for_update (asked old))
              (prepare_host_record_for_update (asked old)).ref
              s
            ≡ (ok ref, s')
          → Wrote s s'

    -- Behind the search, the call ends where its write ends.
    ends_with_write :
        (hr : HostRecord) (s : S)
        → get_or_new_host_record wapi network_view dns_view dns_zone hostname s ≡ returns hr s
        → is_valid (get_allocated_host_record_addr_in_subnet hr subnet) ≡ false
        → end_of s ≡ final (create_or_update_host_record wapi (asked hr) s)
    unfolding get_or_allocate_address
    ends_with_write hr s got no_address =
        elim (Outcome-cases (create_or_update_host_record wapi (asked hr) s)) [
          | inl (x, s₁, e) ↦
              elim (Bool-cases (is_valid (get_allocated_host_record_addr_in_subnet x subnet))) [
                | inl there ↦ ground arith
                | inr missing ↦ ground arith
              ]
          | inr (inl (e₁, s₁, e)) ↦ ground arith
          | inr (inr (s₁, e)) ↦ ground arith
        ]

    ended_missing :
        (s : S) (m : String)
        → Basics wapi
        → Careful
        → wapi.find_host_records (host_query network_view hostname) s ≡ (err (wapi_not_found m), s)
        → Wrote s (end_of s)
    unfolding get_or_new_host_record
    ended_missing s m r c missing =
        let none_yet =
          fresh_record-no_address wapi network_view dns_view subnet hostname dns_zone r in
        let (no_ref, named, viewed) =
          with_request-fresh wapi network_view dns_view subnet hostname dns_zone r in
        let same = ends_with_write fresh s (ground arith) none_yet in
        elim (created-final (asked fresh) s c no_ref) [
          | inl unchanged ↦ nothing (unchanged ∙ sym same)
          | inr (ref, sent) ↦ created m ref missing (rw same sent)
        ]

    ended_there :
        (s : S) (hr : HostRecord)
        → wapi.find_host_records (host_query network_view hostname) s ≡ (ok (hr ∷ []), s)
        → is_valid (get_allocated_host_record_addr_in_subnet hr subnet) ≡ true
        → s ≡ end_of s
    unfolding get_or_allocate_address get_or_new_host_record
    ended_there s hr found there = ground arith

    ended_found :
        (s : S) (hr : HostRecord)
        → Basics wapi
        → Careful
        → wapi.find_host_records (host_query network_view hostname) s ≡ (ok (hr ∷ []), s)
        → Wrote s (end_of s)
    unfolding get_or_new_host_record
    ended_found s hr r c found =
        elim (Bool-cases (is_valid (get_allocated_host_record_addr_in_subnet hr subnet))) [
          | inl there ↦ nothing (ended_there s hr found there)
          | inr not_there ↦
              let (known, same_ref, same_name) =
                with_request-known wapi network_view dns_view subnet hostname dns_zone hr
                  (r.referenced network_view hostname s s hr found) in
              let same = ends_with_write hr s (ground arith) not_there in
              elim (updated-final (asked hr) s c known) [
                | inl unchanged ↦ nothing (unchanged ∙ sym same)
                | inr (ref, sent) ↦ extended hr ref found not_there (rw same sent)
              ]
        ]

    ended_after :
        (s : S) (found : Result (List HostRecord))
        → Basics wapi
        → Careful
        → wapi.find_host_records (host_query network_view hostname) s ≡ (found, s)
        → Wrote s (end_of s)
    unfolding get_or_allocate_address get_or_new_host_record
    ended_after s (ok (hr ∷ [])) r c e = ended_found s hr r c e
    ended_after s (err (wapi_not_found m)) r c e = ended_missing s m r c e
    ended_after s (ok []) r c e = nothing (ground arith)
    ended_after s (ok (x ∷ y ∷ more)) r c e = nothing (ground arith)
    ended_after s (err (api_not_found m)) r c e = nothing (ground arith)
    ended_after s (err (plain m)) r c e = nothing (ground arith)

    pub get_or_allocate_address-Wrote :
        (s : S)
        → Basics wapi
        → Careful
        → Wrote s
            (final (get_or_allocate_address wapi network_view dns_view subnet hostname dns_zone s))
    get_or_allocate_address-Wrote s r c =
        let answer = wapi.find_host_records (host_query network_view hostname) s in
        let unchanged : answer ≡ (answer.0, s) =
          ap (λ (t : S). (answer.0, t)) (r.searches network_view hostname s) in
        ended_after s answer.0 r c unchanged
