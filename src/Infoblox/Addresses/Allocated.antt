-- ===== src/Infoblox/Addresses/Allocated.antt =====
-- The ways in which `GetOrAllocateAddress` succeeds, against a server that keeps to the basics.
use text.Mathlib.TextEquality.{eq_iff}
use cluster_api_ipam_provide.Common.{
  ◌≡◌, ◌≢◌, ap, Result, api_not_found, plain, String, true, false, some, none, List, [], ◌∷◌, arith,
  ok, err, wapi_not_found, returns, Call-cases, Bool-cases, Option-cases, sym, ◌∙◌, Outcome-cases,
  inl, inr, ◌⊎◌, ◌==◌, string_eq,
}
use cluster_api_ipam_provide.Netip.{Addr, Prefix, is_valid}
use cluster_api_ipam_provide.Infoblox.Wapi.{HostRecord, Wapi}
use cluster_api_ipam_provide.Infoblox.Records.{
  host_query, return_fields, get_allocated_host_record_addr_in_subnet, get_or_new_host_record,
  new_host_record, prepare_host_record_for_update, create_or_update_host_record, first_in,
}
use cluster_api_ipam_provide.Infoblox.Addresses.{with_request, get_or_allocate_address}

module _ {S : Type 0} (wapi : Wapi S) where
  -- The record is written to the server, and this is what is fetched afterwards.
  pub record Stored (written hr : HostRecord) (s s' : S) : Type 0 where
    pub ref : String
    pub between : S
    pub sent :
        ((written.ref ≡ "") × (wapi.create_object written s ≡ (ok ref, between)))
        ⊎ ((written.ref ≢ "") × (wapi.update_object written written.ref s ≡ (ok ref, between)))
    pub fetched : wapi.get_host_record ref (return_fields ∷ []) written between ≡ (ok hr, s')

  -- A search changes nothing, what is found has a reference, and the empty record has nothing.
  pub record Basics : Type 0 where
    pub searches :
        (network_view hostname : String) (s : S)
        → (wapi.find_host_records (host_query network_view hostname) s).1 ≡ s
    pub referenced :
        (network_view hostname : String) (s s' : S) (hr : HostRecord)
        → wapi.find_host_records (host_query network_view hostname) s ≡ (ok (hr ∷ []), s')
        → hr.ref ≢ ""
    pub blank :
        (wapi.new_empty_host_record.ref ≡ "")
        × (wapi.new_empty_host_record.ipv4_addrs ≡ none)
        × (wapi.new_empty_host_record.ipv6_addrs ≡ none)

  created-Stored :
      (hr written : HostRecord) (s s' : S)
      → (hr.ref == "") ≡ true
      → create_or_update_host_record wapi hr s ≡ returns written s'
      → Stored hr written s s'
  unfolding create_or_update_host_record
  created-Stored hr written s s' fresh h = elim (Call-cases (wapi.create_object hr s)) [
    | inl (ref, s₁, e) ↦ record {
      ref = ref;
      between = s₁;
      sent = inl ((eq_iff hr.ref "").0 fresh, e);
      fetched = ground arith;
    }
    | inr (e₁, s₁, failed) ↦ absurd (ground arith)
  ]

  updated-Stored :
      (hr written : HostRecord) (s s' : S)
      → (hr.ref == "") ≡ false
      → create_or_update_host_record wapi hr s ≡ returns written s'
      → Stored (prepare_host_record_for_update hr) written s s'
  unfolding create_or_update_host_record prepare_host_record_for_update
  updated-Stored hr written s s' known h =
      elim (Call-cases (wapi.update_object (prepare_host_record_for_update hr) hr.ref s)) [
        | inl (ref, s₁, e) ↦ record {
          ref = ref;
          between = s₁;
          sent = inr ((λ empty. ground (arith, eq_iff hr.ref "")), e);
          fetched = ground arith;
        }
        | inr (e₁, s₁, failed) ↦ absurd (ground arith)
      ]

  updated-named :
      (hr written : HostRecord) (s s' : S)
      → (hr.ref == "") ≡ false
      → create_or_update_host_record wapi hr s ≡ returns written s'
      → (name : String) × ((prepare_host_record_for_update hr).name ≡ some name)
  unfolding create_or_update_host_record prepare_host_record_for_update
  updated-named hr written s s' known h = elim (Option-cases hr.name) [
    | inl nameless ↦ absurd (ground arith)
    | inr named ↦ named
  ]

  module _ (network_view dns_view : String) (subnet : Prefix) (hostname dns_zone : String) where
    abbrev pub fresh_record : HostRecord
    fresh_record = new_host_record wapi network_view dns_view dns_zone hostname

    pub fresh_record-no_address :
        Basics → is_valid (get_allocated_host_record_addr_in_subnet fresh_record subnet) ≡ false
    unfolding get_allocated_host_record_addr_in_subnet new_host_record first_in
    fresh_record-no_address r = let (empty, no4, no6) = r.blank in ground arith

    -- What is sent to the server names the host.
    pub with_request-fresh :
        Basics
        → let sent = with_request wapi fresh_record subnet network_view in
          ((sent.ref == "") ≡ true)
          × (sent.name ≡ some hostname)
          × (sent.network_view ≡ network_view)
    unfolding with_request new_host_record
    with_request-fresh r =
        let (empty, no4, no6) = r.blank in
        (
          (eq_iff (with_request wapi fresh_record subnet network_view).ref "").1 (ground arith),
          ground arith,
          ground arith,
        )

    pub with_request-known :
        (hr : HostRecord)
        → hr.ref ≢ ""
        → let asked = with_request wapi hr subnet network_view in
          let sent = prepare_host_record_for_update asked in
          ((asked.ref == "") ≡ false) × (sent.ref ≡ hr.ref) × (sent.name ≡ hr.name)
    unfolding with_request prepare_host_record_for_update
    with_request-known hr known = (ground (arith, eq_iff hr.ref ""), ground arith, ground arith)

    abbrev found_in : HostRecord → Addr
    found_in hr = get_allocated_host_record_addr_in_subnet hr subnet

    -- The address was there; or the host was unknown, and its record was created; or the host's
    -- record had no address in the subnet, and was extended.
    pub data Allocated (s s' : S) (a : Addr) : Type 0 where
      existing :
          (hr : HostRecord)
          → wapi.find_host_records (host_query network_view hostname) s ≡ (ok (hr ∷ []), s)
          → found_in hr ≡ a
          → is_valid a ≡ true
          → s ≡ s'
          → Allocated s s' a
      created :
          (m : String) (hr : HostRecord)
          → wapi.find_host_records (host_query network_view hostname) s
            ≡ (err (wapi_not_found m), s)
          → Stored (with_request wapi fresh_record subnet network_view) hr s s'
          → found_in hr ≡ a
          → is_valid a ≡ true
          → Allocated s s' a
      extended :
          (old hr : HostRecord)
          → wapi.find_host_records (host_query network_view hostname) s ≡ (ok (old ∷ []), s)
          → is_valid (found_in old) ≡ false
          → (name : String) → old.name ≡ some name
          → Stored
              (prepare_host_record_for_update (with_request wapi old subnet network_view))
              hr
              s
              s'
          → found_in hr ≡ a
          → is_valid a ≡ true
          → Allocated s s' a

    after_missing :
        (s s' : S) (a : Addr) (m : String)
        → Basics
        → wapi.find_host_records (host_query network_view hostname) s ≡ (err (wapi_not_found m), s)
        → get_or_allocate_address wapi network_view dns_view subnet hostname dns_zone s
          ≡ returns a s'
        → Allocated s s' a
    unfolding get_or_allocate_address get_or_new_host_record
    after_missing s s' a m r missing h =
        let none_yet = fresh_record-no_address r in
        let (fresh, named, viewed) = with_request-fresh r in
        let asked = with_request wapi fresh_record subnet network_view in
        elim (Outcome-cases (create_or_update_host_record wapi asked s)) [
          | inl (hr, s₂, done) ↦
              let same : s₂ ≡ s' = ground arith in
              created m hr missing (rw same at (created-Stored asked hr s s₂ fresh done))
                (ground arith) (ground arith)
          | inr other ↦ absurd (ground arith)
        ]

    after_found :
        (s s' : S) (a : Addr) (hr : HostRecord)
        → Basics
        → wapi.find_host_records (host_query network_view hostname) s ≡ (ok (hr ∷ []), s)
        → get_or_allocate_address wapi network_view dns_view subnet hostname dns_zone s
          ≡ returns a s'
        → Allocated s s' a
    unfolding get_or_allocate_address get_or_new_host_record
    after_found s s' a hr r found h = elim (Bool-cases (is_valid (found_in hr))) [
      | inl there ↦ existing hr found (ground arith) (ground arith) (ground arith)
      | inr not_there ↦
          let (known, same_ref, same_name) =
            with_request-known hr (r.referenced network_view hostname s s hr found) in
          let asked = with_request wapi hr subnet network_view in
          elim (Outcome-cases (create_or_update_host_record wapi asked s)) [
            | inl (written, s₂, done) ↦
                let same : s₂ ≡ s' = ground arith in
                let (name, named) = updated-named asked written s s₂ known done in
                extended hr written found not_there name (sym same_name ∙ named)
                  (rw same at (updated-Stored asked written s s₂ known done)) (ground arith)
                  (ground arith)
            | inr other ↦ absurd (ground arith)
          ]
    ]

    after_search :
        (s s' : S) (a : Addr) (found : Result (List HostRecord))
        → Basics
        → wapi.find_host_records (host_query network_view hostname) s ≡ (found, s)
        → get_or_allocate_address wapi network_view dns_view subnet hostname dns_zone s
          ≡ returns a s'
        → Allocated s s' a
    unfolding get_or_allocate_address get_or_new_host_record
    after_search s s' a (ok (hr ∷ [])) r e h = after_found s s' a hr r e h
    after_search s s' a (err (wapi_not_found m)) r e h = after_missing s s' a m r e h
    after_search s s' a (ok []) r e h = absurd (ground arith)
    after_search s s' a (ok (x ∷ y ∷ more)) r e h = absurd (ground arith)
    after_search s s' a (err (api_not_found m)) r e h = absurd (ground arith)
    after_search s s' a (err (plain m)) r e h = absurd (ground arith)

    pub get_or_allocate_address-Allocated :
        (s s' : S) (a : Addr)
        → Basics
        → get_or_allocate_address wapi network_view dns_view subnet hostname dns_zone s
          ≡ returns a s'
        → Allocated s s' a
    get_or_allocate_address-Allocated s s' a r h =
        let answer = wapi.find_host_records (host_query network_view hostname) s in
        let unchanged : answer ≡ (answer.0, s) =
          ap (λ (t : S). (answer.0, t)) (r.searches network_view hostname s) in
        after_search s s' a answer.0 r unchanged h
