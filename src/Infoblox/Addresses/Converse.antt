-- ===== src/Infoblox/Addresses/Converse.antt =====
-- `GetOrAllocateAddress` and `ReleaseAddress` succeed in each of the ways in which they can.
use text.Mathlib.TextEquality.{eq_iff}
use cluster_api_ipam_provide.Common.{
  ◌≡◌, ◌∙◌, String, true, false, some, arith, returns, inl, inr, ◌==◌, string_eq,
}
use cluster_api_ipam_provide.Netip.{Addr, Prefix}
use cluster_api_ipam_provide.Infoblox.Wapi.{HostRecord, Wapi}
use cluster_api_ipam_provide.Infoblox.Records.{
  get_or_new_host_record, prepare_host_record_for_update, create_or_update_host_record,
}
use cluster_api_ipam_provide.Infoblox.Addresses.{
  get_or_allocate_address, release_address, with_request, store_removal,
}
use cluster_api_ipam_provide.Infoblox.Addresses.Release.{remove_entry-new_host_record}
use cluster_api_ipam_provide.Infoblox.Addresses.Allocated.{
  Stored, Basics, Allocated, existing, created, extended, fresh_record, fresh_record-no_address,
  with_request-fresh, with_request-known,
}
use cluster_api_ipam_provide.Infoblox.Addresses.Released.{
  Released, unknown, absent, deleted, shortened,
}

module _ {S : Type 0} (wapi : Wapi S) where
  Stored-created :
      (hr written : HostRecord) (name : String) (s s' : S)
      → (hr.ref == "") ≡ true
      → hr.name ≡ some name
      → Stored wapi hr written s s'
      → create_or_update_host_record wapi hr s ≡ returns written s'
  unfolding create_or_update_host_record
  Stored-created hr written name s s' fresh named st =
      let fetched = st.fetched in
      elim st.sent [
        | inl (empty, sent) ↦ ground arith
        | inr (known, sent) ↦ absurd (known ((eq_iff hr.ref "").0 fresh))
      ]

  Stored-updated :
      (hr written : HostRecord) (name : String) (s s' : S)
      → (hr.ref == "") ≡ false
      → (prepare_host_record_for_update hr).name ≡ some name
      → Stored wapi (prepare_host_record_for_update hr) written s s'
      → create_or_update_host_record wapi hr s ≡ returns written s'
  unfolding create_or_update_host_record prepare_host_record_for_update
  Stored-updated hr written name s s' known named st =
      let fetched = st.fetched in
      elim st.sent [
        | inl (empty, sent) ↦ absurd (ground (arith, eq_iff hr.ref ""))
        | inr (given, sent) ↦ ground arith
      ]

  module _ (network_view dns_view : String) (subnet : Prefix) (hostname dns_zone : String) where
    pub Allocated-get_or_allocate_address :
        (s s' : S) (a : Addr)
        → Basics wapi
        → Allocated wapi network_view dns_view subnet hostname dns_zone s s' a
        → get_or_allocate_address wapi network_view dns_view subnet hostname dns_zone s
          ≡ returns a s'
    unfolding get_or_allocate_address get_or_new_host_record
    Allocated-get_or_allocate_address s s' a r (existing hr found address valid same) = ground arith
    Allocated-get_or_allocate_address s s' a r (created m hr missing st address valid) =
        let fresh = fresh_record wapi network_view dns_view subnet hostname dns_zone in
        let none_yet =
          fresh_record-no_address wapi network_view dns_view subnet hostname dns_zone r in
        let (no_ref, named, viewed) =
          with_request-fresh wapi network_view dns_view subnet hostname dns_zone r in
        let done =
          Stored-created (with_request wapi fresh subnet network_view) hr hostname s s' no_ref named
            st in
        ground arith
    Allocated-get_or_allocate_address s s' a r
          (extended old hr found no_address name named st address valid) =
        let (known, same_ref, same_name) =
          with_request-known wapi network_view dns_view subnet hostname dns_zone old
            (r.referenced network_view hostname s s old found) in
        let done =
          Stored-updated (with_request wapi old subnet network_view) hr name s s' known
            (same_name ∙ named) st in
        ground arith

  module _ (network_view dns_view : String) (subnet : Prefix) (hostname : String) where
    pub Released-release_address :
        (s s' : S)
        → Basics wapi
        → Released wapi network_view dns_view subnet hostname s s'
        → release_address wapi network_view dns_view subnet hostname s ≡ returns tt s'
    unfolding release_address get_or_new_host_record store_removal
    Released-release_address s s' r (unknown m missing same) =
        let nothing =
          remove_entry-new_host_record wapi network_view dns_view "" hostname subnet r.blank.1
            r.blank.2 in
        ground arith
    Released-release_address s s' r (absent hr found nothing same) = ground arith
    Released-release_address s s' r (deleted hr rest ref found removed empty sent) = ground arith
    Released-release_address s s' r (shortened hr rest ref found removed left sent) = ground arith
