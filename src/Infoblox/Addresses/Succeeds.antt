-- ===== src/Infoblox/Addresses/Succeeds.antt =====
-- When `GetOrAllocateAddress` and `ReleaseAddress` succeed, and what they have sent by then.
use cluster_api_ipam_provide.Common.{
  ◌≡◌, ◌↔◌, String, some, [], ◌∷◌, ok, err, wapi_not_found, returns, arith, All, Bool-cases, inl,
  inr,
}
use cluster_api_ipam_provide.Netip.{Addr, Prefix}
use cluster_api_ipam_provide.Infoblox.Wapi.{HostRecord, Wapi}
use cluster_api_ipam_provide.Infoblox.Records.{host_query}
use cluster_api_ipam_provide.Infoblox.Addresses.{
  get_or_allocate_address, release_address, has_no_entries,
}
use cluster_api_ipam_provide.Infoblox.Addresses.Allocated.{
  Stored, Basics, Allocated, existing, created, extended, get_or_allocate_address-Allocated,
}
use cluster_api_ipam_provide.Infoblox.Addresses.Released.{
  Released, unknown, absent, deleted, shortened, release_address-Released,
}
use cluster_api_ipam_provide.Infoblox.Addresses.Converse.{
  Allocated-get_or_allocate_address, Released-release_address,
}
use cluster_api_ipam_provide.Infoblox.Addresses.FirstEntry.{
  IsOutside, SplitsAt, of_family, found-SplitsAt, SplitsAt-found, not_found_iff,
}
use cluster_api_ipam_provide.Infoblox.Addresses.WithoutFirst.{
  Loses, IsBare, remove_entry_iff, remove_entry-none_iff, has_no_entries_iff,
}
use cluster_api_ipam_provide.Infoblox.Addresses.Sent.{
  asking, blank_for, for_update, sent_new, sent_known, prepare_host_record_for_update-for_update,
}

module _ {S : Type 0} (wapi : Wapi S) where
  module _ (network_view dns_view : String) (subnet : Prefix) (hostname dns_zone : String) where
    -- The address was there; or it was granted to a record that was made, or to one that was there.
    pub data Grants (s s' : S) (a : Addr) : Type 0 where
      there :
          (hr : HostRecord)
          → wapi.find_host_records (host_query network_view hostname) s ≡ (ok (hr ∷ []), s)
          → SplitsAt subnet (of_family subnet hr) a
          → s ≡ s'
          → Grants s s' a
      made :
          (m : String) (hr : HostRecord)
          → wapi.find_host_records (host_query network_view hostname) s
            ≡ (err (wapi_not_found m), s)
          → Stored wapi
              (asking wapi
                (blank_for wapi network_view dns_view dns_zone hostname)
                subnet
                network_view)
              hr
              s
              s'
          → SplitsAt subnet (of_family subnet hr) a
          → Grants s s' a
      added :
          (old hr : HostRecord) (name : String)
          → wapi.find_host_records (host_query network_view hostname) s ≡ (ok (old ∷ []), s)
          → All (IsOutside subnet) (of_family subnet old)
          → old.name ≡ some name
          → Stored wapi (for_update (asking wapi old subnet network_view)) hr s s'
          → SplitsAt subnet (of_family subnet hr) a
          → Grants s s' a

    Allocated-Grants :
        (s s' : S) (a : Addr)
        → Allocated wapi network_view dns_view subnet hostname dns_zone s s' a
        → Grants s s' a
    Allocated-Grants s s' a (existing hr found address valid same) =
        there hr found (found-SplitsAt hr subnet a address valid) same
    Allocated-Grants s s' a (created m hr missing st address valid) =
        made m hr missing (rw (sent_new wapi network_view dns_view dns_zone hostname subnet) at st)
          (found-SplitsAt hr subnet a address valid)
    Allocated-Grants s s' a (extended old hr found no_address name named st address valid) =
        added old hr name found ((not_found_iff old subnet).0 no_address) named
          (rw (sent_known wapi old subnet network_view) at st)
          (found-SplitsAt hr subnet a address valid)

    Grants-Allocated :
        (s s' : S) (a : Addr)
        → Grants s s' a
        → Allocated wapi network_view dns_view subnet hostname dns_zone s s' a
    Grants-Allocated s s' a (there hr found x same) =
        let (address, valid) = SplitsAt-found hr subnet a x in existing hr found address valid same
    Grants-Allocated s s' a (made m hr missing st x) =
        let (address, valid) = SplitsAt-found hr subnet a x in
        created m hr missing (rw (sent_new wapi network_view dns_view dns_zone hostname subnet) st)
          address valid
    Grants-Allocated s s' a (added old hr name found outside named st x) =
        let (address, valid) = SplitsAt-found hr subnet a x in
        extended old hr found ((not_found_iff old subnet).1 outside) name named
          (rw (sent_known wapi old subnet network_view) st) address valid

    -- Against a server that keeps to the basics, `GetOrAllocateAddress` returns an address exactly if
    -- it is that of the first entry, in the subnet's family, that holds an address of the subnet, in
    -- one of three records. Either it is the record that the server has for the host, and nothing
    -- changes. Or the host is not known, a record that names it is created with one entry more, whose
    -- address is the request `func:nextavailableip:` for the subnet and the network view, and it is
    -- the record that is then fetched. Or the host's record is named and no entry of the family holds
    -- an address of the subnet, the record is updated with all its entries and such a request behind
    -- them, with no zone, no network view and no host of an entry, and it is the record that is then
    -- fetched.
    pub get_or_allocate_address_iff :
        (s s' : S) (a : Addr)
        → Basics wapi
        → (get_or_allocate_address wapi network_view dns_view subnet hostname dns_zone s
            ≡ returns a s')
          ↔ Grants s s' a
    get_or_allocate_address_iff s s' a r = (
      (λ h. Allocated-Grants s s' a (
          get_or_allocate_address-Allocated wapi network_view dns_view subnet hostname dns_zone s s'
            a r h)),
      λ g.
          Allocated-get_or_allocate_address wapi network_view dns_view subnet hostname dns_zone s s'
            a r (Grants-Allocated s s' a g),
    )

  module _ (network_view dns_view : String) (subnet : Prefix) (hostname : String) where
    -- The host has nothing in the subnet; or its record goes with its last entry, or is left without
    -- the entry.
    pub data Drops (s s' : S) : Type 0 where
      not_known :
          (m : String)
          → wapi.find_host_records (host_query network_view hostname) s
            ≡ (err (wapi_not_found m), s)
          → s ≡ s'
          → Drops s s'
      not_held :
          (hr : HostRecord)
          → wapi.find_host_records (host_query network_view hostname) s ≡ (ok (hr ∷ []), s)
          → All (IsOutside subnet) (of_family subnet hr)
          → s ≡ s'
          → Drops s s'
      emptied :
          (hr rest : HostRecord) (ref : String)
          → wapi.find_host_records (host_query network_view hostname) s ≡ (ok (hr ∷ []), s)
          → Loses subnet hr rest
          → IsBare rest
          → wapi.delete_object rest.ref s ≡ (ok ref, s')
          → Drops s s'
      left_with :
          (hr rest : HostRecord) (ref : String)
          → wapi.find_host_records (host_query network_view hostname) s ≡ (ok (hr ∷ []), s)
          → Loses subnet hr rest
          → ¬ IsBare rest
          → wapi.update_object (for_update rest) rest.ref s ≡ (ok ref, s')
          → Drops s s'

    Released-Drops :
        (s s' : S) → Released wapi network_view dns_view subnet hostname s s' → Drops s s'
    Released-Drops s s' (unknown m missing same) = not_known m missing same
    Released-Drops s s' (absent hr found nothing same) =
        not_held hr found ((remove_entry-none_iff subnet hr).0 nothing) same
    Released-Drops s s' (deleted hr rest ref found removed empty sent) =
        emptied hr rest ref found ((remove_entry_iff subnet hr rest).0 removed)
          ((has_no_entries_iff rest).0 empty) sent
    Released-Drops s s' (shortened hr rest ref found removed left sent) =
        left_with hr rest ref found ((remove_entry_iff subnet hr rest).0 removed)
          (λ bare. let empty = (has_no_entries_iff rest).1 bare in ground arith)
          (rw (prepare_host_record_for_update-for_update rest) at sent)

    Drops-Released :
        (s s' : S) → Drops s s' → Released wapi network_view dns_view subnet hostname s s'
    Drops-Released s s' (not_known m missing same) = unknown m missing same
    Drops-Released s s' (not_held hr found outside same) =
        absent hr found ((remove_entry-none_iff subnet hr).1 outside) same
    Drops-Released s s' (emptied hr rest ref found loses bare sent) =
        deleted hr rest ref found ((remove_entry_iff subnet hr rest).1 loses)
          ((has_no_entries_iff rest).1 bare) sent
    Drops-Released s s' (left_with hr rest ref found loses some_left sent) =
        shortened hr rest ref found ((remove_entry_iff subnet hr rest).1 loses)
          (elim (Bool-cases (has_no_entries rest)) [
            | inl empty ↦ absurd (some_left ((has_no_entries_iff rest).0 empty))
            | inr left ↦ left
          ])
          (rw (prepare_host_record_for_update-for_update rest) sent)

    -- Against a server that keeps to the basics, `ReleaseAddress` succeeds exactly if: the host is not
    -- known, and nothing changes; or no entry of the subnet's family in its record holds an address
    -- of the subnet, and nothing changes; or the record is deleted, and the first entry that holds
    -- such an address was its only one in both families; or the record has others, and is updated
    -- with all of them, in their order, and without that first one.
    pub release_address_iff :
        (s s' : S)
        → Basics wapi
        → (release_address wapi network_view dns_view subnet hostname s ≡ returns tt s')
          ↔ Drops s s'
    release_address_iff s s' r = (
      (λ h.
          Released-Drops s s'
            (release_address-Released wapi network_view dns_view subnet hostname s s' r h)),
      λ d.
          Released-release_address wapi network_view dns_view subnet hostname s s' r
            (Drops-Released s s' d),
    )
