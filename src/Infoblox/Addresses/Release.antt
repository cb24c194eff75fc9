-- ===== src/Infoblox/Addresses/Release.antt =====
-- `ReleaseAddress`: which entry is dropped, and what is sent to the server for it.
use cluster_api_ipam_provide.Common.{
  ◌≡◌, refl, String, true, List, [], ◌∷◌, ◌++◌, arith, none, some, returns, ok, err, elements,
  wapi_not_found, Bool-cases, if◌then◌else◌, ◌⊎◌, inl, inr, Result, Outcome, fails, wrap,
}
use cluster_api_ipam_provide.Netip.{Prefix, is4}
use cluster_api_ipam_provide.Infoblox.Wapi.{HostRecordAddr, HostRecord, Wapi}
use cluster_api_ipam_provide.Infoblox.Records.{
  is_in, get_or_new_host_record, host_query, family_entries, new_host_record,
}
use cluster_api_ipam_provide.Infoblox.Records.Laws.{NoneIn}
use cluster_api_ipam_provide.Infoblox.Records.{parse_error, prepare_host_record_for_update}
use cluster_api_ipam_provide.Infoblox.Addresses.{
  has_no_entries, remove_first, remove_entry, store_removal, release_address,
}

remove_first-append :
    (subnet : Prefix) (before after : List HostRecordAddr) (ip : HostRecordAddr)
    → NoneIn subnet before
    → is_in subnet ip ≡ true
    → remove_first subnet (before ++ ip ∷ after) ≡ some (before ++ after)
unfolding remove_first
remove_first-append subnet [] after ip _ e = rw e
remove_first-append subnet (b ∷ before) after ip (n, ns) e =
    rw (n, remove_first-append subnet before after ip ns e)

remove_first-none :
    (subnet : Prefix) (ips : List HostRecordAddr)
    → NoneIn subnet ips
    → remove_first subnet ips ≡ none
unfolding remove_first
remove_first-none subnet [] _ = refl
remove_first-none subnet (ip ∷ ips) (n, ns) = rw (n, remove_first-none subnet ips ns)

-- The record that is made for a new host holds no entry yet, if the library's empty one does not.
family_entries-new_host_record :
    {S : Type 0} (wapi : Wapi S) (network_view dns_view dns_zone hostname : String)
    (subnet : Prefix)
    → wapi.new_empty_host_record.ipv4_addrs ≡ none
    → wapi.new_empty_host_record.ipv6_addrs ≡ none
    → family_entries (new_host_record wapi network_view dns_view dns_zone hostname) subnet ≡ []
unfolding new_host_record
family_entries-new_host_record wapi network_view dns_view dns_zone hostname subnet no4 no6 =
    ground arith

-- The record with other entries in the subnet's family.
abbrev pub with_entries : HostRecord → Prefix → List HostRecordAddr → HostRecord
with_entries hr subnet ips =
    if is4 subnet.addr
    then record hr { ipv4_addrs = some ips }
    else record hr { ipv6_addrs = some ips }

pub remove_entry-append :
    (hr : HostRecord) (subnet : Prefix) (before after : List HostRecordAddr) (ip : HostRecordAddr)
    → family_entries hr subnet ≡ before ++ ip ∷ after
    → NoneIn subnet before
    → is_in subnet ip ≡ true
    → remove_entry hr subnet ≡ some (with_entries hr subnet (before ++ after))
unfolding remove_entry
remove_entry-append hr subnet before after ip split ns e = elim (Bool-cases (is4 subnet.addr)) [
  | inl yes4 ↦
      let list : elements hr.ipv4_addrs ≡ before ++ ip ∷ after = rw yes4 at split in
      rw (yes4, list, remove_first-append subnet before after ip ns e)
  | inr no4 ↦
      let list : elements hr.ipv6_addrs ≡ before ++ ip ∷ after = rw no4 at split in
      rw (no4, list, remove_first-append subnet before after ip ns e)
]

pub remove_entry-none :
    (hr : HostRecord) (subnet : Prefix)
    → NoneIn subnet (family_entries hr subnet)
    → remove_entry hr subnet ≡ none
unfolding remove_entry
remove_entry-none hr subnet ns = elim (Bool-cases (is4 subnet.addr)) [
  | inl yes4 ↦ rw (yes4, remove_first-none subnet (elements hr.ipv4_addrs) (rw yes4 at ns))
  | inr no4 ↦ rw (no4, remove_first-none subnet (elements hr.ipv6_addrs) (rw no4 at ns))
]

pub remove_entry-new_host_record :
    {S : Type 0} (wapi : Wapi S) (network_view dns_view dns_zone hostname : String)
    (subnet : Prefix)
    → wapi.new_empty_host_record.ipv4_addrs ≡ none
    → wapi.new_empty_host_record.ipv6_addrs ≡ none
    → remove_entry (new_host_record wapi network_view dns_view dns_zone hostname) subnet ≡ none
remove_entry-new_host_record wapi network_view dns_view dns_zone hostname subnet no4 no6 =
    remove_entry-none (new_host_record wapi network_view dns_view dns_zone hostname) subnet (
      rw
        (family_entries-new_host_record wapi network_view dns_view dns_zone hostname subnet no4 no6)
        tt)

module _ {S : Type 0} (wapi : Wapi S) (network_view dns_view : String) (subnet : Prefix)
    (hostname : String) where
  -- How the answer to the last request ends the release.
  abbrev pub answered : String → Result String × S → Outcome S (Unit {0})
  answered what (ok ref, s) = returns tt s
  answered what (err e, s) = fails (wrap what (parse_error wapi e)) s

  -- If the server knows the host by one record with an entry in the subnet, exactly the first such
  -- entry is dropped: the record is deleted if it held nothing else, and otherwise it is updated
  -- with all its other entries. The release succeeds if that request does.
  release_address-removes :
      (s s₁ : S) (hr : HostRecord) (before after : List HostRecordAddr) (ip : HostRecordAddr)
      → wapi.find_host_records (host_query network_view hostname) s ≡ (ok (hr ∷ []), s₁)
      → family_entries hr subnet ≡ before ++ ip ∷ after
      → NoneIn subnet before
      → is_in subnet ip ≡ true
      → release_address wapi network_view dns_view subnet hostname s ≡ (
          let rest = with_entries hr subnet (before ++ after) in
          if has_no_entries rest
          then answered "failed to delete Infoblox host record" (wapi.delete_object hr.ref s₁)
          else answered "failed to update Infoblox host record"
              (wapi.update_object (prepare_host_record_for_update rest) hr.ref s₁))
  unfolding release_address get_or_new_host_record store_removal
  release_address-removes s s₁ hr before after ip found split ns e =
      ground (arith, remove_entry-append hr subnet before after ip split ns e)

  -- A host that the server does not know, and a record with no entry in the subnet, are left alone:
  -- the release succeeds, and after the search nothing is sent.
  release_address-idle :
      (s s₁ : S)
      → ((hr : HostRecord) × (wapi.find_host_records (host_query network_view hostname) s
            ≡ (ok (hr ∷ []), s₁))
          × NoneIn subnet (family_entries hr subnet))
        ⊎ ((m : String) × (wapi.find_host_records (host_query network_view hostname) s
              ≡ (err (wapi_not_found m), s₁))
            × (wapi.new_empty_host_record.ipv4_addrs ≡ none)
            × (wapi.new_empty_host_record.ipv6_addrs ≡ none))
      → release_address wapi network_view dns_view subnet hostname s ≡ returns tt s₁
  unfolding release_address get_or_new_host_record
  release_address-idle s s₁ (inl (hr, found, ns)) = ground (arith, remove_entry-none hr subnet ns)
  release_address-idle s s₁ (inr (m, found, no4, no6)) =
      ground
        (arith, remove_entry-new_host_record wapi network_view dns_view "" hostname subnet no4 no6)
