-- ===== src/Infoblox/Leases/Release.antt =====
-- `ReleaseAddress` implements a release.
use cluster_api_ipam_provide.Common.{
  ◌≡◌, ◌≢◌, refl, sym, ap, ◌∙◌, String, Bool, true, false, not, some, none, List, [], ◌∷◌, map, ok,
  arith, returns, elements, Bool-cases, Option-cases, inl, inr,
}
use cluster_api_ipam_provide.Netip.{Prefix, is4}
use cluster_api_ipam_provide.Infoblox.Wapi.{HostRecordAddr, HostRecord, Wapi}
use cluster_api_ipam_provide.Infoblox.Records.{
  host_query, prepare_host_record_for_update, clear_host, is_in,
}
use cluster_api_ipam_provide.Infoblox.Addresses.{
  release_address, remove_entry, remove_first, has_no_entries,
}
use cluster_api_ipam_provide.Infoblox.Addresses.Released.{
  Released, unknown, absent, deleted, shortened, release_address-Released,
}
use cluster_api_ipam_provide.Infoblox.Leases.{IsRelease, forget, addrs, entries_of, leases_in}
use cluster_api_ipam_provide.Infoblox.Leases.Entries.{
  of_both, IsSettled, IsSettled-clear, addrs-clear, Resolved, Resolved-addrs, remove_first-none,
  remove_first-some, entries_of-prepare,
}
use cluster_api_ipam_provide.Infoblox.Leases.Book.{
  Book, leases_in-found, leases_in-missing, leases_in-others,
}

remove_first-IsSettled :
    (subnet : Prefix) (ips rest : List HostRecordAddr)
    → IsSettled ips
    → remove_first subnet ips ≡ some rest
    → IsSettled rest
unfolding remove_first
remove_first-IsSettled subnet [] rest h e = absurd (ground arith)
remove_first-IsSettled subnet (ip ∷ ips) rest (i, h) e = elim (Bool-cases (is_in subnet ip)) [
  | inl here ↦ let same : ips ≡ rest = ground arith in rw (← same) h
  | inr later ↦ elim (Option-cases (remove_first subnet ips)) [
    | inl nothing ↦ absurd (ground arith)
    | inr (kept, e') ↦
        let same : ip ∷ kept ≡ rest = ground arith in
        rw (← same) (i, remove_first-IsSettled subnet ips kept h e')
  ]
]

-- A record that has lost its first entry in the subnet.
record Shorter (family : Bool) (subnet : Prefix) (hr rest : HostRecord) : Type 0 where
  removed : remove_first subnet (entries_of hr family) ≡ some (entries_of rest family)
  other : entries_of rest (not family) ≡ entries_of hr (not family)
  ref : rest.ref ≡ hr.ref
  name : rest.name ≡ hr.name

remove_entry-Shorter :
    (family : Bool) (subnet : Prefix) (hr rest : HostRecord)
    → is4 subnet.addr ≡ family
    → remove_entry hr subnet ≡ some rest
    → Shorter family subnet hr rest
unfolding remove_entry
remove_entry-Shorter true subnet hr rest yes4 e =
    elim (Option-cases (remove_first subnet (elements hr.ipv4_addrs))) [
      | inl nothing ↦ absurd (ground arith)
      | inr (ips, e') ↦
          let same : record hr { ipv4_addrs = some ips } ≡ rest = ground arith in
          rw (← same) (record { removed = e'; other = refl; ref = refl; name = refl })
    ]
remove_entry-Shorter false subnet hr rest no4 e =
    elim (Option-cases (remove_first subnet (elements hr.ipv6_addrs))) [
      | inl nothing ↦ absurd (ground arith)
      | inr (ips, e') ↦
          let same : record hr { ipv6_addrs = some ips } ≡ rest = ground arith in
          rw (← same) (record { removed = e'; other = refl; ref = refl; name = refl })
    ]

remove_entry-nothing :
    (family : Bool) (subnet : Prefix) (hr : HostRecord)
    → is4 subnet.addr ≡ family
    → remove_entry hr subnet ≡ none
    → remove_first subnet (entries_of hr family) ≡ none
unfolding remove_entry
remove_entry-nothing true subnet hr yes4 e =
    elim (Option-cases (remove_first subnet (elements hr.ipv4_addrs))) [
      | inl nothing ↦ nothing
      | inr (ips, e') ↦ absurd (ground arith)
    ]
remove_entry-nothing false subnet hr no4 e =
    elim (Option-cases (remove_first subnet (elements hr.ipv6_addrs))) [
      | inl nothing ↦ nothing
      | inr (ips, e') ↦ absurd (ground arith)
    ]

has_no_entries-entries_of :
    (hr : HostRecord) (family : Bool) → has_no_entries hr ≡ true → entries_of hr family ≡ []
has_no_entries-entries_of hr true h = ground arith
has_no_entries-entries_of hr false h = ground arith

Shorter-IsSettled :
    (family : Bool) (subnet : Prefix) (hr rest : HostRecord)
    → Shorter family subnet hr rest
    → ((f : Bool) → IsSettled (entries_of hr f))
    → IsSettled (entries_of rest family) × IsSettled (entries_of rest (not family))
Shorter-IsSettled family subnet hr rest x settled = (
  remove_first-IsSettled subnet (entries_of hr family) (entries_of rest family) (settled family)
      x.removed,
  rw x.other (settled (not family)),
)

-- What is stored for a prepared record holds the addresses of the record.
stored-addrs :
    (rest hr : HostRecord) (family : Bool)
    → IsSettled (entries_of rest family)
    → Resolved (entries_of (prepare_host_record_for_update rest) family) (entries_of hr family)
    → addrs (entries_of hr family) ≡ addrs (entries_of rest family)
stored-addrs rest hr family settled resolved =
    Resolved-addrs (map clear_host (entries_of rest family)) (entries_of hr family)
      (IsSettled-clear (entries_of rest family) settled)
      (rw (entries_of-prepare rest family) at resolved)
    ∙ addrs-clear (entries_of rest family)

module _ {S : Type 0} (wapi : Wapi S) (network_view dns_view : String) (subnet : Prefix)
    (hostname : String) where
  unchanged-IsRelease :
      (s s' : S)
      → s ≡ s'
      → forget subnet (leases_in wapi network_view s hostname (is4 subnet.addr))
        ≡ leases_in wapi network_view s hostname (is4 subnet.addr)
      → IsRelease (leases_in wapi network_view s) (leases_in wapi network_view s') hostname subnet
  unchanged-IsRelease s s' same nothing = record {
    dropped =
        ap (λ t. leases_in wapi network_view t hostname (is4 subnet.addr)) (sym same) ∙ sym nothing;
    family = ap (λ t. leases_in wapi network_view t hostname (not (is4 subnet.addr))) (sym same);
    others = λ o apart. ap (λ t. leases_in wapi network_view t o) (sym same);
  }

  shortened-IsRelease :
      (s s' : S) (hr rest : HostRecord)
      → wapi.find_host_records (host_query network_view hostname) s ≡ (ok (hr ∷ []), s)
      → Shorter (is4 subnet.addr) subnet hr rest
      → ((f : Bool) → leases_in wapi network_view s' hostname f ≡ addrs (entries_of rest f))
      → ((other : String)
          → other ≢ hostname
          → (wapi.find_host_records (host_query network_view other) s').0
            ≡ (wapi.find_host_records (host_query network_view other) s).0)
      → IsRelease (leases_in wapi network_view s) (leases_in wapi network_view s') hostname subnet
  shortened-IsRelease s s' hr rest found x now others =
      let fam = is4 subnet.addr in
      let before : (f : Bool) → leases_in wapi network_view s hostname f ≡ addrs (entries_of hr f) =
        (λ f. leases_in-found wapi network_view hostname s s hr f found) in
      record {
        dropped =
            now fam
            ∙ (remove_first-some subnet (entries_of hr fam) (entries_of rest fam) x.removed
                ∙ ap (forget subnet) (sym (before fam)));
        family = now (not fam) ∙ (ap addrs x.other ∙ sym (before (not fam)));
        others = λ o apart. leases_in-others wapi network_view o s s' (others o apart);
      }

  pub Released-IsRelease :
      (s s' : S)
      → Book wapi network_view
      → Released wapi network_view dns_view subnet hostname s s'
      → IsRelease (leases_in wapi network_view s) (leases_in wapi network_view s') hostname subnet
  unfolding forget addrs prepare_host_record_for_update
  Released-IsRelease s s' b (unknown m missing same) =
      let fam = is4 subnet.addr in
      let nothing : leases_in wapi network_view s hostname fam ≡ [] =
        leases_in-missing wapi network_view hostname m s s fam missing in
      unchanged-IsRelease s s' same (rw nothing)
  Released-IsRelease s s' b (absent hr found nothing same) =
      let fam = is4 subnet.addr in
      unchanged-IsRelease s s' same (
        rw (leases_in-found wapi network_view hostname s s hr fam found) (
          remove_first-none subnet (entries_of hr fam)
            (remove_entry-nothing fam subnet hr refl nothing)))
  Released-IsRelease s s' b (deleted hr rest ref found removed empty sent) =
      let fam = is4 subnet.addr in
      let x = remove_entry-Shorter fam subnet hr rest refl removed in
      let gone = b.deleted hostname ref s s' hr found (rw x.ref at sent) in
      let now : (f : Bool) → leases_in wapi network_view s' hostname f ≡ addrs (entries_of rest f) =
        (λ f.
          leases_in-missing wapi network_view hostname gone.m s' s' f gone.missing
          ∙ sym (ap addrs (has_no_entries-entries_of rest f empty))) in
      shortened-IsRelease s s' hr rest found x now gone.others
  Released-IsRelease s s' b (shortened hr rest ref found removed left sent) =
      let fam = is4 subnet.addr in
      let x = remove_entry-Shorter fam subnet hr rest refl removed in
      let settled = Shorter-IsSettled fam subnet hr rest x (λ f. b.settled hostname s hr f found) in
      let w =
        b.updated hostname ref s s' hr (prepare_host_record_for_update rest) found (x.ref, x.name)
          sent in
      let now : (f : Bool) → leases_in wapi network_view s' hostname f ≡ addrs (entries_of rest f) =
        (λ f.
          leases_in-found wapi network_view hostname s' s' w.hr f w.found
          ∙ stored-addrs rest w.hr f (of_both (λ g. IsSettled (entries_of rest g)) fam f settled)
              (w.resolved f)) in
      shortened-IsRelease s s' hr rest found x now w.others

  -- Against a server that keeps book of its hosts, a success of `ReleaseAddress` is a release in the
  -- abstract view: the host's first address in the subnet is dropped, if it holds one, and neither
  -- its other addresses nor those of another host change.
  pub release_address-IsRelease :
      (s s' : S)
      → Book wapi network_view
      → release_address wapi network_view dns_view subnet hostname s ≡ returns tt s'
      → IsRelease (leases_in wapi network_view s) (leases_in wapi network_view s') hostname subnet
  release_address-IsRelease s s' b h =
      Released-IsRelease s s' b
        (release_address-Released wapi network_view dns_view subnet hostname s s' b.basics h)
