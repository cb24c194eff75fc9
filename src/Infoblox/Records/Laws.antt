-- ===== src/Infoblox/Records/Laws.antt =====
-- What the searches through the entries of a host record find.
use cluster_api_ipam_provide.Common.{
  ◌≡◌, refl, ap, true, false, Option, none, some, List, [], ◌∷◌, ◌++◌, map, arith, All, String,
  elements, string_eq, ◌≢◌,
}
use cluster_api_ipam_provide.Netip.{Addr, is_valid, Prefix, contains}
use cluster_api_ipam_provide.Infoblox.Wapi.{HostRecordAddr, HostRecord}
use cluster_api_ipam_provide.Infoblox.Records.{
  entry_addr, is_in, first_in, get_allocated_host_record_addr_in_subnet,
  prepare_host_record_for_update, clear_host, family_entries,
}

-- No entry of the list is in the subnet.
abbrev pub NoneIn : Prefix → List HostRecordAddr → Type 0
NoneIn subnet = All (λ ip. is_in subnet ip ≡ false)

first_in_sound :
    (subnet : Prefix) (ips : List HostRecordAddr)
    → is_valid (first_in subnet ips) ≡ true
    → contains subnet (first_in subnet ips) ≡ true
unfolding first_in
first_in_sound subnet [] h = ground arith
first_in_sound subnet (ip ∷ ips) h = ground (arith, first_in_sound subnet ips)

pub first_in-append :
    (subnet : Prefix) (before after : List HostRecordAddr) (ip : HostRecordAddr) (a : Addr)
    → NoneIn subnet before
    → entry_addr ip ≡ some a
    → contains subnet a ≡ true
    → first_in subnet (before ++ ip ∷ after) ≡ a
unfolding first_in is_in
first_in-append subnet [] after ip a _ e c = ground arith
first_in-append subnet (b ∷ before) after ip a (n, ns) e c =
    ground (arith, first_in-append subnet before after ip a ns e c)

-- A valid result of the search is an address of the subnet.
pub found_sound :
    (hr : HostRecord) (subnet : Prefix)
    → is_valid (get_allocated_host_record_addr_in_subnet hr subnet) ≡ true
    → contains subnet (get_allocated_host_record_addr_in_subnet hr subnet) ≡ true
unfolding get_allocated_host_record_addr_in_subnet
found_sound hr subnet h = first_in_sound subnet _ h

pub found_first :
    (hr : HostRecord) (subnet : Prefix) (before after : List HostRecordAddr) (ip : HostRecordAddr)
    (a : Addr)
    → family_entries hr subnet ≡ before ++ ip ∷ after
    → NoneIn subnet before
    → entry_addr ip ≡ some a
    → contains subnet a ≡ true
    → get_allocated_host_record_addr_in_subnet hr subnet ≡ a
unfolding get_allocated_host_record_addr_in_subnet
found_first hr subnet before after ip a split ns e c =
    rw split (first_in-append subnet before after ip a ns e c)

pub contains-is_valid : (subnet : Prefix) (a : Addr) → contains subnet a ≡ true → is_valid a ≡ true
unfolding contains
contains-is_valid subnet a h = ground arith

-- The addresses that a list of entries holds, as texts.
abbrev pub addresses : List HostRecordAddr → List (Option String)
addresses = map (λ ip. ip.address)

addresses-clear : (ips : List HostRecordAddr) → addresses (map clear_host ips) ≡ addresses ips
addresses-clear [] = refl
addresses-clear (ip ∷ ips) = ap (λ l. ip.address ∷ l) (addresses-clear ips)

hosts-clear : (ips : List HostRecordAddr) → All (λ ip. ip.host ≡ "") (map clear_host ips)
hosts-clear [] = tt
hosts-clear (ip ∷ ips) = (refl, hosts-clear ips)

-- The record that is sent for an update names no zone, no network view and no host of an entry, and
-- none of its lists is nil; its reference, its name and its addresses are the old ones.
prepare_host_record_for_update_lem :
    (hr : HostRecord)
    → let p = prepare_host_record_for_update hr in
      (p.zone ≡ "")
      × (p.network_view ≡ "")
      × (p.ref ≡ hr.ref)
      × (p.name ≡ hr.name)
      × (p.ipv4_addrs ≢ none)
      × (p.ipv6_addrs ≢ none)
      × All (λ ip. ip.host ≡ "") (elements p.ipv4_addrs)
      × All (λ ip. ip.host ≡ "") (elements p.ipv6_addrs)
      × (addresses (elements p.ipv4_addrs) ≡ addresses (elements hr.ipv4_addrs))
      × (addresses (elements p.ipv6_addrs) ≡ addresses (elements hr.ipv6_addrs))
unfolding prepare_host_record_for_update
prepare_host_record_for_update_lem hr = (
  refl,
  refl,
  refl,
  refl,
  (λ e. cc),
  (λ e. cc),
  hosts-clear _,
  hosts-clear _,
  addresses-clear _,
  addresses-clear _,
)
