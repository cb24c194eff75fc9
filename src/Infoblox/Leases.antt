-- ===== src/Infoblox/Leases.antt =====
-- The abstract view of a server: which addresses each host holds, and what allocating and releasing
-- do to that. pkg/infoblox/addresses.go implements it over host records.
pub mod Entries
pub mod Book
pub mod Extends
pub mod Allocation
pub mod Release
pub mod Cycle
pub mod Changes
pub mod AtMostOne
pub mod NextAvailable
pub mod Run
use cluster_api_ipam_provide.Common.{
  ◌≡◌, ◌≢◌, ◌⊎◌, String, Bool, true, false, not, Option, none, some, List, [], ◌∷◌, ◌++◌, Result,
  ok, err, if◌then◌else◌, elements,
}
use cluster_api_ipam_provide.Netip.{Addr, invalid, is4, Prefix, contains}
use cluster_api_ipam_provide.Infoblox.Wapi.{HostRecordAddr, HostRecord, Wapi}
use cluster_api_ipam_provide.Infoblox.Records.{entry_addr, host_query}

-- The addresses of each host, those of IPv4 under `true` and those of IPv6 under `false`.
abbrev pub Leases : Type 0
Leases = String → Bool → List Addr

-- The first address in the subnet; the zero address stands for none.
unfoldable pub held : Prefix → List Addr → Addr
held subnet [] = invalid
held subnet (a ∷ as') = if contains subnet a then a else held subnet as'

-- The list without the first address in the subnet.
unfoldable pub forget : Prefix → List Addr → List Addr
forget subnet [] = []
forget subnet (a ∷ as') = if contains subnet a then as' else a ∷ forget subnet as'

-- An allocation: the address lies in the subnet. Either the host held it, as its first in the
-- subnet, and nothing changes; or the host held none there, and this one is added to its others.
-- No other host is concerned.
pub record IsAllocation (before after : Leases) (host : String) (subnet : Prefix) (a : Addr)
    : Type 0 where
  pub inside : contains subnet a ≡ true
  pub change :
      ((held subnet (before host (is4 subnet.addr)) ≡ a) × (after ≡ before))
      ⊎ ((held subnet (before host (is4 subnet.addr)) ≡ invalid)
          × (after host (is4 subnet.addr) ≡ before host (is4 subnet.addr) ++ a ∷ [])
          × (after host (not (is4 subnet.addr)) ≡ before host (not (is4 subnet.addr))))
  pub others : (other : String) → other ≢ host → after other ≡ before other

-- A release: the host's first address in the subnet is dropped, if it has one, and nothing else.
pub record IsRelease (before after : Leases) (host : String) (subnet : Prefix) : Type 0 where
  pub dropped : after host (is4 subnet.addr) ≡ forget subnet (before host (is4 subnet.addr))
  pub family : after host (not (is4 subnet.addr)) ≡ before host (not (is4 subnet.addr))
  pub others : (other : String) → other ≢ host → after other ≡ before other

-- The addresses that entries hold.
unfoldable pub addrs : List HostRecordAddr → List Addr
addrs [] = []
addrs (ip ∷ ips) = elim (entry_addr ip) [ none ↦ addrs ips | some a ↦ a ∷ addrs ips ]

abbrev pub entries_of : HostRecord → Bool → List HostRecordAddr
entries_of hr true = elements hr.ipv4_addrs
entries_of hr false = elements hr.ipv6_addrs

-- The addresses that the answer to a search shows.
unfoldable pub shown : Result (List HostRecord) → Bool → List Addr
unfolding addrs
shown (ok (hr ∷ [])) family = addrs (entries_of hr family)
shown _ family = []

-- The addresses of the hosts in a network view, as searches for the hosts show them.
unfoldable pub leases_in : {S : Type 0} → Wapi S → String → S → Leases
unfolding shown
leases_in wapi network_view s host =
    shown (wapi.find_host_records (host_query network_view host) s).0
