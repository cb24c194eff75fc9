-- ===== src/Infoblox/Leases/Book.antt =====
-- What is assumed of a server that keeps book of its hosts, and what a search of it shows.
use cluster_api_ipam_provide.Common.{
  ◌≡◌, ◌≢◌, String, Bool, some, [], ◌∷◌, ok, err, wapi_not_found, elements, Bool-cases, inl, inr,
}
use cluster_api_ipam_provide.Netip.{Prefix, is4}
use cluster_api_ipam_provide.Infoblox.Wapi.{HostRecord, Wapi}
use cluster_api_ipam_provide.Infoblox.Records.{
  host_query, return_fields, get_allocated_host_record_addr_in_subnet,
}
use cluster_api_ipam_provide.Infoblox.Addresses.Allocated.{Basics}
use cluster_api_ipam_provide.Infoblox.Leases.{held, addrs, entries_of, leases_in, shown}
use cluster_api_ipam_provide.Infoblox.Leases.Entries.{IsSettled, Resolved, first_in-held}

module _ {S : Type 0} (wapi : Wapi S) (network_view : String) where
  -- A write of the record of a host: a search finds a record with what was written, its requests
  -- answered; fetching the record gives that one; and nothing else has changed.
  pub record Written (host : String) (written : HostRecord) (ref : String) (s s₁ : S) : Type 0 where
    pub hr : HostRecord
    pub found : wapi.find_host_records (host_query network_view host) s₁ ≡ (ok (hr ∷ []), s₁)
    pub resolved : (family : Bool) → Resolved (entries_of written family) (entries_of hr family)
    pub fetched :
        (x : HostRecord) (s₂ : S)
        → wapi.get_host_record ref (return_fields ∷ []) written s₁ ≡ (ok x, s₂)
        → (x ≡ hr) × (s₁ ≡ s₂)
    pub others :
        (other : String)
        → other ≢ host
        → (wapi.find_host_records (host_query network_view other) s₁).0
          ≡ (wapi.find_host_records (host_query network_view other) s).0

  -- The removal of the record of a host.
  pub record Erased (host : String) (s s₁ : S) : Type 0 where
    pub m : String
    pub missing :
        wapi.find_host_records (host_query network_view host) s₁ ≡ (err (wapi_not_found m), s₁)
    pub others :
        (other : String)
        → other ≢ host
        → (wapi.find_host_records (host_query network_view other) s₁).0
          ≡ (wapi.find_host_records (host_query network_view other) s).0

  pub record Book : Type 0 where
    pub basics : Basics wapi
    pub settled :
        (host : String) (s : S) (hr : HostRecord) (family : Bool)
        → wapi.find_host_records (host_query network_view host) s ≡ (ok (hr ∷ []), s)
        → IsSettled (entries_of hr family)
    pub created :
        (host m ref : String) (s s₁ : S) (written : HostRecord)
        → wapi.find_host_records (host_query network_view host) s ≡ (err (wapi_not_found m), s)
        → (written.name ≡ some host) × (written.network_view ≡ network_view)
        → wapi.create_object written s ≡ (ok ref, s₁)
        → Written host written ref s s₁
    pub updated :
        (host ref : String) (s s₁ : S) (old written : HostRecord)
        → wapi.find_host_records (host_query network_view host) s ≡ (ok (old ∷ []), s)
        → (written.ref ≡ old.ref) × (written.name ≡ old.name)
        → wapi.update_object written written.ref s ≡ (ok ref, s₁)
        → Written host written ref s s₁
    pub deleted :
        (host ref : String) (s s₁ : S) (old : HostRecord)
        → wapi.find_host_records (host_query network_view host) s ≡ (ok (old ∷ []), s)
        → wapi.delete_object old.ref s ≡ (ok ref, s₁)
        → Erased host s s₁

  pub leases_in-found :
      (host : String) (s s' : S) (hr : HostRecord) (family : Bool)
      → wapi.find_host_records (host_query network_view host) s ≡ (ok (hr ∷ []), s')
      → leases_in wapi network_view s host family ≡ addrs (entries_of hr family)
  unfolding leases_in shown
  leases_in-found host s s' hr family e = rw e

  pub leases_in-missing :
      (host m : String) (s s' : S) (family : Bool)
      → wapi.find_host_records (host_query network_view host) s ≡ (err (wapi_not_found m), s')
      → leases_in wapi network_view s host family ≡ []
  unfolding leases_in shown
  leases_in-missing host m s s' family e = rw e

  pub leases_in-others :
      (other : String) (s s' : S)
      → (wapi.find_host_records (host_query network_view other) s').0
        ≡ (wapi.find_host_records (host_query network_view other) s).0
      → leases_in wapi network_view s' other ≡ leases_in wapi network_view s other
  unfolding leases_in
  leases_in-others other s s' e = rw e

pub found_in-held :
    (hr : HostRecord) (subnet : Prefix)
    → get_allocated_host_record_addr_in_subnet hr subnet
      ≡ held subnet (addrs (entries_of hr (is4 subnet.addr)))
unfolding get_allocated_host_record_addr_in_subnet
found_in-held hr subnet = elim (Bool-cases (is4 subnet.addr)) [
  | inl yes4 ↦ rw yes4 (first_in-held subnet (elements hr.ipv4_addrs))
  | inr no4 ↦ rw no4 (first_in-held subnet (elements hr.ipv6_addrs))
]
