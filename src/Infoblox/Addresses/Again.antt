-- ===== src/Infoblox/Addresses/Again.antt =====
-- Allocating twice: against a server that finds what it has stored, the second call changes nothing.
use cluster_api_ipam_provide.Common.{
  ◌≡◌, String, true, some, [], ◌∷◌, arith, ok, err, wapi_not_found, returns, string_eq,
}
use cluster_api_ipam_provide.Netip.{Addr, Prefix, is_valid}
use cluster_api_ipam_provide.Infoblox.Wapi.{HostRecord, Wapi}
use cluster_api_ipam_provide.Infoblox.Records.{
  host_query, get_allocated_host_record_addr_in_subnet, get_or_new_host_record,
}
use cluster_api_ipam_provide.Infoblox.Addresses.{get_or_allocate_address}
use cluster_api_ipam_provide.Infoblox.Addresses.Allocated.{
  Stored, Basics, Allocated, existing, created, extended, with_request-fresh, with_request-known,
  get_or_allocate_address-Allocated,
}

module _ {S : Type 0} (wapi : Wapi S) where
  -- What is assumed of the server: the basics, and that the record of a host that was created or
  -- updated is the one that a search for the host finds.
  pub record Remembers : Type 0 where
    pub basics : Basics wapi
    pub created :
        (network_view hostname m : String) (s s₀ s' : S) (written hr : HostRecord)
        → wapi.find_host_records (host_query network_view hostname) s ≡ (err (wapi_not_found m), s₀)
        → (written.name ≡ some hostname) × (written.network_view ≡ network_view)
        → Stored wapi written hr s s'
        → wapi.find_host_records (host_query network_view hostname) s' ≡ (ok (hr ∷ []), s')
    pub updated :
        (network_view hostname : String) (s s₀ s' : S) (old written hr : HostRecord)
        → wapi.find_host_records (host_query network_view hostname) s ≡ (ok (old ∷ []), s₀)
        → (written.ref ≡ old.ref) × (written.name ≡ old.name)
        → Stored wapi written hr s s'
        → wapi.find_host_records (host_query network_view hostname) s' ≡ (ok (hr ∷ []), s')

  module _ (network_view dns_view : String) (subnet : Prefix) (hostname dns_zone : String) where
    -- The server finds one record for the host, and its first address in the subnet is this one.
    record Holds (s : S) (a : Addr) : Type 0 where
      hr : HostRecord
      found : wapi.find_host_records (host_query network_view hostname) s ≡ (ok (hr ∷ []), s)
      address : get_allocated_host_record_addr_in_subnet hr subnet ≡ a
      valid : is_valid a ≡ true

    Holds-again :
        (s : S) (a : Addr)
        → Holds s a
        → get_or_allocate_address wapi network_view dns_view subnet hostname dns_zone s
          ≡ returns a s
    unfolding get_or_allocate_address get_or_new_host_record
    Holds-again s a h =
        let found = h.found in let address = h.address in let valid = h.valid in ground arith

    Allocated-Holds :
        (s s' : S) (a : Addr)
        → Remembers
        → Allocated wapi network_view dns_view subnet hostname dns_zone s s' a
        → Holds s' a
    Allocated-Holds s s' a r (existing hr found address valid same) = record {
      hr = hr;
      found = rw same at found;
      address = address;
      valid = valid;
    }
    Allocated-Holds s s' a r (created m hr missing st address valid) =
        let (fresh, named, viewed) =
          with_request-fresh wapi network_view dns_view subnet hostname dns_zone r.basics in
        record {
          hr = hr;
          found = r.created network_view hostname m s s s' _ hr missing (named, viewed) st;
          address = address;
          valid = valid;
        }
    Allocated-Holds s s' a r (extended old hr found no_address name named st address valid) =
        let (known, same_ref, same_name) =
          with_request-known wapi network_view dns_view subnet hostname dns_zone old
            (r.basics.referenced network_view hostname s s old found) in
        record {
          hr = hr;
          found = r.updated network_view hostname s s s' old _ hr found (same_ref, same_name) st;
          address = address;
          valid = valid;
        }

    -- Allocation is idempotent against a server that remembers what it is sent: once the call has
    -- returned an address, the same call returns the same address, and leaves the world as it is.
    pub get_or_allocate_address-again :
        (s s' : S) (a : Addr)
        → Remembers
        → get_or_allocate_address wapi network_view dns_view subnet hostname dns_zone s
          ≡ returns a s'
        → get_or_allocate_address wapi network_view dns_view subnet hostname dns_zone s'
          ≡ returns a s'
    get_or_allocate_address-again s s' a r h = Holds-again s' a (
        Allocated-Holds s s' a r (
          get_or_allocate_address-Allocated wapi network_view dns_view subnet hostname dns_zone s s'
            a r.basics h))
