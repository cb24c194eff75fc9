-- ===== src/Infoblox/Leases/Allocation.antt =====
-- `GetOrAllocateAddress` implements an allocation.
use text.Mathlib.TextEquality.{eq_iff}
use cluster_api_ipam_provide.Common.{
  ◌≡◌, refl, sym, ap, ◌∙◌, String, Bool, true, false, not, List, [], ◌∷◌, ◌++◌, ok, returns, inl,
  inr,
}
use cluster_api_ipam_provide.Netip.{Addr, invalid, v4, v6, is_valid, Prefix, is4, contains}
use cluster_api_ipam_provide.Infoblox.Wapi.{HostRecord, Wapi}
use cluster_api_ipam_provide.Infoblox.Records.{
  get_allocated_host_record_addr_in_subnet, return_fields,
}
use cluster_api_ipam_provide.Infoblox.Records.Laws.{found_sound}
use cluster_api_ipam_provide.Infoblox.Addresses.{with_request, get_or_allocate_address}
use cluster_api_ipam_provide.Infoblox.Addresses.Allocated.{
  Allocated, existing, created, extended, with_request-fresh, with_request-known,
  get_or_allocate_address-Allocated,
}
use cluster_api_ipam_provide.Infoblox.Leases.{IsAllocation, held, addrs, entries_of, leases_in}
use cluster_api_ipam_provide.Infoblox.Leases.Book.{
  Written, Book, leases_in-found, leases_in-missing, leases_in-others, found_in-held,
}
use cluster_api_ipam_provide.Infoblox.Leases.Extends.{
  Extends, Extends-prepare, Extends-added, with_request-Extends, fresh-Extends,
}

pub eq-invalid : (a : Addr) → is_valid a ≡ false → a ≡ invalid
eq-invalid invalid e = refl
eq-invalid (v4 n) e = absurd (cc)
eq-invalid (v6 n zone) e = absurd (cc)

module _ {S : Type 0} (wapi : Wapi S) (network_view dns_view : String) (subnet : Prefix)
    (hostname dns_zone : String) where
  -- An address that is found in a record lies in the subnet.
  inside :
      (hr : HostRecord) (a : Addr)
      → get_allocated_host_record_addr_in_subnet hr subnet ≡ a
      → is_valid a ≡ true
      → contains subnet a ≡ true
  inside hr a found valid = rw found at (found_sound hr subnet (rw (← found) at valid))

  -- A write of a record that extends what the host held is an allocation.
  IsAllocation-Written :
      (s s' : S) (a : Addr) (ref : String) (between : S) (written x : HostRecord)
      (old : Bool → List Addr)
      → Extends (is4 subnet.addr) written old
      → ((f : Bool) → leases_in wapi network_view s hostname f ≡ old f)
      → is_valid (held subnet (old (is4 subnet.addr))) ≡ false
      → Written wapi network_view hostname written ref s between
      → wapi.get_host_record ref (return_fields ∷ []) written between ≡ (ok x, s')
      → get_allocated_host_record_addr_in_subnet x subnet ≡ a
      → is_valid a ≡ true
      → IsAllocation
          (leases_in wapi network_view s)
          (leases_in wapi network_view s')
          hostname
          subnet
          a
  IsAllocation-Written s s' a ref between written x old e before none_yet w fetched found valid =
      let (same, unchanged) = w.fetched x s' fetched in
      let found' : get_allocated_host_record_addr_in_subnet w.hr subnet ≡ a = rw same at found in
      let (all, other) =
        Extends-added subnet written w.hr old a e w.resolved none_yet found' valid in
      let now : (f : Bool) → leases_in wapi network_view s' hostname f ≡ addrs (entries_of w.hr f) =
        (λ f.
          rw unchanged at
            (leases_in-found wapi network_view hostname between between w.hr f w.found)) in
      record {
        inside = inside w.hr a found' valid;
        change = inr (
          ap (held subnet) (before (is4 subnet.addr)) ∙ eq-invalid _ none_yet,
          now (is4 subnet.addr) ∙ (all ∙ ap (λ l. l ++ a ∷ []) (sym (before (is4 subnet.addr)))),
          now (not (is4 subnet.addr)) ∙ (other ∙ sym (before (not (is4 subnet.addr)))),
        );
        others = λ o apart.
            rw unchanged at (leases_in-others wapi network_view o s between (w.others o apart));
      }

  Allocated-IsAllocation :
      (s s' : S) (a : Addr)
      → Book wapi network_view
      → Allocated wapi network_view dns_view subnet hostname dns_zone s s' a
      → IsAllocation
          (leases_in wapi network_view s)
          (leases_in wapi network_view s')
          hostname
          subnet
          a
  unfolding held
  Allocated-IsAllocation s s' a b (existing hr found address valid same) = record {
    inside = inside hr a address valid;
    change = inl (
      ap (held subnet) (leases_in-found wapi network_view hostname s s hr (is4 subnet.addr) found)
          ∙ (sym (found_in-held hr subnet) ∙ address),
      ap (leases_in wapi network_view) (sym same),
    );
    others = λ o apart. ap (λ t. leases_in wapi network_view t o) (sym same);
  }
  Allocated-IsAllocation s s' a b (created m x missing st address valid) =
      let (fresh, named, viewed) =
        with_request-fresh wapi network_view dns_view subnet hostname dns_zone b.basics in
      elim st.sent [
        | inl (empty, sent) ↦
            IsAllocation-Written s s' a st.ref st.between _ x (λ f. [])
              (fresh-Extends wapi network_view dns_view subnet hostname dns_zone b.basics)
              (λ f. leases_in-missing wapi network_view hostname m s s f missing) refl
              (b.created hostname m st.ref s st.between _ missing (named, viewed) sent) st.fetched
              address valid
        | inr (known, sent) ↦ absurd (known ((eq_iff _ "").0 fresh))
      ]
  Allocated-IsAllocation s s' a b (extended old x found no_address name named st address valid) =
      let referenced = b.basics.referenced network_view hostname s s old found in
      let (known, same_ref, same_name) =
        with_request-known wapi network_view dns_view subnet hostname dns_zone old referenced in
      elim st.sent [
        | inl (empty, sent) ↦ absurd (referenced (sym same_ref ∙ empty))
        | inr (given, sent) ↦
            IsAllocation-Written s s' a st.ref st.between _ x (λ f. addrs (entries_of old f))
              (Extends-prepare (is4 subnet.addr) (with_request wapi old subnet network_view)
                (λ f. addrs (entries_of old f))
                (with_request-Extends wapi network_view dns_view subnet hostname dns_zone
                  (is4 subnet.addr) old refl (λ f. b.settled hostname s old f found)))
              (λ f. leases_in-found wapi network_view hostname s s old f found)
              (rw (found_in-held old subnet) at no_address)
              (b.updated hostname st.ref s st.between old _ found (same_ref, same_name) sent)
              st.fetched address valid
      ]

  -- Against a server that keeps book of its hosts, a success of `GetOrAllocateAddress` is an
  -- allocation in the abstract view: the address lies in the subnet; it was the host's first there
  -- and nothing has changed, or the host held none there and it is added to the host's others. No
  -- other host's addresses change.
  pub get_or_allocate_address-IsAllocation :
      (s s' : S) (a : Addr)
      → Book wapi network_view
      → get_or_allocate_address wapi network_view dns_view subnet hostname dns_zone s ≡ returns a s'
      → IsAllocation
          (leases_in wapi network_view s)
          (leases_in wapi network_view s')
          hostname
          subnet
          a
  get_or_allocate_address-IsAllocation s s' a b h = Allocated-IsAllocation s s' a b (
      get_or_allocate_address-Allocated wapi network_view dns_view subnet hostname dns_zone s s' a
        b.basics h)
