-- ===== src/Infoblox/Leases/NextAvailable.antt =====
-- What is assumed of a server besides keeping book: that it grants the next available address.
use mathlib.Core.List.{Memᴰ, map-append}
use cluster_api_ipam_provide.Common.{
  ◌≡◌, sym, ap, ◌∙◌, String, Bool, true, false, not, some, List, [], ◌∷◌, ◌++◌, map, ok, err,
  wapi_not_found, elements, inl, inr, ◌⊎◌, Option-cases, ◌<>◌,
}
use cluster_api_ipam_provide.Netip.{Addr, invalid, Prefix, is4, contains}
use cluster_api_ipam_provide.Netip.Print.{prefix_text}
use cluster_api_ipam_provide.Infoblox.Wapi.{HostRecordAddr, HostRecord, Wapi}
use cluster_api_ipam_provide.Infoblox.Records.{
  host_query, entry_addr, prepare_host_record_for_update, clear_host, next_available_ib_func,
}
use cluster_api_ipam_provide.Infoblox.Addresses.{with_request}
use cluster_api_ipam_provide.Infoblox.Leases.{addrs, entries_of, leases_in, held}
use cluster_api_ipam_provide.Infoblox.Leases.Entries.{
  Resolved-addrs, Resolved-request, entries_of-prepare,
}
use cluster_api_ipam_provide.Infoblox.Leases.Extends.{Extends}
use cluster_api_ipam_provide.Infoblox.Leases.Book.{Written, leases_in-found, leases_in-others}
use cluster_api_ipam_provide.Infoblox.Leases.Changes.{Changes, grows}

addrs_of_one :
    (x : HostRecordAddr) → (addrs (x ∷ []) ≡ []) ⊎ ((a : Addr) × (addrs (x ∷ []) ≡ a ∷ []))
unfolding addrs
addrs_of_one x = elim (Option-cases (entry_addr x)) [
  | inl nothing ↦ inl (rw (addrs, nothing))
  | inr (a, there) ↦ inr (a, rw (addrs, there))
]

only_one : (a b : Addr) → Memᴰ a (b ∷ []) → b ≡ a
only_one a b (Memᴰ.head e) = sym e
only_one a b (Memᴰ.tail m) = elim m [ ]

addrs_of_one-entry :
    (x : HostRecordAddr) (a : Addr) → Memᴰ a (addrs (x ∷ [])) → entry_addr x ≡ some a
unfolding addrs
addrs_of_one-entry x a m = elim (Option-cases (entry_addr x)) [
  | inl nothing ↦ absurd (nobody (rw (addrs, nothing) at m))
  | inr (b, there) ↦ there ∙ ap some (only_one a b (rw (addrs, there) at m))
]
  where
    nobody : Memᴰ a [] → ⊥
    nobody m' = elim m' [ ]

-- The text that Infoblox documents for a request of the next available address of a network.
abbrev pub request_for : Prefix → String → String
request_for subnet view = "func:nextavailableip:" <> (prefix_text subnet <> ("," <> view))

module _ {S : Type 0} (wapi : Wapi S) (network_view : String) (subnets : List Prefix) where
  -- The record that a search finds after a write of one that ends in a request for a subnet ends in
  -- an address of the subnet that no host held before, if it ends in an address.
  abbrev pub Granted : String → HostRecord → S → S → Type 0
  Granted host written s s₁ =
      (hr : HostRecord) (family : Bool) (kept front : List HostRecordAddr)
      (request x : HostRecordAddr) (subnet : Prefix) (a : Addr)
      → wapi.find_host_records (host_query network_view host) s₁ ≡ (ok (hr ∷ []), s₁)
      → entries_of written family ≡ kept ++ request ∷ []
      → Memᴰ subnet subnets
      → request.address ≡ some (request_for subnet network_view)
      → entries_of hr family ≡ front ++ x ∷ []
      → entry_addr x ≡ some a
      → (contains subnet a ≡ true)
        × ((other : String) → Memᴰ a (leases_in wapi network_view s other family) → ⊥)

  -- The server's documented behaviour for `func:nextavailableip`, and that the library puts the text
  -- it is given into a new entry.
  pub record NextAvailable : Type 0 where
    pub asks4 : (a : String) → (wapi.new_host_record_ipv4_addr a "" false "").address ≡ some a
    pub asks6 : (a : String) → (wapi.new_host_record_ipv6_addr a "" false "").address ≡ some a
    pub created :
        (host m ref : String) (s s₁ : S) (written : HostRecord)
        → wapi.find_host_records (host_query network_view host) s ≡ (err (wapi_not_found m), s)
        → (written.name ≡ some host) × (written.network_view ≡ network_view)
        → wapi.create_object written s ≡ (ok ref, s₁)
        → Granted host written s s₁
    pub updated :
        (host ref : String) (s s₁ : S) (old written : HostRecord)
        → wapi.find_host_records (host_query network_view host) s ≡ (ok (old ∷ []), s)
        → (written.ref ≡ old.ref) × (written.name ≡ old.name)
        → wapi.update_object written written.ref s ≡ (ok ref, s₁)
        → Granted host written s s₁

  -- A record whose entries of a family end in a request for the subnet.
  pub record Asks (subnet : Prefix) (family : Bool) (written : HostRecord) : Type 0 where
    pub kept : List HostRecordAddr
    pub request : HostRecordAddr
    pub entries : entries_of written family ≡ kept ++ request ∷ []
    pub asking : request.address ≡ some (request_for subnet network_view)

  pub with_request-Asks :
      (subnet : Prefix) (family : Bool) (old : HostRecord)
      → NextAvailable
      → is4 subnet.addr ≡ family
      → Asks subnet family (with_request wapi old subnet network_view)
  unfolding with_request next_available_ib_func
  with_request-Asks subnet true old n yes4 = record {
    kept = elements old.ipv4_addrs;
    request =
        wapi.new_host_record_ipv4_addr (next_available_ib_func subnet network_view) "" false "";
    entries = rw yes4;
    asking = n.asks4 (next_available_ib_func subnet network_view);
  }
  with_request-Asks subnet false old n no4 = record {
    kept = elements old.ipv6_addrs;
    request =
        wapi.new_host_record_ipv6_addr (next_available_ib_func subnet network_view) "" false "";
    entries = rw no4;
    asking = n.asks6 (next_available_ib_func subnet network_view);
  }

  pub Asks-prepare :
      (subnet : Prefix) (family : Bool) (written : HostRecord)
      → Asks subnet family written
      → Asks subnet family (prepare_host_record_for_update written)
  Asks-prepare subnet family written x = record {
    kept = map clear_host x.kept;
    request = clear_host x.request;
    entries =
        entries_of-prepare written family
        ∙ (ap (map clear_host) x.entries ∙ map-append clear_host x.kept (x.request ∷ []));
    asking = x.asking;
  }

  -- A write that asks for an address in the subnet, for a host that holds none there, gives it one.
  pub Written-Changes :
      (host ref : String) (subnet : Prefix) (s s₁ : S) (written : HostRecord)
      (old : Bool → List Addr)
      → Memᴰ subnet subnets
      → Extends (is4 subnet.addr) written old
      → Asks subnet (is4 subnet.addr) written
      → ((f : Bool) → leases_in wapi network_view s host f ≡ old f)
      → held subnet (old (is4 subnet.addr)) ≡ invalid
      → Written wapi network_view host written ref s s₁
      → Granted host written s s₁
      → Changes (leases_in wapi network_view s) (leases_in wapi network_view s₁) host subnet
  Written-Changes host ref subnet s s₁ written old listed e asks before room w granted =
      let fam = is4 subnet.addr in
      let (y, front, split, more) =
        Resolved-request e.kept e.request (entries_of w.hr fam) e.settled
          (rw e.entries at (w.resolved fam)) in
      let now : (f : Bool) → leases_in wapi network_view s₁ host f ≡ addrs (entries_of w.hr f) =
        (λ f. leases_in-found wapi network_view host s₁ s₁ w.hr f w.found) in
      let answer = (λ (a : Addr) (known : entry_addr y ≡ some a).
        granted w.hr fam asks.kept front asks.request y subnet a w.found asks.entries listed
          asks.asking split known) in
      grows (record {
        extra = addrs (y ∷ []);
        short = addrs_of_one y;
        room = ap (held subnet) (before fam) ∙ room;
        grown =
            now fam
            ∙ (more
                ∙ (ap (λ l. l ++ addrs (y ∷ [])) e.same
                    ∙ ap (λ l. l ++ addrs (y ∷ [])) (sym (before fam))));
        family =
            now (not fam)
            ∙ (Resolved-addrs (entries_of written (not fam)) (entries_of w.hr (not fam))
                  e.settled_other (w.resolved (not fam))
                ∙ (e.same_other ∙ sym (before (not fam))));
        inside = λ a m. (answer a (addrs_of_one-entry y a m)).0;
        free = λ a other m. (answer a (addrs_of_one-entry y a m)).1 other;
        others = λ o apart. leases_in-others wapi network_view o s s₁ (w.others o apart);
      })
