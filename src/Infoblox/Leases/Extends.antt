-- ===== src/Infoblox/Leases/Extends.antt =====
-- What a record holds that asks for one more address.
use mathlib.Core.List.{map-append}
use cluster_api_ipam_provide.Common.{
  ◌≡◌, refl, sym, ap, ◌∙◌, String, Bool, true, false, not, List, [], ◌∷◌, ◌++◌, map, arith,
  elements,
}
use cluster_api_ipam_provide.Netip.{Addr, is_valid, Prefix, is4}
use cluster_api_ipam_provide.Infoblox.Wapi.{HostRecordAddr, HostRecord, Wapi}
use cluster_api_ipam_provide.Infoblox.Records.{
  get_allocated_host_record_addr_in_subnet, prepare_host_record_for_update, clear_host,
  new_host_record, next_available_ib_func,
}
use cluster_api_ipam_provide.Infoblox.Addresses.{with_request}
use cluster_api_ipam_provide.Infoblox.Addresses.Allocated.{Basics, fresh_record}
use cluster_api_ipam_provide.Infoblox.Leases.{held, addrs, entries_of}
use cluster_api_ipam_provide.Infoblox.Leases.Entries.{
  entries_of-prepare, IsSettled, Resolved, IsSettled-clear, addrs-clear, Resolved-addrs,
  Resolved-request, held-added,
}
use cluster_api_ipam_provide.Infoblox.Leases.Book.{found_in-held}

-- One entry more in a family than those of a record that holds the addresses `old`.
pub record Extends (family : Bool) (written : HostRecord) (old : Bool → List Addr) : Type 0 where
  pub kept : List HostRecordAddr
  pub request : HostRecordAddr
  pub entries : entries_of written family ≡ kept ++ request ∷ []
  pub settled : IsSettled kept
  pub same : addrs kept ≡ old family
  pub settled_other : IsSettled (entries_of written (not family))
  pub same_other : addrs (entries_of written (not family)) ≡ old (not family)

pub Extends-prepare :
    (family : Bool) (written : HostRecord) (old : Bool → List Addr)
    → Extends family written old
    → Extends family (prepare_host_record_for_update written) old
Extends-prepare family written old x = record {
  kept = map clear_host x.kept;
  request = clear_host x.request;
  entries =
      entries_of-prepare written family
      ∙ (ap (map clear_host) x.entries ∙ map-append clear_host x.kept (x.request ∷ []));
  settled = IsSettled-clear x.kept x.settled;
  same = addrs-clear x.kept ∙ x.same;
  settled_other =
      rw (entries_of-prepare written (not family))
        (IsSettled-clear (entries_of written (not family)) x.settled_other);
  same_other =
      rw (entries_of-prepare written (not family))
        (addrs-clear (entries_of written (not family)) ∙ x.same_other);
}

-- What a server stores for such a record holds the addresses there were, and the one found in it.
pub Extends-added :
    (subnet : Prefix) (written hr : HostRecord) (old : Bool → List Addr) (a : Addr)
    → Extends (is4 subnet.addr) written old
    → ((family : Bool) → Resolved (entries_of written family) (entries_of hr family))
    → is_valid (held subnet (old (is4 subnet.addr))) ≡ false
    → get_allocated_host_record_addr_in_subnet hr subnet ≡ a
    → is_valid a ≡ true
    → (addrs (entries_of hr (is4 subnet.addr)) ≡ old (is4 subnet.addr) ++ a ∷ [])
      × (addrs (entries_of hr (not (is4 subnet.addr))) ≡ old (not (is4 subnet.addr)))
Extends-added subnet written hr old a x resolved none_yet found valid =
    let (y, front, split, more) =
      Resolved-request x.kept x.request (entries_of hr (is4 subnet.addr)) x.settled
        (rw x.entries at (resolved (is4 subnet.addr))) in
    let all : addrs (entries_of hr (is4 subnet.addr)) ≡ old (is4 subnet.addr) ++ addrs (y ∷ []) =
      rw x.same at more in
    let added : addrs (y ∷ []) ≡ a ∷ [] =
      held-added subnet (old (is4 subnet.addr)) y a none_yet
        (sym (ap (held subnet) all) ∙ (sym (found_in-held hr subnet) ∙ found)) valid in
    (
      rw added at all,
      Resolved-addrs (entries_of written (not (is4 subnet.addr)))
            (entries_of hr (not (is4 subnet.addr))) x.settled_other
            (resolved (not (is4 subnet.addr)))
          ∙ x.same_other,
    )

module _ {S : Type 0} (wapi : Wapi S) (network_view dns_view : String) (subnet : Prefix)
    (hostname dns_zone : String) where
  pub with_request-Extends :
      (family : Bool) (old : HostRecord)
      → is4 subnet.addr ≡ family
      → ((f : Bool) → IsSettled (entries_of old f))
      → Extends family (with_request wapi old subnet network_view) (λ f. addrs (entries_of old f))
  unfolding with_request
  with_request-Extends true old yes4 settled = record {
    kept = elements old.ipv4_addrs;
    request =
        wapi.new_host_record_ipv4_addr (next_available_ib_func subnet network_view) "" false "";
    entries = rw yes4;
    settled = settled true;
    same = refl;
    settled_other = rw yes4 (settled false);
    same_other = rw yes4;
  }
  with_request-Extends false old no4 settled = record {
    kept = elements old.ipv6_addrs;
    request =
        wapi.new_host_record_ipv6_addr (next_available_ib_func subnet network_view) "" false "";
    entries = rw no4;
    settled = settled false;
    same = refl;
    settled_other = rw no4 (settled true);
    same_other = rw no4;
  }

  -- The record of an unknown host holds no entry.
  fresh_record-entries :
      Basics wapi
      → (f : Bool)
      → entries_of (fresh_record wapi network_view dns_view subnet hostname dns_zone) f ≡ []
  unfolding new_host_record
  fresh_record-entries r true = let (empty, no4, no6) = r.blank in ground arith
  fresh_record-entries r false = let (empty, no4, no6) = r.blank in ground arith

  pub fresh-Extends :
      Basics wapi
      → Extends
          (is4 subnet.addr)
          (with_request wapi
            (fresh_record wapi network_view dns_view subnet hostname dns_zone)
            subnet
            network_view)
          (λ f. [])
  unfolding addrs
  fresh-Extends r =
      let fresh = fresh_record wapi network_view dns_view subnet hostname dns_zone in
      let none_there : (f : Bool) → entries_of fresh f ≡ [] = fresh_record-entries r in
      let x = with_request-Extends (is4 subnet.addr) fresh refl (λ f. rw (none_there f) tt) in
      record {
        kept = x.kept;
        request = x.request;
        entries = x.entries;
        settled = x.settled;
        same = x.same ∙ ap addrs (none_there (is4 subnet.addr));
        settled_other = x.settled_other;
        same_other = x.same_other ∙ ap addrs (none_there (not (is4 subnet.addr)));
      }
