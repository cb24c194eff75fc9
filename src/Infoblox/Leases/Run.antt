-- ===== src/Infoblox/Leases/Run.antt =====
-- Runs of calls of `GetOrAllocateAddress` and `ReleaseAddress`, for any hosts and in any order, each
-- with or without an error.
use mathlib.Core.List.{Memᴰ}
use cluster_api_ipam_provide.Common.{◌≡◌, refl, sym, ap, String, List, [], inl, inr, ◌⊎◌, final}
use cluster_api_ipam_provide.Netip.{Prefix, is4}
use cluster_api_ipam_provide.Infoblox.Wapi.{Wapi}
use cluster_api_ipam_provide.Infoblox.Records.{prepare_host_record_for_update}
use cluster_api_ipam_provide.Infoblox.Addresses.{
  get_or_allocate_address, release_address, with_request,
}
use cluster_api_ipam_provide.Infoblox.Addresses.Allocated.{
  fresh_record, with_request-fresh, with_request-known,
}
use cluster_api_ipam_provide.Infoblox.Addresses.Ended.{
  Careful, Wrote, nothing, created, extended, get_or_allocate_address-Wrote,
}
use cluster_api_ipam_provide.Infoblox.Addresses.Unreleased.{release_address-final}
use cluster_api_ipam_provide.Infoblox.Leases.{Leases, held, addrs, entries_of, leases_in}
use cluster_api_ipam_provide.Infoblox.Leases.Book.{
  Book, leases_in-found, leases_in-missing, found_in-held,
}
use cluster_api_ipam_provide.Infoblox.Leases.Extends.{
  Extends-prepare, with_request-Extends, fresh-Extends,
}
use cluster_api_ipam_provide.Infoblox.Leases.Allocation.{eq-invalid}
use cluster_api_ipam_provide.Infoblox.Leases.Release.{Released-IsRelease}
use cluster_api_ipam_provide.Infoblox.Leases.Changes.{
  Changes, kept, drops, IsUnique, AtMostOne, Changes-IsUnique,
}
use cluster_api_ipam_provide.Infoblox.Leases.AtMostOne.{Apart, Changes-AtMostOne}
use cluster_api_ipam_provide.Infoblox.Leases.NextAvailable.{
  NextAvailable, with_request-Asks, Asks-prepare, Written-Changes,
}

module _ {S : Type 0} (wapi : Wapi S) (network_view : String) (subnets : List Prefix) where
  -- What is assumed of the server: it keeps book of its hosts, a failed write changes nothing, and it
  -- grants the next available address.
  pub record Reliable : Type 0 where
    pub book : Book wapi network_view
    pub careful : Careful wapi
    pub grants : NextAvailable wapi network_view subnets

  unchanged-Changes :
      (s s₁ : S) (host : String) (subnet : Prefix)
      → s ≡ s₁
      → Changes (leases_in wapi network_view s) (leases_in wapi network_view s₁) host subnet
  unchanged-Changes s s₁ host subnet same =
      kept (λ other. ap (λ t. leases_in wapi network_view t other) (sym same))

  Wrote-Changes :
      (dns_view host dns_zone : String) (subnet : Prefix) (s s₁ : S)
      → Reliable
      → Memᴰ subnet subnets
      → Wrote wapi network_view dns_view subnet host dns_zone s s₁
      → Changes (leases_in wapi network_view s) (leases_in wapi network_view s₁) host subnet
  unfolding held
  Wrote-Changes dns_view host dns_zone subnet s s₁ r listed (nothing same) =
      unchanged-Changes s s₁ host subnet same
  Wrote-Changes dns_view host dns_zone subnet s s₁ r listed (created m ref missing sent) =
      let fresh = fresh_record wapi network_view dns_view subnet host dns_zone in
      let written = with_request wapi fresh subnet network_view in
      let (no_ref, named, viewed) =
        with_request-fresh wapi network_view dns_view subnet host dns_zone r.book.basics in
      Written-Changes wapi network_view subnets host ref subnet s s₁ written (λ f. []) listed
        (fresh-Extends wapi network_view dns_view subnet host dns_zone r.book.basics)
        (with_request-Asks wapi network_view subnets subnet (is4 subnet.addr) fresh r.grants refl)
        (λ f. leases_in-missing wapi network_view host m s s f missing) refl
        (r.book.created host m ref s s₁ written missing (named, viewed) sent)
        (r.grants.created host m ref s s₁ written missing (named, viewed) sent)
  Wrote-Changes dns_view host dns_zone subnet s s₁ r listed
        (extended old ref found no_address sent) =
      let asked = with_request wapi old subnet network_view in
      let written = prepare_host_record_for_update asked in
      let (known, same_ref, same_name) =
        with_request-known wapi network_view dns_view subnet host dns_zone old
          (r.book.basics.referenced network_view host s s old found) in
      Written-Changes wapi network_view subnets host ref subnet s s₁ written
        (λ f. addrs (entries_of old f)) listed
        (Extends-prepare (is4 subnet.addr) asked (λ f. addrs (entries_of old f))
          (with_request-Extends wapi network_view dns_view subnet host dns_zone (is4 subnet.addr)
            old refl (λ f. r.book.settled host s old f found)))
        (Asks-prepare wapi network_view subnets subnet (is4 subnet.addr) asked
          (with_request-Asks wapi network_view subnets subnet (is4 subnet.addr) old r.grants refl))
        (λ f. leases_in-found wapi network_view host s s old f found)
        (eq-invalid _ (rw (found_in-held old subnet) at no_address))
        (r.book.updated host ref s s₁ old written found (same_ref, same_name) sent)
        (r.grants.updated host ref s s₁ old written found (same_ref, same_name) sent)

  release-Changes :
      (dns_view host : String) (subnet : Prefix) (s : S)
      → Reliable
      → Changes
          (leases_in wapi network_view s)
          (leases_in wapi network_view
            (final (release_address wapi network_view dns_view subnet host s)))
          host
          subnet
  release-Changes dns_view host subnet s r =
      elim (release_address-final wapi network_view dns_view subnet host s r.book.basics
        r.careful) [
          | inl same ↦ unchanged-Changes s _ host subnet same
          | inr done ↦
              drops (Released-IsRelease wapi network_view dns_view subnet host s _ r.book done)
        ]

  -- The states that a sequence of steps reaches, the one that it starts in included. Besides the calls
  -- there are steps of others that leave the addresses of all hosts as they are.
  pub data Run (s : S) : S → Type 0 where
    start : Run s s
    allocate :
        (s₁ : S) (dns_view host dns_zone : String) (subnet : Prefix)
        → Memᴰ subnet subnets
        → Run s s₁
        → Run s (final (get_or_allocate_address wapi network_view dns_view subnet host dns_zone s₁))
    release :
        (s₁ : S) (dns_view host : String) (subnet : Prefix)
        → Memᴰ subnet subnets
        → Run s s₁
        → Run s (final (release_address wapi network_view dns_view subnet host s₁))
    elsewhere :
        (s₁ s₂ : S)
        → leases_in wapi network_view s₂ ≡ leases_in wapi network_view s₁
        → Run s s₁
        → Run s s₂

  -- An invariant that single calls keep is kept by runs.
  pub Run-keeps :
      (Inv : Leases → Type 0)
      → ((before after : Leases) (host : String) (subnet : Prefix)
          → Memᴰ subnet subnets
          → Changes before after host subnet
          → Inv before
          → Inv after)
      → (s s' : S) → Reliable
      → Run s s'
      → Inv (leases_in wapi network_view s)
      → Inv (leases_in wapi network_view s')
  Run-keeps Inv step s s' r start i = i
  Run-keeps Inv step s s' r (allocate s₁ dns_view host dns_zone subnet listed run) i =
      step (leases_in wapi network_view s₁) (leases_in wapi network_view s') host subnet listed
        (Wrote-Changes dns_view host dns_zone subnet s₁ s' r listed (
          get_or_allocate_address-Wrote wapi network_view dns_view subnet host dns_zone s₁
            r.book.basics r.careful))
        (Run-keeps Inv step s s₁ r run i)
  Run-keeps Inv step s s' r (release s₁ dns_view host subnet listed run) i =
      step (leases_in wapi network_view s₁) (leases_in wapi network_view s') host subnet listed
        (release-Changes dns_view host subnet s₁ r) (Run-keeps Inv step s s₁ r run i)
  Run-keeps Inv step s s' r (elsewhere s₁ s₂ same run) i = rw same (Run-keeps Inv step s s₁ r run i)

  -- Against a reliable server: however many allocations and releases are called, for any hosts and in
  -- any order, and however each of them ends, no two hosts hold one address, if none did at the start.
  -- Steps of others may come between, if they leave the addresses of all hosts as they are.
  pub Run-IsUnique :
      (s s' : S)
      → Reliable
      → Run s s'
      → IsUnique (leases_in wapi network_view s)
      → IsUnique (leases_in wapi network_view s')
  Run-IsUnique =
      Run-keeps IsUnique
        (λ before after host subnet listed c. Changes-IsUnique before after host subnet c)

  -- Against a reliable server, for a subnet that each subnet of the run equals or has no address in
  -- common with: however many allocations and releases are called, and however each of them ends,
  -- each host holds at most one address in it, if that was so at the start. Steps of others may come
  -- between, if they leave the addresses of all hosts as they are.
  pub Run-AtMostOne :
      (q : Prefix) (s s' : S)
      → ((p : Prefix) → Memᴰ p subnets → (p ≡ q) ⊎ Apart p q)
      → Reliable
      → Run s s'
      → AtMostOne q (leases_in wapi network_view s)
      → AtMostOne q (leases_in wapi network_view s')
  Run-AtMostOne q s s' disjoint =
      Run-keeps (AtMostOne q)
        (λ before after host subnet listed c.
          Changes-AtMostOne before after host subnet q (disjoint subnet listed) c)
        s s'
