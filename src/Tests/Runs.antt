-- ===== src/Tests/Runs.antt =====
-- A run of allocations and releases for several hosts, some of which fail.
use mathlib.Core.List.{Memᴰ}
use cluster_api_ipam_provide.Common.{
  ◌≡◌, refl, String, Bool, none, true, [], ◌∷◌, ◌⊎◌, inl, inr, final, Bool-cases, ◌==◌, ◌||◌,
  string_eq,
}
use cluster_api_ipam_provide.Netip.{Addr, v4, Prefix, contains}
use cluster_api_ipam_provide.Netip.Parse.{parse_addr}
use cluster_api_ipam_provide.Netip.Print.{prefix_text}
use cluster_api_ipam_provide.Infoblox.Records.{
  host_query, entry_addr, is_in, first_in, get_or_new_host_record,
  get_allocated_host_record_addr_in_subnet, next_available_ib_func, create_or_update_host_record,
  prepare_host_record_for_update,
}
use cluster_api_ipam_provide.Infoblox.Addresses.{
  get_or_allocate_address, with_request, release_address, remove_entry, remove_first,
}
use cluster_api_ipam_provide.Infoblox.Leases.{leases_in, shown, addrs, held, forget}
use cluster_api_ipam_provide.Infoblox.Leases.Changes.{IsUnique, AtMostOne}
use cluster_api_ipam_provide.Infoblox.Leases.AtMostOne.{Apart}
use cluster_api_ipam_provide.Infoblox.Leases.Run.{
  Reliable, Run, start, allocate, release, Run-IsUnique, Run-AtMostOne,
}
use cluster_api_ipam_provide.Tests.World.{subnet}
use cluster_api_ipam_provide.Tests.Ledger.{Ledger, ledger_wapi}
use cluster_api_ipam_provide.Tests.Ledger.Book.{ledger_book}
use cluster_api_ipam_provide.Tests.Ledger.Grants.{ledger_careful, ledger_grants}

abbrev pub no_hosts : Ledger
no_hosts = λ h. none

pub ledger_reliable : Reliable ledger_wapi "default" (subnet ∷ [])
ledger_reliable = record {
  book = ledger_book "default";
  careful = ledger_careful;
  grants = ledger_grants;
}

abbrev allocated : String → Ledger → Ledger
allocated host s = final (get_or_allocate_address ledger_wapi "default" "" subnet host "zone" s)

abbrev released : String → Ledger → Ledger
released host s = final (release_address ledger_wapi "default" "" subnet host s)

-- Each host asks twice, a host that the server does not know asks once, and the first host is
-- released and asks again.
abbrev calls : Ledger
calls = allocated "host" (
    released "host" (
      allocated "nobody"
        (allocated "other" (allocated "other" (allocated "host" (allocated "host" no_hosts))))))

run : Run ledger_wapi "default" (subnet ∷ []) no_hosts calls
run = allocate _ "" "host" "zone" subnet here (
    release _ "" "host" subnet here (
      allocate _ "" "nobody" "zone" subnet here (
        allocate _ "" "other" "zone" subnet here (
          allocate _ "" "other" "zone" subnet here (
            allocate _ "" "host" "zone" subnet here
              (allocate _ "" "host" "zone" subnet here start))))))
  where
    here : Memᴰ subnet (subnet ∷ [])
    here = Memᴰ.head refl

-- What the hosts hold then.
leases_in-calls :
    (leases_in ledger_wapi "default" calls "host" true ≡ v4 167772165 ∷ [])
    × (leases_in ledger_wapi "default" calls "other" true ≡ v4 167772166 ∷ [])
unfolding get_or_allocate_address get_or_new_host_record host_query first_in
    get_allocated_host_record_addr_in_subnet with_request next_available_ib_func prefix_text
    create_or_update_host_record prepare_host_record_for_update entry_addr parse_addr contains shown
    addrs held release_address remove_entry remove_first is_in leases_in
leases_in-calls = (refl, refl)

no_leases :
    (host : String) (family : Bool) → leases_in ledger_wapi "default" no_hosts host family ≡ []
unfolding leases_in shown host_query
no_leases host family = elim (Bool-cases (host == "host" || host == "other")) [
  | inl known ↦ rw known refl
  | inr unknown ↦ rw unknown refl
]

no_members : (a : Addr) → Memᴰ a [] → ⊥
no_members a m = elim m [ ]

pub nobody_holds :
    (a : Addr) (host : String) (family : Bool)
    → Memᴰ a (leases_in ledger_wapi "default" no_hosts host family)
    → ⊥
nobody_holds a host family m = no_members a (rw (no_leases host family) at m)

only_subnet : (p : Prefix) → Memᴰ p (subnet ∷ []) → (p ≡ subnet) ⊎ Apart p subnet
only_subnet p (Memᴰ.head e) = inl e
only_subnet p (Memᴰ.tail m) = elim m [ ]

Run-IsUnique_example : IsUnique (leases_in ledger_wapi "default" calls)
Run-IsUnique_example =
    Run-IsUnique ledger_wapi "default" (subnet ∷ []) no_hosts calls ledger_reliable run
      (λ a family host other m m'. absurd (nobody_holds a host family m))

Run-AtMostOne_example : AtMostOne subnet (leases_in ledger_wapi "default" calls)
unfolding held forget
Run-AtMostOne_example =
    Run-AtMostOne ledger_wapi "default" (subnet ∷ []) subnet no_hosts calls only_subnet
      ledger_reliable run (λ host. rw (no_leases host true) refl)
