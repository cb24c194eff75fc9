-- ===== src/Infoblox/Leases/Entries.antt =====
-- The addresses that the entries of a record hold, under what the code does to the entries.
use cluster_api_ipam_provide.Common.{
  not, ◌≡◌, refl, ap, Bool, true, false, none, some, List, [], ◌∷◌, ◌++◌, map, arith, All,
  Option-cases, Bool-cases, inl, inr, if◌then◌else◌, has_prefix,
}
use cluster_api_ipam_provide.Netip.{Addr, is_valid, Prefix}
use cluster_api_ipam_provide.Infoblox.Wapi.{HostRecordAddr, HostRecord}
use cluster_api_ipam_provide.Infoblox.Records.{
  entry_addr, is_in, first_in, clear_host, prepare_host_record_for_update,
}
use cluster_api_ipam_provide.Infoblox.Addresses.{remove_first}
use cluster_api_ipam_provide.Infoblox.Leases.{held, forget, addrs, entries_of}

-- An entry that asks the server for an address.
abbrev pub is_request : HostRecordAddr → Bool
is_request ip = elim ip.address [ none ↦ false | some s ↦ has_prefix s "func:" ]

abbrev pub IsSettled : List HostRecordAddr → Type 0
IsSettled = All (λ ip. is_request ip ≡ false)

-- The entries that are stored for those that were written: as many, and all but the requests hold
-- what was written.
abbrev pub Resolved : List HostRecordAddr → List HostRecordAddr → Type 0
Resolved [] [] = Unit {0}
Resolved (w ∷ ws) (x ∷ xs) =
    (if is_request w then Unit {0} else (x.address ≡ w.address)) × Resolved ws xs
Resolved _ _ = ⊥

pub first_in-held :
    (subnet : Prefix) (ips : List HostRecordAddr) → first_in subnet ips ≡ held subnet (addrs ips)
unfolding first_in held addrs
first_in-held subnet [] = refl
first_in-held subnet (ip ∷ ips) = ground (arith, first_in-held subnet ips)

-- Removing an entry forgets its address.
pub remove_first-none :
    (subnet : Prefix) (ips : List HostRecordAddr)
    → remove_first subnet ips ≡ none
    → forget subnet (addrs ips) ≡ addrs ips
unfolding remove_first forget addrs is_in
remove_first-none subnet [] h = refl
remove_first-none subnet (ip ∷ ips) h = elim (Option-cases (remove_first subnet ips)) [
  | inl nothing ↦ ground (arith, remove_first-none subnet ips nothing)
  | inr (rest, e) ↦ ground arith
]

pub remove_first-some :
    (subnet : Prefix) (ips rest : List HostRecordAddr)
    → remove_first subnet ips ≡ some rest
    → addrs rest ≡ forget subnet (addrs ips)
unfolding remove_first forget addrs is_in
remove_first-some subnet [] rest h = absurd (ground arith)
remove_first-some subnet (ip ∷ ips) rest h = elim (Bool-cases (is_in subnet ip)) [
  | inl here ↦ ground arith
  | inr later ↦ elim (Option-cases (remove_first subnet ips)) [
    | inl nothing ↦ absurd (ground arith)
    | inr (kept, e) ↦
        let same : ip ∷ kept ≡ rest = ground arith in
        rw (← same) (ground (arith, remove_first-some subnet ips kept e))
  ]
]

pub addrs-clear : (ips : List HostRecordAddr) → addrs (map clear_host ips) ≡ addrs ips
unfolding addrs entry_addr
addrs-clear [] = refl
addrs-clear (ip ∷ ips) = ground (arith, addrs-clear ips)

pub IsSettled-clear : (ips : List HostRecordAddr) → IsSettled ips → IsSettled (map clear_host ips)
IsSettled-clear [] h = tt
IsSettled-clear (ip ∷ ips) (e, h) = (e, IsSettled-clear ips h)

entry_addr-ap : (x w : HostRecordAddr) → x.address ≡ w.address → entry_addr x ≡ entry_addr w
unfolding entry_addr
entry_addr-ap x w e = rw e

pub Resolved-addrs :
    (ws xs : List HostRecordAddr) → IsSettled ws → Resolved ws xs → addrs xs ≡ addrs ws
unfolding addrs
Resolved-addrs [] [] h r = refl
Resolved-addrs (w ∷ ws) (x ∷ xs) (e, h) r =
    ground (arith, entry_addr-ap x w, Resolved-addrs ws xs h)
Resolved-addrs [] (x ∷ xs) h r = elim r [ ]
Resolved-addrs (w ∷ ws) [] h r = elim r [ ]

-- A request behind settled entries is answered by one more entry.
pub Resolved-request :
    (ws : List HostRecordAddr) (request : HostRecordAddr) (xs : List HostRecordAddr)
    → IsSettled ws
    → Resolved (ws ++ request ∷ []) xs
    → (x : HostRecordAddr) × (front : List HostRecordAddr) × (xs ≡ front ++ x ∷ [])
      × (addrs xs ≡ addrs ws ++ addrs (x ∷ []))
unfolding addrs
Resolved-request [] request (x ∷ []) h r = (x, [], refl, refl)
Resolved-request [] request (x ∷ y ∷ xs) h r = elim r.1 [ ]
Resolved-request [] request [] h r = elim r [ ]
Resolved-request (w ∷ ws) request [] h r = elim r [ ]
Resolved-request (w ∷ ws) request (x ∷ xs) (e, h) (r, rs) =
    let (y, front, split, more) = Resolved-request ws request xs h rs in
    (y, x ∷ front, ap (λ l. x ∷ l) split, ground (arith, entry_addr-ap x w))

-- Where the first of one more address is found and there was none before, it is the added one.
pub held-added :
    (subnet : Prefix) (before : List Addr) (x : HostRecordAddr) (a : Addr)
    → is_valid (held subnet before) ≡ false
    → held subnet (before ++ addrs (x ∷ [])) ≡ a
    → is_valid a ≡ true
    → addrs (x ∷ []) ≡ a ∷ []
unfolding held addrs
held-added subnet [] x a none_yet found valid = ground arith
held-added subnet (b ∷ before) x a none_yet found valid =
    ground (arith, held-added subnet before x a)

pub entries_of-prepare :
    (hr : HostRecord) (family : Bool)
    → entries_of (prepare_host_record_for_update hr) family ≡ map clear_host (entries_of hr family)
unfolding prepare_host_record_for_update
entries_of-prepare hr true = refl
entries_of-prepare hr false = refl

-- What holds of both families holds of each.
pub of_both : (P : Bool → Type 0) (family f : Bool) → P family × P (not family) → P f
of_both P true true h = h.0
of_both P true false h = h.1
of_both P false true h = h.1
of_both P false false h = h.0
