-- ===== src/Tests/Ledger/Grants.antt =====
-- The server of the tests grants the next available address.
use mathlib.Core.List.{Memᴰ, map-append}
use text.Mathlib.TextEquality.{eq_iff}
use cluster_api_ipam_provide.Common.{
  ◌≡◌, refl, sym, ap, ◌∙◌, String, Bool, true, false, Option, some, List, [], ◌∷◌, ◌++◌, map, ok,
  err, arith, ◌&&◌, ◌||◌, elements, ◌==◌, string_eq, Bool-cases, inl, inr,
}
use cluster_api_ipam_provide.Netip.{Addr, invalid, v4, v6, is_valid, Prefix, contains}
use cluster_api_ipam_provide.Netip.Parse.{parse_addr}
use cluster_api_ipam_provide.Netip.Print.{prefix_text}
use cluster_api_ipam_provide.Infoblox.Wapi.{HostRecordAddr, HostRecord}
use cluster_api_ipam_provide.Infoblox.Records.{host_query, entry_addr}
use cluster_api_ipam_provide.Infoblox.Addresses.Ended.{Careful}
use cluster_api_ipam_provide.Infoblox.Leases.{leases_in, entries_of, held, shown}
use cluster_api_ipam_provide.Infoblox.Leases.Entries.{is_request}
use cluster_api_ipam_provide.Infoblox.Leases.Cycle.{contains-invalid}
use cluster_api_ipam_provide.Infoblox.Leases.NextAvailable.{request_for, Granted, NextAvailable}
use cluster_api_ipam_provide.Tests.World.{entry, subnet}
use cluster_api_ipam_provide.Tests.Ledger.{
  Ledger, granted_text, granted_addr, answered_entry, shown_record, host_of, find_answer, row,
  find_in, name_or_empty, asking, is_free_at, is_free, ledger_wapi,
}
use cluster_api_ipam_provide.Tests.Ledger.Book.{
  row_self, Put, written_in-lost, created-Put, updated-Put,
}

pub ledger_careful : Careful ledger_wapi
ledger_careful = record {
  created = λ hr s s₁ e lost. written_in-lost (name_or_empty hr) hr s s₁ e lost;
  updated = λ hr ref s s₁ e lost. written_in-lost (host_of ref) hr s s₁ e lost;
  deleted = λ ref s s₁ e lost. let bad : ok ref ≡ err e = ap (λ p. p.0) lost in absurd (cc);
  fetched = λ ref hr s. refl;
}

asking-request :
    (ips : List HostRecordAddr) (ip : HostRecordAddr)
    → is_request ip ≡ true
    → asking (ips ++ ip ∷ []) ≡ true
asking-request [] ip asks = rw asks refl
asking-request (x ∷ ips) ip asks = ground (arith, asking-request ips ip asks)

abbrev last_of : HostRecordAddr → List HostRecordAddr → HostRecordAddr
last_of x [] = x
last_of x (y ∷ ys) = last_of y ys

last_of-append : (d x : HostRecordAddr) (xs : List HostRecordAddr) → last_of d (xs ++ x ∷ []) ≡ x
last_of-append d x [] = refl
last_of-append d x (y ∷ xs) = last_of-append y x xs

-- The last entry of two ways to write a list.
last_entry :
    (xs ys : List HostRecordAddr) (x y : HostRecordAddr) → xs ++ x ∷ [] ≡ ys ++ y ∷ [] → x ≡ y
last_entry xs ys x y e = sym (last_of-append x x xs) ∙ (ap (last_of x) e ∙ last_of-append x y ys)

is_request-next_available :
    (ip : HostRecordAddr) → ip.address ≡ some (request_for subnet "default") → is_request ip ≡ true
unfolding prefix_text
is_request-next_available ip e = rw e refl

entry_addr-granted :
    (host : String) → entry_addr (entry (granted_text host)) ≡ some (granted_addr host)
unfolding entry_addr parse_addr
entry_addr-granted host = elim (Bool-cases (host == "host")) [
  | inl same ↦ rw same refl
  | inr apart ↦ rw apart refl
]

contains-granted : (host : String) → contains subnet (granted_addr host) ≡ true
unfolding contains
contains-granted host = elim (Bool-cases (host == "host")) [
  | inl same ↦ rw same refl
  | inr apart ↦ rw apart refl
]

contains-single :
    (host : String)
    → contains (record { addr = granted_addr host; bits = 32 }) (granted_addr host) ≡ true
unfolding contains
contains-single host = elim (Bool-cases (host == "host")) [
  | inl same ↦ rw same refl
  | inr apart ↦ rw apart refl
]

is_valid-contains : (p : Prefix) (a : Addr) → contains p a ≡ true → is_valid a ≡ true
is_valid-contains p invalid h = absurd (ground (arith, contains-invalid p invalid refl h))
is_valid-contains p (v4 n) h = refl
is_valid-contains p (v6 n zone) h = refl

held-Memᴰ :
    (p : Prefix) (a : Addr) (l : List Addr)
    → contains p a ≡ true
    → Memᴰ a l
    → is_valid (held p l) ≡ true
unfolding held
held-Memᴰ p a [] inside m = elim m [ ]
held-Memᴰ p a (b ∷ l) inside (Memᴰ.head e) =
    let here : contains p b ≡ true = rw (← e) inside in rw here (is_valid-contains p b here)
held-Memᴰ p a (b ∷ l) inside (Memᴰ.tail m) = elim (Bool-cases (contains p b)) [
  | inl here ↦ rw here (is_valid-contains p b here)
  | inr apart ↦ rw apart (held-Memᴰ p a l inside m)
]

is_free_at-Memᴰ :
    (s : Ledger) (host other : String) (family : Bool)
    → is_free_at s host other family ≡ true
    → Memᴰ (granted_addr host) (shown (find_in s other) family)
    → ⊥
is_free_at-Memᴰ s host other family free m =
    let taken =
      held-Memᴰ (record { addr = granted_addr host; bits = 32 }) (granted_addr host)
        (shown (find_in s other) family) (contains-single host) m in
    ground arith

both_of :
    (a b c d : Bool)
    → ((a && b) && (c && d)) ≡ true
    → (a ≡ true) × (b ≡ true) × (c ≡ true) × (d ≡ true)
both_of true true true true e = (refl, refl, refl, refl)
both_of true true true false e = absurd (cc)
both_of true true false d e = absurd (cc)
both_of true false c d e = absurd (cc)
both_of false b c d e = absurd (cc)

is_free_at_both :
    (s : Ledger) (host : String) (family : Bool)
    → is_free s host ≡ true
    → (is_free_at s host "host" family ≡ true) × (is_free_at s host "other" family ≡ true)
is_free_at_both s host true free =
    let (a, b, c, d) =
      both_of (is_free_at s host "host" true) (is_free_at s host "host" false)
        (is_free_at s host "other" true) (is_free_at s host "other" false) free in
    (a, c)
is_free_at_both s host false free =
    let (a, b, c, d) =
      both_of (is_free_at s host "host" true) (is_free_at s host "host" false)
        (is_free_at s host "other" true) (is_free_at s host "other" false) free in
    (b, d)

-- An address that is granted is held by no host.
is_free-Memᴰ :
    (s : Ledger) (host other : String) (family : Bool)
    → is_free s host ≡ true
    → Memᴰ (granted_addr host) (shown (find_in s other) family)
    → ⊥
unfolding shown
is_free-Memᴰ s host other family free m =
    let (here, there) = is_free_at_both s host family free in
    elim (Bool-cases (other == "host")) [
      | inl same ↦
          is_free_at-Memᴰ s host "host" family here (rw ((eq_iff other "host").0 same) at m)
      | inr apart ↦ elim (Bool-cases (other == "other")) [
        | inl same ↦
            is_free_at-Memᴰ s host "other" family there (rw ((eq_iff other "other").0 same) at m)
        | inr apart' ↦ nobody (rw (apart, apart') at m)
      ]
    ]
  where
    nobody : Memᴰ (granted_addr host) [] → ⊥
    nobody m' = elim m' [ ]

entries_of-shown :
    (host : String) (written : HostRecord) (family : Bool)
    → entries_of (shown_record host written) family
      ≡ map (answered_entry host) (entries_of written family)
entries_of-shown host written true = refl
entries_of-shown host written false = refl

asking-either :
    (written : HostRecord) (family : Bool)
    → asking (entries_of written family) ≡ true
    → (asking (elements written.ipv4_addrs) || asking (elements written.ipv6_addrs)) ≡ true
asking-either written true e = rw e refl
asking-either written false e = elim (Bool-cases (asking (elements written.ipv4_addrs))) [
  | inl in_first ↦ rw in_first refl
  | inr in_second ↦ rw in_second e
]

shown_found :
    (host : String) (written hr : HostRecord)
    → find_answer host (some written) ≡ ok (hr ∷ [])
    → shown_record host written ≡ hr
shown_found host written hr e = cc

only_subnet : (p : Prefix) → Memᴰ p (subnet ∷ []) → p ≡ subnet
only_subnet p (Memᴰ.head e) = e
only_subnet p (Memᴰ.tail m) = elim m [ ]

asking-address :
    (p : Prefix) (request : HostRecordAddr)
    → Memᴰ p (subnet ∷ [])
    → request.address ≡ some (request_for p "default")
    → request.address ≡ some (request_for subnet "default")
asking-address p request listed' e = rw (only_subnet p listed') at e

same_some : (a b : Addr) → (◌≡◌ {A = Option Addr} (some a) (some b)) → a ≡ b
same_some a b e = cc

entry_addr-answered :
    (host : String) (ip : HostRecordAddr)
    → is_request ip ≡ true
    → entry_addr (answered_entry host ip) ≡ some (granted_addr host)
entry_addr-answered host ip asks = rw asks (entry_addr-granted host)

Granted-Put :
    (host ref : String) (written : HostRecord) (s s₁ : Ledger)
    → Put host written ref s s₁
    → Granted ledger_wapi "default" (subnet ∷ []) host written s s₁
unfolding leases_in host_query
Granted-Put host ref written s s₁ put hr family kept front request x p a found asks listed' asking'
      split holds =
    let there : row s₁ host ≡ some written =
      rw (← put.stored) (row_self host (some written) s put.known) in
    let answer : find_answer host (row s₁ host) ≡ ok (hr ∷ []) = ap (λ p. p.0) found in
    let same : shown_record host written ≡ hr = shown_found host written hr (rw there at answer) in
    let is_asking = is_request-next_available request (asking-address p request listed' asking') in
    let free =
      put.free (asking-either written family (rw asks (asking-request kept request is_asking))) in
    let last : answered_entry host request ≡ x =
      last_entry (map (answered_entry host) kept) front (answered_entry host request) x (
        sym (map-append (answered_entry host) kept (request ∷ []))
        ∙ (ap (map (answered_entry host)) (sym asks)
            ∙ (sym (entries_of-shown host written family)
                ∙ (ap (λ r. entries_of r family) same ∙ split)))) in
    let same_addr : granted_addr host ≡ a =
      same_some (granted_addr host) a
        (sym (entry_addr-answered host request is_asking) ∙ (ap entry_addr last ∙ holds)) in
    rw (← same_addr) (
      rw (only_subnet p listed') (contains-granted host),
      λ other m. is_free-Memᴰ s host other family free m,
    )

pub ledger_grants : NextAvailable ledger_wapi "default" (subnet ∷ [])
ledger_grants = record {
  asks4 = λ a. refl;
  asks6 = λ a. refl;
  created = λ host m ref s s₁ written missing names sent.
      Granted-Put host ref written s s₁ (created-Put "default" host m ref s s₁ written names sent);
  updated = λ host ref s s₁ old written found names sent.
      Granted-Put host ref written s s₁
        (updated-Put "default" host ref s s₁ old written found names sent);
}
