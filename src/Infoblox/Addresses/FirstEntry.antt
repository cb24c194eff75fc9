-- ===== src/Infoblox/Addresses/FirstEntry.antt =====
-- The first entry of a record that is in a subnet, described by the texts that the entries hold.
use cluster_api_ipam_provide.Common.{
  ◌≡◌, refl, sym, ap, ◌∙◌, String, true, false, some, List, [], ◌∷◌, ◌++◌, arith, All, elements,
  ◌↔◌, ◌⊎◌, inl, inr, if◌then◌else◌, Bool-cases, Option-cases,
}
use cluster_api_ipam_provide.Netip.{Addr, is_valid, is4, Prefix, contains}
use cluster_api_ipam_provide.Netip.Parse.{parse_addr}
use cluster_api_ipam_provide.Infoblox.Wapi.{HostRecordAddr, HostRecord}
use cluster_api_ipam_provide.Infoblox.Records.{
  family_entries, entry_addr, is_in, first_in, get_allocated_host_record_addr_in_subnet,
}
use cluster_api_ipam_provide.Infoblox.Records.Laws.{NoneIn, found_first, contains-is_valid}

-- The entry holds the text of an address, and that address is in the subnet.
abbrev pub Holds : Prefix → HostRecordAddr → Addr → Type 0
Holds subnet ip a =
    (s : String) × (ip.address ≡ some s) × (parse_addr s ≡ some a) × (contains subnet a ≡ true)

abbrev pub IsOutside : Prefix → HostRecordAddr → Type 0
IsOutside subnet ip = (a : Addr) → ¬ Holds subnet ip a

-- The entries split at the first one that holds an address of the subnet.
pub record SplitsAt (subnet : Prefix) (ips : List HostRecordAddr) (a : Addr) : Type 0 where
  pub before : List HostRecordAddr
  pub ip : HostRecordAddr
  pub after : List HostRecordAddr
  pub split : ips ≡ before ++ ip ∷ after
  pub outside : All (IsOutside subnet) before
  pub holds : Holds subnet ip a

-- The entries of the subnet's family.
abbrev pub of_family : Prefix → HostRecord → List HostRecordAddr
of_family subnet hr = elements (if is4 subnet.addr then hr.ipv4_addrs else hr.ipv6_addrs)

pub is_in-IsOutside :
    (subnet : Prefix) (ip : HostRecordAddr) → is_in subnet ip ≡ false → IsOutside subnet ip
unfolding is_in entry_addr
is_in-IsOutside subnet ip apart a (s, has, parsed, inside) = ground arith

IsOutside-is_in :
    (subnet : Prefix) (ip : HostRecordAddr) → IsOutside subnet ip → is_in subnet ip ≡ false
unfolding is_in entry_addr
IsOutside-is_in subnet ip out = elim (Option-cases ip.address) [
  | inl nothing ↦ ground arith
  | inr (s, has) ↦ elim (Option-cases (parse_addr s)) [
    | inl bad ↦ ground arith
    | inr (a, parsed) ↦ elim (Bool-cases (contains subnet a)) [
      | inl inside ↦ absurd (out a (s, has, parsed, inside))
      | inr apart ↦ ground arith
    ]
  ]
]

pub is_in-Holds :
    (subnet : Prefix) (ip : HostRecordAddr)
    → is_in subnet ip ≡ true
    → (a : Addr) × Holds subnet ip a
unfolding is_in entry_addr
is_in-Holds subnet ip inside = elim (Option-cases ip.address) [
  | inl nothing ↦ absurd (ground arith)
  | inr (s, has) ↦ elim (Option-cases (parse_addr s)) [
    | inl bad ↦ absurd (ground arith)
    | inr (a, parsed) ↦ (a, (s, has, parsed, ground arith))
  ]
]

pub Holds-is_in :
    (subnet : Prefix) (ip : HostRecordAddr) (a : Addr) → Holds subnet ip a → is_in subnet ip ≡ true
unfolding is_in entry_addr
Holds-is_in subnet ip a (s, has, parsed, inside) = ground arith

Holds-entry_addr :
    (subnet : Prefix) (ip : HostRecordAddr) (a : Addr) → Holds subnet ip a → entry_addr ip ≡ some a
unfolding entry_addr
Holds-entry_addr subnet ip a (s, has, parsed, inside) = ground arith

SplitsAt-cons :
    (subnet : Prefix) (ip : HostRecordAddr) (ips : List HostRecordAddr) (a : Addr)
    → IsOutside subnet ip
    → SplitsAt subnet ips a
    → SplitsAt subnet (ip ∷ ips) a
SplitsAt-cons subnet ip ips a out x = record {
  before = ip ∷ x.before;
  ip = x.ip;
  after = x.after;
  split = ap (λ l. ip ∷ l) x.split;
  outside = (out, x.outside);
  holds = x.holds;
}

pub All-IsOutside :
    (subnet : Prefix) (ips : List HostRecordAddr) → NoneIn subnet ips → All (IsOutside subnet) ips
All-IsOutside subnet [] h = tt
All-IsOutside subnet (ip ∷ ips) (n, h) = (is_in-IsOutside subnet ip n, All-IsOutside subnet ips h)

pub All-NoneIn :
    (subnet : Prefix) (ips : List HostRecordAddr) → All (IsOutside subnet) ips → NoneIn subnet ips
All-NoneIn subnet [] h = tt
All-NoneIn subnet (ip ∷ ips) (n, h) = (IsOutside-is_in subnet ip n, All-NoneIn subnet ips h)

-- A list splits at its first entry that holds an address, or has none.
pub splits-cases :
    (subnet : Prefix) (ips : List HostRecordAddr)
    → ((a : Addr) × SplitsAt subnet ips a) ⊎ NoneIn subnet ips
splits-cases subnet [] = inr tt
splits-cases subnet (ip ∷ ips) = elim (Bool-cases (is_in subnet ip)) [
  | inl here ↦
      let (a, h) = is_in-Holds subnet ip here in
      inl (a, record { before = []; ip = ip; after = ips; split = refl; outside = tt; holds = h })
  | inr apart ↦ elim (splits-cases subnet ips) [
    | inl (a, x) ↦ inl (a, SplitsAt-cons subnet ip ips a (is_in-IsOutside subnet ip apart) x)
    | inr none_in ↦ inr (apart, none_in)
  ]
]

first_in-none :
    (subnet : Prefix) (ips : List HostRecordAddr)
    → NoneIn subnet ips
    → is_valid (first_in subnet ips) ≡ false
unfolding first_in is_in
first_in-none subnet [] h = ground arith
first_in-none subnet (ip ∷ ips) (n, h) = let rest = first_in-none subnet ips h in ground arith

pub family_entries-of_family :
    (hr : HostRecord) (subnet : Prefix) → family_entries hr subnet ≡ of_family subnet hr
family_entries-of_family hr subnet = ground arith

not_found-NoneIn :
    (hr : HostRecord) (subnet : Prefix)
    → NoneIn subnet (of_family subnet hr)
    → is_valid (get_allocated_host_record_addr_in_subnet hr subnet) ≡ false
unfolding get_allocated_host_record_addr_in_subnet
not_found-NoneIn hr subnet h =
    rw (family_entries-of_family hr subnet) (first_in-none subnet (of_family subnet hr) h)

pub SplitsAt-found :
    (hr : HostRecord) (subnet : Prefix) (a : Addr)
    → SplitsAt subnet (of_family subnet hr) a
    → (get_allocated_host_record_addr_in_subnet hr subnet ≡ a) × (is_valid a ≡ true)
SplitsAt-found hr subnet a x =
    let inside = x.holds.3 in
    (
      found_first hr subnet x.before x.after x.ip a (family_entries-of_family hr subnet ∙ x.split)
          (All-NoneIn subnet x.before x.outside) (Holds-entry_addr subnet x.ip a x.holds) inside,
      contains-is_valid subnet a inside,
    )

-- `getAllocatedHostRecordAddrInSubnet` finds the address that the first such entry holds.
pub found-SplitsAt :
    (hr : HostRecord) (subnet : Prefix) (a : Addr)
    → get_allocated_host_record_addr_in_subnet hr subnet ≡ a
    → is_valid a ≡ true
    → SplitsAt subnet (of_family subnet hr) a
found-SplitsAt hr subnet a found valid = elim (splits-cases subnet (of_family subnet hr)) [
  | inl (b, x) ↦ let same : b ≡ a = sym (SplitsAt-found hr subnet b x).0 ∙ found in rw same at x
  | inr none_in ↦ let invalid = not_found-NoneIn hr subnet none_in in absurd (ground arith)
]

-- It finds none exactly if all entries are outside.
pub not_found_iff :
    (hr : HostRecord) (subnet : Prefix)
    → (is_valid (get_allocated_host_record_addr_in_subnet hr subnet) ≡ false)
      ↔ All (IsOutside subnet) (of_family subnet hr)
not_found_iff hr subnet = (
  (λ invalid. elim (splits-cases subnet (of_family subnet hr)) [
    | inl (a, x) ↦ let (found, valid) = SplitsAt-found hr subnet a x in absurd (ground arith)
    | inr none_in ↦ All-IsOutside subnet (of_family subnet hr) none_in
  ]),
  λ outside. not_found-NoneIn hr subnet (All-NoneIn subnet (of_family subnet hr) outside),
)
