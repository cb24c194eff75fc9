-- ===== src/Infoblox/Addresses/WithoutFirst.antt =====
-- The record without its first entry in a subnet, described by the texts that the entries hold.
use cluster_api_ipam_provide.Common.{
  ◌≡◌, ◌↔◌, sym, ap, ◌∙◌, true, none, some, [], ◌++◌, arith, All, elements, inl, inr,
}
use cluster_api_ipam_provide.Netip.{Addr, Prefix}
use cluster_api_ipam_provide.Infoblox.Wapi.{HostRecord}
use cluster_api_ipam_provide.Infoblox.Records.Laws.{NoneIn}
use cluster_api_ipam_provide.Infoblox.Addresses.{remove_entry, has_no_entries}
use cluster_api_ipam_provide.Infoblox.Addresses.Release.{
  with_entries, remove_entry-append, remove_entry-none,
}
use cluster_api_ipam_provide.Infoblox.Addresses.FirstEntry.{
  IsOutside, SplitsAt, of_family, splits-cases, Holds-is_in, All-IsOutside, All-NoneIn,
  family_entries-of_family,
}

-- What a record is without the first entry that holds an address of the subnet.
pub record Loses (subnet : Prefix) (hr rest : HostRecord) : Type 0 where
  pub a : Addr
  pub at : SplitsAt subnet (of_family subnet hr) a
  pub others : rest ≡ with_entries hr subnet (at.before ++ at.after)

removes :
    (subnet : Prefix) (hr : HostRecord) (a : Addr) (x : SplitsAt subnet (of_family subnet hr) a)
    → remove_entry hr subnet ≡ some (with_entries hr subnet (x.before ++ x.after))
removes subnet hr a x =
    remove_entry-append hr subnet x.before x.after x.ip
      (family_entries-of_family hr subnet ∙ x.split) (All-NoneIn subnet x.before x.outside)
      (Holds-is_in subnet x.ip a x.holds)

removes_nothing :
    (subnet : Prefix) (hr : HostRecord)
    → NoneIn subnet (of_family subnet hr)
    → remove_entry hr subnet ≡ none
removes_nothing subnet hr h =
    remove_entry-none hr subnet (rw (family_entries-of_family hr subnet) h)

-- `remove_entry` drops the first such entry and nothing else.
pub remove_entry_iff :
    (subnet : Prefix) (hr rest : HostRecord)
    → (remove_entry hr subnet ≡ some rest) ↔ Loses subnet hr rest
remove_entry_iff subnet hr rest = (
  (λ h. elim (splits-cases subnet (of_family subnet hr)) [
    | inl (a, x) ↦
        let same = removes subnet hr a x in record { a = a; at = x; others = ground arith }
    | inr none_in ↦ let nothing = removes_nothing subnet hr none_in in absurd (ground arith)
  ]),
  λ l. removes subnet hr l.a l.at ∙ ap some (sym l.others),
)

pub remove_entry-none_iff :
    (subnet : Prefix) (hr : HostRecord)
    → (remove_entry hr subnet ≡ none) ↔ All (IsOutside subnet) (of_family subnet hr)
remove_entry-none_iff subnet hr = (
  (λ h. elim (splits-cases subnet (of_family subnet hr)) [
    | inl (a, x) ↦ let removed = removes subnet hr a x in absurd (ground arith)
    | inr none_in ↦ All-IsOutside subnet (of_family subnet hr) none_in
  ]),
  λ outside. removes_nothing subnet hr (All-NoneIn subnet (of_family subnet hr) outside),
)

-- The record holds no entry of either family.
abbrev pub IsBare : HostRecord → Type 0
IsBare hr = (elements hr.ipv4_addrs ≡ []) × (elements hr.ipv6_addrs ≡ [])

pub has_no_entries_iff : (hr : HostRecord) → (has_no_entries hr ≡ true) ↔ IsBare hr
has_no_entries_iff hr = ground arith
