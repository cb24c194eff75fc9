-- ===== src/Controllers/Claim/Exclusive.antt =====
-- That the addresses which `EnsureAddress` gives to claims are exclusive.
use mathlib.Core.List.{Memᴰ}
use cluster_api_ipam_provide.Common.{
  ◌≡◌, sym, ap, refl, String, Bool, true, List, [], ◌∷◌, ◌++◌, some, arith, returns, inl, inr,
  final, Bool-cases,
}
use cluster_api_ipam_provide.Netip.{Addr, Prefix, is4, contains}
use cluster_api_ipam_provide.Netip.Print.{addr_text}
use cluster_api_ipam_provide.Infoblox.Config.{HostConfig}
use cluster_api_ipam_provide.Infoblox.Wapi.{Wapi}
use cluster_api_ipam_provide.Infoblox.Client.{client_over}
use cluster_api_ipam_provide.Infoblox.Leases.{Leases, IsAllocation, held, leases_in}
use cluster_api_ipam_provide.Infoblox.Addresses.{get_or_allocate_address}
use cluster_api_ipam_provide.Infoblox.Leases.Book.{Book}
use cluster_api_ipam_provide.Infoblox.Leases.Cycle.{contains-invalid}
use cluster_api_ipam_provide.Infoblox.Leases.Allocation.{get_or_allocate_address-IsAllocation}
use cluster_api_ipam_provide.Infoblox.Leases.Changes.{IsUnique}
use cluster_api_ipam_provide.Infoblox.Leases.Run.{Reliable, Run, Run-IsUnique}
use cluster_api_ipam_provide.Api.{InfobloxIpPool, IpAddress}
use cluster_api_ipam_provide.Kube.{Kube}
use cluster_api_ipam_provide.Hostname.{SortFunc}
use cluster_api_ipam_provide.Controllers.Pool.{dns_view_of}
use cluster_api_ipam_provide.Controllers.Claim.{ensure_address, release_address}
use cluster_api_ipam_provide.Controllers.Handler.{Handler, annotated}
use cluster_api_ipam_provide.Controllers.Claim.Ensure.{made_ready}
use cluster_api_ipam_provide.Controllers.Claim.Address.{ensure_address-CameFrom}
use cluster_api_ipam_provide.Controllers.Claim.Served.{
  LeavesAddresses, IsListed, ensure_address-Run, release_address-Run,
}

-- The first address in a subnet is one of the list.
held-Memᴰ : (p : Prefix) (l : List Addr) (a : Addr) → held p l ≡ a → contains p a ≡ true → Memᴰ a l
unfolding held
held-Memᴰ p [] a e inside = absurd (ground (arith, contains-invalid p a))
held-Memᴰ p (b ∷ l) a e inside = elim (Bool-cases (contains p b)) [
  | inl here ↦ let same : b ≡ a = ground arith in Memᴰ.head (sym same)
  | inr apart ↦ Memᴰ.tail (held-Memᴰ p l a (rw apart at e) inside)
]

Memᴰ-last : (l : List Addr) (a : Addr) → Memᴰ a (l ++ a ∷ [])
Memᴰ-last [] a = Memᴰ.head refl
Memᴰ-last (b ∷ l) a = Memᴰ.tail (Memᴰ-last l a)

-- The host of an allocation holds the address afterwards.
IsAllocation-holds :
    (before after : Leases) (host : String) (subnet : Prefix) (a : Addr)
    → IsAllocation before after host subnet a
    → Memᴰ a (after host (is4 subnet.addr))
IsAllocation-holds before after host subnet a x = elim x.change [
  | inl (known, unchanged) ↦
      rw unchanged (held-Memᴰ subnet (before host (is4 subnet.addr)) a known x.inside)
  | inr (nothing, added, kept) ↦ rw added (Memᴰ-last (before host (is4 subnet.addr)) a)
]

get_or_allocate_address-holds :
    {S : Type 0} (wapi : Wapi S) (network_view view dns_view : String) (subnet : Prefix)
    (host dns_zone : String) (s s₁ : S) (a : Addr)
    → network_view ≡ view
    → Book wapi network_view
    → get_or_allocate_address wapi view dns_view subnet host dns_zone s ≡ returns a s₁
    → Memᴰ a (leases_in wapi network_view s₁ host (is4 subnet.addr))
get_or_allocate_address-holds wapi network_view view dns_view subnet host dns_zone s s₁ a e b h =
    rw e (
      IsAllocation-holds (leases_in wapi view s) (leases_in wapi view s₁) host subnet a (
        get_or_allocate_address-IsAllocation wapi view dns_view subnet host dns_zone s s₁ a
          (rw e at b) h))

module _ {S : Type 0} (kube : Kube S) (sort_func : SortFunc) (wapi : Wapi S) (network_view : String)
    (subnets : List Prefix) where
  -- A handler of a claim: it has fetched a pool of the network view, whose subnets are among the
  -- given ones, and a client that `NewClient` makes.
  pub record Serves (h : Handler S) : Type 0 where
    pub pool : InfobloxIpPool
    pub hc : HostConfig
    pub has_pool : h.pool ≡ some pool
    pub has_ib : h.ib_client ≡ some (client_over wapi hc)
    pub viewed : network_view ≡ pool.spec.network_view
    pub listed : IsListed kube sort_func wapi subnets pool pool.spec.subnets

  -- The states that are reached by handling claims, whatever comes of each. Between two calls, others
  -- may take steps that leave the addresses of all hosts as they are.
  pub data Served (s : S) : S → Type 0 where
    start : Served s s
    ensured :
        (s₁ : S) (h : Handler S) (address : IpAddress)
        → Serves h
        → Served s s₁
        → Served s (final (ensure_address kube sort_func address (s₁, h))).0
    released :
        (s₁ : S) (h : Handler S)
        → Serves h
        → Served s s₁
        → Served s (final (release_address kube sort_func (s₁, h))).0
    elsewhere :
        (s₁ s₂ : S)
        → leases_in wapi network_view s₂ ≡ leases_in wapi network_view s₁
        → Served s s₁
        → Served s s₂

  Served-Run :
      (s s' : S)
      → LeavesAddresses kube wapi network_view
      → Served s s'
      → Run wapi network_view subnets s s'
  Served-Run s s' leaves start = Run.start
  Served-Run s s' leaves (ensured s₁ h address x before) = rw x.viewed (
      ensure_address-Run kube sort_func wapi subnets x.pool x.hc address s s₁ h x.has_pool x.has_ib
        x.listed (rw x.viewed at leaves) (rw x.viewed at (Served-Run s s₁ leaves before)))
  Served-Run s s' leaves (released s₁ h x before) = rw x.viewed (
      release_address-Run kube sort_func wapi subnets x.pool x.hc s s₁ h x.has_pool x.has_ib
        x.listed (rw x.viewed at leaves) (rw x.viewed at (Served-Run s s₁ leaves before)))
  Served-Run s s' leaves (elsewhere s₁ s₂ same before) =
      Run.elsewhere s₁ s' same (Served-Run s s₁ leaves before)

  -- Against a reliable server on which no two hosts held one address when the handling of claims
  -- began: whatever claims have been handled since, and whatever came of them, if `EnsureAddress`
  -- succeeds for a claim, the text of the address object is that of an address which the host that is
  -- annotated on the claim then holds on the server, in its subnet's family, and no other host holds.
  pub ensure_address-IsExclusive :
      (s : S) (w w' : S × Handler S) (address result : IpAddress)
      → Reliable wapi network_view subnets
      → LeavesAddresses kube wapi network_view
      → IsUnique (leases_in wapi network_view s)
      → Served s w.0
      → Serves w.1
      → ensure_address kube sort_func address w ≡ returns result w'
      → (name : String) × (a : Addr) × (family : Bool) × (w'.1
          ≡ made_ready kube (annotated name w.1))
        × (result.address ≡ addr_text a)
        × Memᴰ a (leases_in wapi network_view w'.0 name family)
        × ((other : String) → Memᴰ a (leases_in wapi network_view w'.0 other family) → other ≡ name)
  ensure_address-IsExclusive s w w' address result r leaves unique before x h =
      let ib = client_over wapi x.hc in
      let (name, c, at, ready) =
        ensure_address-CameFrom kube sort_func address w w' x.pool ib result x.has_pool x.has_ib
          h in
      let holds =
        get_or_allocate_address-holds wapi network_view x.pool.spec.network_view
          (dns_view_of x.pool ib) c.subnet name x.pool.spec.dns_zone c.from c.to c.allocated
          x.viewed r.book c.given in
      let reached : Served s w'.0 = rw h at (ensured w.0 w.1 address x before) in
      let now =
        Run-IsUnique wapi network_view subnets s w'.0 r (Served-Run s w'.0 leaves reached) unique in
      (
        name,
        c.allocated,
        is4 c.subnet.addr,
        ready,
        ap (λ (t : IpAddress). t.address) c.filled,
        rw at holds,
        λ other m. now c.allocated (is4 c.subnet.addr) other name m (rw at holds),
      )
