-- ===== src/Controllers/Pool/Checks.antt =====
-- The checks of a pool: when it is ready.
use mathlib.Core.Option.{some-injective}
use mathlib.Core.Bool.{false≢true}
use text.Mathlib.TextEquality.{eq_iff}
use cluster_api_ipam_provide.Common.{
  ◌≡◌, ◌≢◌, ◌==◌, string_eq, refl, sym, ◌∙◌, String, Bool, true, false, List, [], ◌∷◌, Option, some,
  none, ◌↔◌, ◌⊎◌, inl, inr, Action, Outcome, Error, plain, returns, fails, All, if_holds,
  Option-cases, Bool-cases,
}
use cluster_api_ipam_provide.Netip.{Prefix}
use cluster_api_ipam_provide.Netip.Parse.{parse_prefix}
use cluster_api_ipam_provide.Infoblox.Client.{Client}
use cluster_api_ipam_provide.Api.{
  Condition, holds, fails_with, ready_reason, Subnet, InfobloxIpPool,
}
use cluster_api_ipam_provide.Kube.{Kube}
use cluster_api_ipam_provide.Controllers.Util.Laws.{determine_dns_view-ne-nil}
use cluster_api_ipam_provide.Controllers.Pool.{
  network_missing, dns_view_missing, network_view_missing, dns_view_of, set_pool_condition,
  PoolAction, check_subnets, check_dns_view, check_pool,
}

-- A check that changes nothing and answers `b`; an error may stand for `false`.
abbrev pub Answers {ℓ} : {S : Type ℓ} → Action S Bool → Bool → Type ℓ
Answers {S} test b =
    (s : S) → (test s ≡ returns b s) ⊎ ((e : Error) × (b ≡ false) × (test s ≡ fails e s))

-- What Infoblox has, as the client's checks report it.
pub record Inventory {S : Type 0} (ib : Client S) : Type 0 where
  pub has_network_view : String → Bool
  pub has_dns_view : String → Bool
  pub has_network : String → Prefix → Bool
  pub network_view_lem :
      (v : String) → Answers (ib.check_network_view_exists v) (has_network_view v)
  pub dns_view_lem : (v : String) → Answers (ib.check_dns_view_exists v) (has_dns_view v)
  pub network_lem :
      (v : String) (p : Prefix) → Answers (ib.check_network_exists v p) (has_network v p)

abbrev pub ready_condition : Condition
ready_condition = holds ready_reason "pool is ready"

fails_with-ne-ready : (reason message : String) → fails_with reason message ≢ ready_condition
fails_with-ne-ready reason message e = cc

module _ {S : Type 0} (kube : Kube S) (ib : Client S) (inv : Inventory ib) where
  -- The pool's subnet can be parsed, and Infoblox has it as a network of the view.
  abbrev pub IsKnown : String → Subnet → Type 0
  IsKnown network_view sub =
      (p : Prefix) × (parse_prefix sub.cidr ≡ some p) × (inv.has_network network_view p ≡ true)

  -- How a check ends: a pool with one condition set, or an error with the pool as it was.
  abbrev pub ended : S × InfobloxIpPool → Option Condition → Outcome (S × InfobloxIpPool) (Unit {0})
  ended w none = fails (plain "failed to parse subnet") w
  ended w (some c) =
      returns tt (w.0, record w.1 { conditions = kube.set_condition c w.1.conditions })

  -- A result that is the ready condition exactly if `P` holds.
  abbrev pub Decides : S × InfobloxIpPool → PoolAction S → Type 0 → Type 0
  Decides w act P = (c : Option Condition) × (act w ≡ ended w c) × ((c ≡ some ready_condition) ↔ P)

  if_holds-Decides :
      (test : Action S Bool) (b : Bool) (found : PoolAction S) (missing : Condition)
      (w : S × InfobloxIpPool) {P : Type 0}
      → Answers test b
      → missing ≢ ready_condition
      → Decides w found P
      → Decides w (if_holds test found (set_pool_condition kube missing)) ((b ≡ true) × P)
  if_holds-Decides test true found missing w answers m (c, e, d) = elim (answers w.0) [
    | inl yes_there ↦ (c, rw yes_there e, ((λ same. (refl, d.0 same)), (λ p. d.1 p.1)))
    | inr (e₁, impossible, _) ↦ absurd (cc)
  ]
  if_holds-Decides test false found missing w answers m _ = (
    some missing,
    not_there (answers w.0),
    ((λ same. absurd (m (some-injective _ _ same))), (λ p. absurd (false≢true p.0))),
  )
    where
      not_there :
          (test w.0 ≡ returns false w.0)
            ⊎ ((e : Error) × (false ≡ false) × (test w.0 ≡ fails e w.0))
          → if_holds test found (set_pool_condition kube missing) w ≡ ended w (some missing)
      not_there (inl e) = rw e
      not_there (inr (e₁, _, e)) = rw e

  IsKnown-eq :
      (sub : Subnet) {network_view : String} {p : Prefix}
      → parse_prefix sub.cidr ≡ some p
      → IsKnown network_view sub ↔ (inv.has_network network_view p ≡ true)
  IsKnown-eq sub {p} parsed = (
    (λ (q, parsed', found). rw (some-injective _ _ (sym parsed' ∙ parsed)) at found),
    (λ found. (p, parsed, found)),
  )

  check_subnets-Decides :
      (network_view : String) (subs : List Subnet) (w : S × InfobloxIpPool)
      → Decides w (check_subnets kube ib network_view subs) (All (IsKnown network_view) subs)
  unfolding check_subnets
  check_subnets-Decides network_view [] w = (some ready_condition, refl, ((λ e. tt), (λ u. refl)))
  check_subnets-Decides network_view (sub ∷ subs) w = elim (Option-cases (parse_prefix sub.cidr)) [
    | inl bad ↦ (
      none,
      rw (bad, check_subnets),
      ((λ e. absurd (cc)), (λ (known, _). absurd (cc (bad, known.1)))),
    )
    | inr (p, parsed) ↦
        let (c, e, d) =
          if_holds-Decides (ib.check_network_exists network_view p) (inv.has_network network_view p)
            (check_subnets kube ib network_view subs) (network_missing network_view p) w
            (inv.network_lem network_view p) (fails_with-ne-ready _ _)
            (check_subnets-Decides network_view subs w) in
        (
          c,
          rw (parsed, check_subnets) e,
          (
            (λ same. let (found, rest) = d.0 same in ((IsKnown-eq sub parsed).1 found, rest)),
            (λ (known, rest). d.1 ((IsKnown-eq sub parsed).0 known, rest)),
          ),
        )
  ]

  check_dns_view-Decides :
      (dns_view : String) (next : PoolAction S) (w : S × InfobloxIpPool) {P : Type 0}
      → dns_view ≢ ""
      → Decides w next P
      → Decides w (check_dns_view kube ib dns_view next) ((inv.has_dns_view dns_view ≡ true) × P)
  unfolding check_dns_view
  check_dns_view-Decides dns_view next w named rest = elim (Bool-cases (dns_view == "")) [
    | inl empty ↦ absurd (named ((eq_iff dns_view "").0 empty))
    | inr given ↦ rw given (
        if_holds-Decides (ib.check_dns_view_exists dns_view) (inv.has_dns_view dns_view) next
          (dns_view_missing dns_view) w (inv.dns_view_lem dns_view) (fails_with-ne-ready _ _) rest)
  ]

  -- What Infoblox must have for a pool: its network view, the DNS view that is used for it, and
  -- every one of its subnets, each of which can be parsed.
  abbrev pub IsBacked : InfobloxIpPool → Type 0
  IsBacked pool =
      (inv.has_network_view pool.spec.network_view ≡ true)
      × ((inv.has_dns_view (dns_view_of pool ib) ≡ true)
          × All (IsKnown pool.spec.network_view) pool.spec.subnets)

  -- Against checks that report an inventory, the checks of a pool end in one of two ways: an error
  -- for a subnet that cannot be parsed, with the pool as it was, or exactly one condition set. That
  -- condition is the ready one exactly if Infoblox has all that the pool needs.
  pub check_pool-Decides :
      (pool : InfobloxIpPool) (w : S × InfobloxIpPool)
      → Decides w (check_pool kube ib pool) (IsBacked pool)
  unfolding check_pool
  check_pool-Decides pool w =
      if_holds-Decides (ib.check_network_view_exists pool.spec.network_view)
        (inv.has_network_view pool.spec.network_view) _
        (network_view_missing pool.spec.network_view) w
        (inv.network_view_lem pool.spec.network_view) (fails_with-ne-ready _ _)
        (check_dns_view-Decides (dns_view_of pool ib) _ w
          (determine_dns_view-ne-nil pool.spec.dns_view ib.get_host_config.default_dns_view
            pool.spec.network_view)
          (check_subnets-Decides pool.spec.network_view pool.spec.subnets w))
