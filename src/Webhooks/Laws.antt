-- ===== src/Webhooks/Laws.antt =====
-- Which pools the webhook accepts, and on which it panics.
use text.Mathlib.TextEquality.{eq_iff}
use cluster_api_ipam_provide.Common.{
  ◌≡◌, ◌≢◌, ◌↔◌, ◌⊎◌, inl, inr, refl, ℕ, suc, true, false, some, none, List, [], ◌∷◌, string_eq,
  arith, All, is_empty, Option-cases, Bool-cases, returns, Outcome-cases,
}
use cluster_api_ipam_provide.Netip.{Addr, Prefix, is4, is6}
use cluster_api_ipam_provide.Netip.Cidr.{parse_cidr}
use cluster_api_ipam_provide.Netip.Parse.{parse_addr}
use cluster_api_ipam_provide.Netip.Print.{addr_text, prefix_text}
use cluster_api_ipam_provide.Api.{Subnet, InfobloxIpPool}
use cluster_api_ipam_provide.Kube.{Kube}
use cluster_api_ipam_provide.Pools.{list_addresses_in_use}
use cluster_api_ipam_provide.Controllers.Pool.{pool_type_ref}
use cluster_api_ipam_provide.Webhooks.{
  pool, allowed, panicked, subnet_errors, subnets_errors, validate, validate_delete, has_key,
  skip_validate_delete_webhook_annotation,
}

-- The subnet is written as its network is printed, and it has a gateway of the same family.
pub record IsWellFormed (sub : Subnet) : Type 0 where
  pub network : Prefix
  pub network_ip : Addr
  pub gateway_ip : Addr
  pub parsed : parse_cidr sub.cidr ≡ some network
  pub printed : prefix_text network ≡ sub.cidr
  pub reread : parse_addr (addr_text network.addr) ≡ some network_ip
  pub gateway : parse_addr sub.gateway ≡ some gateway_ip
  pub family :
      ((is4 network_ip ≡ true) × (is4 gateway_ip ≡ true))
      ⊎ ((is6 network_ip ≡ true) × (is6 gateway_ip ≡ true))

-- The CIDR of some subnet cannot be parsed.
abbrev pub HasUnparsed : List Subnet → Type 0
HasUnparsed [] = ⊥
HasUnparsed (sub ∷ subs) = (parse_cidr sub.cidr ≡ none) ⊎ HasUnparsed subs

IsWellFormed-subnet_errors :
    (i : ℕ) (sub : Subnet) → IsWellFormed sub → subnet_errors i sub ≡ some []
unfolding subnet_errors
IsWellFormed-subnet_errors i sub w =
    let parsed = w.parsed in
    let printed = (eq_iff (prefix_text w.network) sub.cidr).1 w.printed in
    let reread = w.reread in let gateway = w.gateway in let family = w.family in ground arith

subnet_errors-IsWellFormed :
    (i : ℕ) (sub : Subnet) → subnet_errors i sub ≡ some [] → IsWellFormed sub
unfolding subnet_errors
subnet_errors-IsWellFormed i sub h = elim (Option-cases (parse_cidr sub.cidr)) [
  | inl bad ↦ absurd (ground arith)
  | inr (network, parsed) ↦ elim (Option-cases (parse_addr (addr_text network.addr))) [
    | inl bad ↦ absurd (ground arith)
    | inr (network_ip, reread) ↦ elim (Option-cases (parse_addr sub.gateway)) [
      | inl bad ↦ absurd (ground arith)
      | inr (gateway_ip, gateway) ↦ record {
        network = network;
        network_ip = network_ip;
        gateway_ip = gateway_ip;
        parsed = parsed;
        printed = (eq_iff (prefix_text network) sub.cidr).0 (ground arith);
        reread = reread;
        gateway = gateway;
        family = ground arith;
      }
    ]
  ]
]

subnets_errors-nil :
    (i : ℕ) (sub : Subnet) (subs : List Subnet)
    → subnets_errors i (sub ∷ subs) ≡ some []
    → (subnet_errors i sub ≡ some []) × (subnets_errors (suc i) subs ≡ some [])
unfolding subnets_errors
subnets_errors-nil i sub subs h = elim (Option-cases (subnet_errors i sub)) [
  | inl bad ↦ absurd (ground arith)
  | inr (here, e) ↦ elim (Option-cases (subnets_errors (suc i) subs)) [
    | inl bad ↦ absurd (ground arith)
    | inr (later, e') ↦ ground arith
  ]
]

subnets_errors_iff :
    (i : ℕ) (subs : List Subnet) → (subnets_errors i subs ≡ some []) ↔ All IsWellFormed subs
unfolding subnets_errors
subnets_errors_iff i [] = ((λ e. tt), (λ u. refl))
subnets_errors_iff i (sub ∷ subs) =
    let (back, forth) = subnets_errors_iff (suc i) subs in
    (
      (λ h.
          let (here, later) = subnets_errors-nil i sub subs h in
          (subnet_errors-IsWellFormed i sub here, back later)),
      (λ (w, ws).
          let here = IsWellFormed-subnet_errors i sub w in
          let later = forth ws in rw (subnets_errors, here, later)),
    )

-- The validation accepts a pool exactly if it has a subnet, names an instance, and each
-- of its subnets is written as its network is printed and has a gateway of the same family.
pub validate_iff :
    (p : InfobloxIpPool)
    → (validate p ≡ allowed) ↔ (
        (is_empty p.spec.subnets ≡ false)
        × (p.spec.instance_ref.name ≢ "")
        × All IsWellFormed p.spec.subnets)
unfolding validate
validate_iff p =
    let (back, forth) = subnets_errors_iff 0 p.spec.subnets in
    (
      λ h. (
        ground arith,
        (λ empty. ground (arith, eq_iff p.spec.instance_ref.name "")),
        back (ground arith),
      ),
      λ (some_subnet, named, ws).
          let none_wrong = forth ws in ground (arith, eq_iff p.spec.instance_ref.name ""),
    )

subnet_errors-none_iff :
    (i : ℕ) (sub : Subnet) → (subnet_errors i sub ≡ none) ↔ (parse_cidr sub.cidr ≡ none)
unfolding subnet_errors
subnet_errors-none_iff i sub = ground arith

subnets_errors-none_iff :
    (i : ℕ) (subs : List Subnet) → (subnets_errors i subs ≡ none) ↔ HasUnparsed subs
unfolding subnets_errors
subnets_errors-none_iff i [] = ground arith
subnets_errors-none_iff i (sub ∷ subs) =
    ground (arith, subnets_errors-none_iff (suc i) subs, subnet_errors-none_iff i sub)

-- The validation panics exactly on a pool with a subnet whose CIDR cannot be parsed: it never answers
-- that such a subnet is invalid.
pub validate-panicked_iff :
    (p : InfobloxIpPool) → (validate p ≡ panicked) ↔ HasUnparsed p.spec.subnets
unfolding validate
validate-panicked_iff p = ground (arith, subnets_errors-none_iff 0 p.spec.subnets)

-- A pool may be deleted exactly if it has the annotation that skips the check, or its addresses
-- could be listed and there is none.
pub validate_delete_iff :
    {S : Type 0} (kube : Kube S) (p : InfobloxIpPool) (s : S)
    → (validate_delete kube (pool p) s ≡ allowed) ↔ (
        (has_key skip_validate_delete_webhook_annotation p.annotations ≡ true)
        ⊎ ((s' : S) × (list_addresses_in_use kube p.namespace (pool_type_ref p) s ≡ returns [] s')))
unfolding validate_delete
validate_delete_iff kube p s = (
  λ h. elim (Bool-cases (has_key skip_validate_delete_webhook_annotation p.annotations)) [
    | inl skip ↦ inl skip
    | inr check ↦
        elim (Outcome-cases (list_addresses_in_use kube p.namespace (pool_type_ref p) s)) [
          | inl ([], s', e) ↦ inr (s', e)
          | inl (a ∷ rest, s', e) ↦ absurd (ground arith)
          | inr other ↦ absurd (ground arith)
        ]
  ],
  ground arith,
)
