-- ===== src/Controllers/Instance/Checks.antt =====
-- The checks of an instance: when its configuration is valid.
use mathlib.Core.Bool.{false≢true}
use text.Mathlib.TextEquality.{eq_iff}
use cluster_api_ipam_provide.Common.{
  ◌≡◌, ◌≢◌, refl, sym, ◌∙◌, String, Bool, true, false, ◌↔◌, ◌⊎◌, inl, inr, Action, Error, returns,
  fails, if_holds, ok, Bool-cases, ◌==◌, string_eq,
}
use cluster_api_ipam_provide.Infoblox.Config.{
  Config, AuthConfig, SecretData, auth_config_from_secret_data,
}
use cluster_api_ipam_provide.Infoblox.Client.{Client}
use cluster_api_ipam_provide.Api.{
  Condition, holds, fails_with, configuration_valid_reason, InfobloxInstance,
}
use cluster_api_ipam_provide.Kube.{Kube}
use cluster_api_ipam_provide.Controllers.Pool.Checks.{Answers, Inventory}
use cluster_api_ipam_provide.Controllers.Instance.{
  view_missing, dns_missing, InstanceAction, set_instance_condition, check_if_named, check_instance,
  connect_and_check, use_secret, reconcile, host_config_of,
}

abbrev pub valid_condition : Condition
valid_condition =
    holds configuration_valid_reason
      "Successfully connected to Infoblox instance and validated configuration"

fails_with-ne-valid : (reason message : String) → fails_with reason message ≢ valid_condition
fails_with-ne-valid reason message e = cc

-- A name that was given is known.
abbrev pub IsKnownIfGiven : String → Bool → Type 0
IsKnownIfGiven name known = (name ≡ "") ⊎ (known ≡ true)

module _ {S : Type 0} (kube : Kube S) where
  -- The step sets one condition and changes nothing else; it is the valid one exactly if `P` holds.
  abbrev pub Decides : S × InfobloxInstance → InstanceAction S → Type 0 → Type 0
  Decides w act P =
      (c : Condition) × (act w
        ≡ returns tt (w.0, record w.1 { conditions = kube.set_condition c w.1.conditions }))
      × ((c ≡ valid_condition) ↔ P)

  if_holds-Decides :
      (test : Action S Bool) (b : Bool) (found : InstanceAction S) (missing : Condition)
      (w : S × InfobloxInstance) {P : Type 0}
      → Answers test b
      → missing ≢ valid_condition
      → Decides w found P
      → Decides w (if_holds test found (set_instance_condition kube missing)) ((b ≡ true) × P)
  if_holds-Decides test true found missing w answers m (c, e, d) = elim (answers w.0) [
    | inl yes_there ↦ (c, rw yes_there e, ((λ same. (refl, d.0 same)), (λ p. d.1 p.1)))
    | inr (e₁, impossible, _) ↦ absurd (cc)
  ]
  if_holds-Decides test false found missing w answers m _ = (
    missing,
    not_there (answers w.0),
    ((λ same. absurd (m same)), (λ p. absurd (false≢true p.0))),
  )
    where
      not_there :
          (test w.0 ≡ returns false w.0)
            ⊎ ((e : Error) × (false ≡ false) × (test w.0 ≡ fails e w.0))
          → if_holds test found (set_instance_condition kube missing) w
            ≡ returns tt
                (w.0, record w.1 { conditions = kube.set_condition missing w.1.conditions })
      not_there (inl e) = rw e
      not_there (inr (e₁, _, e)) = rw e

  check_if_named-Decides :
      (name : String) (test : String → Action S Bool) (b : Bool) (found : InstanceAction S)
      (missing : Condition) (w : S × InfobloxInstance) {P : Type 0}
      → Answers (test name) b
      → missing ≢ valid_condition
      → Decides w found P
      → Decides w
          (check_if_named kube name test found (set_instance_condition kube missing))
          (IsKnownIfGiven name b × P)
  check_if_named-Decides name test b found missing w answers m (c, e, d) =
      elim (Bool-cases (name == "")) [
        | inl empty ↦
            (c, rw empty e, ((λ same. (inl ((eq_iff name "").0 empty), d.0 same)), (λ p. d.1 p.1)))
        | inr given ↦
            let (c', e', d') = if_holds-Decides (test name) b found missing w answers m (c, e, d) in
            (
              c',
              rw given e',
              ((λ same. (inr (d'.0 same).0, (d'.0 same).1)), (λ p. d'.1 (is_known given p.0, p.1))),
            )
      ]
    where
      is_known : (name == "") ≡ false → IsKnownIfGiven name b → b ≡ true
      is_known given (inl e₁) = absurd (false≢true (sym given ∙ (eq_iff name "").1 e₁))
      is_known given (inr known) = known

  -- The default views that an instance names are known to Infoblox.
  abbrev pub IsBacked : {ib : Client S} → Inventory ib → InfobloxInstance → Type 0
  IsBacked inv inst =
      IsKnownIfGiven inst.spec.default_network_view
        (inv.has_network_view inst.spec.default_network_view)
      × (IsKnownIfGiven inst.spec.default_dns_view (inv.has_dns_view inst.spec.default_dns_view)
          × Unit {0})

  check_instance-Decides :
      (ib : Client S) (inv : Inventory ib) (inst : InfobloxInstance) (w : S × InfobloxInstance)
      → Decides w (check_instance kube ib inst) (IsBacked inv inst)
  unfolding check_instance
  check_instance-Decides ib inv inst w =
      check_if_named-Decides inst.spec.default_network_view ib.check_network_view_exists
        (inv.has_network_view inst.spec.default_network_view) _ (view_missing inst) w
        (inv.network_view_lem inst.spec.default_network_view) (fails_with-ne-valid _ _)
        (check_if_named-Decides inst.spec.default_dns_view ib.check_dns_view_exists
          (inv.has_dns_view inst.spec.default_dns_view)
          (set_instance_condition kube valid_condition) (dns_missing inst) w
          (inv.dns_view_lem inst.spec.default_dns_view) (fails_with-ne-valid _ _)
          (valid_condition, refl, ((λ e. tt), (λ u. refl))))

  module _ (operator_namespace : String) (new_client_fn : Config → Action S (Client S)) where
    -- Once the secret is there, its credentials are usable and a client was made, the reconciler sets
    -- exactly one condition, against checks that report an inventory, and returns no error. The
    -- condition is the valid one exactly if Infoblox knows the default views that are given.
    pub reconcile-Decides :
        (s s₁ s₂ : S) (inst : InfobloxInstance) (secret : SecretData) (ac : AuthConfig)
        (ib : Client S) (inv : Inventory ib)
        → kube.get_secret operator_namespace inst.spec.credentials_secret_ref.name s
          ≡ (ok secret, s₁)
        → auth_config_from_secret_data secret ≡ ok ac
        → new_client_fn (record { host_config = host_config_of inst; auth_config = ac }) s₁
          ≡ returns ib s₂
        → (c : Condition) × (reconcile kube operator_namespace new_client_fn (s, inst)
            ≡ returns tt (s₂, record inst { conditions = kube.set_condition c inst.conditions }))
          × ((c ≡ valid_condition) ↔ IsBacked inv inst)
    unfolding reconcile use_secret connect_and_check
    reconcile-Decides s s₁ s₂ inst secret ac ib inv got usable made =
        let (c, e, d) = check_instance-Decides ib inv inst (s₂, inst) in
        (c, rw (got, use_secret, usable, connect_and_check, made) e, d)
