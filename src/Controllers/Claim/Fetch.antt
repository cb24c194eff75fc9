-- ===== src/Controllers/Claim/Fetch.antt =====
-- `FetchPool`: when a claim is handled at all.
use cluster_api_ipam_provide.Common.{
  ◌≡◌, String, false, Option, some, none, arith, returns, inl, inr, ok, Action, Outcome-cases,
  Call-cases,
}
use cluster_api_ipam_provide.Infoblox.Config.{Config}
use cluster_api_ipam_provide.Infoblox.Client.{Client}
use cluster_api_ipam_provide.Api.{InfobloxIpPool, ready}
use cluster_api_ipam_provide.Kube.{Kube}
use cluster_api_ipam_provide.Controllers.Util.{get_infoblox_client_for_instance}
use cluster_api_ipam_provide.Controllers.Claim.{fetch_pool}
use cluster_api_ipam_provide.Controllers.Handler.{Handler}

module _ {S : Type 0} (kube : Kube S) (operator_namespace : String)
    (new_client_fn : Config → Action S (Client S)) where
  -- If `FetchPool` returns without an error, then the pool that the claim names was read, it was not
  -- marked as not ready, the handler holds that pool and a client that was made for the pool's
  -- instance, and the claim is as it was.
  pub fetch_pool_sound :
      (w w' : S × Handler S) (found : Option InfobloxIpPool)
      → fetch_pool kube operator_namespace new_client_fn w ≡ returns (found, none) w'
      → (pool : InfobloxIpPool) × (ib : Client S) × (s₁ s₂ : S) × (found ≡ some pool)
        × (kube.get_pool w.1.claim.namespace w.1.claim.pool_ref.name w.0 ≡ (ok pool, s₁))
        × (kube.is_false ready pool.conditions ≡ false)
        × (get_infoblox_client_for_instance kube pool.spec.instance_ref.name operator_namespace
              new_client_fn s₁
            ≡ returns ib s₂)
        × (w' ≡ (s₂, record w.1 { pool = some pool; ib_client = some ib }))
  unfolding fetch_pool
  fetch_pool_sound w w' found h =
      elim (Call-cases (kube.get_pool w.1.claim.namespace w.1.claim.pool_ref.name w.0)) [
        | inr (e, s, failed) ↦ absurd (ground arith)
        | inl (pool, s₁, got) ↦
            elim (Outcome-cases (
              get_infoblox_client_for_instance kube pool.spec.instance_ref.name operator_namespace
                new_client_fn s₁)) [
                  | inl (ib, s₂, made) ↦
                      (pool, ib, s₁, s₂, ground arith, got, ground arith, made, ground arith)
                  | inr other ↦ absurd (ground arith)
                ]
      ]
