-- ===== src/Infoblox/Client/Laws.antt =====
-- The checks of a client: what their answers say of the library's.
use cluster_api_ipam_provide.Common.{
  ◌≡◌, ◌↔◌, inl, inr, true, false, arith, ok, err, returns, fails, Error, Call, Call-cases,
}
use cluster_api_ipam_provide.Infoblox.Errors.{is_not_found}
use cluster_api_ipam_provide.Infoblox.Client.{exists_unless_not_found}

-- A check answers yes exactly if the lookup succeeds. It answers no exactly if the lookup fails with
-- a text that ends in "not found", and it fails, with the error of the lookup, exactly if the lookup
-- fails with any other text. It leaves the world as the lookup does, and never panics.
exists_unless_not_found_iff :
    {S : Type 0} (lookup : Call S (Unit {0})) (s s' : S)
    → ((exists_unless_not_found lookup s ≡ returns true s') ↔ (lookup s ≡ (ok tt, s')))
      × ((exists_unless_not_found lookup s ≡ returns false s')
          ↔ ((e : Error) × (lookup s ≡ (err e, s')) × (is_not_found e ≡ true)))
      × ((e : Error)
          → (exists_unless_not_found lookup s ≡ fails e s')
            ↔ ((lookup s ≡ (err e, s')) × (is_not_found e ≡ false)))
unfolding exists_unless_not_found
exists_unless_not_found_iff lookup s s' = (
  (ground arith, ground arith),
  (
    λ h. elim (Call-cases (lookup s)) [
      | inl (u, s₁, found) ↦ absurd (ground arith)
      | inr (e, s₁, failed) ↦ (e, ground arith, ground arith)
    ],
    ground arith,
  ),
  λ e. (ground arith, ground arith),
)
