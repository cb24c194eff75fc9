-- ===== src/Setup/Steps.antt =====
-- Sequences of steps that succeed.
use cluster_api_ipam_provide.Common.{
  ◌≡◌, ◌↔◌, inl, inr, String, List, [], ◌∷◌, arith, ok, returns, Call, Action, call, ◌>>=◌, ◌>>◌,
  map_error, Call-cases, Outcome-cases, refl, Error, wrap,
}
use cluster_api_ipam_provide.Setup.Manager.{Registration, Runtime}
use cluster_api_ipam_provide.Setup.{must, or_exit, add_to_scheme}

module _ {ℓ κ μ} {S : Type ℓ} {A : Type κ} {B : Type μ} where
  -- Two steps return exactly if the first returns and the second does from there.
  pub bind_iff :
      (m : Action S A) (k : A → Action S B) (s s' : S) (b : B)
      → ((m >>= k) s ≡ returns b s')
        ↔ ((a : A) × (s₁ : S) × (m s ≡ returns a s₁) × (k a s₁ ≡ returns b s'))
  bind_iff m k s s' b = (
    λ h. elim (Outcome-cases (m s)) [
      | inl (a, s₁, e) ↦ (a, s₁, e, ground arith)
      | inr (inl (e, s₁, f)) ↦ absurd (ground arith)
      | inr (inr (s₁, f)) ↦ absurd (ground arith)
    ],
    λ (a, s₁, e, h). ground arith,
  )

module _ {ℓ κ} {S : Type ℓ} {A : Type κ} where
  pub map_error_iff :
      (f : Error → Error) (m : Action S A) (s s' : S) (a : A)
      → (map_error f m s ≡ returns a s') ↔ (m s ≡ returns a s')
  map_error_iff f m s s' a = elim (Outcome-cases (m s)) [
    | inl (b, s₁, e) ↦ rw e ((λ h. h), (λ h. h))
    | inr (inl (e, s₁, f)) ↦ rw f ((λ h. absurd (ground arith)), (λ h. absurd (ground arith)))
    | inr (inr (s₁, f)) ↦ rw f ((λ h. absurd (ground arith)), (λ h. absurd (ground arith)))
  ]

  pub call_iff : (c : Call S A) (s s' : S) (a : A) → (call c s ≡ returns a s') ↔ (c s ≡ (ok a, s'))
  call_iff c s s' a = elim (Call-cases (c s)) [
    | inl (b, s₁, e) ↦ rw e ((λ h. ground arith), (λ h. ground arith))
    | inr (e, s₁, f) ↦ rw f ((λ h. absurd (ground arith)), (λ h. absurd (ground arith)))
  ]

-- One call after the other succeeds.
abbrev pub Succeed {ℓ} :
    {S : Type ℓ} {A : Type 0} → (A → Call S (Unit {0})) → List A → S → S → Type ℓ
Succeed c [] s s' = s ≡ s'
Succeed {S} c (a ∷ as') s s' = (s₁ : S) × (c a s ≡ (ok tt, s₁)) × Succeed c as' s₁ s'

module _ {S : Type 0} (runtime : Runtime S) where
  must_iff : (c : Call S (Unit {0})) (s s' : S) → (must c s ≡ returns tt s') ↔ (c s ≡ (ok tt, s'))
  must_iff c s s' = elim (Call-cases (c s)) [
    | inl (b, s₁, e) ↦ rw e ((λ h. ground arith), (λ h. ground arith))
    | inr (e, s₁, f) ↦ rw f ((λ h. absurd (ground arith)), (λ h. absurd (ground arith)))
  ]

  pub add_to_scheme_iff :
      (groups : List String) (s s' : S)
      → (add_to_scheme runtime groups s ≡ returns tt s') ↔ Succeed runtime.add_to_scheme groups s s'
  unfolding add_to_scheme
  add_to_scheme_iff [] s s' = ((λ h. cc), (λ e. rw e))
  add_to_scheme_iff (group ∷ groups) s s' =
      let both =
        bind_iff (must (runtime.add_to_scheme group)) (λ _. add_to_scheme runtime groups) s s' tt in
      (
        λ h.
            let (a, s₁, first, rest) = both.0 h in
            (
              s₁,
              (must_iff (runtime.add_to_scheme group) s s₁).0 first,
              (add_to_scheme_iff groups s₁ s').0 rest,
            ),
        λ (s₁, first, rest). both.1 (
          tt,
          s₁,
          (must_iff (runtime.add_to_scheme group) s s₁).1 first,
          (add_to_scheme_iff groups s₁ s').1 rest,
        ),
      )

  abbrev pub register_all :
      List (String × Registration S) → Action S (Unit {0}) → Action S (Unit {0})
  register_all [] k = k
  register_all ((message, r) ∷ rs) k = do
    or_exit message (call (runtime.register r))
    register_all rs k

  abbrev pub registered : List (String × Registration S) → List (Registration S)
  registered [] = []
  registered ((message, r) ∷ rs) = r ∷ registered rs

  pub exit_iff :
      {A : Type 0} (message : String) (c : Call S A) (s s' : S) (a : A)
      → (or_exit message (call c) s ≡ returns a s') ↔ (c s ≡ (ok a, s'))
  exit_iff message c s s' a =
      let outer = map_error_iff (wrap message) (call c) s s' a in
      let inner = call_iff c s s' a in ((λ h. inner.0 (outer.0 h)), (λ h. outer.1 (inner.1 h)))

  pub register_all_iff :
      (rs : List (String × Registration S)) (k : Action S (Unit {0})) (s s' : S)
      → (register_all rs k s ≡ returns tt s')
        ↔ ((s₁ : S) × Succeed runtime.register (registered rs) s s₁ × (k s₁ ≡ returns tt s'))
  register_all_iff [] k s s' = ((λ h. (s, refl, h)), (λ (s₁, e, h). rw e h))
  register_all_iff ((message, r) ∷ rs) k s s' =
      let both =
        bind_iff (or_exit message (call (runtime.register r))) (λ _. register_all rs k) s s' tt in
      let one = exit_iff message (runtime.register r) in
      (
        λ h.
            let (a, s₁, first, rest) = both.0 h in
            let (s₂, more, last) = (register_all_iff rs k s₁ s').0 rest in
            (s₂, (s₁, (one s s₁ tt).0 first, more), last),
        λ (s₂, (s₁, first, more), last).
            both.1
              (tt, s₁, (one s s₁ tt).1 first, (register_all_iff rs k s₁ s').1 (s₂, more, last)),
      )
