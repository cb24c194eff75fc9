-- ===== src/Controllers/Patched.antt =====
-- A reconciler that fetches an object, changes it, and patches it at the end, as a whole.
use cluster_api_ipam_provide.Common.{
  ◌≡◌, ◌↔◌, ◌⊎◌, inl, inr, true, arith, ok, err, Error, is_api_not_found, Outcome, returns, fails,
  panics, Option, none, some, refl, Call, Action, call, pure, throw, try_catch, ◌>>◌, Call-cases,
  if◌then◌else◌,
}

module _ {S O : Type 0} (new_aggregate : Option Error → Error → Error)
    (patch : O → Call S (Unit {0})) where
  -- The deferred patch, of both reconcilers; its error joins the error that is returned.
  abbrev pub patch_after : Outcome (S × O) (Unit {0}) → Outcome S (Unit {0})
  patch_after (returns _ w) =
      try_catch (call (patch w.1)) pure (λ e. throw (new_aggregate none e)) w.0
  patch_after (fails e₀ w) =
      try_catch (call (patch w.1)) (λ _. throw e₀) (λ e. throw (new_aggregate (some e₀) e)) w.0
  patch_after (panics w) = try_catch (call (patch w.1)) (λ _ s. panics s) (λ e s. panics s) w.0

  -- Behind the deferred patch there is a success exactly if the body and the patch succeed.
  patch_after_iff :
      (o : Outcome (S × O) (Unit {0})) (s' : S)
      → (patch_after o ≡ returns tt s') ↔ (
          (done : S) × (changed : O) × (o ≡ returns tt (done, changed))
          × (patch changed done ≡ (ok tt, s')))
  patch_after_iff (returns u w) s' = elim (Call-cases (patch w.1 w.0)) [
    | inl (x, s₃, sent) ↦
        ((λ h. (w.0, w.1, refl, ground arith)), (λ (done, changed, e, p). ground arith))
    | inr (e₃, s₃, lost) ↦
        ((λ h. absurd (ground arith)), (λ (done, changed, e, p). absurd (ground arith)))
  ]
  patch_after_iff (fails e₀ w) s' = elim (Call-cases (patch w.1 w.0)) [
    | inl (x, s₃, sent) ↦ ((λ h. absurd (ground arith)), (λ p. absurd (ground arith)))
    | inr (e₃, s₃, lost) ↦ ((λ h. absurd (ground arith)), (λ p. absurd (ground arith)))
  ]
  patch_after_iff (panics w) s' = elim (Call-cases (patch w.1 w.0)) [
    | inl (x, s₃, sent) ↦ ((λ h. absurd (ground arith)), (λ p. absurd (ground arith)))
    | inr (e₃, s₃, lost) ↦ ((λ h. absurd (ground arith)), (λ p. absurd (ground arith)))
  ]

module _ {S O : Type 0} (get : Call S O) (helper patch : O → Call S (Unit {0}))
    (body : Action (S × O) (Unit {0})) where
  -- The object was fetched, the body of the reconciler returned without an error, and the object as
  -- the body left it was patched.
  pub record Patched (s s' : S) : Type 0 where
    pub object : O
    pub changed : O
    pub fetched : S
    pub prepared : S
    pub done : S
    pub got : get s ≡ (ok object, fetched)
    pub helped : helper object fetched ≡ (ok tt, prepared)
    pub ran : body (prepared, object) ≡ returns tt (done, changed)
    pub patched : patch changed done ≡ (ok tt, s')

  -- The object does not exist, and nothing else was asked; or it was patched.
  abbrev pub MissingOrPatched : S → S → Type 0
  MissingOrPatched s s' =
      ((e : Error) × (get s ≡ (err e, s')) × (is_api_not_found e ≡ true)) ⊎ Patched s s'

  module _ (new_aggregate : Option Error → Error → Error) where
    abbrev pub run : Action S (Unit {0})
    run =
        try_catch (call get)
          (λ o. do call (helper o); λ s. patch_after new_aggregate patch (body (s, o)))
          (λ e. if is_api_not_found e then pure tt else throw e)

    pub run_iff : (s s' : S) → (run s ≡ returns tt s') ↔ MissingOrPatched s s'
    run_iff s s' = (
      λ h. elim (Call-cases (get s)) [
        | inr (e, s₁, missing) ↦ inl (e, ground arith, ground arith)
        | inl (o, s₁, got) ↦ elim (Call-cases (helper o s₁)) [
          | inr (e, s₂, lost) ↦ absurd (ground arith)
          | inl (u, s₂, helped) ↦
              let (done, changed, ran, patched) =
                (patch_after_iff new_aggregate patch (body (s₂, o)) s').0 (ground arith) in
              inr (record {
                object = o;
                changed = changed;
                fetched = s₁;
                prepared = s₂;
                done = done;
                got = got;
                helped = helped;
                ran = ran;
                patched = patched;
              })
        ]
      ],
      λ end. elim end [
        | inl (e, missing, unknown) ↦ ground arith
        | inr p ↦
            let got = p.got in
            let helped = p.helped in
            let ran = p.ran in
            rw (got, helped)
              ((patch_after_iff new_aggregate patch (body (p.prepared, p.object)) s').1
                (p.done, p.changed, ran, p.patched))
      ],
    )
