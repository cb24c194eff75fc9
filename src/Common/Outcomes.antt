-- ===== src/Common/Outcomes.antt =====
-- Go's ways to end a call: a value, an error value, or a panic. The state is threaded through.
use Prim.Native.String.{String, ◌++◌}
use mathlib.Core.Path.{◌≡◌, refl}
use mathlib.Core.Logic.{◌⊎◌, inl, inr}
use mathlib.Core.Bool.{Bool, true, false}
use mathlib.Core.Option.{Option, none, some}

-- An error value, as far as the code tells errors apart: by a type assertion to
-- `*ibclient.NotFoundError`, by `apierrors.IsNotFound`, and by the text of `Error()`.
pub data Error : Type 0 where
  wapi_not_found : String → Error
  api_not_found : String → Error
  plain : String → Error

-- `Error()`
abbrev pub text : Error → String
text (wapi_not_found s) = s
text (api_not_found s) = s
text (plain s) = s

-- `_, ok := err.(*ibclient.NotFoundError)`
abbrev pub is_wapi_not_found : Error → Bool
is_wapi_not_found (wapi_not_found s) = true
is_wapi_not_found _ = false

-- `apierrors.IsNotFound`
abbrev pub is_api_not_found : Error → Bool
is_api_not_found (api_not_found s) = true
is_api_not_found _ = false

-- `fmt.Errorf(prefix + ": %w", err)`. Nothing unwraps these errors later.
abbrev pub wrap : String → Error → Error
wrap prefix e = plain (prefix ++ (": " ++ text e))

-- What a call of foreign code returns.
pub data Result {ℓ} (A : Type ℓ) : Type ℓ where
  ok : A → Result A
  err : Error → Result A

-- How a call of modelled code ends, with the state at its end.
pub data Outcome {ℓ κ} (S : Type ℓ) (A : Type κ) : Type (ℓ ⊔ κ) where
  returns : A → S → Outcome S A
  fails : Error → S → Outcome S A
  panics : S → Outcome S A

abbrev pub Action {ℓ κ} : Type ℓ → Type κ → Type (ℓ ⊔ κ)
Action S A = S → Outcome S A

-- A step of foreign code as an action; it never panics.
abbrev pub Call {ℓ κ} : Type ℓ → Type κ → Type (ℓ ⊔ κ)
Call S A = S → Result A × S

module _ {ℓ κ} {S : Type ℓ} {A : Type κ} where
  abbrev settle : Result A → S → Outcome S A
  settle (ok a) s = returns a s
  settle (err e) s = fails e s

  abbrev pub call : Call S A → Action S A
  call c s = settle (c s).0 (c s).1

  abbrev pub pure : A → Action S A
  pure a s = returns a s

  abbrev pub throw : Error → Action S A
  throw e s = fails e s

  abbrev pub crash : Action S A
  crash s = panics s

  -- The state in which a call ends.
  abbrev pub final : Outcome S A → S
  final (returns a s) = s
  final (fails e s) = s
  final (panics s) = s

  -- A dereference, `*p`.
  abbrev pub deref : Option A → Action S A
  deref none s = panics s
  deref (some a) s = returns a s

  pub Call-cases :
      (r : Result A × S)
      → ((a : A) × (s : S) × (r ≡ (ok a, s))) ⊎ ((e : Error) × (s : S) × (r ≡ (err e, s)))
  Call-cases (ok a, s) = inl (a, s, refl)
  Call-cases (err e, s) = inr (e, s, refl)

  pub Outcome-cases :
      (o : Outcome S A)
      → ((a : A) × (s : S) × (o ≡ returns a s))
        ⊎ (((e : Error) × (s : S) × (o ≡ fails e s)) ⊎ ((s : S) × (o ≡ panics s)))
  Outcome-cases (returns a s) = inl (a, s, refl)
  Outcome-cases (fails e s) = inr (inl (e, s, refl))
  Outcome-cases (panics s) = inr (inr (s, refl))

module _ {ℓ κ μ} {S : Type ℓ} {A : Type κ} {B : Type μ} where
  abbrev and_then : Outcome S A → (A → Action S B) → Outcome S B
  and_then (returns a s) k = k a s
  and_then (fails e s) k = fails e s
  and_then (panics s) k = panics s

  infixl 5 ◌>>=◌ ◌>>◌
  -- The usual `if err != nil { return err }` after a call.
  abbrev pub ◌>>=◌ : Action S A → (A → Action S B) → Action S B
  ◌>>=◌ m k s = and_then (m s) k

  abbrev pub ◌>>◌ : Action S A → Action S B → Action S B
  ◌>>◌ m k s = and_then (m s) (λ _. k)

  -- The call's result and error are both looked at.
  abbrev handle : Outcome S A → (A → Action S B) → (Error → Action S B) → Outcome S B
  handle (returns a s) k h = k a s
  handle (fails e s) k h = h e s
  handle (panics s) k h = panics s

  abbrev pub try_catch : Action S A → (A → Action S B) → (Error → Action S B) → Action S B
  try_catch m k h s = handle (m s) k h

module _ {ℓ κ} {S : Type ℓ} {A : Type κ} where
  -- `fmt.Errorf("…: %w", err)` on the error of a call.
  abbrev pub map_error : (Error → Error) → Action S A → Action S A
  map_error f m = try_catch m pure (λ e. throw (f e))

-- Code that changes an object it holds a pointer to runs over the world and that object.
module _ {ℓ κ μ} {S : Type ℓ} {O : Type κ} {A : Type μ} where
  abbrev beside : Outcome S A → O → Outcome (S × O) A
  beside (returns a s) o = returns a (s, o)
  beside (fails e s) o = fails e (s, o)
  beside (panics s) o = panics (s, o)

  -- An action on the world alone.
  abbrev pub lift : Action S A → Action (S × O) A
  lift m w = beside (m w.0) w.1

module _ {ℓ κ} {S : Type ℓ} {O : Type κ} where
  abbrev pub read : Action (S × O) O
  read w = returns w.1 w

  abbrev pub write : O → Action (S × O) (Unit {0})
  write o w = returns tt (w.0, o)

module _ {ℓ κ μ} {S : Type ℓ} {O : Type κ} {A : Type μ} where
  abbrev decide_by : (Action (S × O) A) → (Action (S × O) A) → Bool → Action (S × O) A
  decide_by found missing true = found
  decide_by found missing false = missing

  -- `if ok, err := test; err != nil || !ok { missing }`, and `found` otherwise
  abbrev pub if_holds : Action S Bool → Action (S × O) A → Action (S × O) A → Action (S × O) A
  if_holds test found missing = try_catch (lift test) (decide_by found missing) (λ e. missing)
