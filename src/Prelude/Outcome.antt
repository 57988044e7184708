-- ===== src/Prelude/Outcome.antt =====
-- A Go function that changes a state and returns an `error`: a failure keeps the state in which
-- it arose.
use mathlib.Core.Path.{◌≡◌, refl, subst}
use mathlib.Core.Logic.{◌⊎◌, inl, inr}

pub data Result {ℓ κ} (E : Type κ) (S : Type ℓ) : Type (ℓ ⊔ κ) where
  ok : S → Result E S
  err : E → S → Result E S

-- `if err != nil { return err }`
infixl 5 ◌>>=◌
abbrev pub ◌>>=◌ {ℓ κ} : {E : Type κ} {S : Type ℓ} → Result E S → (S → Result E S) → Result E S
ok s >>= f = f s
err e s >>= f = err e s

-- The state at the end, whether it failed or not.
abbrev pub final {ℓ κ} : {E : Type κ} {S : Type ℓ} → Result E S → S
final (ok s) = s
final (err e s) = s

module _ {ℓ κ} {E : Type κ} {S : Type ℓ} where
  pub Result-cases : (r : Result E S) → ((s : S) × (r ≡ ok s)) ⊎ ((e : E) × (s : S) × (r ≡ err e s))
  Result-cases (ok s) = inl (s, refl)
  Result-cases (err e s) = inr (e, s, refl)

  pub bind_assoc :
      (m : Result E S) (f g : S → Result E S) → (m >>= f >>= g) ≡ (m >>= λ t. f t >>= g)
  bind_assoc (ok s) f g = refl
  bind_assoc (err e s) f g = refl

module _ {ℓ κ} {E : Type κ} {S : Type ℓ} where
  -- Does a predicate hold of the state of a call that succeeds?
  abbrev pub OnOk {ι} : (S → Type ι) → Result E S → Type ι
  OnOk P (ok s) = P s
  OnOk P (err e s) = Unit

  pub OnOk-map {ι} :
      (P Q : S → Type ι) (r : Result E S) → ((s : S) → P s → Q s) → OnOk P r → OnOk Q r
  OnOk-map P Q (ok s) f h = f s h
  OnOk-map P Q (err e s) f h = tt

  pub OnOk-bind {ι} :
      (P Q : S → Type ι) (r : Result E S) (f : S → Result E S)
      → OnOk P r
      → ((s : S) → P s → OnOk Q (f s))
      → OnOk Q (r >>= f)
  OnOk-bind P Q (ok s) f h k = k s h
  OnOk-bind P Q (err e s) f h k = tt

  pub OnOk-ok {ι} : (P : S → Type ι) (r : Result E S) (s : S) → r ≡ ok s → OnOk P r → P s
  OnOk-ok P r s h p = subst (OnOk P) h p

  -- Does a predicate hold of the error of a call that fails?
  abbrev pub OnErr {ι} : (E → Type ι) → Result E S → Type ι
  OnErr Q (ok s) = Unit
  OnErr Q (err e s) = Q e

  pub OnErr-bind {ι} :
      (Q : E → Type ι) (r : Result E S) (f : S → Result E S)
      → OnErr Q r
      → ((s : S) → OnErr Q (f s))
      → OnErr Q (r >>= f)
  OnErr-bind Q (ok s) f h k = k s
  OnErr-bind Q (err e s) f h k = h
