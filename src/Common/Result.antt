-- ===== src/Common/Result.antt =====
-- A Go function's `(T, error)` with the error as a value; an early `return err` ends a `do` block.
use mathlib.Core.Bool.{Bool, true, false}
use mathlib.Core.Logic.{◌↔◌}
use mathlib.Core.Option.{Option, none, some}
use mathlib.Core.Path.{◌≡◌, refl}

pub data Result {ℓ κ} (E : Type κ) (A : Type ℓ) : Type (ℓ ⊔ κ) where
  ok : A → Result E A
  err : E → Result E A

infixl 5 ◌>>=◌ ◌>>◌
abbrev pub ◌>>=◌ {ℓ κ μ} :
    {E : Type μ} {A : Type ℓ} {B : Type κ} → Result E A → (A → Result E B) → Result E B
ok a >>= f = f a
err e >>= f = err e

abbrev pub ◌>>◌ {ℓ μ} : {E : Type μ} {B : Type ℓ} → Result E (Unit {0}) → Result E B → Result E B
m >> k = m >>= λ _. k

-- `if !b { return e }`.
abbrev pub require {μ} : {E : Type μ} → Bool → E → Result E (Unit {0})
require true e = ok tt
require false e = err e

-- `fmt.Errorf("…: %w", err)`.
abbrev pub wrap_error {ℓ μ} : {E : Type μ} {A : Type ℓ} → (E → E) → Result E A → Result E A
wrap_error f (ok a) = ok a
wrap_error f (err e) = err (f e)

-- `if err != nil { return e }` of a call that gives a value.
abbrev pub or_error {ℓ μ} : {E : Type μ} {A : Type ℓ} → Option A → E → Result E A
or_error none e = err e
or_error (some a) e = ok a

module _ {μ} {E : Type μ} where
  pub require-ok :
      (b : Bool) (e : E) (k : Result E (Unit {0}))
      → ((require b e >> k) ≡ ok tt) ↔ ((b ≡ true) × (k ≡ ok tt))
  require-ok true e k = (λ h. (refl, h), λ h. h.1)
  require-ok false e k = (λ h. cc, λ (h, _). cc)

  pub then-ok : (m k : Result E (Unit {0})) → ((m >> k) ≡ ok tt) ↔ ((m ≡ ok tt) × (k ≡ ok tt))
  then-ok (ok tt) k = (λ h. (refl, h), λ h. h.1)
  then-ok (err e) k = (λ h. cc, λ (h, _). cc)

  pub or_error-ok {ℓ κ} :
      {A : Type ℓ} {B : Type κ} (o : Option A) (e : E) (k : A → Result E B) (b : B)
      → ((or_error o e >>= k) ≡ ok b) ↔ ((a : A) × (o ≡ some a) × (k a ≡ ok b))
  or_error-ok none e k b = (λ h. cc, λ (a, h, _). cc)
  or_error-ok (some a) e k b =
      (λ h. (a, refl, h), λ (c, h, same). let mine : a ≡ c = cc in rw mine same)

  pub require-then {κ} :
      {B : Type κ} (b : Bool) (e : E) (k : Result E B) (v : B)
      → ((require b e >> k) ≡ ok v) ↔ ((b ≡ true) × (k ≡ ok v))
  require-then true e k v = (λ h. (refl, h), λ h. h.1)
  require-then false e k v = (λ h. cc, λ (h, _). cc)
