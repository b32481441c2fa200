-- ===== src/Prelude/Results.antt =====
-- Fallible code: a value or an error, early returns, and what a success has passed.
use mathlib.Core.Path.{◌≡◌, refl}
use mathlib.Core.Logic.{◌⊎◌, inl, inr}
use mathlib.Core.Bool.{Bool, true, false}
use mathlib.Core.Option.{Option, none, some}

pub data Result {ℓ κ} (E : Type ℓ) (A : Type κ) : Type (ℓ ⊔ κ) where
  ok : A → Result E A
  err : E → Result E A

module _ {E : Type 0} where
  infixl 5 ◌>>=◌ ◌>>◌
  unfoldable pub ◌>>=◌ : {A B : Type 0} → Result E A → (A → Result E B) → Result E B
  ok a >>= f = f a
  err e >>= f = err e

  unfoldable pub ◌>>◌ : {A B : Type 0} → Result E A → Result E B → Result E B
  ok a >> s = s
  err e >> s = err e

  pub ok-inj : {A : Type 0} {x y : A} → let r : Result E A = ok x in r ≡ ok y → x ≡ y
  ok-inj h = cc

  pub Result-cases :
      {A : Type 0} (r : Result E A) → ((a : A) × (r ≡ ok a)) ⊎ ((e : E) × (r ≡ err e))
  Result-cases (ok a) = inl (a, refl)
  Result-cases (err e) = inr (e, refl)

  -- An early return unless a condition holds.
  unfoldable pub require : Bool → E → Result E (Unit {0})
  require true e = ok tt
  require false e = err e

  unfoldable pub get : {A : Type 0} → Option A → E → Result E A
  get none e = err e
  get (some a) e = ok a

  module _ {B : Type 0} {b : B} where
    pub require-ok :
        (c : Bool) (e : E) (s : Result E B) → (require c e >> s) ≡ ok b → (c ≡ true) × (s ≡ ok b)
    unfolding ◌>>◌ require
    require-ok true e s h = (refl, h)
    require-ok false e s h = cc

    pub bind-ok :
        {A : Type 0} (r : Result E A) (k : A → Result E B)
        → (r >>= k) ≡ ok b
        → (a : A) × (r ≡ ok a) × (k a ≡ ok b)
    unfolding ◌>>=◌
    bind-ok (ok a) k h = (a, refl, h)
    bind-ok (err e) k h = cc

    pub get-ok :
        {A : Type 0} (o : Option A) (e : E) (k : A → Result E B)
        → (get o e >>= k) ≡ ok b
        → (a : A) × (o ≡ some a) × (k a ≡ ok b)
    unfolding ◌>>=◌ get
    get-ok (some a) e k h = (a, refl, h)
    get-ok none e k h = cc

    pub passed-ok :
        {A : Type 0} (r : Result E A) (s : Result E B)
        → (r >> s) ≡ ok b
        → (a : A) × (r ≡ ok a) × (s ≡ ok b)
    unfolding ◌>>◌
    passed-ok (ok a) s h = (a, refl, h)
    passed-ok (err e) s h = cc
