-- ===== src/Prelude/Rows.antt =====
-- A table as its list of rows, with a number as the primary key.
use Prim.Native.Nat.{ℕ}
use mathlib.Core.Path.{◌≡◌, refl, ap, ◌∙◌}
use mathlib.Core.Bool.{Bool, false, true, ◌||◌}
use mathlib.Core.Option.{Option, none, some}
use mathlib.Core.List.{List, [], ◌∷◌}
use native.Mathlib.Omega.{arith}
use daxiang_vpn.Prelude.Tests.{◌==◌, if◌then◌else◌}

abbrev pub apply_some {ℓ κ} : {A : Type ℓ} {B : Type κ} → (A → B) → Option A → Option B
apply_some f none = none
apply_some f (some a) = some (f a)

abbrev pub is_some {ℓ} : {A : Type ℓ} → Option A → Bool
is_some none = false
is_some (some a) = true

module _ {ℓ} {A : Type ℓ} where
  abbrev pub any : (A → Bool) → List A → Bool
  any p [] = false
  any p (x ∷ xs) = p x || any p xs

  -- `SELECT` by the primary key.
  unfoldable pub find_row : (A → ℕ) → ℕ → List A → Option A
  find_row key k [] = none
  find_row key k (x ∷ xs) = if k == key x then some x else find_row key k xs

  -- `UPDATE … SET … WHERE …`
  unfoldable pub update_where : (A → Bool) → (A → A) → List A → List A
  update_where p f [] = []
  update_where p f (x ∷ xs) = (if p x then f x else x) ∷ update_where p f xs

  pub find_row-update_where :
      (key : A → ℕ) (p : A → Bool) (f : A → A) (k : ℕ) (xs : List A)
      → ((x : A) → key (f x) ≡ key x)
      → find_row key k (update_where p f xs)
        ≡ apply_some (λ x. if p x then f x else x) (find_row key k xs)
  unfolding find_row update_where
  find_row-update_where key p f k [] h = refl
  find_row-update_where key p f k (x ∷ xs) h =
      ground (arith, h x, find_row-update_where key p f k xs h)

  pub key-find_row :
      (key : A → ℕ) (k : ℕ) (xs : List A) {x : A} → find_row key k xs ≡ some x → key x ≡ k
  unfolding find_row
  key-find_row key k [] h = cc
  key-find_row key k (y ∷ ys) {x = x} h = ground (arith, key-find_row key k ys {x = x})

  pub any-update_where :
      (q p : A → Bool) (f : A → A) (xs : List A)
      → ((x : A) → q (f x) ≡ q x)
      → any q (update_where p f xs) ≡ any q xs
  unfolding update_where
  any-update_where q p f [] h = refl
  any-update_where q p f (x ∷ xs) h = ground (arith, h x, any-update_where q p f xs h)

-- A view of a row that the update leaves alone.
module _ {ℓ κ} {A : Type ℓ} {B : Type κ} (view : Option A → B) (p : A → Bool) (f : A → A)
    (same : (x : A) → view (some (f x)) ≡ view (some x)) where
  view_if : (b : Bool) (x : A) → view (some (if b then f x else x)) ≡ view (some x)
  view_if true x = same x
  view_if false x = refl

  view_row : (o : Option A) → view (apply_some (λ x. if p x then f x else x) o) ≡ view o
  view_row none = refl
  view_row (some x) = view_if (p x) x

  pub view-update_where :
      (key : A → ℕ) (k : ℕ) (xs : List A)
      → ((x : A) → key (f x) ≡ key x)
      → view (find_row key k (update_where p f xs)) ≡ view (find_row key k xs)
  view-update_where key k xs h =
      ap view (find_row-update_where key p f k xs h) ∙ view_row (find_row key k xs)
