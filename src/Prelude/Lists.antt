-- ===== src/Prelude/Lists.antt =====
-- Lists measured by native numbers, sets of numbers as lists, and maps as functions.
use Prim.Native.Nat.{ℕ, suc, ◌+◌, ◌≤◌}
use mathlib.Core.Path.{◌≡◌, refl}
use mathlib.Core.Bool.{Bool, false, ◌||◌}
use mathlib.Core.List.{List, [], ◌∷◌, ◌++◌}
use native.Mathlib.Omega.{arith}
use daxiang_vpn.Prelude.Tests.{◌==◌, if◌then◌else◌}

module _ {ℓ} {A : Type ℓ} where
  abbrev pub length : List A → ℕ
  length [] = 0
  length (x ∷ xs) = suc (length xs)

  pub length-append : (xs ys : List A) → length (xs ++ ys) ≡ length xs + length ys
  length-append [] ys = omega arith
  length-append (x ∷ xs) ys = omega (arith, length-append xs ys)

  -- The elements that a Boolean test keeps, in their order.
  abbrev pub keep : (A → Bool) → List A → List A
  keep p [] = []
  keep p (x ∷ xs) = if p x then x ∷ keep p xs else keep p xs

  pub length-keep-le : (p : A → Bool) (xs : List A) → length (keep p xs) ≤ length xs
  length-keep-le p [] = omega arith
  length-keep-le p (x ∷ xs) = ground (arith, length-keep-le p xs)

-- Membership of a number, as a test: a set of pointers is a list of numbers.
abbrev pub has : ℕ → List ℕ → Bool
has a [] = false
has a (x ∷ xs) = a == x || has a xs

abbrev pub remove : ℕ → List ℕ → List ℕ
remove a [] = []
remove a (x ∷ xs) = if a == x then remove a xs else x ∷ remove a xs

pub length-remove-le : (a : ℕ) (xs : List ℕ) → length (remove a xs) ≤ length xs
length-remove-le a [] = omega arith
length-remove-le a (x ∷ xs) = ground (arith, length-remove-le a xs)

pub has-remove :
    (a b : ℕ) (xs : List ℕ) → has a (remove b xs) ≡ (if a == b then false else has a xs)
has-remove a b [] = ground arith
has-remove a b (x ∷ xs) = ground (arith, has-remove a b xs)

pub has-append : (a : ℕ) (xs ys : List ℕ) → has a (xs ++ ys) ≡ (has a xs || has a ys)
has-append a [] ys = refl
has-append a (x ∷ xs) ys = ground (arith, has-append a xs ys)

pub has-keep :
    (p : ℕ → Bool) (a : ℕ) (xs : List ℕ) → has a (keep p xs) ≡ (if p a then has a xs else false)
has-keep p a [] = ground arith
has-keep p a (x ∷ xs) = ground (arith, has-keep p a xs)

-- A table of objects by their pointer, with one entry written.
abbrev pub update {ℓ} : {A : Type ℓ} → (ℕ → A) → ℕ → A → ℕ → A
update f k v j = if j == k then v else f j
