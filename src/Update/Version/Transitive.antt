-- ===== src/Update/Version/Transitive.antt =====
-- The order of versions is transitive.
use daxiang_vpn.Prelude.{ℕ, ◌≡◌, refl, List, [], ◌∷◌, Ordering, compare, arith}
use daxiang_vpn.Update.Text.{Bytes, compare_bytes}
use daxiang_vpn.Update.Version.{
  Version, compare_id, compare_pre, compare_tail, then_by, compare_version,
}
use daxiang_vpn.Update.Version.Order.{bytes_eq→eq, bytes_eq_refl}

compare_bytes_trans :
    (s t u : Bytes)
    → compare_bytes s t ≡ Ordering.lt
    → compare_bytes t u ≡ Ordering.lt
    → compare_bytes s u ≡ Ordering.lt
unfolding compare_bytes
compare_bytes_trans [] [] u h k = cc
compare_bytes_trans [] (b ∷ t) [] h k = cc
compare_bytes_trans [] (b ∷ t) (c ∷ u) h k = refl
compare_bytes_trans (a ∷ s) [] u h k = cc
compare_bytes_trans (a ∷ s) (b ∷ t) [] h k = cc
compare_bytes_trans (a ∷ s) (b ∷ t) (c ∷ u) h k = ground (arith, compare_bytes_trans s t u)

compare_id_trans :
    (x y z : Bytes)
    → compare_id x y ≡ Ordering.lt
    → compare_id y z ≡ Ordering.lt
    → compare_id x z ≡ Ordering.lt
unfolding compare_id
compare_id_trans x y z h k = ground (arith, compare_bytes_trans x y z)

compare_bytes_irrefl : (s : Bytes) → compare_bytes s s ≡ Ordering.eq
unfolding compare_bytes
compare_bytes_irrefl [] = refl
compare_bytes_irrefl (a ∷ s) = ground (arith, compare_bytes_irrefl s)

compare_id_irrefl : (x : Bytes) → compare_id x x ≡ Ordering.eq
unfolding compare_id
compare_id_irrefl x = ground (arith, compare_bytes_irrefl x)

compare_pre_trans :
    (xs ys zs : List Bytes)
    → compare_pre xs ys ≡ Ordering.lt
    → compare_pre ys zs ≡ Ordering.lt
    → compare_pre xs zs ≡ Ordering.lt
unfolding compare_pre
compare_pre_trans [] [] zs h k = cc
compare_pre_trans [] (y ∷ ys) [] h k = cc
compare_pre_trans [] (y ∷ ys) (z ∷ zs) h k = refl
compare_pre_trans (x ∷ xs) [] zs h k = cc
compare_pre_trans (x ∷ xs) (y ∷ ys) [] h k = cc
compare_pre_trans (x ∷ xs) (y ∷ ys) (z ∷ zs) h k = ground (
  arith,
  bytes_eq→eq x y,
  bytes_eq→eq y z,
  bytes_eq→eq x z,
  bytes_eq_refl x,
  compare_id_irrefl x,
  compare_id_trans x y z,
  compare_pre_trans xs ys zs,
)

compare_tail_trans :
    (xs ys zs : List Bytes)
    → compare_tail xs ys ≡ Ordering.lt
    → compare_tail ys zs ≡ Ordering.lt
    → compare_tail xs zs ≡ Ordering.lt
unfolding compare_tail
compare_tail_trans [] [] zs h k = cc
compare_tail_trans [] (y ∷ ys) zs h k = cc
compare_tail_trans (x ∷ xs) [] [] h k = cc
compare_tail_trans (x ∷ xs) [] (z ∷ zs) h k = cc
compare_tail_trans (x ∷ xs) (y ∷ ys) [] h k = refl
compare_tail_trans (x ∷ xs) (y ∷ ys) (z ∷ zs) h k = compare_pre_trans (x ∷ xs) (y ∷ ys) (z ∷ zs) h k

-- One number of the core in front of an order that is transitive at these three.
then_by_trans :
    (a b c : ℕ) (p q r : Ordering)
    → (p ≡ Ordering.lt → q ≡ Ordering.lt → r ≡ Ordering.lt)
    → then_by (compare a b) p ≡ Ordering.lt
    → then_by (compare b c) q ≡ Ordering.lt
    → then_by (compare a c) r ≡ Ordering.lt
then_by_trans a b c p q r rest h k = ground arith

-- Of three versions, if the first comes before the second and that before the third, the first
-- comes before the third.
pub compare_version_trans :
    (a b c : Version)
    → compare_version a b ≡ Ordering.lt
    → compare_version b c ≡ Ordering.lt
    → compare_version a c ≡ Ordering.lt
unfolding compare_version
compare_version_trans a b c = then_by_trans a.major b.major c.major _ _ _ (
    then_by_trans a.minor b.minor c.minor _ _ _
      (then_by_trans a.patch b.patch c.patch _ _ _ (compare_tail_trans a.pre b.pre c.pre)))
