-- ===== src/Update/Version/Order.antt =====
-- `compareVersion` is a strict total order on versions.
use daxiang_vpn.Prelude.{ℕ, ◌≡◌, ◌↔◌, refl, true, List, [], ◌∷◌, Ordering, compare, arith}
use daxiang_vpn.Update.Text.{Bytes, bytes_eq, compare_bytes}
use daxiang_vpn.Update.Version.{Version, compare_id, compare_pre, compare_tail, compare_version}

abbrev pub swap : Ordering → Ordering
swap Ordering.lt = Ordering.gt
swap Ordering.eq = Ordering.eq
swap Ordering.gt = Ordering.lt

compare-swap : (a b : ℕ) → compare b a ≡ swap (compare a b)
compare-swap a b = ground arith

compare_bytes-swap : (s t : Bytes) → compare_bytes t s ≡ swap (compare_bytes s t)
unfolding compare_bytes
compare_bytes-swap [] [] = refl
compare_bytes-swap [] (b ∷ t) = refl
compare_bytes-swap (a ∷ s) [] = refl
compare_bytes-swap (a ∷ s) (b ∷ t) = ground (arith, compare_bytes-swap s t)

bytes_eq-swap : (s t : Bytes) → bytes_eq t s ≡ bytes_eq s t
bytes_eq-swap [] [] = refl
bytes_eq-swap [] (b ∷ t) = refl
bytes_eq-swap (a ∷ s) [] = refl
bytes_eq-swap (a ∷ s) (b ∷ t) = ground (arith, bytes_eq-swap s t)

compare_id-swap : (x y : Bytes) → compare_id y x ≡ swap (compare_id x y)
unfolding compare_id
compare_id-swap x y = ground (arith, compare_bytes-swap x y)

compare_pre-swap : (xs ys : List Bytes) → compare_pre ys xs ≡ swap (compare_pre xs ys)
unfolding compare_pre
compare_pre-swap [] [] = refl
compare_pre-swap [] (y ∷ ys) = refl
compare_pre-swap (x ∷ xs) [] = refl
compare_pre-swap (x ∷ xs) (y ∷ ys) =
    ground (arith, bytes_eq-swap x y, compare_id-swap x y, compare_pre-swap xs ys)

compare_tail-swap : (xs ys : List Bytes) → compare_tail ys xs ≡ swap (compare_tail xs ys)
unfolding compare_tail
compare_tail-swap [] [] = refl
compare_tail-swap [] (y ∷ ys) = refl
compare_tail-swap (x ∷ xs) [] = refl
compare_tail-swap (x ∷ xs) (y ∷ ys) = compare_pre-swap (x ∷ xs) (y ∷ ys)

-- Exchanging two versions turns the answer round, for all versions.
pub compare_version-swap : (a b : Version) → compare_version b a ≡ swap (compare_version a b)
unfolding compare_version
compare_version-swap a b = ground (arith, compare_tail-swap a.pre b.pre)

pub bytes_eq→eq : (s t : Bytes) → bytes_eq s t ≡ true → s ≡ t
bytes_eq→eq [] [] h = refl
bytes_eq→eq [] (b ∷ t) h = cc
bytes_eq→eq (a ∷ s) [] h = cc
bytes_eq→eq (a ∷ s) (b ∷ t) h = ground (arith, bytes_eq→eq s t)

pub bytes_eq_refl : (s : Bytes) → bytes_eq s s ≡ true
bytes_eq_refl [] = refl
bytes_eq_refl (a ∷ s) = ground (arith, bytes_eq_refl s)

compare_bytes→eq : (s t : Bytes) → compare_bytes s t ≡ Ordering.eq → s ≡ t
unfolding compare_bytes
compare_bytes→eq [] [] h = refl
compare_bytes→eq [] (b ∷ t) h = cc
compare_bytes→eq (a ∷ s) [] h = cc
compare_bytes→eq (a ∷ s) (b ∷ t) h = ground (arith, compare_bytes→eq s t)

compare_id→eq : (x y : Bytes) → compare_id x y ≡ Ordering.eq → x ≡ y
unfolding compare_id
compare_id→eq x y h = ground (arith, compare_bytes→eq x y)

compare_pre→eq : (xs ys : List Bytes) → compare_pre xs ys ≡ Ordering.eq → xs ≡ ys
unfolding compare_pre
compare_pre→eq [] [] h = refl
compare_pre→eq [] (y ∷ ys) h = cc
compare_pre→eq (x ∷ xs) [] h = cc
compare_pre→eq (x ∷ xs) (y ∷ ys) h =
    ground (arith, bytes_eq→eq x y, bytes_eq_refl x, compare_id→eq x y, compare_pre→eq xs ys)

compare_pre_refl : (xs : List Bytes) → compare_pre xs xs ≡ Ordering.eq
unfolding compare_pre
compare_pre_refl [] = refl
compare_pre_refl (x ∷ xs) = ground (arith, bytes_eq_refl x, compare_pre_refl xs)

compare_tail→eq : (xs ys : List Bytes) → compare_tail xs ys ≡ Ordering.eq → xs ≡ ys
unfolding compare_tail
compare_tail→eq [] [] h = refl
compare_tail→eq [] (y ∷ ys) h = cc
compare_tail→eq (x ∷ xs) [] h = cc
compare_tail→eq (x ∷ xs) (y ∷ ys) h = compare_pre→eq (x ∷ xs) (y ∷ ys) h

compare_tail_refl : (xs : List Bytes) → compare_tail xs xs ≡ Ordering.eq
unfolding compare_tail
compare_tail_refl [] = refl
compare_tail_refl (x ∷ xs) = compare_pre_refl (x ∷ xs)

-- Two versions compare equal exactly when they are the same in core and prerelease.
pub compare_version-eq_iff : (a b : Version) → (compare_version a b ≡ Ordering.eq) ↔ (a ≡ b)
unfolding compare_version
compare_version-eq_iff a b = (
  λ h. ground (arith, compare_tail→eq a.pre b.pre),
  λ h. ground (arith, compare_tail_refl a.pre, compare_tail_refl b.pre),
)
