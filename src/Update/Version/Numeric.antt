-- ===== src/Update/Version/Numeric.antt =====
-- Numeric identifiers are compared by length and text, which is their order as numbers.
use daxiang_vpn.Prelude.{
  ℕ, suc, ◌+◌, ◌*◌, ◌-◌, ◌^◌, ◌≤◌, ◌<◌, ◌≡◌, ◌≢◌, refl, zero, ◌==◌, true, false, [], ◌∷◌, length,
  compare, arith, ap,
}
use native.Mathlib.Nat.{pow-suc}
use native.Mathlib.Decide.{dec_le}
use daxiang_vpn.Update.Text.{Bytes, compare_bytes, value}
use daxiang_vpn.Update.Version.{numeric, leading_zero, compare_id, all_digits}

-- Reading more digits behind a number.
value_shift : (n : ℕ) (s : Bytes) → value n s ≡ n * 10 ^ length s + value 0 s
unfolding value
value_shift n [] = omega arith
value_shift n (c ∷ s) = omega (
  arith,
  value_shift (n * 10 + (c - b'0')) s,
  value_shift (0 + (c - b'0')) s,
  ap (λ (t : ℕ). n * t) (pow-suc 10 (length s)),
)

digit_block : (d p v : ℕ) → d ≤ 9 → v < p → d * p + v < p * 10
digit_block d p v h k = grind arith

-- A larger digit outweighs all that follows.
block_lt : (d e p v w : ℕ) → d < e → v < p → d * p + v < e * p + w
block_lt d e p v w h k = grind arith

one_block : (d p v : ℕ) → 1 ≤ d → p ≤ d * p + v
one_block d p v h = grind arith

value-lt : (s : Bytes) → all_digits s ≡ true → value 0 s < 10 ^ length s
unfolding value
value-lt [] h = omega arith
value-lt (c ∷ s) h = ground (
  arith,
  value_shift (0 + (c - b'0')) s,
  value-lt s,
  pow-suc 10 (length s),
  digit_block (c - b'0') (10 ^ length s) (value 0 s),
)

compare_bytes-value :
    (s t : Bytes)
    → all_digits s ≡ true
    → all_digits t ≡ true
    → length s ≡ length t
    → compare_bytes s t ≡ compare (value 0 s) (value 0 t)
unfolding compare_bytes value
compare_bytes-value [] [] h k e = refl
compare_bytes-value [] (b ∷ t) h k e = absurd (omega arith)
compare_bytes-value (a ∷ s) [] h k e = absurd (omega arith)
compare_bytes-value (a ∷ s) (b ∷ t) h k e =
    let low = 10 ^ length s in
    ground (
      arith,
      value_shift (0 + (a - b'0')) s,
      value_shift (0 + (b - b'0')) t,
      value-lt s,
      value-lt t,
      compare_bytes-value s t,
      ap (λ (n : ℕ). 10 ^ n) e,
      block_lt (a - b'0') (b - b'0') low (value 0 s) (value 0 t),
      block_lt (b - b'0') (a - b'0') low (value 0 t) (value 0 s),
    )

pow_mono : (a b : ℕ) → a ≤ b → 10 ^ a ≤ 10 ^ b
pow_mono a zero h = let e : a ≡ 0 = omega arith in rw e (omega arith)
pow_mono a (suc b) h = elim (dec_le a b) [
  | yes p ↦ omega (arith, pow_mono a b p, pow-suc 10 b)
  | no p ↦ let e : a ≡ suc b = omega arith in rw e (omega arith)
]

-- Without a leading zero a number of several digits has full length.
pow-le-value :
    (c : ℕ) (s : Bytes)
    → all_digits (c ∷ s) ≡ true
    → (c == b'0') ≡ false
    → 10 ^ length s ≤ value 0 (c ∷ s)
unfolding value
pow-le-value c s h k =
    ground (arith, value_shift (0 + (c - b'0')) s, one_block (c - b'0') (10 ^ length s) (value 0 s))

shorter-lt :
    (x y : Bytes)
    → all_digits x ≡ true
    → all_digits y ≡ true
    → leading_zero y ≡ false
    → length x < length y
    → length x ≢ 0
    → value 0 x < value 0 y
shorter-lt x [] h k z l n = absurd (omega arith)
shorter-lt x (c ∷ []) h k z l n = absurd (omega arith)
shorter-lt x (c ∷ d ∷ s) h k z l n = omega (
  arith,
  value-lt x h,
  pow_mono (length x) (length (d ∷ s)) (omega arith),
  pow-le-value c (d ∷ s) k z,
)

-- Two numeric identifiers with no leading zeros are ordered as the numbers
-- that they spell, of any size.
pub compare_id-value :
    (x y : Bytes)
    → numeric x ≡ true
    → numeric y ≡ true
    → leading_zero x ≡ false
    → leading_zero y ≡ false
    → compare_id x y ≡ compare (value 0 x) (value 0 y)
unfolding compare_id
compare_id-value [] y p q zx zy = cc
compare_id-value (a ∷ x) [] p q zx zy = cc
compare_id-value (a ∷ x) (b ∷ y) p q zx zy = ground (
  arith,
  shorter-lt (a ∷ x) (b ∷ y),
  shorter-lt (b ∷ y) (a ∷ x),
  compare_bytes-value (a ∷ x) (b ∷ y),
)
