-- ===== src/HttpAdmission/Float.antt =====
-- float64, for hub/internal/httpboundary/admission.go: the values that are finite and not negative,
-- with the roundings of IEEE 754 (to the nearest, ties to even). A value counts units of 2^-1074, the
-- smallest of them; no value here comes near the largest, and no difference is below zero.
use daxiang_vpn.Prelude.{
  ℕ, ◌+◌, ◌-◌, ◌*◌, ◌/◌, ◌%◌, ◌^◌, ◌&&◌, ◌||◌, leb, ltb, ◌==◌, if◌then◌else◌, Bool, List, [], ◌∷◌,
}

pub record Float : Type 0 where
  pub units : ℕ

abbrev pub one_units : ℕ
one_units = 2 ^ 1074

-- How many bits stand behind the first 53, for a number below 2^2100, by halving the steps.
unfoldable pub excess : List ℕ → ℕ → ℕ
excess [] n = 0
excess (k ∷ ks) n =
    let big = leb (2 ^ (52 + k)) n in
    let rest = excess ks (if big then n / 2 ^ k else n) in if big then k + rest else rest

abbrev halvings : List ℕ
halvings = 1024 ∷ 512 ∷ 256 ∷ 128 ∷ 64 ∷ 32 ∷ 16 ∷ 8 ∷ 4 ∷ 2 ∷ 1 ∷ []

-- The float nearest to `num / den` units.
unfoldable pub round : ℕ → ℕ → Float
unfolding excess
round num den =
    let spacing = 2 ^ excess halvings (num / den) in
    let block = spacing * den in
    let k = num / block in
    let rest = num % block in
    let up = ltb block (2 * rest) || (2 * rest == block && k % 2 == 1) in
    record { units = (if up then k + 1 else k) * spacing }

unfoldable pub of_nat : ℕ → Float
unfolding round
of_nat n = round (n * one_units) 1

abbrev pub one : Float
one = record { units = one_units }

unfoldable pub add : Float → Float → Float
unfolding round
add x y = round (x.units + y.units) 1

-- For `y` not above `x`.
unfoldable pub sub : Float → Float → Float
unfolding round
sub x y = round (x.units - y.units) 1

unfoldable pub mul : Float → Float → Float
unfolding round
mul x y = round (x.units * y.units) one_units

-- For a divisor above zero.
unfoldable pub div : Float → Float → Float
unfolding round
div x y = round (x.units * one_units) y.units

abbrev pub float_le : Float → Float → Bool
float_le x y = leb x.units y.units

abbrev pub float_min : Float → Float → Float
float_min x y = if float_le x y then x else y

-- `math.Ceil`, as an integer.
unfoldable pub ceil : Float → ℕ
ceil x = (x.units + (one_units - 1)) / one_units
