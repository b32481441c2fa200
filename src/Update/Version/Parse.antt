-- ===== src/Update/Version/Parse.antt =====
-- What `parseVersion` accepts.
use daxiang_vpn.Prelude.{
  ℕ, ◌≤◌, ◌≡◌, refl, ◌<◌, ◌^◌, ◌&&◌, ◌==◌, ◌⊎◌, ◌≢◌, inl, inr, true, false, Option, none, some,
  List, [], ◌∷◌, length, arith, Bool-cases,
}
use daxiang_vpn.Update.Text.{Bytes, split, split_once, parse_uint32}
use daxiang_vpn.Update.Version.{
  Version, id_char, all_id_chars, all_digits, numeric, leading_zero, valid_id, all_valid,
  valid_version_ids, parse_item, parse_core, parse_tail, parse_main, parse_parts, parse_version,
}

abbrev pub All : (Bytes → Type 0) → List Bytes → Type 0
All P [] = Unit {0}
All P (x ∷ xs) = P x × All P xs

abbrev pub Each : (ℕ → Type 0) → Bytes → Type 0
Each P [] = Unit {0}
Each P (c ∷ s) = P c × Each P s

-- `0` to `9`, and the bytes of an identifier: digits, `A` to `Z`, `a` to `z` and the dash.
abbrev pub IsDigit : ℕ → Type 0
IsDigit c = (48 ≤ c) × (c ≤ 57)

abbrev pub IsIdByte : ℕ → Type 0
IsIdByte c = IsDigit c ⊎ (((65 ≤ c) × (c ≤ 90)) ⊎ (((97 ≤ c) × (c ≤ 122)) ⊎ (c ≡ 45)))

-- Not a number that is written with a zero before other digits.
abbrev pub NoLeadingZero : Bytes → Type 0
NoLeadingZero (c ∷ d ∷ s) = (c ≢ 48) ⊎ (¬ Each IsDigit (c ∷ d ∷ s))
NoLeadingZero _ = Unit {0}

-- A prerelease identifier, as Semantic Versioning 2.0.0 writes it, of at most 64 bytes.
abbrev pub IsIdentifier : Bytes → Type 0
IsIdentifier id = (1 ≤ length id) × (length id ≤ 64) × Each IsIdByte id × NoLeadingZero id

-- What a parsed version satisfies.
pub record IsValid (v : Version) : Type 0 where
  pub major : v.major < 2 ^ 32
  pub minor : v.minor < 2 ^ 32
  pub patch : v.patch < 2 ^ 32
  pub count : length v.pre ≤ 8
  pub ids : All IsIdentifier v.pre

id_char-IsIdByte : (c : ℕ) → id_char c ≡ true → IsIdByte c
id_char-IsIdByte c h = ground arith

all_id_chars-Each : (s : Bytes) → all_id_chars s ≡ true → Each IsIdByte s
all_id_chars-Each [] h = tt
all_id_chars-Each (c ∷ s) h =
    (id_char-IsIdByte c (ground arith), all_id_chars-Each s (ground arith))

Each-all_digits : (s : Bytes) → Each IsDigit s → all_digits s ≡ true
Each-all_digits [] h = refl
Each-all_digits (c ∷ s) (d, h) = ground (arith, Each-all_digits s h)

valid_id-NoLeadingZero : (id : Bytes) → (numeric id && leading_zero id) ≡ false → NoLeadingZero id
unfolding numeric
valid_id-NoLeadingZero [] h = tt
valid_id-NoLeadingZero (c ∷ []) h = tt
valid_id-NoLeadingZero (c ∷ d ∷ s) h = elim (Bool-cases (c == 48)) [
  | inl e ↦ inr (λ all. ground (arith, Each-all_digits (c ∷ d ∷ s) all))
  | inr e ↦ inl (λ z. ground arith)
]

valid_id-IsIdentifier : (id : Bytes) → valid_id true id ≡ true → IsIdentifier id
unfolding valid_id
valid_id-IsIdentifier id h = (
  ground arith,
  ground arith,
  all_id_chars-Each id (ground arith),
  valid_id-NoLeadingZero id (ground arith),
)

all_valid-All : (ids : List Bytes) → all_valid true ids ≡ true → All IsIdentifier ids
all_valid-All [] h = tt
all_valid-All (id ∷ ids) h =
    (valid_id-IsIdentifier id (ground arith), all_valid-All ids (ground arith))

parse_item_bound : (s : Bytes) (n : ℕ) → parse_item s ≡ some n → n < 2 ^ 32
unfolding parse_item parse_uint32
parse_item_bound s n h = ground arith

parse_core-IsValid :
    (pre l : List Bytes) (v : Version)
    → length pre ≤ 8
    → All IsIdentifier pre
    → parse_core pre l ≡ some v
    → IsValid v
unfolding parse_core
parse_core-IsValid pre (a ∷ b ∷ c ∷ []) v p q h =
    ground
      (arith, parse_item_bound a v.major, parse_item_bound b v.minor, parse_item_bound c v.patch)
parse_core-IsValid pre _ v p q h = cc

valid_version_ids_inv :
    (p : Bytes)
    → valid_version_ids p true ≡ true
    → (length (split b'.' p) ≤ 8) × (all_valid true (split b'.' p) ≡ true)
unfolding valid_version_ids
valid_version_ids_inv p h = ground arith

parse_tail-IsValid :
    (core : List Bytes) (t : Option Bytes) (v : Version) → parse_tail core t ≡ some v → IsValid v
unfolding parse_tail
parse_tail-IsValid core none v h = parse_core-IsValid [] core v (omega arith) tt h
parse_tail-IsValid core (some p) v h = elim (Bool-cases (valid_version_ids p true)) [
  | inl e ↦
      let k = valid_version_ids_inv p e in
      parse_core-IsValid (split b'.' p) core v k.0 (all_valid-All _ k.1) (ground arith)
  | inr e ↦ absurd (ground arith)
]

parse_parts-IsValid : (l : List Bytes) (v : Version) → parse_parts l ≡ some v → IsValid v
unfolding parse_parts parse_main
parse_parts-IsValid (main ∷ []) v h = parse_tail-IsValid _ _ v h
parse_parts-IsValid (main ∷ build ∷ []) v h = elim (Bool-cases (valid_version_ids build false)) [
  | inl e ↦
      parse_tail-IsValid (split b'.' (split_once b'-' main).0) (split_once b'-' main).1 v
        (ground arith)
  | inr e ↦ absurd (ground arith)
]
parse_parts-IsValid _ v h = cc

-- When a text is parsed: it has 1 to 128 bytes, the three numbers fit 32 bits, and there are at most
-- eight prerelease identifiers, each of 1 to 64 bytes that are digits, letters or dashes, and none of
-- them is two or more digits with a zero in front.
pub parse_version-IsValid :
    (s : Bytes) (v : Version)
    → parse_version s ≡ some v
    → IsValid v × (1 ≤ length s) × (length s ≤ 128)
unfolding parse_version
parse_version-IsValid s v h =
    (parse_parts-IsValid (split b'+' s) v (ground arith), ground arith, ground arith)
