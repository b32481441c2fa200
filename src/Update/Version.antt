-- ===== src/Update/Version.antt =====
-- shared/updateverify/semver.go.
pub mod Order
pub mod Transitive
pub mod Parse
pub mod Numeric
use daxiang_vpn.Prelude.{
  ℕ, suc, ◌+◌, ◌&&◌, ◌||◌, not, ltb, leb, ◌==◌, if◌then◌else◌, Bool, true, false, Option, none,
  some, List, [], ◌∷◌, length, Ordering, compare,
}
use daxiang_vpn.Update.Text.{Bytes, bytes_eq, compare_bytes, split, split_once, parse_uint32}

pub record Version : Type 0 where
  pub major : ℕ
  pub minor : ℕ
  pub patch : ℕ
  pub pre : List Bytes

abbrev pub is_digit : ℕ → Bool
is_digit c = leb b'0' c && leb c b'9'

abbrev pub all_digits : Bytes → Bool
all_digits [] = true
all_digits (c ∷ s) = is_digit c && all_digits s

unfoldable pub numeric : Bytes → Bool
numeric [] = false
numeric (c ∷ s) = all_digits (c ∷ s)

-- `len(s) > 1 && s[0] == '0'`
abbrev pub leading_zero : Bytes → Bool
leading_zero (c ∷ d ∷ s) = c == b'0'
leading_zero _ = false

abbrev pub id_char : ℕ → Bool
id_char c = is_digit c || (leb b'A' c && leb c b'Z') || (leb b'a' c && leb c b'z') || c == b'-'

abbrev pub all_id_chars : Bytes → Bool
all_id_chars [] = true
all_id_chars (c ∷ s) = id_char c && all_id_chars s

-- One identifier of `validVersionIDs`.
unfoldable pub valid_id : Bool → Bytes → Bool
unfolding numeric
valid_id prerelease id =
    not (length id == 0)
    && leb (length id) 64
    && not (prerelease && numeric id && leading_zero id)
    && all_id_chars id

abbrev pub all_valid : Bool → List Bytes → Bool
all_valid prerelease [] = true
all_valid prerelease (id ∷ ids) = valid_id prerelease id && all_valid prerelease ids

unfoldable pub valid_version_ids : Bytes → Bool → Bool
valid_version_ids s prerelease =
    let ids = split b'.' s in
    not (length ids == 0) && leb (length ids) 8 && all_valid prerelease ids

infixl 5 ◌>>=◌
abbrev ◌>>=◌ {ℓ κ} : {A : Type ℓ} {B : Type κ} → Option A → (A → Option B) → Option B
none >>= f = none
some a >>= f = f a

-- One item of the core.
unfoldable pub parse_item : Bytes → Option ℕ
unfolding numeric parse_uint32
parse_item item = if not (numeric item) || leading_zero item then none else parse_uint32 item

unfoldable pub parse_core : List Bytes → List Bytes → Option Version
parse_core pre (a ∷ b ∷ c ∷ []) = do
  x ← parse_item a
  y ← parse_item b
  z ← parse_item c
  some (record { major = x; minor = y; patch = z; pre = pre })
parse_core pre _ = none

-- The core, with what stands behind the first dash.
unfoldable pub parse_tail : List Bytes → Option Bytes → Option Version
unfolding parse_core
parse_tail core none = parse_core [] core
parse_tail core (some p) = if valid_version_ids p true then parse_core (split b'.' p) core else none

-- The part before the build metadata.
unfoldable pub parse_main : Bytes → Option Version
unfolding parse_tail
parse_main s = parse_tail (split b'.' (split_once b'-' s).0) (split_once b'-' s).1

unfoldable pub parse_parts : List Bytes → Option Version
unfolding parse_main
parse_parts (main ∷ []) = parse_main main
parse_parts (main ∷ build ∷ []) = if valid_version_ids build false then parse_main main else none
parse_parts _ = none

unfoldable pub parse_version : Bytes → Option Version
unfolding parse_parts
parse_version s = if length s == 0 || ltb 128 (length s) then none else parse_parts (split b'+' s)

-- Two identifiers that differ.
unfoldable pub compare_id : Bytes → Bytes → Ordering
unfolding numeric compare_bytes
compare_id x y =
    let xn = numeric x in
    let yn = numeric y in
    if xn && not yn
    then Ordering.lt
    else if not xn && yn
    then Ordering.gt
    else if xn && not (length x == length y)
    then (if ltb (length x) (length y) then Ordering.lt else Ordering.gt)
    else compare_bytes x y

-- The loop over both prereleases, and the lengths behind it.
unfoldable pub compare_pre : List Bytes → List Bytes → Ordering
unfolding compare_id
compare_pre [] [] = Ordering.eq
compare_pre [] (y ∷ ys) = Ordering.lt
compare_pre (x ∷ xs) [] = Ordering.gt
compare_pre (x ∷ xs) (y ∷ ys) = if bytes_eq x y then compare_pre xs ys else compare_id x y

-- A version without a prerelease comes after those with one.
unfoldable pub compare_tail : List Bytes → List Bytes → Ordering
unfolding compare_pre
compare_tail [] [] = Ordering.eq
compare_tail [] (y ∷ ys) = Ordering.gt
compare_tail (x ∷ xs) [] = Ordering.lt
compare_tail (x ∷ xs) (y ∷ ys) = compare_pre (x ∷ xs) (y ∷ ys)

-- The first of the orders that is not an equality.
abbrev pub then_by : Ordering → Ordering → Ordering
then_by Ordering.lt o = Ordering.lt
then_by Ordering.eq o = o
then_by Ordering.gt o = Ordering.gt

unfoldable pub compare_version : Version → Version → Ordering
unfolding compare_tail
compare_version a b = then_by (compare a.major b.major) (
    then_by (compare a.minor b.minor)
      (then_by (compare a.patch b.patch) (compare_tail a.pre b.pre)))
