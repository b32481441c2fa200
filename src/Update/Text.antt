-- ===== src/Update/Text.antt =====
-- What semver.go uses of Go's `strings` and `strconv`. A Go string is its list of bytes.
use daxiang_vpn.Prelude.{
  ℕ, ◌+◌, ◌-◌, ◌*◌, ◌^◌, ◌&&◌, leb, ◌==◌, if◌then◌else◌, Bool, true, false, Option, none, some,
  List, [], ◌∷◌, Ordering, compare,
}
use Prim.Native.Char.{code}
use Prim.Native.String.{String}

abbrev pub Bytes : Type 0
Bytes = List ℕ

-- The bytes of an ASCII literal.
abbrev pub codes : String → Bytes
codes String.[] = []
codes (String.◌∷◌ c s) = code c ∷ codes s

abbrev pub bytes_eq : Bytes → Bytes → Bool
bytes_eq [] [] = true
bytes_eq (a ∷ s) (b ∷ t) = a == b && bytes_eq s t
bytes_eq _ _ = false

-- `strings.Compare`
unfoldable pub compare_bytes : Bytes → Bytes → Ordering
compare_bytes [] [] = Ordering.eq
compare_bytes [] (b ∷ t) = Ordering.lt
compare_bytes (a ∷ s) [] = Ordering.gt
compare_bytes (a ∷ s) (b ∷ t) = elim (compare a b) [
  | Ordering.lt ↦ Ordering.lt
  | Ordering.eq ↦ compare_bytes s t
  | Ordering.gt ↦ Ordering.gt
]

abbrev cons_first : ℕ → List Bytes → List Bytes
cons_first c [] = (c ∷ []) ∷ []
cons_first c (p ∷ ps) = (c ∷ p) ∷ ps

-- `strings.Split` at a one-byte separator.
unfoldable pub split : ℕ → Bytes → List Bytes
split sep [] = [] ∷ []
split sep (c ∷ s) = if c == sep then [] ∷ split sep s else cons_first c (split sep s)

-- `strings.SplitN(s, sep, 2)`: the part before the first separator, and the rest if there is one.
unfoldable pub split_once : ℕ → Bytes → Bytes × Option Bytes
split_once sep [] = ([], none)
split_once sep (c ∷ s) =
    let (p, q) = split_once sep s in if c == sep then ([], some s) else (c ∷ p, q)

-- `strconv.ParseUint(s, 10, 32)` on digits: the value, or an error past the range.
unfoldable pub value : ℕ → Bytes → ℕ
value n [] = n
value n (c ∷ s) = value (n * 10 + (c - b'0')) s

abbrev pub max_uint32 : ℕ
max_uint32 = 2 ^ 32 - 1

unfoldable pub parse_uint32 : Bytes → Option ℕ
unfolding value
parse_uint32 s = if leb (value 0 s) max_uint32 then some (value 0 s) else none
