-- ===== src/Gate/Policy.antt =====
-- shared/proxygate/policy.go: the rules on source prefixes in `Validate`, `IsManaged` and `Covers`.
-- A prefix is its address as a number and its length; the text form is Go's netip.
use daxiang_vpn.Prelude.{
  ℕ, zero, suc, ◌+◌, ◌-◌, ◌*◌, ◌/◌, ◌%◌, ◌^◌, ◌≤◌, ◌<◌, ◌≡◌, refl, sym, ap, ◌∙◌, ◌&&◌, ◌||◌, not,
  ltb, leb, ◌==◌, min, Bool, true, false, List, [], ◌∷◌, ◌++◌, length, if◌then◌else◌, arith, inl,
  inr, Bool-cases,
}
use native.Mathlib.Nat.{div-add-mod', div-eq_of_lt-le, mod-lt}
use daxiang_vpn.Gate.State.{Prefix, v4}
use daxiang_vpn.Gate.Admit.{contains, any_contains}

abbrev pub max_sources : ℕ
max_sources = 512

-- The addresses of a prefix are a block of this many.
abbrev pub block : Prefix → ℕ
block p = 2 ^ (32 - p.bits)

-- One prefix of the policy: canonical, IPv4, neither unspecified nor multicast, of 8 bits or more.
unfoldable pub valid_prefix : Prefix → Bool
valid_prefix p =
    p.base % block p == 0
    && ltb p.base (2 ^ 32)
    && leb p.bits 32
    && not (p.base == 0)
    && not (p.base / 2 ^ 28 == 14)
    && leb 8 p.bits

-- `netip.Prefix.Overlaps`: the shorter one contains the address of the other.
abbrev pub overlaps : Prefix → Prefix → Bool
overlaps p q = let n = 2 ^ (32 - min p.bits q.bits) in p.base / n == q.base / n

abbrev pub any_overlaps : Prefix → List Prefix → Bool
any_overlaps p [] = false
any_overlaps p (q ∷ qs) = overlaps q p || any_overlaps p qs

unfoldable pub disjoint_from : List Prefix → List Prefix → Bool
unfolding valid_prefix
disjoint_from before [] = true
disjoint_from before (p ∷ ps) =
    valid_prefix p && not (any_overlaps p before) && disjoint_from (before ++ (p ∷ [])) ps

unfoldable pub valid_sources : List Prefix → List Prefix → Bool
unfolding disjoint_from
valid_sources managed retained =
    not (length managed == 0)
    && leb (length managed) max_sources
    && leb (length retained) max_sources
    && disjoint_from [] (managed ++ retained)

pub record Interval : Type 0 where
  pub start : ℕ
  pub end : ℕ

abbrev pub span : Prefix → Interval
span p = record { start = p.base; end = p.base + block p - 1 }

abbrev pub spans : List Prefix → List Interval
spans [] = []
spans (p ∷ ps) = span p ∷ spans ps

-- `sort.Slice` by the start.
abbrev pub insert : Interval → List Interval → List Interval
insert i [] = i ∷ []
insert i (j ∷ js) = let rest = insert i js in if leb i.start j.start then i ∷ j ∷ js else j ∷ rest

abbrev pub sort : List Interval → List Interval
sort [] = []
sort (i ∷ is) = insert i (sort is)

-- The loop of `Covers`: all before `next` is covered.
unfoldable pub covers_from : ℕ → ℕ → List Interval → Bool
covers_from next end [] = false
covers_from next end (r ∷ rs) =
    let skip = covers_from next end rs in
    let rest = covers_from (r.end + 1) end rs in
    if ltb r.end next
    then skip
    else if ltb next r.start
    then false
    else if ltb end (r.end + 1)
    then true
    else rest

unfoldable pub covers : List Prefix → List Prefix → Prefix → Bool
unfolding valid_sources covers_from
covers managed retained p =
    if not (valid_sources managed retained)
      || not (p.base % block p == 0 && ltb p.base (2 ^ 32) && leb p.bits 32)
    then false
    else covers_from p.base (span p).end (sort (spans managed))

-- An address is in one of the intervals.
abbrev pub in_some : ℕ → List Interval → Bool
in_some x [] = false
in_some x (i ∷ is) = (leb i.start x && leb x i.end) || in_some x is

covers_from-in_some :
    (next end x : ℕ) (rs : List Interval)
    → covers_from next end rs ≡ true
    → next ≤ x
    → x ≤ end
    → in_some x rs ≡ true
unfolding covers_from
covers_from-in_some next end x [] h p q = cc
covers_from-in_some next end x (r ∷ rs) h p q =
    ground (arith, covers_from-in_some next end x rs, covers_from-in_some (r.end + 1) end x rs)

in_some-insert :
    (x : ℕ) (i : Interval) (js : List Interval) → in_some x (insert i js) ≡ in_some x (i ∷ js)
in_some-insert x i [] = refl
in_some-insert x i (j ∷ js) = ground (arith, in_some-insert x i js)

in_some-sort : (x : ℕ) (js : List Interval) → in_some x (sort js) ≡ in_some x js
in_some-sort x [] = refl
in_some-sort x (j ∷ js) = ground (arith, in_some-insert x j (sort js), in_some-sort x js)

pow2_pos : (k : ℕ) → 0 < 2 ^ k
pow2_pos zero = omega arith
pow2_pos (suc k) = omega (arith, pow2_pos k)

block-of : (n b x : ℕ) → 0 < n → b % n ≡ 0 → b ≤ x → x < b + n → x / n ≡ b / n
block-of n b x h z p q =
    let e : b / n * n + b % n ≡ b = div-add-mod' b n in
    let s : (b / n + 1) * n ≡ b / n * n + n = omega arith in
    div-eq_of_lt-le n (omega (arith, e, z, p)) (omega (arith, e, z, q, s))

in_block : (n b x : ℕ) → 0 < n → b % n ≡ 0 → x / n ≡ b / n → (b ≤ x) × (x < b + n)
in_block n b x h z e =
    let u : b / n * n + b % n ≡ b = div-add-mod' b n in
    let v : x / n * n + x % n ≡ x = div-add-mod' x n in
    let w : x / n * n ≡ b / n * n = ap (λ (k : ℕ). k * n) e in
    let m : x % n < n = mod-lt x h in (omega (arith, u, v, w, z), omega (arith, u, v, w, z, m))

in_some-any_contains :
    (x : ℕ) (before ps qs : List Prefix)
    → disjoint_from before (ps ++ qs) ≡ true
    → in_some x (spans ps) ≡ true
    → any_contains ps (v4 x) ≡ true
unfolding disjoint_from any_contains valid_prefix
in_some-any_contains x before [] qs d h = h
in_some-any_contains x before (p ∷ ps) qs d h =
    elim (Bool-cases (leb p.base x && leb x (p.base + block p - 1))) [
      | inl e ↦
          let same : x / block p ≡ p.base / block p =
            block-of (block p) p.base x (pow2_pos (32 - p.bits)) (ground arith) (ground arith)
              (ground (arith, pow2_pos (32 - p.bits))) in
          ground (arith, same)
      | inr e ↦
          let rest =
            in_some-any_contains x (before ++ (p ∷ [])) ps qs (ground arith) (ground arith) in
          ground (arith, rest)
    ]

-- When `Covers` accepts a prefix, `AcquireSource` takes every address of it as managed.
pub covers-any_contains :
    (managed retained : List Prefix) (p : Prefix) (x : ℕ)
    → covers managed retained p ≡ true
    → contains p (v4 x) ≡ true
    → any_contains managed (v4 x) ≡ true
unfolding covers valid_sources
covers-any_contains managed retained p x h c =
    let (low, high) =
      in_block (block p) p.base x (pow2_pos (32 - p.bits)) (ground arith) (ground arith) in
    let found : in_some x (sort (spans managed)) ≡ true =
      covers_from-in_some p.base (span p).end x (sort (spans managed)) (ground arith) low
        (omega (arith, high)) in
    in_some-any_contains x [] managed retained (ground arith)
      (sym (in_some-sort x (spans managed)) ∙ found)
