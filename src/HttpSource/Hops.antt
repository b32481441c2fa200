-- ===== src/HttpSource/Hops.antt =====
-- The hops of a joined header, and which of them is picked.
use daxiang_vpn.Prelude.{
  ℕ, ◌+◌, ◌≤◌, ◌≡◌, refl, sym, ap, ◌∙◌, ◌||◌, not, ◌==◌, ==_refl, Bool, true, Bool-cases, inl, inr,
  List, [], ◌∷◌, ◌++◌, length, length-append, any, arith, ok, bind-ok, ok-inj,
}
use daxiang_vpn.Update.Text.{Bytes, split}
use daxiang_vpn.HttpSource.Defs.{
  SourceError, Addr, Tools, known_proxy, is_short, comma, join, read_hops, reverse, pick,
  max_xff_bytes,
}

split-cons : (sep : ℕ) (s : Bytes) → (p : Bytes) × ((ps : List Bytes) × (split sep s ≡ p ∷ ps))
unfolding split
split-cons sep [] = ([], ([], refl))
split-cons sep (c ∷ s) = elim (Bool-cases (c == sep)) [
  | inl same ↦ ([], (split sep s, ground arith))
  | inr other ↦ let (p, (ps, e)) = split-cons sep s in (c ∷ p, (ps, ground (arith, e)))
]

pub split-append : (sep : ℕ) (s r : Bytes) → split sep (s ++ (sep ∷ r)) ≡ split sep s ++ split sep r
unfolding split
split-append sep [] r = ground (arith, ==_refl sep)
split-append sep (c ∷ s) r =
    let (p, (ps, e)) = split-cons sep s in ground (arith, split-append sep s r, e)

-- The running test bounds the joined header.
pub is_short-join :
    (size : ℕ) (v : Bytes) (vs : List Bytes)
    → is_short size (v ∷ vs) ≡ true
    → size + length (join (v ∷ vs)) ≤ max_xff_bytes
unfolding is_short join
is_short-join size v [] h = ground arith
is_short-join size v (w ∷ vs) h =
    let ih = is_short-join (size + length v + 1) w vs in
    ground (arith, ih, length-append {0} v (comma ∷ join (w ∷ vs)))

pub read_hops-append :
    (t : Tools) (ps qs : List Bytes) (hops : List Addr)
    → read_hops t (ps ++ qs) ≡ ok hops
    → (xs : List Addr) × ((ys : List Addr) × ((read_hops t qs ≡ ok ys) × (hops ≡ xs ++ ys)))
unfolding read_hops
read_hops-append t [] qs hops h = ([], (hops, (h, refl)))
read_hops-append t (p ∷ ps) qs hops h0 =
    let (hop, parsed, h1) = bind-ok _ _ h0 in
    let (rest, read, h2) = bind-ok _ _ h1 in
    let (xs, (ys, (last, e))) = read_hops-append t ps qs rest read in
    (hop ∷ xs, (ys, (last, sym (ok-inj {E = SourceError} h2) ∙ ap (λ (l : List Addr). hop ∷ l) e)))

append_assoc : (xs ys zs : List Addr) → (xs ++ ys) ++ zs ≡ xs ++ (ys ++ zs)
append_assoc [] ys zs = refl
append_assoc (x ∷ xs) ys zs = ap (λ (r : List Addr). x ∷ r) (append_assoc xs ys zs)

append_nil : (xs : List Addr) → xs ++ [] ≡ xs
append_nil [] = refl
append_nil (x ∷ xs) = ap (λ (r : List Addr). x ∷ r) (append_nil xs)

reverse-append : (xs ys : List Addr) → reverse (xs ++ ys) ≡ reverse ys ++ reverse xs
reverse-append [] ys = sym (append_nil (reverse ys))
reverse-append (x ∷ xs) ys =
    ap (λ (r : List Addr). r ++ x ∷ []) (reverse-append xs ys)
    ∙ append_assoc (reverse ys) (reverse xs) (x ∷ [])

any-append : (p : Addr → Bool) (xs ys : List Addr) → any p (xs ++ ys) ≡ (any p xs || any p ys)
any-append p [] ys = refl
any-append p (x ∷ xs) ys = ground (arith, any-append p xs ys)

any-reverse : (p : Addr → Bool) (xs : List Addr) → any p (reverse xs) ≡ any p xs
any-reverse p [] = refl
any-reverse p (x ∷ xs) = ground (arith, any-append p (reverse xs) (x ∷ []), any-reverse p xs)

abbrev pub is_client : Addr → Bool
is_client a = not (known_proxy a)

-- What stands left of a hop that is no proxy does not matter.
pick-append : (zs ws : List Addr) → any is_client zs ≡ true → pick (zs ++ ws) ≡ pick zs
unfolding pick
pick-append [] ws h = cc
pick-append (z ∷ []) [] h = refl
pick-append (z ∷ []) (w ∷ ws) h = ground arith
pick-append (z ∷ y ∷ zs) ws h = ground (arith, pick-append (y ∷ zs) ws)

pub pick-reverse :
    (xs ys : List Addr) → any is_client ys ≡ true → pick (reverse (xs ++ ys)) ≡ pick (reverse ys)
pick-reverse xs ys h =
    ap pick (reverse-append xs ys)
    ∙ pick-append (reverse ys) (reverse xs) (any-reverse is_client ys ∙ h)
