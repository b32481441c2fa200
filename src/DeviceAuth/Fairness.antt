-- ===== src/DeviceAuth/Fairness.antt =====
-- Which devices a cycle of the scheduler reconciles, and in which order.
use Prim.Native.Nat.{◌<◌}
use daxiang_vpn.Prelude.{
  leb, ℕ, zero, suc, ◌+◌, ◌-◌, ◌%◌, ◌≡◌, refl, sym, ap, subst, ◌∙◌, ◌⊎◌, inl, inr, ◌==◌, ==_refl,
  true, false, Bool-cases, none, some, List, [], ◌∷◌, ◌++◌, length, has, arith,
}
use native.Mathlib.Nat.{mod-eq_of_lt, mod-eq-sub-mod}
use daxiang_vpn.DeviceAuth.State.{Database}
use daxiang_vpn.DeviceAuth.Schedule.{Cycle, Turns, nth, turn, turns, reconcile_all}

-- That many devices in turn, from the cursor on.
visits : List ℕ → ℕ → ℕ → List ℕ
visits ids c zero = []
visits ids c (suc k) = elim (nth c ids) [
  | none ↦ []
  | some id ↦ id ∷ visits ids ((c + 1) % length ids) k
]

next_lt : (c n : ℕ) → c < n → (c + 1) % n < n
next_lt c n h = grind arith

nth_lt : (i : ℕ) (xs : List ℕ) → i < length xs → (x : ℕ) × (nth i xs ≡ some x)
nth_lt i [] h = absurd (omega arith)
nth_lt zero (x ∷ xs) h = (x, refl)
nth_lt (suc i) (x ∷ xs) h = nth_lt i xs (omega arith)

append_assoc : (xs ys zs : List ℕ) → (xs ++ ys) ++ zs ≡ xs ++ (ys ++ zs)
append_assoc [] ys zs = refl
append_assoc (x ∷ xs) ys zs = ap (λ (r : List ℕ). x ∷ r) (append_assoc xs ys zs)

append_nil : (xs : List ℕ) → xs ++ [] ≡ xs
append_nil [] = refl
append_nil (x ∷ xs) = ap (λ (r : List ℕ). x ∷ r) (append_nil xs)

-- While the context has not ended, the turns are the visits.
turns-visits :
    (c : Cycle) (ids : List ℕ) (k i : ℕ) (t : Turns)
    → t.cursor < length ids
    → ((j : ℕ) → c.ended j ≡ false)
    → (turns c ids k i t).served ≡ t.served ++ visits ids t.cursor k
unfolding turns visits turn
turns-visits c ids zero i t h e = sym (append_nil t.served)
turns-visits c ids (suc k) i t h e =
    let (id, at) = nth_lt t.cursor ids h in
    let ih =
      turns-visits c ids k (i + 1) (turn c (length ids) i id t) (next_lt t.cursor (length ids) h)
        e in
    rw (turns, visits, at, e i)
      (ih ∙ append_assoc t.served (id ∷ []) (visits ids ((t.cursor + 1) % length ids) k))

next_position :
    (c j p n : ℕ)
    → c < n
    → p < n
    → (c + suc j ≡ p) ⊎ (c + suc j ≡ p + n)
    → ((c + 1) % n + j ≡ p) ⊎ ((c + 1) % n + j ≡ p + n)
next_position c j p n hc hp e = elim (Bool-cases (c + 1 == n)) [
  | inl last ↦
      let zeroed : (c + 1) - n ≡ 0 = ground arith in
      let wrap : (c + 1) % n ≡ 0 =
        mod-eq-sub-mod (ground arith) ∙ ap (λ (x : ℕ). x % n) zeroed ∙ mod-eq_of_lt (omega arith) in
      ground (arith, e)
  | inr more ↦ let on : (c + 1) % n ≡ c + 1 = mod-eq_of_lt (ground arith) in ground (arith, e)
]

-- The position is within the visits.
has-visits :
    (ids : List ℕ) (k c j p id : ℕ)
    → c < length ids
    → p < length ids
    → j < k
    → (c + j ≡ p) ⊎ (c + j ≡ p + length ids)
    → nth p ids ≡ some id
    → has id (visits ids c k) ≡ true
unfolding visits
has-visits ids zero c j p id hc hp hj e at = absurd (omega arith)
has-visits ids (suc k) c zero p id hc hp hj e at =
    let same : c ≡ p = ground arith in rw (visits, same, at) (ground (arith, ==_refl id))
has-visits ids (suc k) c (suc j) p id hc hp hj e at =
    let (here, found) = nth_lt c ids hc in
    let next : ((c + 1) % length ids + j ≡ p) ⊎ ((c + 1) % length ids + j ≡ p + length ids) =
      next_position c j p (length ids) hc hp e in
    let ih =
      has-visits ids k ((c + 1) % length ids) j p id (next_lt c (length ids) hc) hp (omega arith)
        next at in
    rw (visits, found) (ground (arith, ih))

has-nth :
    (id : ℕ) (ids : List ℕ) → has id ids ≡ true → (p : ℕ) × (p < length ids) × (nth p ids ≡ some id)
has-nth id [] h = cc
has-nth id (x ∷ xs) h = elim (Bool-cases (id == x)) [
  | inl same ↦ (zero, omega arith, ground arith)
  | inr other ↦ let (p, lt, at) = has-nth id xs (ground arith) in (suc p, omega arith, at)
]

-- A cycle whose context does not end reconciles every device of its list.
pub reconcile_all-serves :
    (c : Cycle) (id : ℕ) (ids : List ℕ) (cursor : ℕ) (db : Database)
    → ((j : ℕ) → c.ended j ≡ false)
    → has id ids ≡ true
    → has id (reconcile_all c ids cursor db).2 ≡ true
unfolding reconcile_all
reconcile_all-serves c id [] cursor db e h = h
reconcile_all-serves c id (x ∷ xs) cursor db e h =
    let n = length (x ∷ xs) in
    let start : cursor % n < n = grind arith in
    let (p, lt, at) = has-nth id (x ∷ xs) h in
    let t : Turns = record {
      database = db;
      cursor = cursor % n;
      is_failed = false;
      is_stopped = false;
      served = [];
    } in
    let served = turns-visits c (x ∷ xs) n 0 t start e in
    subst (λ (l : List ℕ). has id l ≡ true) (sym served)
      (elim (Bool-cases (leb (cursor % n) p)) [
        | inl le ↦
            has-visits (x ∷ xs) n (cursor % n) (p - cursor % n) p id start lt (ground arith)
              (inl (ground arith)) at
        | inr gt ↦
            has-visits (x ∷ xs) n (cursor % n) (p + n - cursor % n) p id start lt (ground arith)
              (inr (ground arith)) at
      ])
