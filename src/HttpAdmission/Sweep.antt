-- ===== src/HttpAdmission/Sweep.antt =====
-- What a sweep leaves of the counts, the names and the slots.
use daxiang_vpn.Prelude.{
  ℕ, ◌≤◌, ◌<◌, ◌≡◌, ◌≢◌, refl, if◌then◌else◌, none, some, List, [], ◌∷◌, length, arith, update,
}
use daxiang_vpn.HttpAdmission.World.{Below}
use daxiang_vpn.HttpAdmission.Defs.{Config, Source, Entry, find, is_recent, refilled, sweep_loop}

module _ (c : Config) (now : ℕ) where
  -- Leases and limits see nothing of a sweep.
  pub active-sweep_loop :
      (bucket : ℕ → Source) (l : List Entry) (s : ℕ)
      → ((sweep_loop c now bucket l).0 s).active ≡ (bucket s).active
  unfolding sweep_loop
  active-sweep_loop bucket [] s = refl
  active-sweep_loop bucket (e ∷ l) s =
      let s' = bucket e.slot in
      let b = if is_recent c now s' then bucket else update bucket e.slot (refilled c now s') in
      ground (arith, active-sweep_loop b l s)

  pub length-sweep_loop :
      (bucket : ℕ → Source) (l : List Entry) → length (sweep_loop c now bucket l).1 ≤ length l
  unfolding sweep_loop
  length-sweep_loop bucket [] = omega arith
  length-sweep_loop bucket (e ∷ l) =
      let s' = bucket e.slot in
      let b = if is_recent c now s' then bucket else update bucket e.slot (refilled c now s') in
      ground (arith, length-sweep_loop b l)

  pub find-sweep_loop-none :
      (bucket : ℕ → Source) (l : List Entry) (n : ℕ)
      → find n l ≡ none
      → find n (sweep_loop c now bucket l).1 ≡ none
  unfolding sweep_loop find
  find-sweep_loop-none bucket [] n h = refl
  find-sweep_loop-none bucket (e ∷ l) n h =
      let s' = bucket e.slot in
      let b = if is_recent c now s' then bucket else update bucket e.slot (refilled c now s') in
      ground (arith, find-sweep_loop-none b l n)

  -- A bucket in use is still found by its name.
  pub find-sweep_loop_active :
      (bucket : ℕ → Source) (l : List Entry) (n s : ℕ)
      → find n l ≡ some s
      → (bucket s).active ≢ 0
      → find n (sweep_loop c now bucket l).1 ≡ some s
  unfolding sweep_loop find
  find-sweep_loop_active bucket [] n s h p = cc
  find-sweep_loop_active bucket (e ∷ l) n s h p =
      let s' = bucket e.slot in
      let b = if is_recent c now s' then bucket else update bucket e.slot (refilled c now s') in
      ground (arith, find-sweep_loop_active b l n s)

  pub Below-sweep_loop :
      (n : ℕ) (bucket : ℕ → Source) (l : List Entry)
      → Below n l
      → Below n (sweep_loop c now bucket l).1
  unfolding sweep_loop
  Below-sweep_loop n bucket [] h = tt
  Below-sweep_loop n bucket (e ∷ l) (p, q) =
      let s' = bucket e.slot in
      let b = if is_recent c now s' then bucket else update bucket e.slot (refilled c now s') in
      ground (arith, Below-sweep_loop n b l q)

pub find-Below : (n k s : ℕ) (l : List Entry) → find n l ≡ some s → Below k l → s < k
unfolding find
find-Below n k s [] h b = cc
find-Below n k s (e ∷ l) h (p, q) = ground (arith, find-Below n k s l)

pub Below-mono : (m n : ℕ) (l : List Entry) → m ≤ n → Below m l → Below n l
Below-mono m n [] h b = tt
Below-mono m n (e ∷ l) h (p, q) = (omega arith, Below-mono m n l h q)
