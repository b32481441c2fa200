-- ===== src/Gate/Invariant/Drop.antt =====
-- The sections that take a registration out of the maps keep the invariant.
use daxiang_vpn.Prelude.{
  ℕ, ◌<◌, ◌≡◌, refl, true, false, ◌==◌, none, List, arith, inl, inr, Bool-cases, branch, has,
  remove, has-remove, ◌||◌,
}
use daxiang_vpn.Gate.State.{Gate, Registration, inside, set_reg}
use daxiang_vpn.Gate.Attach.{drop, is_held, release, fence_open, abort}
use daxiang_vpn.Gate.Invariant.Defs.{IsListed, RegOk, AdmOk, Inv}
use daxiang_vpn.Gate.Invariant.Frame.{is_nil-has, fence-eq-none, kept-RegOk, split_at}
use daxiang_vpn.Gate.Invariant.Edit.{set_reg-Inv}

module _ {g : Gate} (v : Inv g) (r : ℕ) (h : r < g.next_registration)
    (completed : fence_open (g.reg r) ≡ false) where
  at_r : RegOk (drop r g) r
  unfolding drop
  at_r = record {
    known = ground (arith, v.regs r h);
    listed = λ p. absurd (ground arith);
    fence = λ f p. ground (arith, (v.regs r h).fence f);
  }

  left : List ℕ
  left = remove r (g.adm (g.reg r).admission).registrations

  -- What is still listed of another registration, once `r` is out.
  still_inner :
      (j : ℕ)
      → (j == r) ≡ false
      → IsListed g j
      → has j ((drop r g).adm (g.reg j).admission).registrations ≡ true
  unfolding drop
  still_inner j e q = ground (arith, q, has-remove j r (g.adm (g.reg r).admission).registrations)

  still_outer :
      (j : ℕ)
      → (j == r) ≡ false
      → IsListed g j
      → has (g.reg j).admission (drop r g).admissions ≡ true
  unfolding drop left
  still_outer j e q = ground (
    arith,
    q,
    has-remove j r (g.adm (g.reg r).admission).registrations,
    has-remove (g.reg j).admission (g.reg r).admission g.admissions,
    is_nil-has j left,
  )

  kept : (j : ℕ) → (j == r) ≡ false → (drop r g).reg j ≡ g.reg j
  unfolding drop
  kept j e = rw e

  drop-AdmOk : (a : ℕ) → a < g.next_admission → AdmOk (drop r g) a
  unfolding drop
  drop-AdmOk a ha = record {
    present = ground (arith, v.adms a ha, has-remove a (g.reg r).admission g.admissions);
    client = ground (arith, v.adms a ha);
    mine = ground (arith, v.adms a ha);
    plain = ground (arith, v.adms a ha);
    pointers =
        λ j p. ground (arith, (v.adms a ha).pointers j, has-remove j r (g.adm a).registrations);
  }

  pub drop-Inv : Inv (drop r g)
  unfolding drop
  drop-Inv = record {
    regs =
        split_at (λ j. j < g.next_registration → RegOk (drop r g) j) r (λ _. at_r)
          λ j e hj.
            kept-RegOk g (drop r g) j (kept j e) (omega arith) (still_inner j e) (still_outer j e)
              (v.regs j hj);
    adms = drop-AdmOk;
  }

module _ {g : Gate} (v : Inv g) (r : ℕ) (h : r < g.next_registration) where
  held : is_held (g.reg r) ≡ false → fence_open (g.reg r) ≡ false
  unfolding is_held
  held e = ground arith

  pub release-Inv : Inv (release (inside r) g)
  unfolding release
  release-Inv = elim (Bool-cases (is_held (g.reg r))) [
    | inl e ↦ rw (e, release) v
    | inr e ↦ rw (e, release) (drop-Inv v r h (held e))
  ]

  -- The reservation as `Abort` marks it.
  abbrev pub aborted : Registration
  aborted = record (g.reg r) { aborted = true; ready = true }

  pub abort_mark-Inv : (g.reg r).fence ≡ none → Inv (set_reg g r aborted)
  abort_mark-Inv e = set_reg-Inv v r aborted h refl refl (λ f p. cc) (inl (λ p. e))

  pub abort-Inv : Inv (abort (inside r) g)
  unfolding abort
  abort-Inv =
      branch Inv ((g.reg r).attached || (g.reg r).aborted || (g.reg r).released) (λ _. v)
        λ p.
          let e = fence-eq-none r (v.regs r h) (ground arith) in
          let w = abort_mark-Inv e in
          branch Inv _ (λ _. w) (λ _. drop-Inv w r h (ground (arith, e)))
