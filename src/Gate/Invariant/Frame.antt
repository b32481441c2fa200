-- ===== src/Gate/Invariant/Frame.antt =====
-- What a section owes for a registration that it does not touch.
use daxiang_vpn.Prelude.{
  ℕ, ◌≤◌, ◌≡◌, sym, subst, true, false, ◌==◌, has, arith, inl, inr, Bool-cases, ==→eq, List, [],
  ◌∷◌, refl, none, Option-cases,
}
use daxiang_vpn.Gate.State.{Gate, is_nil}
use daxiang_vpn.Gate.Invariant.Defs.{IsListed, RegOk}

pub is_nil-has : (a : ℕ) (l : List ℕ) → is_nil l ≡ true → has a l ≡ false
is_nil-has a [] h = refl
is_nil-has a (x ∷ l) h = cc

pub kept-RegOk :
    (g g' : Gate) (j : ℕ)
    → g'.reg j ≡ g.reg j
    → g.next_admission ≤ g'.next_admission
    → (IsListed g j → has j (g'.adm (g.reg j).admission).registrations ≡ true)
    → (IsListed g j → has (g.reg j).admission g'.admissions ≡ true)
    → RegOk g j
    → RegOk g' j
kept-RegOk g g' j e le inner outer old = record {
  known = rw e (omega (arith, old.known));
  listed = λ p.
      let q = old.listed (rw e at p) in record { inner = rw e (inner q); outer = rw e (outer q) };
  fence = λ f p. rw e (old.fence f (rw e at p));
}

-- To treat registration `r` apart from the others.
pub split_at {ℓ} :
    (P : ℕ → Type ℓ) (r : ℕ) → P r → ((j : ℕ) → (j == r) ≡ false → P j) → (j : ℕ) → P j
split_at P r here there j = elim (Bool-cases (j == r)) [
  | inl e ↦ subst P (sym (==→eq j r e)) here
  | inr e ↦ there j e
]

pub fence-eq-none :
    {g : Gate} (r : ℕ) → RegOk g r → (g.reg r).attached ≡ false → (g.reg r).fence ≡ none
fence-eq-none {g} r old h = elim (Option-cases (g.reg r).fence) [
  | inl e ↦ e
  | inr (f, e) ↦ cc (h, (old.fence f e).attached)
]
