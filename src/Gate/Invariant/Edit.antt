-- ===== src/Gate/Invariant/Edit.antt =====
-- A section that rewrites one registration, and leaves where it is listed.
use daxiang_vpn.Prelude.{
  ℕ, ◌<◌, ◌≡◌, sym, subst, true, false, ◌==◌, none, some, arith, inl, inr, ◌⊎◌, Bool-cases, ==→eq,
}
use daxiang_vpn.Gate.State.{Gate, Registration, Fence, set_reg}
use daxiang_vpn.Gate.Step.{is_upstream}
use daxiang_vpn.Gate.Invariant.Defs.{FenceOk, RegOk, AdmOk, Inv}

module _ {g : Gate} (v : Inv g) (r : ℕ) (y : Registration) (h : r < g.next_registration)
    (admission : y.admission ≡ (g.reg r).admission) (released : y.released ≡ (g.reg r).released)
    (fence : (f : Fence) → y.fence ≡ some f → FenceOk r y f) where
  at_r : RegOk (set_reg g r y) r
  at_r = record {
    known = ground (arith, v.regs r h);
    listed = λ p. record {
      inner = ground (arith, (v.regs r h).listed);
      outer = ground (arith, (v.regs r h).listed);
    };
    fence = λ f p. ground (arith, fence f);
  }

  elsewhere : (j : ℕ) → j < g.next_registration → (j == r) ≡ false → RegOk (set_reg g r y) j
  elsewhere j hj e = record {
    known = ground (arith, v.regs j hj);
    listed = λ p. record {
      inner = ground (arith, (v.regs j hj).listed);
      outer = ground (arith, (v.regs j hj).listed);
    };
    fence = λ f p. rw e ((v.regs j hj).fence f (rw e at p));
  }

  set_reg-RegOk : (j : ℕ) → j < g.next_registration → RegOk (set_reg g r y) j
  set_reg-RegOk j hj = elim (Bool-cases (j == r)) [
    | inl e ↦ subst (RegOk (set_reg g r y)) (sym (==→eq j r e)) at_r
    | inr e ↦ elsewhere j hj e
  ]

  module _ (plain : ((g.reg r).fence ≡ none → y.fence ≡ none) ⊎ (is_upstream r g ≡ true)) where
    set_reg-AdmOk : (a : ℕ) → a < g.next_admission → AdmOk (set_reg g r y) a
    set_reg-AdmOk a ha = record {
      present = (v.adms a ha).present;
      client = (v.adms a ha).client;
      mine = ground (arith, v.adms a ha);
      plain = ground (arith, v.adms a ha);
      pointers = (v.adms a ha).pointers;
    }

    pub set_reg-Inv : Inv (set_reg g r y)
    set_reg-Inv = record { regs = set_reg-RegOk; adms = set_reg-AdmOk }
