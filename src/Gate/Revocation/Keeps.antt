-- ===== src/Gate/Revocation/Keeps.antt =====
-- What no section undoes: a quarantine, a cancelled admission, a release and the home of a
-- registration. While a cleanup runs, all that is not released stays quarantined.
use daxiang_vpn.Prelude.{
  ℕ, ◌≤◌, ◌<◌, ◌≡◌, refl, ◌∙◌, true, false, List, [], ◌∷◌, not, arith, has, has-append, has-keep,
  keep,
}
use daxiang_vpn.Gate.State.{Gate, Registration, Admission, is_some, set_reg}
use daxiang_vpn.Gate.Invalidate.{collect, quarantine}
use daxiang_vpn.Gate.Invariant.Defs.{Inv}

-- In a running cleanup every registration is released or quarantined.
abbrev pub IsSwept : Gate → Type 0
IsSwept g =
    (r : ℕ) → r < g.next_registration → (g.reg r).released ≡ false → (g.reg r).quarantined ≡ true

abbrev pub SweptInCleanup : Gate → Type 0
SweptInCleanup g = is_some g.cleanup ≡ true → IsSwept g

pub record Keeps (g g' : Gate) : Type 0 where
  pub regs : g.next_registration ≤ g'.next_registration
  pub adms : g.next_admission ≤ g'.next_admission
  pub home : (r : ℕ) → r < g.next_registration → (g'.reg r).admission ≡ (g.reg r).admission
  pub held :
      (r : ℕ)
      → r < g.next_registration
      → (g.reg r).quarantined ≡ true
      → (g'.reg r).quarantined ≡ true
  pub gone :
      (r : ℕ) → r < g.next_registration → (g.reg r).released ≡ true → (g'.reg r).released ≡ true
  pub cut :
      (a : ℕ) → a < g.next_admission → (g.adm a).cancelled ≡ true → (g'.adm a).cancelled ≡ true
  pub swept : SweptInCleanup g → SweptInCleanup g'

pub Keeps-refl : (g : Gate) → Keeps g g
Keeps-refl g = record {
  regs = omega arith;
  adms = omega arith;
  home = λ r h. refl;
  held = λ r h p. p;
  gone = λ r h p. p;
  cut = λ a h p. p;
  swept = λ p. p;
}

pub Keeps-trans : {f g h : Gate} → Keeps f g → Keeps g h → Keeps f h
Keeps-trans k l = record {
  regs = omega (arith, k.regs, l.regs);
  adms = omega (arith, k.adms, l.adms);
  home = λ r p. l.home r (omega (arith, k.regs)) ∙ k.home r p;
  held = λ r p q. l.held r (omega (arith, k.regs)) (k.held r p q);
  gone = λ r p q. l.gone r (omega (arith, k.regs)) (k.gone r p q);
  cut = λ a p q. l.cut a (omega (arith, k.adms)) (k.cut a p q);
  swept = λ p. l.swept (k.swept p);
}

-- A registration rewritten: its home stays, and its flags only rise.
pub set_reg-Keeps :
    (g : Gate) (r : ℕ) (y : Registration)
    → y.admission ≡ (g.reg r).admission
    → ((g.reg r).quarantined ≡ true → y.quarantined ≡ true)
    → ((g.reg r).released ≡ true → y.released ≡ true)
    → Keeps g (set_reg g r y)
set_reg-Keeps g r y home held gone = record {
  regs = omega arith;
  adms = omega arith;
  home = λ j h. ground arith;
  held = λ j h p. ground arith;
  gone = λ j h p. ground arith;
  cut = λ a h p. p;
  swept = λ s c j h p. ground (arith, s c j);
}

has-collect :
    (adm : ℕ → Admission) (reg : ℕ → Registration) (l : List ℕ) (a r : ℕ)
    → has a l ≡ true
    → has r (adm a).registrations ≡ true
    → (reg r).released ≡ false
    → has r (collect adm reg l) ≡ true
unfolding collect
has-collect adm reg [] a r h q p = cc
has-collect adm reg (b ∷ l) a r h q p =
    let mine = keep (λ j. not (reg j).released) (adm b).registrations in
    ground (
      arith,
      has-append r mine (collect adm reg l),
      has-keep (λ j. not (reg j).released) r (adm b).registrations,
      has-collect adm reg l a r,
    )

module _ {g : Gate} (v : Inv g) where
  pub quarantine-IsSwept : IsSwept (quarantine g)
  unfolding quarantine
  quarantine-IsSwept r h p =
      let q = (v.regs r h).listed (ground arith) in
      ground (arith, has-collect g.adm g.reg g.admissions (g.reg r).admission r q.outer q.inner)

  pub quarantine-Keeps : Keeps g (quarantine g)
  unfolding quarantine
  quarantine-Keeps = record {
    regs = omega arith;
    adms = omega arith;
    home = λ j h. ground arith;
    held = λ j h p. ground arith;
    gone = λ j h p. ground arith;
    cut = λ a h p. ground arith;
    swept = λ s c. quarantine-IsSwept;
  }
