-- ===== src/Gate/Invariant/Growth.antt =====
-- Acquisition and reservation keep the invariant.
use daxiang_vpn.Prelude.{ℕ, suc, ◌<◌, ◌≡◌, false, ◌≢◌, arith, ==→ne}
use daxiang_vpn.Gate.State.{Gate}
use daxiang_vpn.Gate.Admit.{admit, enroll}
use daxiang_vpn.Gate.Invariant.Defs.{RegOk, AdmOk, Inv}
use daxiang_vpn.Gate.Invariant.Frame.{kept-RegOk, split_at}

module _ {g : Gate} (v : Inv g) where
  admit_new : RegOk (admit g) g.next_registration
  unfolding admit
  admit_new = record {
    known = ground arith;
    listed = λ p. record { inner = ground arith; outer = ground arith };
    fence = λ f p. absurd (ground arith);
  }

  -- Pointers in use are below the counters, so a new object hides none.
  admit_old : (j : ℕ) → j < g.next_registration → RegOk (admit g) j
  unfolding admit
  admit_old j hj =
      let old = v.regs j hj in
      kept-RegOk g (admit g) j (ground arith) (omega arith) (λ q. ground (arith, q, old.known))
        (λ q. ground (arith, q, old.known)) old

  admit-AdmOk : (a : ℕ) → a < suc g.next_admission → AdmOk (admit g) a
  admit-AdmOk =
      split_at (λ a. a < suc g.next_admission → AdmOk (admit g) a) g.next_admission (λ _. here)
        (λ a e h. there a (==→ne a _ e) (omega (arith, ==→ne a _ e)))
    where
      here : AdmOk (admit g) g.next_admission
      here =
          unfold admit in
          record {
            present = ground arith;
            client = ground arith;
            mine = ground arith;
            plain = ground arith;
            pointers = λ j p. ground arith;
          }

      there : (a : ℕ) → a ≢ g.next_admission → a < g.next_admission → AdmOk (admit g) a
      there a e h =
          unfold admit in
          record {
            present = ground (arith, v.adms a h);
            client = ground (arith, v.adms a h);
            mine = ground (arith, v.adms a h);
            plain = ground (arith, v.adms a h);
            pointers = λ j p. ground (arith, (v.adms a h).pointers j);
          }

  pub admit-Inv : Inv (admit g)
  unfolding admit
  admit-Inv = record {
    regs =
        split_at (λ j. j < suc g.next_registration → RegOk (admit g) j) g.next_registration
          (λ _. admit_new) (λ j e h. admit_old j (omega (arith, ==→ne j _ e)));
    adms = admit-AdmOk;
  }

  module _ (a : ℕ) (h : a < g.next_admission) (open_admission : (g.adm a).released ≡ false) where
    enroll_new : RegOk (enroll a g) g.next_registration
    unfolding enroll
    enroll_new = record {
      known = ground arith;
      listed = λ p. record { inner = ground arith; outer = ground (arith, v.adms a h) };
      fence = λ f p. absurd (ground arith);
    }

    enroll_old : (j : ℕ) → j < g.next_registration → RegOk (enroll a g) j
    unfolding enroll
    enroll_old j hj =
        let old = v.regs j hj in
        kept-RegOk g (enroll a g) j (ground arith) (omega arith) (λ q. ground (arith, q))
          (λ q. ground (arith, q)) old

    enroll-AdmOk : (b : ℕ) → b < g.next_admission → AdmOk (enroll a g) b
    unfolding enroll
    enroll-AdmOk b hb = record {
      present = ground (arith, v.adms b hb);
      client = ground (arith, v.adms b hb);
      mine = ground (arith, v.adms b hb);
      plain = ground (arith, v.adms b hb);
      pointers = λ j p. ground (arith, (v.adms b hb).pointers j);
    }

    pub enroll-Inv : Inv (enroll a g)
    unfolding enroll
    enroll-Inv = record {
      regs =
          split_at (λ j. j < suc g.next_registration → RegOk (enroll a g) j) g.next_registration
            (λ _. enroll_new) (λ j e hj. enroll_old j (omega (arith, ==→ne j _ e)));
      adms = enroll-AdmOk;
    }
