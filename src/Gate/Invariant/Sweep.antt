-- ===== src/Gate/Invariant/Sweep.antt =====
-- The invalidation and the sections of its worker keep the invariant.
use daxiang_vpn.Prelude.{
  ℕ, ◌<◌, ◌≡◌, refl, true, false, ◌==◌, arith, branch, ◌&&◌, not, has-remove, has-keep,
}
use daxiang_vpn.Gate.State.{Gate, is_some}
use daxiang_vpn.Gate.Invalidate.{
  quarantine, invalidate, begin_invalidate, close_returned, reap, is_spent, finish_cleanup,
}
use daxiang_vpn.Gate.Invariant.Defs.{RegOk, AdmOk, Inv}
use daxiang_vpn.Gate.Invariant.Frame.{kept-RegOk, split_at, is_nil-has}

module _ {g : Gate} (v : Inv g) where
  quarantine-RegOk : (j : ℕ) → j < g.next_registration → RegOk (quarantine g) j
  unfolding quarantine
  quarantine-RegOk j hj = record {
    known = ground (arith, v.regs j hj);
    listed = λ p. record {
      inner = ground (arith, (v.regs j hj).listed);
      outer = ground (arith, (v.regs j hj).listed);
    };
    fence = λ f p. ground (arith, (v.regs j hj).fence f);
  }

  quarantine-AdmOk : (a : ℕ) → a < g.next_admission → AdmOk (quarantine g) a
  unfolding quarantine
  quarantine-AdmOk a h = record {
    present = ground (arith, v.adms a h);
    client = ground (arith, v.adms a h);
    mine = ground (arith, v.adms a h);
    plain = ground (arith, v.adms a h);
    pointers = λ j p. ground (arith, (v.adms a h).pointers j);
  }

  pub quarantine-Inv : Inv (quarantine g)
  unfolding quarantine
  quarantine-Inv = record { regs = quarantine-RegOk; adms = quarantine-AdmOk }

  -- Neither the owner nor the lease nor the task is part of the invariant.
  pub lease-Inv : (owner expires : ℕ) → Inv (record g { owner = owner; expires = expires })
  lease-Inv owner expires = record {
    regs = λ j h. record {
      known = (v.regs j h).known;
      listed = λ p. let q = (v.regs j h).listed p in record { inner = q.inner; outer = q.outer };
      fence = (v.regs j h).fence;
    };
    adms = λ a h. record {
      present = (v.adms a h).present;
      client = (v.adms a h).client;
      mine = (v.adms a h).mine;
      plain = (v.adms a h).plain;
      pointers = (v.adms a h).pointers;
    };
  }

  module _ (a : ℕ) where
    finish-AdmOk : a < g.next_admission → AdmOk (finish_cleanup g) a
    unfolding finish_cleanup
    finish-AdmOk h = record {
      present = ground (arith, v.adms a h, has-keep (λ b. not (is_spent g b)) a g.admissions);
      client = ground (arith, v.adms a h);
      mine = ground (arith, v.adms a h);
      plain = ground (arith, v.adms a h);
      pointers = λ j p. ground (arith, (v.adms a h).pointers j);
    }

  finish-RegOk : (j : ℕ) → j < g.next_registration → RegOk (finish_cleanup g) j
  unfolding finish_cleanup
  finish-RegOk j hj =
      let old = v.regs j hj in
      let a = (g.reg j).admission in
      kept-RegOk g (finish_cleanup g) j refl (omega arith) (λ q. ground (arith, q))
        (λ q. ground (
          arith,
          q,
          has-keep (λ b. not (is_spent g b)) a g.admissions,
          is_nil-has j (g.adm a).registrations,
        ))
        old

  pub finish-Inv : Inv (finish_cleanup g)
  unfolding finish_cleanup
  finish-Inv = record { regs = finish-RegOk; adms = λ a. finish-AdmOk a }

module _ {g : Gate} (v : Inv g) where
  pub invalidate-Inv : Inv (invalidate g)
  unfolding invalidate
  invalidate-Inv =
      let w = lease-Inv v 0 0 in branch Inv (is_some g.cleanup) (λ _. w) (λ _. quarantine-Inv w)

  pub begin_invalidate-Inv : (owner : ℕ) → Inv (begin_invalidate owner g)
  unfolding begin_invalidate
  begin_invalidate-Inv owner =
      branch Inv (not (owner == 0) && not (g.owner == owner)) (λ _. v) (λ _. invalidate-Inv)

module _ {g : Gate} (v : Inv g) (r : ℕ) (h : r < g.next_registration)
    (closed : close_returned g (g.reg r).conn ≡ true) where
  reap_here : RegOk (reap r g) r
  unfolding reap close_returned
  reap_here = record {
    known = ground (arith, v.regs r h);
    listed = λ p. absurd (ground arith);
    fence = λ f p. ground (arith, (v.regs r h).fence f);
  }

  reap_there : (j : ℕ) → (j == r) ≡ false → j < g.next_registration → RegOk (reap r g) j
  unfolding reap
  reap_there j e hj =
      let a = g.adm (g.reg r).admission in
      kept-RegOk g (reap r g) j (rw e) (omega arith)
        (λ q. ground (arith, q, has-remove j r a.registrations)) (λ q. q.outer) (v.regs j hj)

  reap-AdmOk : (a : ℕ) → a < g.next_admission → AdmOk (reap r g) a
  unfolding reap
  reap-AdmOk a ha = record {
    present = ground (arith, v.adms a ha);
    client = ground (arith, v.adms a ha);
    mine = ground (arith, v.adms a ha);
    plain = ground (arith, v.adms a ha);
    pointers =
        λ j p. ground (arith, (v.adms a ha).pointers j, has-remove j r (g.adm a).registrations);
  }

  pub reap-Inv : Inv (reap r g)
  unfolding reap
  reap-Inv = record {
    regs =
        split_at (λ j. j < g.next_registration → RegOk (reap r g) j) r (λ _. reap_here) reap_there;
    adms = reap-AdmOk;
  }
