-- ===== src/Gate/Invariant/End.antt =====
-- `Admission.Release` keeps the invariant.
use daxiang_vpn.Prelude.{
  ℕ, ◌<◌, ◌≡◌, ◌∙◌, refl, true, false, ◌==◌, none, arith, branch, ◌&&◌, not, has-remove, remove,
  update, inl,
}
use daxiang_vpn.Gate.State.{Gate, Registration, is_nil, inside, set_reg, set_adm}
use daxiang_vpn.Gate.Attach.{release_client, end_admission, release_admission}
use daxiang_vpn.Gate.Invariant.Defs.{RegOk, AdmOk, Inv}
use daxiang_vpn.Gate.Invariant.Frame.{kept-RegOk, split_at, is_nil-has}
use daxiang_vpn.Gate.Invariant.Edit.{set_reg-Inv}

-- The mark that an admission has ended.
abbrev pub ended : Gate → ℕ → Gate
ended g a = set_adm g a (record (g.adm a) { released = true; cancelled = true })

ended-released : (g : Gate) (a : ℕ) → ((ended g a).adm a).released ≡ true
ended-released g a = ground arith

module _ {g : Gate} (v : Inv g) (a : ℕ) (h : a < g.next_admission) where
  end_mark-Inv : Inv (ended g a)
  end_mark-Inv = record {
    regs = λ j hj.
        kept-RegOk g (ended g a) j refl (omega arith) (λ q. ground (arith, q)) (λ q. q.outer)
          (v.regs j hj);
    adms = λ b hb. record {
      present = ground (arith, v.adms b hb);
      client = ground (arith, v.adms b hb);
      mine = ground (arith, v.adms b hb);
      plain = ground (arith, v.adms b hb);
      pointers = λ j p. ground (arith, (v.adms b hb).pointers j);
    };
  }

  -- An admission that holds nothing may leave the gate.
  leave-Inv :
      (g.adm a).released ≡ true
      → is_nil (g.adm a).registrations ≡ true
      → Inv (record g { admissions = remove a g.admissions })
  leave-Inv over empty = record {
    regs = λ j hj.
        kept-RegOk g (record g { admissions = remove a g.admissions }) j refl (omega arith)
          (λ q. q.inner)
          (λ q. ground (
            arith,
            q,
            has-remove (g.reg j).admission a g.admissions,
            is_nil-has j (g.adm a).registrations,
          ))
          (v.regs j hj);
    adms = λ b hb. record {
      present = ground (arith, v.adms b hb, has-remove b a g.admissions);
      client = ground (arith, v.adms b hb);
      mine = ground (arith, v.adms b hb);
      plain = ground (arith, v.adms b hb);
      pointers = λ j p. ground (arith, (v.adms b hb).pointers j);
    };
  }

  -- The client with other flags, still listed.
  client_edit-Inv :
      (y : Registration)
      → y.admission ≡ (g.reg (g.adm a).client).admission
      → y.released ≡ (g.reg (g.adm a).client).released
      → y.fence ≡ none
      → Inv (set_reg g (g.adm a).client y)
  client_edit-Inv y p q e =
      set_reg-Inv v _ y (v.adms a h).client p q (λ f k. cc (e, k)) (inl (λ _. e))

  -- The client released and out of the map of its admission, which stays in the gate's.
  module _ (y : Registration) (p : y.admission ≡ a) (q : y.released ≡ true)
      (e : y.fence ≡ none) where
    abbrev client_out : Gate
    client_out = record g {
      reg = update g.reg (g.adm a).client y;
      adm =
          update g.adm a
            (record (g.adm a) { registrations = remove (g.adm a).client (g.adm a).registrations });
    }

    out_here : RegOk client_out (g.adm a).client
    out_here = record {
      known = ground arith;
      listed = λ k. absurd (ground arith);
      fence = λ f k. absurd (ground arith);
    }

    out_there :
        (j : ℕ) → (j == (g.adm a).client) ≡ false → j < g.next_registration → RegOk client_out j
    out_there j ne hj =
        kept-RegOk g client_out j (rw ne) (omega arith)
          (λ k. ground (arith, k, has-remove j (g.adm a).client (g.adm a).registrations))
          (λ k. k.outer) (v.regs j hj)

    out-AdmOk : (b : ℕ) → b < g.next_admission → AdmOk client_out b
    out-AdmOk b hb = record {
      present = ground (arith, v.adms b hb);
      client = ground (arith, v.adms b hb);
      mine = ground (arith, v.adms b hb, v.adms a h);
      plain = ground (arith, v.adms b hb);
      pointers = λ j k.
          ground (
            arith,
            (v.adms b hb).pointers j,
            has-remove j (g.adm a).client (g.adm a).registrations,
          );
    }

    client_out-Inv : Inv client_out
    client_out-Inv = record {
      regs =
          split_at (λ j. j < g.next_registration → RegOk client_out j) (g.adm a).client
            (λ _. out_here) out_there;
      adms = out-AdmOk;
    }

  pub release_client-Inv : Inv (release_client a g)
  unfolding release_client
  release_client-Inv =
      branch Inv (not x.quarantined && not x.released)
        (λ _. client_out-Inv _ (ground (arith, v.adms a h)) refl (ground (arith, v.adms a h)))
        (λ _. client_edit-Inv _ (ground arith) (ground arith) (ground (arith, v.adms a h)))
    where
      x : Registration
      x = g.reg (g.adm a).client

  pub bound_still : (release_client a g).next_admission ≡ g.next_admission
  unfolding release_client
  bound_still = ground arith

  released_still : ((release_client a g).adm a).released ≡ (g.adm a).released
  unfolding release_client
  released_still = ground arith

module _ {g : Gate} (v : Inv g) (a : ℕ) (h : a < g.next_admission) where
  end_admission-Inv : Inv (end_admission a g)
  unfolding end_admission
  end_admission-Inv =
      let w = end_mark-Inv v a h in
      let w' = release_client-Inv w a h in
      branch Inv (is_nil ((release_client a (ended g a)).adm a).registrations)
        (leave-Inv w' a (rw (bound_still w a h) h) (released_still w a h ∙ ended-released g a))
        (λ _. w')

  pub release_admission-Inv : Inv (release_admission (inside a) g)
  unfolding release_admission
  release_admission-Inv = branch Inv (g.adm a).released (λ _. v) (λ _. end_admission-Inv)
