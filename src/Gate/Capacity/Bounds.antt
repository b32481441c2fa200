-- ===== src/Gate/Capacity/Bounds.antt =====
-- The sizes of the gate's maps and of a cleanup stay within the constants of policy.go.
use daxiang_vpn.Prelude.{
  ℕ, ◌*◌, ◌≤◌, ◌≡◌, refl, false, Option, none, some, List, [], ◌∷◌, ◌&&◌, not, arith, leb, length,
  length-append, length-keep-le, length-remove-le, keep, remove, branch,
}
use daxiang_vpn.Gate.State.{
  Gate, Registration, Admission, max_admissions, max_tracked_connections, max_cleanup_connections,
  set_reg,
}
use daxiang_vpn.Gate.Invalidate.{collect, quarantine, reap, finish_cleanup, is_spent}
use daxiang_vpn.Gate.Admit.{admit, enroll}
use daxiang_vpn.Gate.Attach.{drop, release_client}
use daxiang_vpn.Gate.Invariant.End.{ended}

pub record IsBounded (g : Gate) : Type 0 where
  pub gate : length g.admissions ≤ max_admissions
  pub each : (a : ℕ) → length (g.adm a).registrations ≤ max_tracked_connections
  pub task : (l : List ℕ) → g.cleanup ≡ some l → length l ≤ max_cleanup_connections

length-collect-le :
    (adm : ℕ → Admission) (reg : ℕ → Registration) (l : List ℕ)
    → ((a : ℕ) → length (adm a).registrations ≤ max_tracked_connections)
    → length (collect adm reg l) ≤ max_tracked_connections * length l
unfolding collect
length-collect-le adm reg [] each = omega arith
length-collect-le adm reg (a ∷ l) each =
    let mine = keep (λ r. not (reg r).released) (adm a).registrations in
    omega (
      arith,
      length-append mine (collect adm reg l),
      length-keep-le (λ r. not (reg r).released) (adm a).registrations,
      each a,
      length-collect-le adm reg l each,
    )

module _ {g : Gate} (v : IsBounded g) where
  quarantine-task :
      (l : List ℕ) → (quarantine g).cleanup ≡ some l → length l ≤ max_cleanup_connections
  unfolding quarantine
  quarantine-task l e = ground (arith, length-collect-le g.adm g.reg g.admissions v.each, v.gate)

  pub quarantine-IsBounded : IsBounded (quarantine g)
  unfolding quarantine
  quarantine-IsBounded = record {
    gate = v.gate;
    each = λ a. ground (arith, v.each a);
    task = quarantine-task;
  }

  pub set_reg-IsBounded : (r : ℕ) (y : Registration) → IsBounded (set_reg g r y)
  set_reg-IsBounded r y = record { gate = v.gate; each = v.each; task = v.task }

  pub lease-IsBounded : (s t : ℕ) → IsBounded (record g { owner = s; expires = t })
  lease-IsBounded s t = record { gate = v.gate; each = v.each; task = v.task }

  pub reap-IsBounded : (r : ℕ) → IsBounded (reap r g)
  unfolding reap
  reap-IsBounded r = record {
    gate = v.gate;
    each = λ a. ground (arith, v.each a, length-remove-le r (g.adm a).registrations);
    task = reap_task g.cleanup refl;
  }
    where
      reap_task :
          (o : Option (List ℕ))
          → g.cleanup ≡ o
          → (l : List ℕ)
          → (elim o [ none ↦ none | some pending ↦ some (remove r pending) ]) ≡ some l
          → length l ≤ max_cleanup_connections
      reap_task none e l p = cc
      reap_task (some k) e l p = ground (arith, v.task k e, length-remove-le r k)

  pub finish-IsBounded : IsBounded (finish_cleanup g)
  unfolding finish_cleanup
  finish-IsBounded = record {
    gate = omega (arith, v.gate, length-keep-le (λ a. not (is_spent g a)) g.admissions);
    each = λ a. ground (arith, v.each a);
    task = λ l e. cc;
  }

  pub drop-IsBounded : (r : ℕ) → IsBounded (drop r g)
  unfolding drop
  drop-IsBounded r = record {
    gate = ground (arith, v.gate, length-remove-le (g.reg r).admission g.admissions);
    each = λ a. ground (arith, v.each a, length-remove-le r (g.adm a).registrations);
    task = v.task;
  }

  pub admit-IsBounded : leb max_admissions (length g.admissions) ≡ false → IsBounded (admit g)
  unfolding admit
  admit-IsBounded p = record {
    gate = ground arith;
    each = λ a. ground (arith, v.each a);
    task = v.task;
  }

  pub enroll-IsBounded :
      (a : ℕ)
      → leb max_tracked_connections (length (g.adm a).registrations) ≡ false
      → IsBounded (enroll a g)
  unfolding enroll
  enroll-IsBounded a p = record {
    gate = v.gate;
    each = λ b. ground (arith, v.each b);
    task = v.task;
  }

  pub ended-IsBounded : (a : ℕ) → IsBounded (ended g a)
  ended-IsBounded a = record { gate = v.gate; each = λ b. ground (arith, v.each b); task = v.task }

  pub release_client-IsBounded : (a : ℕ) → IsBounded (release_client a g)
  unfolding release_client
  release_client-IsBounded a =
      branch IsBounded
        (not (g.reg (g.adm a).client).quarantined && not (g.reg (g.adm a).client).released)
        (λ _. record {
          gate = v.gate;
          each = λ b.
              ground (arith, v.each b, length-remove-le (g.adm a).client (g.adm a).registrations);
          task = v.task;
        })
        (λ _. set_reg-IsBounded _ _)

  pub leave-IsBounded : (a : ℕ) → IsBounded (record g { admissions = remove a g.admissions })
  leave-IsBounded a = record {
    gate = omega (arith, v.gate, length-remove-le a g.admissions);
    each = v.each;
    task = v.task;
  }
