-- ===== src/Gate/Invalidate.antt =====
-- gate.go: `beginInvalidateLocked`, `closeFor` and the cleanup worker of `finishCleanup`.
use daxiang_vpn.Prelude.{
  ℕ, Bool, true, ◌&&◌, not, Option, none, some, List, [], ◌∷◌, ◌++◌, ◌==◌, if◌then◌else◌, keep, has,
  remove, update,
}
use daxiang_vpn.Gate.State.{Gate, Admission, Registration, Conn, raw, fenced, is_some, is_nil}

-- The registrations of the listed admissions that are not released.
unfoldable pub collect : (ℕ → Admission) → (ℕ → Registration) → List ℕ → List ℕ
collect adm reg [] = []
collect adm reg (a ∷ l) =
    keep (λ r. not (reg r).released) (adm a).registrations ++ collect adm reg l

-- The loop over `g.admissions`: it cancels each, and quarantines what is in flight.
unfoldable pub quarantine : Gate → Gate
quarantine g =
    let regs = collect g.adm g.reg g.admissions in
    record g {
      adm = λ a. if has a g.admissions then record (g.adm a) { cancelled = true } else g.adm a;
      reg = λ r. if has r regs then record (g.reg r) { quarantined = true } else g.reg r;
      cleanup = if is_nil regs then none else some regs;
    }

-- Behind the owner check: the lease ends in any case, a running task is left alone.
unfoldable pub invalidate : Gate → Gate
unfolding quarantine
invalidate g =
    let g' = record g { owner = 0; expires = 0 } in if is_some g.cleanup then g' else quarantine g'

unfoldable pub begin_invalidate : ℕ → Gate → Gate
unfolding invalidate
begin_invalidate owner g = if not (owner == 0) && not (g.owner == owner) then g else invalidate g

-- `finishCleanup` only starts the worker, whose steps are below.
unfoldable pub close_for : ℕ → Gate → Gate
unfolding begin_invalidate
close_for owner g = begin_invalidate owner g

-- Whether `c.Close()` can have returned: a fence's `Close` returns once it is completed.
unfoldable pub close_returned : Gate → Option Conn → Bool
close_returned g none = true
close_returned g (some (raw c)) = true
close_returned g (some (fenced r)) = elim (g.reg r).fence [ none ↦ true | some f ↦ f.completed ]

-- One round of a worker, after `<-r.ready` and `c.Close()`.
unfoldable pub reap : ℕ → Gate → Gate
reap r g =
    let x = g.reg r in
    let a = g.adm x.admission in
    record g {
      reg = update g.reg r (record x { released = true });
      adm = update g.adm x.admission (record a { registrations = remove r a.registrations });
      cleanup = elim g.cleanup [ none ↦ none | some pending ↦ some (remove r pending) ];
    }

-- An admission that the last section of the worker drops.
abbrev pub is_spent : Gate → ℕ → Bool
is_spent g a = (g.adm a).cancelled && is_nil (g.adm a).registrations

-- The last section of the task, when all its workers are done.
unfoldable pub finish_cleanup : Gate → Gate
finish_cleanup g = record g {
  adm = λ a.
      if has a g.admissions && is_spent g a then record (g.adm a) { released = true } else g.adm a;
  admissions = keep (λ a. not (is_spent g a)) g.admissions;
  cleanup = none;
}
