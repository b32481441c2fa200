-- ===== src/Gate/Invariant/Steps.antt =====
-- Every action keeps the invariant, so it holds after any interleaving.
use daxiang_vpn.Prelude.{
  ℕ, ◌+◌, ◌<◌, ◌≡◌, refl, true, ◌==◌, Option, none, some, List, [], ◌∷◌, ◌||◌, ◌&&◌, not, ltb, leb,
  length, arith, branch, ltb→lt,
}
use daxiang_vpn.Gate.State.{
  Gate, Fence, Addr, Prefix, inside, is_some, is_nil, leased, max_lease, max_admissions,
  max_tracked_connections,
}
use daxiang_vpn.Gate.Invalidate.{close_returned, finish_cleanup}
use daxiang_vpn.Gate.Admit.{acquire_managed, acquire_source, reserve, any_contains}
use daxiang_vpn.Gate.Owner.{own, grant}
use daxiang_vpn.Gate.Fence.{close_end, is_active}
use daxiang_vpn.Gate.Step.{
  Action, owns, grants, closes_for, acquires, reserves, attaches, attaches_fenced, publishes,
  aborts, releases, reaps, untracks, ends, finishes, begins, clears, dones, revokes, unrevokes,
  close_begins, close_ends, in_flight, issued, is_upstream, pending, on_fence, step, run, new,
}
use daxiang_vpn.Gate.Invariant.Defs.{Inv, InvAfter}
use daxiang_vpn.Gate.Invariant.Fences.{
  begin-Inv, end_flag-Inv, done-Inv, revoke_begin-Inv, revoke_end-Inv, close_begin-Inv,
  completed-Inv,
}
use daxiang_vpn.Gate.Invariant.Drop.{release-Inv, abort-Inv}
use daxiang_vpn.Gate.Invariant.Growth.{admit-Inv, enroll-Inv}
use daxiang_vpn.Gate.Invariant.Sweep.{lease-Inv, begin_invalidate-Inv, finish-Inv, reap-Inv}
use daxiang_vpn.Gate.Invariant.Attach.{
  attach_begin-Inv, close_ready-Inv, attach_fenced_begin-Inv, untrack-Inv,
}
use daxiang_vpn.Gate.Invariant.End.{release_admission-Inv}

module _ {g : Gate} (v : Inv g) where
  own-Inv : (s : ℕ) → Inv (own s g).0
  unfolding own
  own-Inv s =
      branch InvAfter (not g.initialized || is_some g.cleanup || not (is_nil g.admissions)) (λ _. v)
        λ _.
          branch InvAfter (not (g.owner == 0) && not (g.owner == s)) (λ _. v) (λ _. lease-Inv v s 0)

  grant-Inv : (now s until : ℕ) → Inv (grant now s until g).0
  unfolding grant
  grant-Inv now s until =
      branch InvAfter (not (ltb now until) || ltb (now + max_lease) until) (λ _. v)
        λ _.
          branch InvAfter (is_some g.cleanup || not (g.owner == s) || s == 0) (λ _. v)
            (λ _. lease-Inv v g.owner until)

  acquire_managed-Inv : (now : ℕ) → Inv (acquire_managed now g).0
  unfolding acquire_managed
  acquire_managed-Inv now =
      branch InvAfter (is_some g.cleanup || not (leased now g)) (λ _. v)
        λ _.
          branch InvAfter (leb max_admissions (length g.admissions)) (λ _. begin_invalidate-Inv v 0)
            (λ _. admit-Inv v)

  acquire_source-Inv : (now : ℕ) (addr : Option Addr) → Inv (acquire_source now addr g).0
  unfolding acquire_source
  acquire_source-Inv now none = branch InvAfter (not g.initialized) (λ _. v) (λ _. v)
  acquire_source-Inv now (some a) =
      branch InvAfter (not g.initialized) (λ _. v)
        λ _. branch InvAfter (any_contains g.managed a) (λ _. acquire_managed-Inv now) (λ _. v)

  reserve-Inv : (now a : ℕ) → a < g.next_admission → Inv (reserve now (inside a) g).0
  unfolding reserve
  reserve-Inv now a h =
      branch InvAfter
        ((g.adm a).released || (g.adm a).cancelled || is_some g.cleanup || not (leased now g))
        (λ _. v)
        λ p.
          branch InvAfter (leb max_tracked_connections (length (g.adm a).registrations))
            (λ _. begin_invalidate-Inv v 0) (λ _. enroll-Inv v a h (ground arith))

  on_fence-Inv :
      (r : ℕ) (k : Fence → Gate)
      → (r < g.next_registration → (f : Fence) → (g.reg r).fence ≡ some f → Inv (k f))
      → Inv (on_fence r k g)
  on_fence-Inv r k each =
      branch Inv (issued r g) (λ p. go (g.reg r).fence refl (ltb→lt _ _ p)) (λ _. v)
    where
      go :
          (o : Option Fence)
          → (g.reg r).fence ≡ o
          → r < g.next_registration
          → Inv (elim o [ none ↦ g | some f ↦ k f ])
      go none e h = v
      go (some f) e h = each h f e

  close_end-Inv :
      (r : ℕ)
      → r < g.next_registration
      → (f : Fence) → (g.reg r).fence ≡ some f
      → f.closed ≡ true
      → f.operations ≡ 0
      → Inv (close_end r f g)
  unfolding close_end
  close_end-Inv r h f e closed drained = release-Inv (completed-Inv v r h f e closed drained) r h

  -- Every action keeps the invariant.
  pub step-Inv : (e : Action) → Inv (step e g)
  unfolding step
  step-Inv (owns s) = own-Inv s
  step-Inv (grants now s until) = grant-Inv now s until
  step-Inv (closes_for s) = begin_invalidate-Inv v s
  step-Inv (acquires now addr) = acquire_source-Inv now addr
  step-Inv (reserves now a) =
      branch Inv (ltb a g.next_admission) (λ p. reserve-Inv now a (ltb→lt _ _ p)) (λ _. v)
  step-Inv (attaches now r c) =
      branch Inv (issued r g) (λ p. attach_begin-Inv v r (ltb→lt _ _ p) now c) (λ _. v)
  step-Inv (attaches_fenced now r c) =
      branch Inv (issued r g && is_upstream r g)
        (λ p. attach_fenced_begin-Inv v r (ground arith) (ground arith) now c) (λ _. v)
  step-Inv (publishes r) =
      branch Inv (issued r g && (g.reg r).attached) (λ p. close_ready-Inv v r (ground arith))
        (λ _. v)
  step-Inv (aborts r) = branch Inv (issued r g) (λ p. abort-Inv v r (ltb→lt _ _ p)) (λ _. v)
  step-Inv (releases r) = branch Inv (issued r g) (λ p. release-Inv v r (ltb→lt _ _ p)) (λ _. v)
  step-Inv (reaps r) =
      branch Inv (issued r g && pending r g && (g.reg r).ready && close_returned g (g.reg r).conn)
        (λ p. reap-Inv v r (ground arith) (ground arith)) (λ _. v)
  step-Inv (untracks a c) =
      branch Inv (ltb a g.next_admission) (λ p. untrack-Inv v a (ltb→lt _ _ p) c) (λ _. v)
  step-Inv (ends a) =
      branch Inv (ltb a g.next_admission) (λ p. release_admission-Inv v a (ltb→lt _ _ p)) (λ _. v)
  step-Inv finishes = go g.cleanup
    where
      go : (o : Option (List ℕ)) → Inv (elim o [ some [] ↦ finish_cleanup g | _ ↦ g ])
      go (some []) = finish-Inv v
      go none = v
      go (some (x ∷ l)) = v
  step-Inv (begins now s r) = on_fence-Inv r _ (λ h f e. begin-Inv v r h f e now s)
  step-Inv (clears s r) =
      on_fence-Inv r _ λ h f e. branch Inv (is_active s f) (λ _. end_flag-Inv v r h f e s) (λ _. v)
  step-Inv (dones r) = on_fence-Inv r _ λ h f e.
      branch Inv (ltb (in_flight f) f.operations) (λ p. done-Inv v r h f e (ltb→lt _ _ p)) (λ _. v)
  step-Inv (revokes r) = on_fence-Inv r _ (λ h f e. revoke_begin-Inv v r h f e)
  step-Inv (unrevokes r) =
      on_fence-Inv r _ λ h f e. branch Inv f.revoker_active (λ _. revoke_end-Inv v r h f e) (λ _. v)
  step-Inv (close_begins r) =
      on_fence-Inv r _ λ h f e. branch Inv f.closed (λ _. v) (λ _. close_begin-Inv v r h f e)
  step-Inv (close_ends r) = on_fence-Inv r _ λ h f e.
      branch Inv (f.closed && f.operations == 0 && not f.completed)
        (λ p. close_end-Inv r h f e (ground arith) (ground arith)) (λ _. v)

pub run-Inv : (es : List Action) {g : Gate} → Inv g → Inv (run es g)
unfolding run
run-Inv [] v = v
run-Inv (e ∷ es) v = run-Inv es (step-Inv v e)

pub new-Inv : (managed : List Prefix) → Inv (new managed)
unfolding new
new-Inv managed = record { regs = λ r h. absurd (omega arith); adms = λ a h. absurd (omega arith) }
