-- ===== src/Gate/Revocation/Steps.antt =====
-- No action undoes a revocation.
use daxiang_vpn.Prelude.{
  ℕ, refl, Bool, ◌==◌, Option, none, some, List, [], ◌∷◌, ◌||◌, ◌&&◌, not, ltb, branch,
  if◌then◌else◌,
}
use daxiang_vpn.Gate.State.{Gate, Registration, Fence, Conn, inside, is_some}
use daxiang_vpn.Gate.Invalidate.{close_returned, finish_cleanup}
use daxiang_vpn.Gate.Attach.{attach_first, attach_begin, is_late, close_ready}
use daxiang_vpn.Gate.Fence.{
  Slot, is_active, set_fence, attach_fenced_begin, wraps, new_fence, is_live, begin, end_flag, done,
  revoke_begin, revoke_end, close_begin, close_end,
}
use daxiang_vpn.Gate.Step.{
  Action, owns, grants, closes_for, acquires, reserves, attaches, attaches_fenced, publishes,
  aborts, releases, reaps, untracks, ends, finishes, begins, clears, dones, revokes, unrevokes,
  close_begins, close_ends, in_flight, issued, is_upstream, pending, on_fence, step, run,
}
use daxiang_vpn.Gate.Invariant.Defs.{Inv}
use daxiang_vpn.Gate.Invariant.Steps.{step-Inv}
use daxiang_vpn.Gate.Revocation.Keeps.{Keeps, Keeps-refl, Keeps-trans, set_reg-Keeps}
use daxiang_vpn.Gate.Revocation.Sections.{
  KeepsAfter, own-Keeps, grant-Keeps, begin_invalidate-Keeps, acquire_source-Keeps, reserve-Keeps,
  abort-Keeps, release-Keeps, reap-Keeps, untrack-Keeps, release_admission-Keeps, finish-Keeps,
}

module _ (g : Gate) (r : ℕ) where
  x : Registration
  x = g.reg r

  attach_begin-Keeps : (now : ℕ) (c : Conn) → Keeps g (attach_begin now r c g).0
  unfolding attach_begin attach_first x
  attach_begin-Keeps now c =
      branch (KeepsAfter g) x.attached (λ _. Keeps-refl g)
        λ _.
          branch (KeepsAfter g) (x.aborted || x.released) (λ _. Keeps-refl g)
            λ _.
              branch (KeepsAfter g) (is_late now g r)
                (λ _. set_reg-Keeps g r _ refl (λ p. p) (λ p. p))
                (λ _. set_reg-Keeps g r _ refl (λ p. p) (λ p. p))

  attach_fenced_begin-Keeps : (now : ℕ) (c : Conn) → Keeps g (attach_fenced_begin now r c g).0
  unfolding attach_fenced_begin x
  attach_fenced_begin-Keeps now c =
      branch (KeepsAfter g) (wraps x.fence c) (λ _. Keeps-refl g)
        λ _.
          branch (KeepsAfter g) (x.attached || x.aborted || x.released || is_some x.fence)
            (λ _. Keeps-refl g)
            λ _.
              branch (KeepsAfter g) (is_live now g r (new_fence c))
                (λ _. set_reg-Keeps g r _ refl (λ p. p) (λ p. p))
                (λ _. set_reg-Keeps g r _ refl (λ p. p) (λ p. p))

  set_fence-Keeps : (f : Fence) → Keeps g (set_fence g r f)
  set_fence-Keeps f = set_reg-Keeps g r _ refl (λ p. p) (λ p. p)

  begin-Keeps : (now : ℕ) (s : Slot) (f : Fence) → Keeps g (begin now s r f g).0
  unfolding begin
  begin-Keeps now s f =
      branch (KeepsAfter g) (not (is_live now g r f)) (λ _. Keeps-refl g)
        λ _. branch (KeepsAfter g) (is_active s f) (λ _. Keeps-refl g) (λ _. set_fence-Keeps _)

  revoke_begin-Keeps : (f : Fence) → Keeps g (revoke_begin r f g).0
  unfolding revoke_begin
  revoke_begin-Keeps f =
      branch (KeepsAfter g) f.closed (λ _. Keeps-refl g)
        λ _. branch (KeepsAfter g) f.revoker_active (λ _. Keeps-refl g) (λ _. set_fence-Keeps _)

  on_fence-Keeps : (k : Fence → Gate) → ((f : Fence) → Keeps g (k f)) → Keeps g (on_fence r k g)
  on_fence-Keeps k each =
      branch (Keeps g) (issued r g) (λ _. go (g.reg r).fence) (λ _. Keeps-refl g)
    where
      go : (o : Option Fence) → Keeps g (elim o [ none ↦ g | some f ↦ k f ])
      go none = Keeps-refl g
      go (some f) = each f

-- An action that leaves the state where its guard fails.
guarded-Keeps : {g g' : Gate} (b : Bool) → Keeps g g' → Keeps g (if b then g' else g)
guarded-Keeps {g} b k = branch (Keeps g) b (λ _. k) (λ _. Keeps-refl g)

pub step-Keeps : (e : Action) {g : Gate} → Inv g → Keeps g (step e g)
unfolding step
step-Keeps (owns s) {g} v = own-Keeps g s
step-Keeps (grants now s until) {g} v = grant-Keeps g now s until
step-Keeps (closes_for s) v = begin_invalidate-Keeps v s
step-Keeps (acquires now addr) v = acquire_source-Keeps v now addr
step-Keeps (reserves now a) {g} v = guarded-Keeps (ltb a g.next_admission) (reserve-Keeps v now a)
step-Keeps (attaches now r c) {g} v = guarded-Keeps (issued r g) (attach_begin-Keeps g r now c)
step-Keeps (attaches_fenced now r c) {g} v =
    guarded-Keeps (issued r g && is_upstream r g) (attach_fenced_begin-Keeps g r now c)
step-Keeps (publishes r) {g} v =
    guarded-Keeps (issued r g && (g.reg r).attached)
      (unfold close_ready in set_reg-Keeps g r _ refl (λ p. p) (λ p. p))
step-Keeps (aborts r) {g} v = guarded-Keeps (issued r g) (abort-Keeps g r)
step-Keeps (releases r) {g} v = guarded-Keeps (issued r g) (release-Keeps g (inside r))
step-Keeps (reaps r) {g} v =
    guarded-Keeps (issued r g && pending r g && (g.reg r).ready && close_returned g (g.reg r).conn)
      (reap-Keeps g r)
step-Keeps (untracks a c) {g} v = guarded-Keeps (ltb a g.next_admission) (untrack-Keeps g a c)
step-Keeps (ends a) {g} v = guarded-Keeps (ltb a g.next_admission) (release_admission-Keeps g a)
step-Keeps finishes {g} v = go g.cleanup
  where
    go : (o : Option (List ℕ)) → Keeps g (elim o [ some [] ↦ finish_cleanup g | _ ↦ g ])
    go (some []) = finish-Keeps g
    go none = Keeps-refl g
    go (some (y ∷ l)) = Keeps-refl g
step-Keeps (begins now s r) {g} v = on_fence-Keeps g r _ (begin-Keeps g r now s)
step-Keeps (clears s r) {g} v =
    on_fence-Keeps g r _
      λ f. guarded-Keeps (is_active s f) (unfold end_flag in set_fence-Keeps g r _)
step-Keeps (dones r) {g} v =
    on_fence-Keeps g r _
      λ f. guarded-Keeps (ltb (in_flight f) f.operations) (unfold done in set_fence-Keeps g r _)
step-Keeps (revokes r) {g} v = on_fence-Keeps g r _ (revoke_begin-Keeps g r)
step-Keeps (unrevokes r) {g} v =
    on_fence-Keeps g r _
      λ f. guarded-Keeps f.revoker_active (unfold revoke_end in set_fence-Keeps g r _)
step-Keeps (close_begins r) {g} v = on_fence-Keeps g r _ λ f.
    branch (Keeps g) f.closed (λ _. Keeps-refl g) (λ _. unfold close_begin in set_fence-Keeps g r _)
step-Keeps (close_ends r) {g} v = on_fence-Keeps g r _ λ f.
    guarded-Keeps (f.closed && f.operations == 0 && not f.completed)
      (unfold close_end in Keeps-trans (set_fence-Keeps g r _) (release-Keeps _ (inside r)))

pub run-Keeps : (es : List Action) {g : Gate} → Inv g → Keeps g (run es g)
unfolding run
run-Keeps [] {g} v = Keeps-refl g
run-Keeps (e ∷ es) {g} v = Keeps-trans (step-Keeps e v) (run-Keeps es (step-Inv v e))
