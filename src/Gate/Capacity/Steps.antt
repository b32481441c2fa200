-- ===== src/Gate/Capacity/Steps.antt =====
-- Every action keeps the bounds.
use daxiang_vpn.Prelude.{
  ℕ, ◌+◌, Bool, ◌==◌, Option, none, some, List, [], ◌∷◌, ◌||◌, ◌&&◌, not, ltb, leb, length, arith,
  branch, if◌then◌else◌,
}
use daxiang_vpn.Gate.State.{
  Gate, Registration, Fence, Conn, Addr, Prefix, Handle, inside, outside, is_some, is_nil, leased,
  max_lease, max_admissions, max_tracked_connections,
}
use daxiang_vpn.Gate.Invalidate.{invalidate, begin_invalidate, close_returned, finish_cleanup}
use daxiang_vpn.Gate.Admit.{acquire_managed, acquire_source, reserve, any_contains}
use daxiang_vpn.Gate.Attach.{
  attach_first, attach_begin, is_late, close_ready, is_held, release, abort, find_conn, untrack,
  release_client, end_admission, release_admission,
}
use daxiang_vpn.Gate.Owner.{own, grant}
use daxiang_vpn.Gate.Fence.{
  Slot, is_active, attach_fenced_begin, wraps, new_fence, is_live, begin, end_flag, done,
  revoke_begin, revoke_end, close_begin, close_end,
}
use daxiang_vpn.Gate.Step.{
  Action, owns, grants, closes_for, acquires, reserves, attaches, attaches_fenced, publishes,
  aborts, releases, reaps, untracks, ends, finishes, begins, clears, dones, revokes, unrevokes,
  close_begins, close_ends, in_flight, issued, is_upstream, pending, on_fence, step, run, new,
}
use daxiang_vpn.Gate.Invariant.End.{ended}
use daxiang_vpn.Gate.Capacity.Bounds.{
  IsBounded, quarantine-IsBounded, set_reg-IsBounded, lease-IsBounded, reap-IsBounded,
  finish-IsBounded, drop-IsBounded, admit-IsBounded, enroll-IsBounded, ended-IsBounded,
  release_client-IsBounded, leave-IsBounded,
}

abbrev BoundedAfter : {B : Type 0} → Gate × B → Type 0
BoundedAfter z = IsBounded z.0

release-IsBounded : {g : Gate} → IsBounded g → (k : Handle) → IsBounded (release k g)
unfolding release
release-IsBounded v outside = v
release-IsBounded {g} v (inside r) =
    branch IsBounded (is_held (g.reg r)) (λ _. v) (λ _. drop-IsBounded v r)

module _ {g : Gate} (v : IsBounded g) where
  invalidate-IsBounded : IsBounded (invalidate g)
  unfolding invalidate
  invalidate-IsBounded =
      branch IsBounded (is_some g.cleanup) (λ _. lease-IsBounded v 0 0)
        (λ _. quarantine-IsBounded (lease-IsBounded v 0 0))

  begin_invalidate-IsBounded : (s : ℕ) → IsBounded (begin_invalidate s g)
  unfolding begin_invalidate
  begin_invalidate-IsBounded s =
      branch IsBounded (not (s == 0) && not (g.owner == s)) (λ _. v) (λ _. invalidate-IsBounded)

  own-IsBounded : (s : ℕ) → IsBounded (own s g).0
  unfolding own
  own-IsBounded s =
      branch BoundedAfter (not g.initialized || is_some g.cleanup || not (is_nil g.admissions))
        (λ _. v)
        λ _.
          branch BoundedAfter (not (g.owner == 0) && not (g.owner == s)) (λ _. v)
            (λ _. lease-IsBounded v s 0)

  grant-IsBounded : (now s until : ℕ) → IsBounded (grant now s until g).0
  unfolding grant
  grant-IsBounded now s until =
      branch BoundedAfter (not (ltb now until) || ltb (now + max_lease) until) (λ _. v)
        λ _.
          branch BoundedAfter (is_some g.cleanup || not (g.owner == s) || s == 0) (λ _. v)
            (λ _. lease-IsBounded v g.owner until)

  acquire_managed-IsBounded : (now : ℕ) → IsBounded (acquire_managed now g).0
  unfolding acquire_managed
  acquire_managed-IsBounded now =
      branch BoundedAfter (is_some g.cleanup || not (leased now g)) (λ _. v)
        λ _.
          branch BoundedAfter (leb max_admissions (length g.admissions))
            (λ _. begin_invalidate-IsBounded 0) (admit-IsBounded v)

  acquire_source-IsBounded :
      (now : ℕ) (addr : Option Addr) → IsBounded (acquire_source now addr g).0
  unfolding acquire_source
  acquire_source-IsBounded now none = branch BoundedAfter (not g.initialized) (λ _. v) (λ _. v)
  acquire_source-IsBounded now (some a) =
      branch BoundedAfter (not g.initialized) (λ _. v)
        λ _.
          branch BoundedAfter (any_contains g.managed a) (λ _. acquire_managed-IsBounded now)
            (λ _. v)

  reserve-IsBounded : (now a : ℕ) → IsBounded (reserve now (inside a) g).0
  unfolding reserve
  reserve-IsBounded now a =
      branch BoundedAfter
        ((g.adm a).released || (g.adm a).cancelled || is_some g.cleanup || not (leased now g))
        (λ _. v)
        λ _.
          branch BoundedAfter (leb max_tracked_connections (length (g.adm a).registrations))
            (λ _. begin_invalidate-IsBounded 0) (enroll-IsBounded v a)

  abort-IsBounded : (r : ℕ) → IsBounded (abort (inside r) g)
  unfolding abort
  abort-IsBounded r =
      branch IsBounded ((g.reg r).attached || (g.reg r).aborted || (g.reg r).released) (λ _. v)
        λ _.
          branch IsBounded (g.reg r).quarantined (λ _. set_reg-IsBounded v r _)
            (λ _. drop-IsBounded (set_reg-IsBounded v r _) r)

  end_admission-IsBounded : (a : ℕ) → IsBounded (end_admission a g)
  unfolding end_admission
  end_admission-IsBounded a =
      let w = release_client-IsBounded (ended-IsBounded v a) a in
      branch IsBounded (is_nil ((release_client a (ended g a)).adm a).registrations)
        (λ _. leave-IsBounded w a) (λ _. w)

  release_admission-IsBounded : (a : ℕ) → IsBounded (release_admission (inside a) g)
  unfolding release_admission
  release_admission-IsBounded a =
      branch IsBounded (g.adm a).released (λ _. v) (λ _. end_admission-IsBounded a)

  module _ (r : ℕ) where
    x : Registration
    x = g.reg r

    attach_begin-IsBounded : (now : ℕ) (c : Conn) → IsBounded (attach_begin now r c g).0
    unfolding attach_begin attach_first x
    attach_begin-IsBounded now c =
        branch BoundedAfter x.attached (λ _. v)
          λ _.
            branch BoundedAfter (x.aborted || x.released) (λ _. v)
              λ _.
                branch BoundedAfter (is_late now g r) (λ _. set_reg-IsBounded v r _)
                  (λ _. set_reg-IsBounded v r _)

    attach_fenced_begin-IsBounded :
        (now : ℕ) (c : Conn) → IsBounded (attach_fenced_begin now r c g).0
    unfolding attach_fenced_begin x
    attach_fenced_begin-IsBounded now c =
        branch BoundedAfter (wraps x.fence c) (λ _. v)
          λ _.
            branch BoundedAfter (x.attached || x.aborted || x.released || is_some x.fence) (λ _. v)
              λ _.
                branch BoundedAfter (is_live now g r (new_fence c)) (λ _. set_reg-IsBounded v r _)
                  (λ _. set_reg-IsBounded v r _)

    begin-IsBounded : (now : ℕ) (s : Slot) (f : Fence) → IsBounded (begin now s r f g).0
    unfolding begin
    begin-IsBounded now s f =
        branch BoundedAfter (not (is_live now g r f)) (λ _. v)
          λ _. branch BoundedAfter (is_active s f) (λ _. v) (λ _. set_reg-IsBounded v r _)

    revoke_begin-IsBounded : (f : Fence) → IsBounded (revoke_begin r f g).0
    unfolding revoke_begin
    revoke_begin-IsBounded f =
        branch BoundedAfter f.closed (λ _. v)
          λ _. branch BoundedAfter f.revoker_active (λ _. v) (λ _. set_reg-IsBounded v r _)

    on_fence-IsBounded :
        (k : Fence → Gate) → ((f : Fence) → IsBounded (k f)) → IsBounded (on_fence r k g)
    on_fence-IsBounded k each = branch IsBounded (issued r g) (λ _. go (g.reg r).fence) (λ _. v)
      where
        go : (o : Option Fence) → IsBounded (elim o [ none ↦ g | some f ↦ k f ])
        go none = v
        go (some f) = each f

  guarded-IsBounded : {g' : Gate} (b : Bool) → IsBounded g' → IsBounded (if b then g' else g)
  guarded-IsBounded b w = branch IsBounded b (λ _. w) (λ _. v)

  pub step-IsBounded : (e : Action) → IsBounded (step e g)
  unfolding step
  step-IsBounded (owns s) = own-IsBounded s
  step-IsBounded (grants now s until) = grant-IsBounded now s until
  step-IsBounded (closes_for s) = begin_invalidate-IsBounded s
  step-IsBounded (acquires now addr) = acquire_source-IsBounded now addr
  step-IsBounded (reserves now a) =
      guarded-IsBounded (ltb a g.next_admission) (reserve-IsBounded now a)
  step-IsBounded (attaches now r c) =
      guarded-IsBounded (issued r g) (attach_begin-IsBounded r now c)
  step-IsBounded (attaches_fenced now r c) =
      guarded-IsBounded (issued r g && is_upstream r g) (attach_fenced_begin-IsBounded r now c)
  step-IsBounded (publishes r) =
      guarded-IsBounded (issued r g && (g.reg r).attached)
        (unfold close_ready in set_reg-IsBounded v r _)
  step-IsBounded (aborts r) = guarded-IsBounded (issued r g) (abort-IsBounded r)
  step-IsBounded (releases r) = guarded-IsBounded (issued r g) (release-IsBounded v (inside r))
  step-IsBounded (reaps r) =
      guarded-IsBounded
        (issued r g && pending r g && (g.reg r).ready && close_returned g (g.reg r).conn)
        (reap-IsBounded v r)
  step-IsBounded (untracks a c) =
      guarded-IsBounded (ltb a g.next_admission)
        (unfold untrack in release-IsBounded v (find_conn g c (g.adm a).registrations))
  step-IsBounded (ends a) =
      guarded-IsBounded (ltb a g.next_admission) (release_admission-IsBounded a)
  step-IsBounded finishes = go g.cleanup
    where
      go : (o : Option (List ℕ)) → IsBounded (elim o [ some [] ↦ finish_cleanup g | _ ↦ g ])
      go (some []) = finish-IsBounded v
      go none = v
      go (some (y ∷ l)) = v
  step-IsBounded (begins now s r) = on_fence-IsBounded r _ (begin-IsBounded r now s)
  step-IsBounded (clears s r) =
      on_fence-IsBounded r _
        λ f. guarded-IsBounded (is_active s f) (unfold end_flag in set_reg-IsBounded v r _)
  step-IsBounded (dones r) = on_fence-IsBounded r _ λ f.
      guarded-IsBounded (ltb (in_flight f) f.operations) (unfold done in set_reg-IsBounded v r _)
  step-IsBounded (revokes r) = on_fence-IsBounded r _ (revoke_begin-IsBounded r)
  step-IsBounded (unrevokes r) =
      on_fence-IsBounded r _
        λ f. guarded-IsBounded f.revoker_active (unfold revoke_end in set_reg-IsBounded v r _)
  step-IsBounded (close_begins r) =
      on_fence-IsBounded r _
        λ f. branch IsBounded f.closed (λ _. v) (λ _. unfold close_begin in set_reg-IsBounded v r _)
  step-IsBounded (close_ends r) = on_fence-IsBounded r _ λ f.
      guarded-IsBounded (f.closed && f.operations == 0 && not f.completed) (close_end-IsBounded r f)
    where
      close_end-IsBounded : (r : ℕ) (f : Fence) → IsBounded (close_end r f g)
      close_end-IsBounded r f =
          unfold close_end in release-IsBounded (set_reg-IsBounded v r _) (inside r)

-- After any interleaving the gate holds at most 4096 admissions, each admission at most 4
-- registrations, and a cleanup at most the product of the two.
pub run-IsBounded : (es : List Action) {g : Gate} → IsBounded g → IsBounded (run es g)
unfolding run
run-IsBounded [] v = v
run-IsBounded (e ∷ es) v = run-IsBounded es (step-IsBounded v e)

pub new-IsBounded : (managed : List Prefix) → IsBounded (new managed)
unfolding new
new-IsBounded managed = record { gate = omega arith; each = λ a. omega arith; task = λ l e. cc }
