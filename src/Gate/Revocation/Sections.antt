-- ===== src/Gate/Revocation/Sections.antt =====
-- The sections that change more than one registration undo nothing.
use daxiang_vpn.Prelude.{
  ℕ, ◌+◌, ◌≡◌, refl, false, ◌==◌, Option, none, some, List, ◌||◌, ◌&&◌, not, arith, branch, leb,
  ltb, length,
}
use daxiang_vpn.Gate.State.{
  Gate, Registration, Addr, Handle, inside, outside, Conn, is_some, is_nil, leased, max_admissions,
  max_tracked_connections, max_lease,
}
use daxiang_vpn.Gate.Invalidate.{invalidate, begin_invalidate, reap, finish_cleanup}
use daxiang_vpn.Gate.Admit.{admit, enroll, acquire_managed, acquire_source, reserve, any_contains}
use daxiang_vpn.Gate.Attach.{
  drop, is_held, release, abort, find_conn, untrack, release_client, end_admission,
  release_admission,
}
use daxiang_vpn.Gate.Owner.{own, grant}
use daxiang_vpn.Gate.Invariant.Defs.{Inv}
use daxiang_vpn.Gate.Invariant.Sweep.{lease-Inv}
use daxiang_vpn.Gate.Invariant.End.{ended}
use daxiang_vpn.Gate.Revocation.Keeps.{
  Keeps, Keeps-refl, Keeps-trans, set_reg-Keeps, quarantine-Keeps,
}

-- The state that an operation returns beside its result.
abbrev pub KeepsAfter : {B : Type 0} → Gate → Gate × B → Type 0
KeepsAfter g z = Keeps g z.0

lease-Keeps :
    (g : Gate) (owner expires : ℕ) → Keeps g (record g { owner = owner; expires = expires })
lease-Keeps g owner expires = record {
  regs = omega arith;
  adms = omega arith;
  home = λ r h. refl;
  held = λ r h p. p;
  gone = λ r h p. p;
  cut = λ a h p. p;
  swept = λ s. s;
}

pub invalidate-Keeps : {g : Gate} → Inv g → Keeps g (invalidate g)
unfolding invalidate
invalidate-Keeps {g} v =
    branch (Keeps g) (is_some g.cleanup) (λ _. lease-Keeps g 0 0)
      (λ _. Keeps-trans (lease-Keeps g 0 0) (quarantine-Keeps (lease-Inv v 0 0)))

pub begin_invalidate-Keeps : {g : Gate} → Inv g → (s : ℕ) → Keeps g (begin_invalidate s g)
unfolding begin_invalidate
begin_invalidate-Keeps {g} v s =
    branch (Keeps g) (not (s == 0) && not (g.owner == s)) (λ _. Keeps-refl g)
      (λ _. invalidate-Keeps v)

pub reap-Keeps : (g : Gate) (r : ℕ) → Keeps g (reap r g)
unfolding reap
reap-Keeps g r = record {
  regs = omega arith;
  adms = omega arith;
  home = λ j h. ground arith;
  held = λ j h p. ground arith;
  gone = λ j h p. ground arith;
  cut = λ a h p. ground arith;
  swept = λ s c j h p. ground (arith, s (ground arith) j);
}

pub finish-Keeps : (g : Gate) → Keeps g (finish_cleanup g)
unfolding finish_cleanup
finish-Keeps g = record {
  regs = omega arith;
  adms = omega arith;
  home = λ j h. refl;
  held = λ j h p. p;
  gone = λ j h p. p;
  cut = λ a h p. ground arith;
  swept = λ s c j h p. cc;
}

drop-Keeps : (g : Gate) (r : ℕ) → Keeps g (drop r g)
unfolding drop
drop-Keeps g r = record {
  regs = omega arith;
  adms = omega arith;
  home = λ j h. ground arith;
  held = λ j h p. ground arith;
  gone = λ j h p. ground arith;
  cut = λ a h p. ground arith;
  swept = λ s c j h p. ground (arith, s c j);
}

pub release-Keeps : (g : Gate) (k : Handle) → Keeps g (release k g)
unfolding release
release-Keeps g outside = Keeps-refl g
release-Keeps g (inside r) =
    branch (Keeps g) (is_held (g.reg r)) (λ _. Keeps-refl g) (λ _. drop-Keeps g r)

pub untrack-Keeps : (g : Gate) (a : ℕ) (c : Conn) → Keeps g (untrack (inside a) c g)
unfolding untrack
untrack-Keeps g a c = release-Keeps g (find_conn g c (g.adm a).registrations)

pub abort-Keeps : (g : Gate) (r : ℕ) → Keeps g (abort (inside r) g)
unfolding abort
abort-Keeps g r =
    let marked = set_reg-Keeps g r _ refl (λ p. p) (λ p. p) in
    branch (Keeps g) ((g.reg r).attached || (g.reg r).aborted || (g.reg r).released)
      (λ _. Keeps-refl g)
      λ _.
        branch (Keeps g) (g.reg r).quarantined (λ _. marked)
          (λ _. Keeps-trans marked (drop-Keeps _ r))

-- Only while no cleanup runs.
admit-Keeps : (g : Gate) → is_some g.cleanup ≡ false → Keeps g (admit g)
unfolding admit
admit-Keeps g e = record {
  regs = omega arith;
  adms = omega arith;
  home = λ j h. ground arith;
  held = λ j h p. ground arith;
  gone = λ j h p. ground arith;
  cut = λ a h p. ground arith;
  swept = λ s c j h p. cc;
}

enroll-Keeps : (g : Gate) (a : ℕ) → is_some g.cleanup ≡ false → Keeps g (enroll a g)
unfolding enroll
enroll-Keeps g a e = record {
  regs = omega arith;
  adms = omega arith;
  home = λ j h. ground arith;
  held = λ j h p. ground arith;
  gone = λ j h p. ground arith;
  cut = λ b h p. ground arith;
  swept = λ s c j h p. cc;
}

ended-Keeps : (g : Gate) (a : ℕ) → Keeps g (ended g a)
ended-Keeps g a = record {
  regs = omega arith;
  adms = omega arith;
  home = λ j h. refl;
  held = λ j h p. p;
  gone = λ j h p. p;
  cut = λ b h p. ground arith;
  swept = λ s. s;
}

release_client-Keeps : (g : Gate) (a : ℕ) → Keeps g (release_client a g)
unfolding release_client
release_client-Keeps g a =
    branch (Keeps g) (not x.quarantined && not x.released)
      (λ _. record {
        regs = omega arith;
        adms = omega arith;
        home = λ j h. ground arith;
        held = λ j h p. ground arith;
        gone = λ j h p. ground arith;
        cut = λ b h p. ground arith;
        swept = λ s c j h p. ground (arith, s c j);
      })
      (λ _.
        set_reg-Keeps g (g.adm a).client _ (ground arith) (λ p. ground arith) (λ p. ground arith))
  where
    x : Registration
    x = g.reg (g.adm a).client

leave-Keeps : (g : Gate) (l : List ℕ) → Keeps g (record g { admissions = l })
leave-Keeps g l = record {
  regs = omega arith;
  adms = omega arith;
  home = λ r h. refl;
  held = λ r h p. p;
  gone = λ r h p. p;
  cut = λ a h p. p;
  swept = λ s. s;
}

end_admission-Keeps : (g : Gate) (a : ℕ) → Keeps g (end_admission a g)
unfolding end_admission
end_admission-Keeps g a =
    let k = Keeps-trans (ended-Keeps g a) (release_client-Keeps (ended g a) a) in
    branch (Keeps g) (is_nil ((release_client a (ended g a)).adm a).registrations)
      (λ _. Keeps-trans k (leave-Keeps (release_client a (ended g a)) _)) (λ _. k)

pub release_admission-Keeps : (g : Gate) (a : ℕ) → Keeps g (release_admission (inside a) g)
unfolding release_admission
release_admission-Keeps g a =
    branch (Keeps g) (g.adm a).released (λ _. Keeps-refl g) (λ _. end_admission-Keeps g a)

pub own-Keeps : (g : Gate) (s : ℕ) → Keeps g (own s g).0
unfolding own
own-Keeps g s =
    branch (KeepsAfter g) (not g.initialized || is_some g.cleanup || not (is_nil g.admissions))
      (λ _. Keeps-refl g)
      λ _.
        branch (KeepsAfter g) (not (g.owner == 0) && not (g.owner == s)) (λ _. Keeps-refl g)
          (λ _. lease-Keeps g s 0)

pub grant-Keeps : (g : Gate) (now s until : ℕ) → Keeps g (grant now s until g).0
unfolding grant
grant-Keeps g now s until =
    branch (KeepsAfter g) (not (ltb now until) || ltb (now + max_lease) until) (λ _. Keeps-refl g)
      λ _.
        branch (KeepsAfter g) (is_some g.cleanup || not (g.owner == s) || s == 0)
          (λ _. Keeps-refl g) (λ _. lease-Keeps g g.owner until)

module _ {g : Gate} (v : Inv g) (now : ℕ) where
  acquire_managed-Keeps : Keeps g (acquire_managed now g).0
  unfolding acquire_managed
  acquire_managed-Keeps =
      branch (KeepsAfter g) (is_some g.cleanup || not (leased now g)) (λ _. Keeps-refl g)
        λ p.
          branch (KeepsAfter g) (leb max_admissions (length g.admissions))
            (λ _. begin_invalidate-Keeps v 0) (λ _. admit-Keeps g (ground arith))

  pub acquire_source-Keeps : (addr : Option Addr) → Keeps g (acquire_source now addr g).0
  unfolding acquire_source
  acquire_source-Keeps none =
      branch (KeepsAfter g) (not g.initialized) (λ _. Keeps-refl g) (λ _. Keeps-refl g)
  acquire_source-Keeps (some a) =
      branch (KeepsAfter g) (not g.initialized) (λ _. Keeps-refl g)
        λ _.
          branch (KeepsAfter g) (any_contains g.managed a) (λ _. acquire_managed-Keeps)
            (λ _. Keeps-refl g)

  pub reserve-Keeps : (a : ℕ) → Keeps g (reserve now (inside a) g).0
  unfolding reserve
  reserve-Keeps a =
      branch (KeepsAfter g)
        ((g.adm a).released || (g.adm a).cancelled || is_some g.cleanup || not (leased now g))
        (λ _. Keeps-refl g)
        λ p.
          branch (KeepsAfter g) (leb max_tracked_connections (length (g.adm a).registrations))
            (λ _. begin_invalidate-Keeps v 0) (λ _. enroll-Keeps g a (ground arith))
