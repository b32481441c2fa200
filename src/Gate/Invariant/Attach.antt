-- ===== src/Gate/Invariant/Attach.antt =====
-- The sections of both `Attach` methods and the end of an admission keep the invariant.
use daxiang_vpn.Prelude.{
  ℕ, ◌<◌, ◌≡◌, refl, Bool, true, false, List, [], ◌∷◌, arith, branch, has, ◌||◌, some, inl, inr,
}
use daxiang_vpn.Gate.State.{
  Gate, Registration, Conn, fenced, inside, Handle, outside, set_reg, is_some,
}
use daxiang_vpn.Gate.Attach.{
  attach_first, attach_begin, is_late, close_ready, find_conn, untrack, release,
}
use daxiang_vpn.Gate.Fence.{attach_fenced_begin, is_live, wraps, new_fence}
use daxiang_vpn.Gate.Step.{is_upstream}
use daxiang_vpn.Gate.Invariant.Defs.{Inv, InvAfter}
use daxiang_vpn.Gate.Invariant.Frame.{fence-eq-none}
use daxiang_vpn.Gate.Invariant.Edit.{set_reg-Inv}
use daxiang_vpn.Gate.Invariant.Drop.{release-Inv}

module _ {g : Gate} (v : Inv g) (r : ℕ) (h : r < g.next_registration) where
  -- While the registration has no connection, it may be given one, published or not.
  attached-Inv :
      (c : Conn) (ready : Bool)
      → (g.reg r).attached ≡ false
      → Inv (set_reg g r (record (g.reg r) { conn = some c; attached = true; ready = ready }))
  attached-Inv c ready p =
      let e = fence-eq-none r (v.regs r h) p in
      set_reg-Inv v r _ h refl refl (λ f q. cc (e)) (inl (λ _. e))

  attach_first-Inv :
      (now : ℕ) (c : Conn) → (g.reg r).attached ≡ false → Inv (attach_first now r c g).0
  unfolding attach_first
  attach_first-Inv now c p =
      branch InvAfter (is_late now g r) (λ _. attached-Inv c (g.reg r).ready p)
        (λ _. attached-Inv c true p)

  pub attach_begin-Inv : (now : ℕ) (c : Conn) → Inv (attach_begin now r c g).0
  unfolding attach_begin
  attach_begin-Inv now c =
      branch InvAfter (g.reg r).attached (λ _. v)
        λ p.
          branch InvAfter ((g.reg r).aborted || (g.reg r).released) (λ _. v)
            (λ _. attach_first-Inv now c p)

  pub close_ready-Inv : Inv (close_ready r g)
  unfolding close_ready
  close_ready-Inv =
      set_reg-Inv v r _ h refl refl (λ f q. ground (arith, (v.regs r h).fence f)) (inl (λ e. e))

  module _ (upstream : is_upstream r g ≡ true) where
    wrapped-Inv :
        (c : Conn) (ready : Bool)
        → (g.reg r).released ≡ false
        → Inv (
            set_reg g r (record (g.reg r) {
              fence = some (new_fence c);
              conn = some (fenced r);
              attached = true;
              ready = ready;
            }))
    wrapped-Inv c ready p = set_reg-Inv v r _ h refl refl (λ f q. ground arith) (inr upstream)

    pub attach_fenced_begin-Inv : (now : ℕ) (c : Conn) → Inv (attach_fenced_begin now r c g).0
    unfolding attach_fenced_begin
    attach_fenced_begin-Inv now c =
        branch InvAfter (wraps x.fence c) (λ _. v)
          λ _.
            branch InvAfter (x.attached || x.aborted || x.released || is_some x.fence) (λ _. v)
              λ p.
                branch InvAfter (is_live now g r (new_fence c))
                  (λ _. wrapped-Inv c true (ground arith))
                  (λ _. wrapped-Inv c x.ready (ground arith))
      where
        x : Registration
        x = g.reg r

-- `Untrack` finds nothing outside the list it walks.
pub find_conn-lt :
    (g : Gate) (n : ℕ) (c : Conn) (l : List ℕ)
    → ((j : ℕ) → has j l ≡ true → j < n)
    → (r : ℕ) → find_conn g c l ≡ inside r
    → r < n
unfolding find_conn
find_conn-lt g n c [] below r e = cc
find_conn-lt g n c (x ∷ l) below r e =
    ground (arith, below x, find_conn-lt g n c l (λ j p. below j (ground arith)) r)

module _ {g : Gate} (v : Inv g) (a : ℕ) (h : a < g.next_admission) (c : Conn) where
  pub untrack-Inv : Inv (untrack (inside a) c g)
  unfolding untrack
  untrack-Inv = go (find_conn g c (g.adm a).registrations) refl
    where
      go : (k : Handle) → find_conn g c (g.adm a).registrations ≡ k → Inv (release k g)
      go outside e = unfold release in v
      go (inside r) e =
          release-Inv v r (find_conn-lt g g.next_registration c _ (v.adms a h).pointers r e)
