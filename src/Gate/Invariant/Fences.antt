-- ===== src/Gate/Invariant/Fences.antt =====
-- The sections of a write fence keep the invariant.
use daxiang_vpn.Prelude.{ℕ, ◌+◌, ◌-◌, ◌≤◌, ◌<◌, ◌≡◌, refl, true, false, some, arith, inl}
use daxiang_vpn.Gate.State.{Gate, Fence}
use daxiang_vpn.Gate.Step.{in_flight}
use daxiang_vpn.Gate.Fence.{
  Slot, writing, updating, set_active, add_operation, is_live, set_fence, begin, end_flag, done,
  revoke_begin, revoke_end, close_begin,
}
use daxiang_vpn.Gate.Invariant.Defs.{FenceOk, Inv}
use daxiang_vpn.Gate.Invariant.Edit.{set_reg-Inv}

module _ {g : Gate} (v : Inv g) (r : ℕ) (h : r < g.next_registration) (f : Fence)
    (e : (g.reg r).fence ≡ some f) where
  fence_ok : FenceOk r (g.reg r) f
  fence_ok = (v.regs r h).fence f e

  pub set_fence-Inv :
      (f' : Fence)
      → in_flight f' ≤ f'.operations
      → (f'.completed ≡ true → f'.closed ≡ true)
      → (f'.completed ≡ true → f'.operations ≡ 0)
      → ((g.reg r).released ≡ true → f'.completed ≡ true)
      → Inv (set_fence g r f')
  set_fence-Inv f' counted sealed drained ended =
      set_reg-Inv v r (record (g.reg r) { fence = some f' }) h refl refl
        (λ k p. ground (arith, fence_ok)) (inl (λ p. ground arith))

  pub begin-Inv : (now : ℕ) (s : Slot) → Inv (begin now s r f g).0
  unfolding begin is_live
  begin-Inv now writing =
      ground (arith, fence_ok, set_fence-Inv (set_active writing true (add_operation f)))
  begin-Inv now updating =
      ground (arith, fence_ok, set_fence-Inv (set_active updating true (add_operation f)))

  pub end_flag-Inv : (s : Slot) → Inv (end_flag s r f g)
  unfolding end_flag
  end_flag-Inv writing = ground (arith, fence_ok, set_fence-Inv (set_active writing false f))
  end_flag-Inv updating = ground (arith, fence_ok, set_fence-Inv (set_active updating false f))

  pub done-Inv : in_flight f < f.operations → Inv (done r f g)
  unfolding done
  done-Inv p = ground (arith, fence_ok, set_fence-Inv (record f { operations = f.operations - 1 }))

  pub revoke_begin-Inv : Inv (revoke_begin r f g).0
  unfolding revoke_begin
  revoke_begin-Inv = ground (
    arith,
    fence_ok,
    set_fence-Inv (record f { revoker_active = true; operations = f.operations + 1 }),
  )

  pub revoke_end-Inv : Inv (revoke_end r f g)
  unfolding revoke_end
  revoke_end-Inv = ground (arith, fence_ok, set_fence-Inv (record f { revoker_active = false }))

  pub close_begin-Inv : Inv (close_begin r f g)
  unfolding close_begin
  close_begin-Inv = ground (arith, fence_ok, set_fence-Inv (record f { closed = true }))

  -- The completion itself; the release that follows it is `drop`.
  pub completed-Inv :
      f.closed ≡ true → f.operations ≡ 0 → Inv (set_fence g r (record f { completed = true }))
  completed-Inv p q = ground (arith, fence_ok, set_fence-Inv (record f { completed = true }))
