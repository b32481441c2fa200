-- ===== src/Gate/Revocation/Final.antt =====
-- After an invalidation no registration of that time is ever live again.
use daxiang_vpn.Prelude.{
  ℕ, ◌<◌, ◌≡◌, refl, true, ◌==◌, some, List, ◌&&◌, not, arith, ◌⊎◌, inl, inr, Bool-cases, branch,
}
use daxiang_vpn.Gate.State.{Gate, Fence, Prefix, err_closed, is_some}
use daxiang_vpn.Gate.Invalidate.{invalidate, close_for}
use daxiang_vpn.Gate.Fence.{Slot, is_live, begin}
use daxiang_vpn.Gate.Step.{Action, run, new}
use daxiang_vpn.Gate.Invariant.Defs.{Inv}
use daxiang_vpn.Gate.Invariant.Steps.{run-Inv, new-Inv}
use daxiang_vpn.Gate.Invariant.Sweep.{lease-Inv, invalidate-Inv}
use daxiang_vpn.Gate.Revocation.Keeps.{IsSwept, SweptInCleanup, Keeps, quarantine-IsSwept}
use daxiang_vpn.Gate.Revocation.Sections.{invalidate-Keeps}
use daxiang_vpn.Gate.Revocation.Steps.{run-Keeps}

new-SweptInCleanup : (managed : List Prefix) → SweptInCleanup (new managed)
unfolding new
new-SweptInCleanup managed c r h = absurd (omega arith)

invalidate-IsSwept : {g : Gate} → Inv g → SweptInCleanup g → IsSwept (invalidate g)
unfolding invalidate
invalidate-IsSwept {g} v s =
    branch IsSwept (is_some g.cleanup) (λ c r h p. s c r h p)
      (λ _. quarantine-IsSwept (lease-Inv v 0 0))

-- A registration that is released or quarantined.
abbrev pub IsRevoked : Gate → ℕ → Type 0
IsRevoked g r = ((g.reg r).released ≡ true) ⊎ ((g.reg r).quarantined ≡ true)

IsSwept-IsRevoked : (g : Gate) (r : ℕ) → IsSwept g → r < g.next_registration → IsRevoked g r
IsSwept-IsRevoked g r s h = elim (Bool-cases (g.reg r).released) [
  | inl e ↦ inl e
  | inr e ↦ inr (s r h e)
]

IsRevoked-Keeps :
    {g g' : Gate} (r : ℕ) → Keeps g g' → r < g.next_registration → IsRevoked g r → IsRevoked g' r
IsRevoked-Keeps r k h (inl e) = inl (k.gone r h e)
IsRevoked-Keeps r k h (inr e) = inr (k.held r h e)

IsRevoked-begin :
    (now : ℕ) (s : Slot) (g : Gate) (r : ℕ) (f : Fence)
    → IsRevoked g r
    → begin now s r f g ≡ (g, some err_closed)
unfolding begin is_live
IsRevoked-begin now s g r f d = ground arith

-- `closeFor` invalidates for its own session, and unconditionally for the empty name.
close_for-invalidate :
    (owner : ℕ) (g : Gate) → (owner ≡ 0) ⊎ (g.owner ≡ owner) → close_for owner g ≡ invalidate g
unfolding close_for
close_for-invalidate owner g h =
    branch (λ z. z ≡ invalidate g) (not (owner == 0) && not (g.owner == owner))
      (λ p. absurd (ground arith)) (λ _. refl)

module _ (managed : List Prefix) (before after : List Action) (owner r now : ℕ) (s : Slot)
    (f : Fence) where
  -- In every state that the gate reaches, once `closeFor` has run for the current session or for
  -- the empty name, each registration issued so far is refused every write and deadline permit,
  -- with the state unchanged, after any further actions of any goroutines, new owners and grants
  -- included.
  pub begin-after_close_for :
      (owner ≡ 0) ⊎ ((run before (new managed)).owner ≡ owner)
      → r < (run before (new managed)).next_registration
      → let g = run after (close_for owner (run before (new managed))) in
        begin now s r f g ≡ (g, some err_closed)
  begin-after_close_for o h =
      let g = run before (new managed) in
      let v = run-Inv before (new-Inv managed) in
      let swept = (run-Keeps before (new-Inv managed)).swept (new-SweptInCleanup managed) in
      let h' : r < (invalidate g).next_registration = omega (arith, (invalidate-Keeps v).regs) in
      rw (close_for-invalidate owner g o) (
        IsRevoked-begin now s _ r f (
          IsRevoked-Keeps r (run-Keeps after (invalidate-Inv v)) h'
            (IsSwept-IsRevoked (invalidate g) r (invalidate-IsSwept v swept) h')))
