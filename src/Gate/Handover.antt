-- ===== src/Gate/Handover.antt =====
-- A new owner starts with nothing left of the sessions before it.
use daxiang_vpn.Prelude.{ℕ, ◌<◌, ◌≡◌, true, false, none, some, List, arith, inl, inr, Bool-cases}
use daxiang_vpn.Gate.State.{Gate, Fence, Prefix, is_nil, leased}
use daxiang_vpn.Gate.Owner.{own, await_begin, answer}
use daxiang_vpn.Gate.Step.{Action, run, new, in_flight}
use daxiang_vpn.Gate.Invariant.Defs.{Inv}
use daxiang_vpn.Gate.Invariant.Frame.{is_nil-has}
use daxiang_vpn.Gate.Invariant.Steps.{run-Inv, new-Inv}

-- The registration is released; its fence, if it has one, is closed with nothing in flight.
pub record IsReaped (g : Gate) (r : ℕ) : Type 0 where
  pub released : (g.reg r).released ≡ true
  pub closed : (f : Fence) → (g.reg r).fence ≡ some f → (f.closed ≡ true) × (f.completed ≡ true)
  pub drained : (f : Fence) → (g.reg r).fence ≡ some f → (f.operations ≡ 0) × (in_flight f ≡ 0)

module _ {g : Gate} (v : Inv g) (empty : is_nil g.admissions ≡ true) (r : ℕ)
    (h : r < g.next_registration) where
  all_released : (g.reg r).released ≡ true
  all_released = elim (Bool-cases (g.reg r).released) [
    | inl e ↦ e
    | inr e ↦ cc (is_nil-has (g.reg r).admission g.admissions empty, ((v.regs r h).listed e).outer)
  ]

  all-IsReaped : IsReaped g r
  all-IsReaped = record {
    released = all_released;
    closed =
        λ f e. let k = (v.regs r h).fence f e in let c = k.ended all_released in (k.sealed c, c);
    drained = λ f e.
        let k = (v.regs r h).fence f e in
        let d = k.drained (k.ended all_released) in (d, omega (arith, k.counted));
  }

module _ (managed : List Prefix) (es : List Action) (owner r : ℕ) where
  -- Whenever the gate, after any interleaving of its sections, accepts an owner, every registration
  -- ever issued has been released, and every write fence among them is closed and completed with no
  -- operation in flight.
  pub own-IsReaped :
      (own owner (run es (new managed))).1 ≡ none
      → r < (run es (new managed)).next_registration
      → IsReaped (run es (new managed)) r
  unfolding own
  own-IsReaped e h = all-IsReaped (run-Inv es (new-Inv managed)) (ground arith) r h

  -- `AwaitClosed` answers success at once only when no lease is live, no cleanup runs, and every
  -- registration ever issued is released, its fence closed, completed and drained.
  pub await_begin-IsReaped :
      (now : ℕ)
      → await_begin now (run es (new managed)) ≡ answer none
      → r < (run es (new managed)).next_registration
      → (leased now (run es (new managed)) ≡ false)
        × ((run es (new managed)).cleanup ≡ none)
        × IsReaped (run es (new managed)) r
  unfolding await_begin
  await_begin-IsReaped now e h =
      (ground arith, ground arith, all-IsReaped (run-Inv es (new-Inv managed)) (ground arith) r h)
