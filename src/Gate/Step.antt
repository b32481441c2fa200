-- ===== src/Gate/Step.antt =====
-- Every section that takes the gate's lock as an action, in the order in which the lock is taken by
-- the goroutines. An action whose guard fails leaves the state.
use daxiang_vpn.Prelude.{
  ℕ, ◌+◌, Bool, true, false, ◌&&◌, not, Option, none, some, List, [], ◌∷◌, ltb, ◌==◌, if◌then◌else◌,
  has,
}
use daxiang_vpn.Gate.State.{
  Gate, Fence, Conn, Addr, inside, blank_admission, new_registration, Prefix,
}
use daxiang_vpn.Gate.Invalidate.{close_for, close_returned, reap, finish_cleanup}
use daxiang_vpn.Gate.Admit.{acquire_source, reserve}
use daxiang_vpn.Gate.Attach.{attach_begin, close_ready, abort, release, untrack, release_admission}
use daxiang_vpn.Gate.Owner.{own, grant}
use daxiang_vpn.Gate.Fence.{
  Slot, is_active, attach_fenced_begin, begin, end_flag, done, revoke_begin, revoke_end,
  close_begin, close_end,
}

pub data Action : Type 0 where
  owns : ℕ → Action
  grants : ℕ → ℕ → ℕ → Action
  closes_for : ℕ → Action
  acquires : ℕ → Option Addr → Action
  reserves : ℕ → ℕ → Action
  attaches attaches_fenced : ℕ → ℕ → Conn → Action
  publishes aborts releases reaps : ℕ → Action
  untracks : ℕ → Conn → Action
  ends : ℕ → Action
  finishes : Action
  begins : ℕ → Slot → ℕ → Action
  clears : Slot → ℕ → Action
  dones revokes unrevokes close_begins close_ends : ℕ → Action

-- Flags that an operation in flight holds.
abbrev pub flag : Bool → ℕ
flag true = 1
flag false = 0

abbrev pub in_flight : Fence → ℕ
in_flight f = flag f.write_active + flag f.deadline_active + flag f.revoker_active

-- A handle of the gate.
abbrev pub issued : ℕ → Gate → Bool
issued r g = ltb r g.next_registration

-- `r` is a handle that `Reserve` returned, and not the client of its admission.
abbrev pub is_upstream : ℕ → Gate → Bool
is_upstream r g = not ((g.adm (g.reg r).admission).client == r)

abbrev pub pending : ℕ → Gate → Bool
pending r g = elim g.cleanup [ none ↦ false | some l ↦ has r l ]

-- An action on the fence of `r`.
abbrev pub on_fence : ℕ → (Fence → Gate) → Gate → Gate
on_fence r k g = if issued r g then elim (g.reg r).fence [ none ↦ g | some f ↦ k f ] else g

unfoldable pub step : Action → Gate → Gate
unfolding own grant close_for acquire_source reserve attach_begin attach_fenced_begin close_ready
    abort release reap untrack release_admission finish_cleanup begin end_flag done revoke_begin
    revoke_end close_begin close_end close_returned
step (owns s) g = (own s g).0
step (grants now s until) g = (grant now s until g).0
step (closes_for s) g = close_for s g
step (acquires now addr) g = (acquire_source now addr g).0
step (reserves now a) g = if ltb a g.next_admission then (reserve now (inside a) g).0 else g
step (attaches now r c) g = if issued r g then (attach_begin now r c g).0 else g
step (attaches_fenced now r c) g =
    if issued r g && is_upstream r g then (attach_fenced_begin now r c g).0 else g
step (publishes r) g = if issued r g && (g.reg r).attached then close_ready r g else g
step (aborts r) g = if issued r g then abort (inside r) g else g
step (releases r) g = if issued r g then release (inside r) g else g
step (reaps r) g =
    if issued r g && pending r g && (g.reg r).ready && close_returned g (g.reg r).conn
    then reap r g
    else g
step (untracks a c) g = if ltb a g.next_admission then untrack (inside a) c g else g
step (ends a) g = if ltb a g.next_admission then release_admission (inside a) g else g
step finishes g = elim g.cleanup [ some [] ↦ finish_cleanup g | _ ↦ g ]
step (begins now s r) g = on_fence r (λ f. (begin now s r f g).0) g
step (clears s r) g = on_fence r (λ f. if is_active s f then end_flag s r f g else g) g
step (dones r) g = on_fence r (λ f. if ltb (in_flight f) f.operations then done r f g else g) g
step (revokes r) g = on_fence r (λ f. (revoke_begin r f g).0) g
step (unrevokes r) g = on_fence r (λ f. if f.revoker_active then revoke_end r f g else g) g
step (close_begins r) g = on_fence r (λ f. if f.closed then g else close_begin r f g) g
step (close_ends r) g =
    on_fence r
      (λ f. if f.closed && f.operations == 0 && not f.completed then close_end r f g else g) g

unfoldable pub run : List Action → Gate → Gate
run [] g = g
run (e ∷ es) g = run es (step e g)

-- `New`, behind the validation of the policy.
unfoldable pub new : List Prefix → Gate
new managed = record {
  initialized = true;
  managed = managed;
  owner = 0;
  expires = 0;
  admissions = [];
  cleanup = none;
  adm = λ _. blank_admission;
  reg = λ _. new_registration 0;
  next_admission = 0;
  next_registration = 0;
}
