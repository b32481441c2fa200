-- ===== src/DeviceAuth/Grants.antt =====
-- What a plan that `plan` accepts consists of.
use daxiang_vpn.Prelude.{
  ℕ, ◌≡◌, refl, sym, ◌&&◌, ◌==◌, Bool, true, false, Option, none, some, List, [], ◌∷◌, ◌++◌,
  if◌then◌else◌, is_some, arith, ok, require-ok, bind-ok, get-ok, ok-inj,
}
use daxiang_vpn.DeviceAuth.State.{Error, Net, Policy, Device, Binding, Intent, net_eq, is_active}
use daxiang_vpn.DeviceAuth.Access.{find_binding}
use daxiang_vpn.DeviceAuth.Plan.{
  Entry, Step, grant, find_entry, removals, all, is_owned, plan, plan_active, plan_grant,
}

-- The grants of a plan.
pub data Granting (d : Device) (history : List Binding) (before : List Entry) (gs : List Step)
    : Type 0 where
  idle :
      (is_active d.state && is_some d.public_key) ≡ false → gs ≡ [] → Granting d history before gs
  running :
      (key : ℕ) (n : Net) (b : Binding)
      → d.public_key ≡ some key
      → d.address ≡ some n
      → find_binding key history ≡ some b
      → (b.revoked_generation == 0 && net_eq b.address n) ≡ true
      → gs ≡ (if is_some (find_entry key before) then [] else grant key n ∷ [])
      → Granting d history before gs

plan_active-Granting :
    (d : Device) (history : List Binding) (before : List Entry) (gs : List Step) (key : Option ℕ)
    (n : Option Net)
    → d.public_key ≡ key
    → d.address ≡ n
    → plan_active history before key n ≡ ok gs
    → Granting d history before gs
unfolding plan_grant
plan_active-Granting d history before gs none n k a h0 =
    idle (ground arith) (sym (ok-inj {E = Error} h0))
plan_active-Granting d history before gs (some key) none k a h0 = cc
plan_active-Granting d history before gs (some key) (some n) k a h0 =
    let (b, bound, h1) = get-ok _ _ _ h0 in
    let (current, h2) = require-ok _ _ _ h1 in
    let (clear, h3) = require-ok _ _ _ h2 in
    running key n b k a bound current (sym (ok-inj {E = Error} h3))

plan_if :
    (b : Bool) (d : Device) (history : List Binding) (before : List Entry) (gs : List Step)
    → is_active d.state ≡ b
    → (if b then plan_active history before d.public_key d.address else ok []) ≡ ok gs
    → Granting d history before gs
plan_if true d history before gs a h =
    plan_active-Granting d history before gs d.public_key d.address refl refl h
plan_if false d history before gs a h = idle (ground arith) (sym (ok-inj {E = Error} h))

pub plan-Granting :
    (policy : Policy) (intents : List Intent) (d : Device) (history : List Binding)
    (before : List Entry) (steps : List Step)
    → plan policy intents d history before ≡ ok steps
    → (all (is_owned policy intents d before) history ≡ true)
      × ((gs : List Step) × (steps ≡ removals before history ++ gs) × Granting d history before gs)
unfolding plan
plan-Granting policy intents d history before steps h0 =
    let (owned, h1) = require-ok _ _ _ h0 in
    let (gs, granted, h2) = bind-ok _ _ h1 in
    (
      owned,
      (
        gs,
        sym (ok-inj {E = Error} h2),
        plan_if (is_active d.state) d history before gs refl granted,
      ),
    )
