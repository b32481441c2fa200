-- ===== src/Gate/Invariant/Defs.antt =====
-- The invariant of the gate: no registration is lost from the maps before it is released, and a
-- fence counts what is in flight on it.
use daxiang_vpn.Prelude.{ℕ, ◌≤◌, ◌<◌, ◌≡◌, true, false, none, some, has}
use daxiang_vpn.Gate.State.{Gate, Registration, Fence, fenced}
use daxiang_vpn.Gate.Step.{in_flight}

-- `r` holds fence `f`: it is the attached connection, its flags are counted, and neither its
-- completion nor a release comes before the operations have ended.
pub record FenceOk (r : ℕ) (x : Registration) (f : Fence) : Type 0 where
  pub attached : x.attached ≡ true
  pub wrapped : x.conn ≡ some (fenced r)
  pub counted : in_flight f ≤ f.operations
  pub sealed : f.completed ≡ true → f.closed ≡ true
  pub drained : f.completed ≡ true → f.operations ≡ 0
  pub ended : x.released ≡ true → f.completed ≡ true

-- Until it is released a registration is in the map of its admission, and that in the gate's.
pub record IsListed (g : Gate) (r : ℕ) : Type 0 where
  pub inner : has r (g.adm (g.reg r).admission).registrations ≡ true
  pub outer : has (g.reg r).admission g.admissions ≡ true

pub record RegOk (g : Gate) (r : ℕ) : Type 0 where
  pub known : (g.reg r).admission < g.next_admission
  pub listed : (g.reg r).released ≡ false → IsListed g r
  pub fence : (f : Fence) → (g.reg r).fence ≡ some f → FenceOk r (g.reg r) f

-- The client is a registration of the admission and never fenced; its map holds issued pointers.
pub record AdmOk (g : Gate) (a : ℕ) : Type 0 where
  pub present : (g.adm a).released ≡ false → has a g.admissions ≡ true
  pub client : (g.adm a).client < g.next_registration
  pub mine : (g.reg (g.adm a).client).admission ≡ a
  pub plain : (g.reg (g.adm a).client).fence ≡ none
  pub pointers : (r : ℕ) → has r (g.adm a).registrations ≡ true → r < g.next_registration

pub record Inv (g : Gate) : Type 0 where
  pub regs : (r : ℕ) → r < g.next_registration → RegOk g r
  pub adms : (a : ℕ) → a < g.next_admission → AdmOk g a

-- The invariant of the state that an operation returns beside its result.
abbrev pub InvAfter : {B : Type 0} → Gate × B → Type 0
InvAfter z = Inv z.0
