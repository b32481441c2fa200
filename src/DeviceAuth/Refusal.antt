-- ===== src/DeviceAuth/Refusal.antt =====
-- What `submit` leaves when it refuses a command.
use daxiang_vpn.Prelude.{
  ℕ, ◌≡◌, ◌≢◌, ==_refl, refl, sym, subst, ◌==◌, ◌&&◌, ==→eq, Bool, false, Bool-cases, Option-cases,
  apply_some, find_row-update_where, key-find_row, arith, Option, none, some, ◌⊎◌, inl, inr,
  if◌then◌else◌, true, err,
}
use daxiang_vpn.DeviceAuth.State.{
  Error, err_overdue, pending, degraded, done, superseded, OutboxState, Outbox, is_open, Operation,
  Database, Command,
}
use daxiang_vpn.DeviceAuth.Admission.{Env}
use daxiang_vpn.DeviceAuth.Access.{find_outbox}
use daxiang_vpn.DeviceAuth.Change.{find_operation}
use daxiang_vpn.DeviceAuth.Submit.{degrade, submit}
use daxiang_vpn.DeviceAuth.Outcomes.{submit-degrade}

-- The outbox row of an unfinished operation of the device, with the mark that it is overdue.
pub record Marked (device id : ℕ) (db : Database) (new : Option Outbox) : Type 0 where
  pub row : Outbox
  pub op : Operation
  pub old : find_outbox id db.outbox ≡ some row
  pub unfinished : (row.state ≡ pending) ⊎ (row.state ≡ degraded)
  pub asked : find_operation id db.operations ≡ some op
  pub its_device : op.device_id ≡ device
  pub marked : new ≡ some (record row { state = degraded; last_error = some err_overdue })

-- No such row: none in the outbox, none that is unfinished, or none of an operation of the device.
abbrev pub Idle : ℕ → ℕ → Database → Type 0
Idle device id db =
    (find_outbox id db.outbox ≡ none)
    ⊎ (((row : Outbox) × (find_outbox id db.outbox ≡ some row)
          × (row.state ≢ pending)
          × (row.state ≢ degraded))
        ⊎ ((find_operation id db.operations ≡ none)
            ⊎ ((op : Operation) × (find_operation id db.operations ≡ some op)
                × (op.device_id ≢ device))))

-- What a refusal leaves.
pub record Refused (c : Command) (e : Error) (db db' : Database) : Type 0 where
  pub devices : db'.devices ≡ db.devices
  pub addresses : db'.addresses ≡ db.addresses
  pub bindings : db'.bindings ≡ db.bindings
  pub tombstones : db'.tombstones ≡ db.tombstones
  pub operations : db'.operations ≡ db.operations
  pub intents : db'.intents ≡ db.intents
  pub executor_fence : db'.executor_fence ≡ db.executor_fence
  pub outbox :
      (id : ℕ)
      → (((e ≢ err_overdue) ⊎ Idle c.device_id id db)
          × (find_outbox id db'.outbox ≡ find_outbox id db.outbox))
        ⊎ ((e ≡ err_overdue) × Marked c.device_id id db (find_outbox id db'.outbox))

Refused-refl : (c : Command) (e : Error) (db : Database) → e ≢ err_overdue → Refused c e db db
Refused-refl c e db on_time = record {
  devices = refl;
  addresses = refl;
  bindings = refl;
  tombstones = refl;
  operations = refl;
  intents = refl;
  executor_fence = refl;
  outbox = λ id. inl (inl on_time, refl);
}

is_open_inv : (s : OutboxState) → is_open s ≡ true → (s ≡ pending) ⊎ (s ≡ degraded)
is_open_inv pending h = inl refl
is_open_inv degraded h = inr refl
is_open_inv _ h = cc

abbrev late_row : ℕ → Database → Outbox → Bool
late_row device db o = is_open o.state && elim (find_operation o.operation_id db.operations) [
  | none ↦ false
  | some p ↦ p.device_id == device
]

abbrev late_mark : Outbox → Outbox
late_mark o = record o { state = degraded; last_error = some err_overdue }

Marked-late_row :
    (device id : ℕ) (db : Database) (o : Outbox)
    → find_outbox id db.outbox ≡ some o
    → late_row device db o ≡ true
    → Marked device id db (some (late_mark o))
Marked-late_row device id db o f late =
    let own : o.operation_id ≡ id = key-find_row (λ x. x.operation_id) id db.outbox f in
    elim (Option-cases (find_operation id db.operations)) [
      | inl e ↦ absurd (ground (arith, own, e, late))
      | inr (p, e) ↦ record {
        row = o;
        op = p;
        old = f;
        unfinished = is_open_inv o.state (ground arith);
        asked = e;
        its_device = ==→eq p.device_id device (ground (arith, own, e, late));
        marked = refl;
      }
    ]

is_closed_inv : (s : OutboxState) → is_open s ≡ false → (s ≢ pending) × (s ≢ degraded)
is_closed_inv pending h = cc
is_closed_inv degraded h = cc
is_closed_inv done h = (λ q. cc, λ q. cc)
is_closed_inv superseded h = (λ q. cc, λ q. cc)

Idle-late_row :
    (device id : ℕ) (db : Database) (o : Outbox)
    → find_outbox id db.outbox ≡ some o
    → late_row device db o ≡ false
    → Idle device id db
Idle-late_row device id db o f late =
    let own : o.operation_id ≡ id = key-find_row (λ x. x.operation_id) id db.outbox f in
    elim (Bool-cases (is_open o.state)) [
      | inr t ↦ let closed = is_closed_inv o.state t in inr (inl (o, f, closed.0, closed.1))
      | inl t ↦ elim (Option-cases (find_operation id db.operations)) [
        | inl e ↦ inr (inr (inl e))
        | inr (p, e) ↦
            inr (inr (inr (p, e, λ same. ground (arith, own, e, late, t, same, ==_refl device))))
      ]
    ]

degrade_row :
    (device id : ℕ) (db : Database) (x : Option Outbox)
    → find_outbox id db.outbox ≡ x
    → (Idle device id db
        × (apply_some (λ o. if late_row device db o then late_mark o else o) x ≡ x))
      ⊎ Marked device id db (apply_some (λ o. if late_row device db o then late_mark o else o) x)
degrade_row device id db none f = inl (inl f, refl)
degrade_row device id db (some o) f = elim (Bool-cases (late_row device db o)) [
  | inl t ↦ inr (rw t (Marked-late_row device id db o f t))
  | inr t ↦ inl (Idle-late_row device id db o f t, rw t refl)
]

degrade-find_outbox :
    (device id : ℕ) (db : Database)
    → (Idle device id db × (find_outbox id (degrade device db).outbox ≡ find_outbox id db.outbox))
      ⊎ Marked device id db (find_outbox id (degrade device db).outbox)
unfolding degrade
degrade-find_outbox device id db =
    rw
      (find_row-update_where (λ x. x.operation_id) (late_row device db) late_mark id db.outbox
        (λ x. refl))
      (degrade_row device id db (find_outbox id db.outbox) refl)

degrade-Refused :
    (c : Command) (e : Error) (db : Database)
    → e ≡ err_overdue
    → Refused c e db (degrade c.device_id db)
degrade-Refused c e db late = record {
  devices = unfold degrade in refl;
  addresses = unfold degrade in refl;
  bindings = unfold degrade in refl;
  tombstones = unfold degrade in refl;
  operations = unfold degrade in refl;
  intents = unfold degrade in refl;
  executor_fence = unfold degrade in refl;
  outbox = λ id. elim (degrade-find_outbox c.device_id id db) [
    | inl (idle, same) ↦ inl (inr idle, same)
    | inr m ↦ inr (late, m)
  ];
}

-- A refused command changes no device, reservation, binding, tombstone, operation or intent, nor the
-- executor's fence. An outbox row is as before, and then the refusal is for another reason than an
-- overdue operation, or there is no such row, or it is neither pending nor degraded, or its operation
-- is unknown or of another device; or else the refusal is for an overdue operation, the row is of
-- a pending or degraded operation of the command's device, and it becomes degraded with the overdue
-- error and keeps the rest.
pub submit-Refused :
    (env : Env) (c : Command) (db : Database) (e : Error)
    → (submit env c db).1 ≡ err e
    → Refused c e db (submit env c db).0
submit-Refused env c db e h = elim (submit-degrade env c db e h) [
  | inl (on_time, same) ↦
      subst (λ (x : Database). Refused c e db x) (sym same)
        (Refused-refl c e db (λ late. ground (arith, on_time, late)))
  | inr (late, to) ↦
      subst (λ (x : Database). Refused c e db x) (sym to) (degrade-Refused c e db late)
]
