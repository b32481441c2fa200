-- ===== src/DeviceAuth/Change.antt =====
-- hub/internal/deviceauth/store.go: the checks and the writes of a command that is not a repetition.
use daxiang_vpn.Prelude.{
  ℕ, ◌+◌, ◌&&◌, not, ltb, ◌==◌, Bool, true, false, Option, none, some, List, [], ◌∷◌, ◌++◌, length,
  keep, if◌then◌else◌, is_some, find_row, update_where, Result, ok, ◌>>=◌, ◌>>◌, require, get,
}
use daxiang_vpn.DeviceAuth.State.{
  Error, err_invalid, err_conflict, err_generation, err_storage, Action, apply, disable, expire,
  revoke, DeviceState, active, disabled, expired, revoked, pending, superseded, Net, Device,
  Binding, Tombstone, Operation, Outbox, Reservation, Database, Command, is_apply, is_open, net_eq,
}
use daxiang_vpn.DeviceAuth.Admission.{Env, max_bindings, max_generation}
use daxiang_vpn.DeviceAuth.Access.{find_binding}

-- The reservation of an address.
unfoldable pub reserved_by : Net → List Reservation → Option ℕ
reserved_by n [] = none
reserved_by n (r ∷ rs) = if net_eq r.address n then some r.device_id else reserved_by n rs

unfoldable pub vacant_key : Command → Database → Device → Result Error (Option (ℕ × Net))
unfolding find_row reserved_by
vacant_key c db d = do
  require (ltb (length (keep (λ b. b.device_id == d.id) db.bindings)) max_bindings) err_invalid
  key ← get c.public_key err_invalid
  n ← get c.address err_invalid
  require (not (is_some (find_binding key db.bindings))) err_conflict
  require (elim (reserved_by n db.addresses) [ none ↦ true | some owner ↦ owner == d.id ])
      err_conflict
  ok (some (key, n))

-- The key and the address of an `apply` are free; the result is the key and address to bind.
unfoldable pub vacant : Command → Database → Device → Result Error (Option (ℕ × Net))
unfolding vacant_key
vacant c db d = if not (is_apply c.action) then ok none else vacant_key c db d

unfoldable pub next_state : Action → DeviceState → DeviceState
next_state a revoked = revoked
next_state apply s = active
next_state disable s = disabled
next_state expire s = expired
next_state revoke s = revoked

abbrev pub is_current : ℕ → Binding → Bool
is_current device b = b.device_id == device && b.revoked_generation == 0

-- `INSERT INTO deviceauth_tombstones … SELECT … FROM deviceauth_bindings`
unfoldable pub bury : ℕ → ℕ → ℕ → ℕ → List Binding → List Tombstone
bury device generation reason now [] = []
bury device generation reason now (b ∷ bs) =
    let rest = bury device generation reason now bs in
    if is_current device b
    then record {
      public_key = b.public_key;
      generation = generation;
      reason = reason;
      committed_at = now;
      verified_at = none;
    }
      ∷ rest
    else rest

unfoldable pub revoke_bindings : ℕ → ℕ → List Binding → List Binding
revoke_bindings device generation =
    update_where (is_current device) (λ b. record b { revoked_generation = generation })

abbrev pub bind_key : ℕ → Device → ℕ → Option (ℕ × Net) → List Binding → List Binding
bind_key managed_by d generation none bs = bs
bind_key managed_by d generation (some (key, n)) bs =
    record {
      public_key = key;
      device_id = d.id;
      address = n;
      managed_by = managed_by;
      created_generation = generation;
      revoked_generation = 0;
      removed_generation = 0;
      applied = false;
    }
    ∷ bs

-- `INSERT OR IGNORE INTO deviceauth_addresses`
abbrev pub reserve_address : ℕ → Option (ℕ × Net) → List Reservation → List Reservation
reserve_address device none rs = rs
reserve_address device (some (key, n)) rs =
    if is_some (reserved_by n rs) then rs else record { address = n; device_id = device } ∷ rs

abbrev pub first_of : Option (ℕ × Net) → Option ℕ
first_of none = none
first_of (some (key, n)) = some key

abbrev pub second_of : Option (ℕ × Net) → Option Net
second_of none = none
second_of (some (key, n)) = some n

abbrev pub operation_of : Env → Command → ℕ → ℕ → Operation
operation_of env c digest generation = record {
  id = env.fresh_id;
  actor_id = c.actor_id;
  owner_id = c.owner_id;
  action = c.action;
  idempotency_key = c.idempotency_key;
  request_digest = digest;
  device_id = c.device_id;
  epoch = env.policy.epoch;
  generation = generation;
  committed_at = env.now;
  deadline = env.now + env.revocation_budget;
}

abbrev pub new_outbox : ℕ → Outbox
new_outbox id = record {
  operation_id = id;
  state = pending;
  attempts = 0;
  fence = 0;
  last_error = none;
  verified_at = none;
}

-- The operation's own columns of `operationRow`; those that it joins are the row of `find_outbox`.
abbrev pub find_operation : ℕ → List Operation → Option Operation
find_operation = find_row (λ o. o.id)

-- The older operations of the device that are not finished are superseded.
unfoldable pub supersede : ℕ → ℕ → List Operation → List Outbox → List Outbox
supersede device generation operations =
    update_where
      (λ o. is_open o.state && elim (find_operation o.operation_id operations) [
        | none ↦ false
        | some p ↦ p.device_id == device && ltb p.generation generation
      ])
      (λ o. record o { state = superseded })

-- The writes of an accepted command, on the device `d` that was read.
unfoldable pub record_change :
    Env → Command → ℕ → Device → Option (ℕ × Net) → Database → Database × Operation
unfolding next_state bury revoke_bindings supersede find_row reserved_by
record_change env c digest d bound db =
    let generation = d.generation + 1 in
    let op = operation_of env c digest generation in
    (
      record db {
        devices =
            update_where (λ x. x.id == d.id && x.generation == d.generation)
              (λ x. record x {
                state = next_state c.action d.state;
                generation = generation;
                public_key = first_of bound;
                address = second_of bound;
              })
              db.devices;
        addresses = reserve_address d.id bound db.addresses;
        bindings =
            bind_key env.policy.managed_by d generation bound
              (revoke_bindings d.id generation db.bindings);
        tombstones = bury d.id generation c.reason env.now db.bindings ++ db.tombstones;
        operations = op ∷ db.operations;
        outbox = new_outbox op.id ∷ supersede d.id generation db.operations db.outbox;
      },
      op,
    )

-- A command that is not a repetition.
unfoldable pub change : Env → Command → ℕ → Device → Database → Result Error (Database × Operation)
unfolding vacant record_change
change env c digest d db = do
  require (d.generation == c.expected_generation) err_generation
  require (not (d.generation == max_generation)) err_generation
  bound ← vacant c db d
  require (not (is_some (find_operation env.fresh_id db.operations))) err_storage
  ok (record_change env c digest d bound db)
