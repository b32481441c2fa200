-- ===== src/DeviceAuth/Access.antt =====
-- hub/internal/deviceauth/store.go: the rows that `Submit` looks up and what its transaction checks
-- before it consults the history.
use daxiang_vpn.Prelude.{
  ℕ, ◌+◌, ◌&&◌, ◌||◌, not, ltb, leb, ◌==◌, Bool, false, Option, none, some, List, [], ◌∷◌,
  if◌then◌else◌, any, is_some, find_row, Result, ok, err, ◌>>=◌, ◌>>◌, require, get,
}
use daxiang_vpn.DeviceAuth.State.{
  Error, err_invalid, err_unauthorized, err_expired, err_overdue, err_policy, err_no_rows,
  err_storage, Device, Binding, Tombstone, Operation, Outbox, Database, Command, is_apply,
  is_expire, action_eq, is_active, is_open,
}
use daxiang_vpn.DeviceAuth.Admission.{grant_resources, Env}

abbrev pub find_device : ℕ → List Device → Option Device
find_device = find_row (λ d. d.id)

abbrev pub find_binding : ℕ → List Binding → Option Binding
find_binding = find_row (λ b. b.public_key)

abbrev pub find_outbox : ℕ → List Outbox → Option Outbox
find_outbox = find_row (λ o. o.operation_id)

abbrev pub is_unfinished : List Outbox → Operation → Bool
is_unfinished outbox o = elim (find_outbox o.id outbox) [ none ↦ false | some b ↦ is_open b.state ]

-- The device of a key.
abbrev pub holds_key : List Binding → ℕ → ℕ → Bool
holds_key bindings device key = elim (find_binding key bindings) [
  | none ↦ false
  | some b ↦ b.device_id == device
]

abbrev pub is_unverified : Tombstone → Bool
is_unverified t = not (is_some t.verified_at)

-- A late operation of the device, or a key of it whose removal is late.
unfoldable pub is_overdue : Env → Database → ℕ → Bool
unfolding find_row
is_overdue env db device =
    any (λ o. o.device_id == device && is_unfinished db.outbox o && leb o.deadline env.now)
      db.operations
    || any
        (λ t.
          holds_key db.bindings device t.public_key
          && is_unverified t
          && leb (t.committed_at + env.revocation_budget) env.now)
        db.tombstones

abbrev pub may_apply : Env → Database → Device → Result Error (Unit {0})
may_apply env db d = do
  require (is_active d.state) err_unauthorized
  require (ltb env.now d.valid_until) err_expired
  grant_resources env.limits env.usage db.devices
  require (not (is_overdue env db d.id)) err_overdue

-- What the transaction checks before it consults the history: the device.
unfoldable pub authorize : Env → Command → Database → Result Error Device
unfolding grant_resources is_overdue
authorize env c db = do
  require env.fence_taken err_storage
  require env.policy_matches err_policy
  elim env.check [ none ↦ ok tt | some e ↦ err e ]
  d ← get (find_device c.device_id db.devices) err_no_rows
  require (d.owner_id == c.owner_id) err_unauthorized
  (if is_apply c.action then may_apply env db d else ok tt)
  require (not (is_expire c.action && ltb env.now d.valid_until)) err_invalid
  ok d

unfoldable pub find_request : Command → List Operation → Option Operation
find_request c [] = none
find_request c (o ∷ os) =
    if o.actor_id == c.actor_id
      && action_eq o.action c.action
      && o.idempotency_key == c.idempotency_key
    then some o
    else find_request c os
