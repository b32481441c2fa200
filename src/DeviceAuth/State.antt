-- ===== src/DeviceAuth/State.antt =====
-- hub/internal/deviceauth/types.go, schema.sql and the rows that store.go reads. A text (a name, a
-- key, a digest) is a number, and times are nanoseconds. The database is its tables.
use daxiang_vpn.Prelude.{
  ℕ, ◌-◌, ◌/◌, ◌^◌, ◌&&◌, not, ◌==◌, Bool, true, false, Option, List, if◌then◌else◌,
}

pub data Error : Type 0 where
  err_invalid err_conflict err_unauthorized err_generation err_superseded err_protected err_expired
        err_overdue err_verification err_execution_unknown err_policy err_quota err_no_rows
        err_storage err_expired_during_execution :
      Error

pub data Action : Type 0 where
  apply disable expire revoke : Action

pub data DeviceState : Type 0 where
  active disabled expired revoked : DeviceState

pub data OutboxState : Type 0 where
  pending degraded done superseded : OutboxState

-- A parsed prefix: the family, the address and the length.
pub record Net : Type 0 where
  pub is6 : Bool
  pub base : ℕ
  pub bits : ℕ

-- `public_key` and `prefix`, each with its empty case.
pub record Protection : Type 0 where
  pub public_key : Option ℕ
  pub prefix : Option Net

pub record Policy : Type 0 where
  pub epoch : ℕ
  pub managed_by : ℕ
  pub address_pools : List Net
  pub protected : List Protection

pub record Device : Type 0 where
  pub id : ℕ
  pub owner_id : ℕ
  pub state : DeviceState
  pub valid_until : ℕ
  pub generation : ℕ
  pub applied_generation : ℕ
  pub public_key : Option ℕ
  pub address : Option Net

pub record Binding : Type 0 where
  pub public_key : ℕ
  pub device_id : ℕ
  pub address : Net
  pub managed_by : ℕ
  pub created_generation : ℕ
  pub revoked_generation : ℕ
  pub removed_generation : ℕ
  pub applied : Bool

pub record Tombstone : Type 0 where
  pub public_key : ℕ
  pub generation : ℕ
  pub reason : ℕ
  pub committed_at : ℕ
  pub verified_at : Option ℕ

pub record Operation : Type 0 where
  pub id : ℕ
  pub actor_id : ℕ
  pub owner_id : ℕ
  pub action : Action
  pub idempotency_key : ℕ
  pub request_digest : ℕ
  pub device_id : ℕ
  pub epoch : ℕ
  pub generation : ℕ
  pub committed_at : ℕ
  pub deadline : ℕ

pub record Outbox : Type 0 where
  pub operation_id : ℕ
  pub state : OutboxState
  pub attempts : ℕ
  pub fence : ℕ
  pub last_error : Option Error
  pub verified_at : Option ℕ

pub record Reservation : Type 0 where
  pub address : Net
  pub device_id : ℕ

-- An external action that is prepared; `is_grant` is the action `apply`, else `remove`.
pub record Intent : Type 0 where
  pub operation_id : ℕ
  pub public_key : ℕ
  pub is_grant : Bool
  pub epoch : ℕ
  pub generation : ℕ
  pub fence : ℕ
  pub address : Net
  pub is_verified : Bool

pub record Database : Type 0 where
  pub devices : List Device
  pub addresses : List Reservation
  pub bindings : List Binding
  pub tombstones : List Tombstone
  pub operations : List Operation
  pub outbox : List Outbox
  pub intents : List Intent
  pub executor_fence : ℕ

pub record Command : Type 0 where
  pub actor_id : ℕ
  pub owner_id : ℕ
  pub device_id : ℕ
  pub action : Action
  pub idempotency_key : ℕ
  pub expected_generation : ℕ
  pub public_key : Option ℕ
  pub address : Option Net
  pub reason : ℕ

abbrev pub is_apply : Action → Bool
is_apply apply = true
is_apply _ = false

abbrev pub is_expire : Action → Bool
is_expire expire = true
is_expire _ = false

abbrev pub action_eq : Action → Action → Bool
action_eq apply apply = true
action_eq disable disable = true
action_eq expire expire = true
action_eq revoke revoke = true
action_eq _ _ = false

abbrev pub is_active : DeviceState → Bool
is_active active = true
is_active _ = false

-- `state IN ('pending','degraded')`
abbrev pub is_open : OutboxState → Bool
is_open pending = true
is_open degraded = true
is_open _ = false

abbrev pub width : Net → ℕ
width n = if n.is6 then 128 else 32

abbrev pub same_family : Net → Net → Bool
same_family m n = if m.is6 then n.is6 else not n.is6

abbrev pub net_eq : Net → Net → Bool
net_eq m n = same_family m n && m.base == n.base && m.bits == n.bits

-- The two prefixes agree on that many leading bits.
abbrev pub agree : ℕ → Net → Net → Bool
agree k m n = same_family m n && m.base / 2 ^ (width m - k) == n.base / 2 ^ (width n - k)
