-- ===== src/DeviceAuth/Enroll.antt =====
-- hub/internal/deviceauth/store.go: `Enroll` and `RefreshDeadlines`.
use daxiang_vpn.Prelude.{
  ℕ, ◌+◌, ◌*◌, ◌&&◌, ◌||◌, not, ltb, leb, Bool, true, false, none, some, ◌∷◌, if◌then◌else◌, any,
  is_some, find_row, update_where, Result, ok, err, ◌>>◌, require,
}
use daxiang_vpn.DeviceAuth.State.{
  Error, err_invalid, err_conflict, err_overdue, err_policy, err_storage, active, degraded, Device,
  Outbox, Database, is_open,
}
use daxiang_vpn.DeviceAuth.Admission.{Env, grant_resources}
use daxiang_vpn.DeviceAuth.Access.{find_device, holds_key, is_unverified}
use daxiang_vpn.DeviceAuth.Change.{find_operation}

pub record Enrollment : Type 0 where
  pub device_id : ℕ
  pub owner_id : ℕ
  pub is_customer : Bool
  pub valid_until : ℕ

-- 2201-01-01T00:00:00Z, the first time whose year is past 2200.
abbrev pub year_2201 : ℕ
year_2201 = 7289654400 * 1_000_000_000

abbrev pub new_device : Enrollment → Device
new_device e = record {
  id = e.device_id;
  owner_id = e.owner_id;
  state = active;
  valid_until = e.valid_until;
  generation = 0;
  applied_generation = 0;
  public_key = none;
  address = none;
}

unfoldable pub enroll_checked : Env → Enrollment → Database → Result Error Database
unfolding grant_resources find_row
enroll_checked env e db = do
  require
      (env.identifier e.device_id
        && env.identifier e.owner_id
        && e.is_customer
        && ltb env.now e.valid_until
        && ltb e.valid_until year_2201)
      err_invalid
  require env.fence_taken err_storage
  require env.policy_matches err_policy
  grant_resources env.limits env.usage db.devices
  require (not (is_some (find_device e.device_id db.devices))) err_conflict
  ok (record db { devices = new_device e ∷ db.devices })

abbrev pub keep_result : Database → Result Error Database → Database
keep_result db (ok db') = db'
keep_result db (err e) = db

unfoldable pub enroll : Env → Enrollment → Database → Database
unfolding enroll_checked
enroll env e db = keep_result db (enroll_checked env e db)

abbrev pub is_deadline : Error → Bool
is_deadline err_overdue = true
is_deadline _ = false

abbrev pub is_marked : Outbox → Bool
is_marked o = elim o.last_error [ none ↦ false | some e ↦ is_deadline e ]

-- The operation is late, or a key of its device waits too long for its removal.
unfoldable pub is_late_operation : Env → Database → ℕ → Bool
unfolding find_row
is_late_operation env db id = elim (find_operation id db.operations) [
  | none ↦ false
  | some o ↦
      leb o.deadline env.now
      || any
          (λ t.
            holds_key db.bindings o.device_id t.public_key
            && is_unverified t
            && leb (t.committed_at + env.revocation_budget) env.now)
          db.tombstones
]

unfoldable pub refresh_deadlines : Env → Database → Database
unfolding is_late_operation
refresh_deadlines env db =
    if env.fence_taken && env.policy_matches
    then record db {
      outbox =
          update_where
            (λ o. is_open o.state && not (is_marked o) && is_late_operation env db o.operation_id)
            (λ o. record o { state = degraded; last_error = some err_overdue }) db.outbox;
    }
    else db
