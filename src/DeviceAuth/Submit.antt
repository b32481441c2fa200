-- ===== src/DeviceAuth/Submit.antt =====
-- hub/internal/deviceauth/store.go: `Submit`. A function of the database is one transaction: an
-- error rolls it back.
use daxiang_vpn.Prelude.{
  ℕ, ◌&&◌, ◌==◌, Bool, true, false, none, some, if◌then◌else◌, update_where, Result, ok, err, ◌>>=◌,
  ◌>>◌, require,
}
use daxiang_vpn.DeviceAuth.State.{
  Error, err_conflict, err_overdue, degraded, Operation, Database, Command, is_open,
}
use daxiang_vpn.DeviceAuth.Admission.{Env, admissible}
use daxiang_vpn.DeviceAuth.Access.{authorize, find_request}
use daxiang_vpn.DeviceAuth.Change.{find_operation, change}

-- The transaction of `submitChecked`.
unfoldable pub transact : Env → Command → Database → Result Error (Database × Operation)
unfolding authorize find_request change
transact env c db = do
  d ← authorize env c db
  let digest = env.digest c
  elim (find_request c db.operations) [
    | some o ↦ require (o.request_digest == digest) err_conflict >> ok (db, o)
    | none ↦ change env c digest d db
  ]

-- After ErrOverdue, its own transaction marks the operations of the device.
unfoldable pub degrade : ℕ → Database → Database
degrade device db = record db {
  outbox =
      update_where
        (λ o. is_open o.state && elim (find_operation o.operation_id db.operations) [
          | none ↦ false
          | some p ↦ p.device_id == device
        ])
        (λ o. record o { state = degraded; last_error = some err_overdue }) db.outbox;
}

abbrev pub is_late : Error → Bool
is_late err_overdue = true
is_late _ = false

abbrev pub settle :
    ℕ → Database → Result Error (Database × Operation) → Database × Result Error Operation
settle device db (ok (db', o)) = (db', ok o)
settle device db (err e) = (if is_late e then degrade device db else db, err e)

abbrev pub submit_admitted :
    Env → Command → Database → Result Error Command → Database × Result Error Operation
submit_admitted env c db (err e) = (db, err e)
submit_admitted env c db (ok a) = settle c.device_id db (transact env a db)

unfoldable pub submit : Env → Command → Database → Database × Result Error Operation
unfolding admissible transact degrade
submit env c db = submit_admitted env c db (admissible env c)
