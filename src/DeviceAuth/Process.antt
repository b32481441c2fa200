-- ===== src/DeviceAuth/Process.antt =====
-- hub/internal/deviceauth/executor.go: `Process`, its transactions and the external actions between
-- them. The executor, the clock and the contexts are a record of what each call of them answers.
use daxiang_vpn.Prelude.{
  ℕ, ◌+◌, ◌&&◌, ◌||◌, not, ltb, leb, ◌==◌, Bool, true, false, Option, none, some, List, [], ◌∷◌,
  if◌then◌else◌, find_row, update_where, Result, ok, err, ◌>>=◌, ◌>>◌, require,
}
use daxiang_vpn.DeviceAuth.State.{
  Command, err_no_rows, expire, Error, err_superseded, err_protected, err_expired, err_verification,
  err_execution_unknown, err_expired_during_execution, err_policy, err_invalid, pending, degraded,
  done, Device, Operation, Database, is_active, is_open,
}
use daxiang_vpn.DeviceAuth.Access.{find_device, find_outbox, holds_key, is_unverified}
use daxiang_vpn.DeviceAuth.Submit.{submit}
use daxiang_vpn.DeviceAuth.Plan.{Peer, Entry, Step, remove, grant, runtime_map, plan, verify}
use daxiang_vpn.DeviceAuth.Claim.{
  Answer, Surroundings, is_expired, Claim, claim, put_intents, claimed, stale, expired_grant,
  refused,
}

-- How the external actions stop: not at all, with an error, or by the end of the grant.
pub data Stop : Type 0 where
  finished : Stop
  failed_by : Error → Stop
  timed_out : Stop

abbrev pub before_step : Device → Step → Answer → Bool
before_step d (remove key n) a = false
before_step d (grant key n) a = not (is_active d.state) || leb d.valid_until a.now_before

unfoldable pub perform : Device → (ℕ → Answer) → ℕ → List Step → Stop
perform d answers i [] = finished
perform d answers i (s ∷ steps) =
    let rest = perform d answers (i + 1) steps in
    let a = answers i in
    if not a.same_file
    then failed_by err_policy
    else if a.ended_before
    then failed_by err_execution_unknown
    else if before_step d s a
    then timed_out
    else if is_expired d a.now_after
    then timed_out
    else if not a.performed
    then failed_by err_execution_unknown
    else rest

-- The three causes that have a code of their own.
abbrev pub failure_code : Error → Error
failure_code err_protected = err_protected
failure_code err_verification = err_verification
failure_code err_expired = err_expired
failure_code _ = err_execution_unknown

-- `failed`: the cause is written to the outbox, unless the operation is over.
unfoldable pub record_failure : ℕ → Error → Database → Database
record_failure id cause db = record db {
  outbox =
      update_where (λ o. o.operation_id == id && is_open o.state)
        (λ o. record o { state = degraded; last_error = some (failure_code cause) }) db.outbox;
}

abbrev pub fail : Surroundings → ℕ → Error → Database → Database × Option Error
fail s id cause db = (if s.failure_written then record_failure id cause db else db, some cause)

-- `expireLocked`: a new generation, submitted under the fence that is held.
unfoldable pub mark_expired :
    Surroundings → Database × Result Error Operation → Database × Option Error
mark_expired s (db, err e) = (db, some err_execution_unknown)
mark_expired s (db, ok o) =
    if s.expiry_written
    then (
      record db {
        outbox =
            update_where
              (λ x. x.operation_id == o.id && elim x.state [ pending ↦ true | _ ↦ false ])
              (λ x. record x { state = degraded; last_error = some err_expired_during_execution })
              db.outbox;
      },
      some err_expired,
    )
    else (db, some err_execution_unknown)

abbrev pub expiry_command : Surroundings → Device → Command
expiry_command s d = record {
  actor_id = s.expiry_actor;
  owner_id = d.owner_id;
  device_id = d.id;
  action = expire;
  idempotency_key = s.expiry_key d.id d.generation;
  expected_generation = d.generation;
  public_key = none;
  address = none;
  reason = s.expiry_reason;
}

abbrev pub expire_locked : Surroundings → Device → Database → Database × Option Error
expire_locked s d db = mark_expired s (submit s.expiry_env (expiry_command s d) db)

-- The last transaction.
unfoldable pub certify : Claim → ℕ → Database → Result Error Database
unfolding find_row
certify c now db = do
  require
      (elim (find_device c.d.id db.devices) [
        | none ↦ false
        | some x ↦ x.generation == c.d.generation
      ])
      err_superseded
  require (elim (find_outbox c.op.id db.outbox) [ none ↦ false | some o ↦ o.fence == c.fence ])
      err_superseded
  ok (record db {
    devices =
        update_where (λ x. x.id == c.d.id && x.generation == c.d.generation)
          (λ x. record x { applied_generation = c.d.generation }) db.devices;
    bindings =
        update_where
          (λ b.
            elim c.d.public_key [ none ↦ false | some k ↦ b.public_key == k ]
            && b.device_id == c.d.id
            && b.revoked_generation == 0)
          (λ b. record b { applied = true })
          (update_where (λ b. b.device_id == c.d.id && ltb 0 b.revoked_generation)
            (λ b. record b { removed_generation = c.d.generation }) db.bindings);
    tombstones =
        update_where (λ t. holds_key db.bindings c.d.id t.public_key && is_unverified t)
          (λ t. record t { verified_at = some now }) db.tombstones;
    intents =
        update_where (λ i. i.operation_id == c.op.id && i.fence == c.fence)
          (λ i. record i { is_verified = true }) db.intents;
    outbox =
        update_where (λ o. o.operation_id == c.op.id && o.fence == c.fence)
          (λ o. record o { state = done; verified_at = some now; last_error = none }) db.outbox;
  })

abbrev pub commit :
    Surroundings → Claim → Database → Result Error Database → Database × Option Error
commit s c db (err e) = fail s c.op.id err_execution_unknown db
commit s c db (ok db') =
    if s.result_written then (db', none) else fail s c.op.id err_execution_unknown db

abbrev pub read_map : Surroundings → Error → List Peer → Result Error (List Entry)
read_map s e peers = elim (runtime_map s.env.valid_key peers) [ ok m ↦ ok m | err x ↦ err e ]

-- From the second snapshot on.
unfoldable pub conclude : Surroundings → Claim → List Entry → Database → Database × Option Error
unfolding runtime_map verify certify record_failure submit mark_expired
conclude s c before db =
    if is_expired c.d s.now_verified then expire_locked s c.d db else elim s.after [
      | none ↦ fail s c.op.id err_execution_unknown db
      | some peers ↦
          elim (read_map s err_verification peers >>= λ after. verify c.d c.history before after) [
            | err e ↦ fail s c.op.id e db
            | ok u ↦
                if is_expired c.d s.now_certified
                then expire_locked s c.d db
                else commit s c db (certify c s.now_done db)
          ]
    ]

unfoldable pub execute :
    Surroundings → Claim → List Entry → List Step → Database → Database × Option Error
unfolding put_intents perform conclude
execute s c before steps db =
    if not s.intents_written
    then fail s c.op.id err_execution_unknown db
    else let db' = record db { intents = put_intents c steps db.intents } in
      elim (perform c.d s.answers 0 steps) [
        | finished ↦ conclude s c before db'
        | failed_by e ↦ fail s c.op.id e db'
        | timed_out ↦ expire_locked s c.d db'
      ]

-- After the claim: the first snapshot and the plan.
unfoldable pub after_claim : Surroundings → Claim → Database → Database × Option Error
unfolding runtime_map plan execute
after_claim s c db =
    if is_expired c.d s.now_snapshot then expire_locked s c.d db else elim s.before [
      | none ↦ fail s c.op.id err_execution_unknown db
      | some peers ↦ elim (runtime_map s.env.valid_key peers) [
        | err e ↦ fail s c.op.id e db
        | ok before ↦ elim (plan s.env.policy db.intents c.d c.history before) [
          | err e ↦ fail s c.op.id e db
          | ok steps ↦
              if is_expired c.d s.now_planned
              then expire_locked s c.d db
              else execute s c before steps db
        ]
      ]
    ]

unfoldable pub process : Surroundings → ℕ → Database → Database × Option Error
unfolding claim after_claim
process s id db =
    if not (s.env.identifier id) then (db, some err_invalid) else elim (claim s.env id db) [
      | refused e ↦ (db, some e)
      | stale db' ↦ (db', some err_superseded)
      | expired_grant d ↦ expire_locked s d db
      | claimed db' c ↦ after_claim s c db'
    ]

-- `Reconcile`: the operation of the device's current generation is processed.
unfoldable pub find_latest : ℕ → Device → List Operation → Option ℕ
find_latest epoch d [] = none
find_latest epoch d (o ∷ os) =
    if o.device_id == d.id && o.generation == d.generation && o.epoch == epoch
    then some o.id
    else find_latest epoch d os

abbrev pub latest : ℕ → ℕ → Database → Option ℕ
latest epoch device db = elim (find_device device db.devices) [
  | none ↦ none
  | some d ↦ find_latest epoch d db.operations
]

unfoldable pub reconcile : Surroundings → ℕ → Database → Database × Option Error
unfolding process find_latest find_row
reconcile s device db =
    if not (s.env.identifier device)
    then (db, some err_invalid)
    else elim (latest s.env.policy.epoch device db) [
      | none ↦ (db, some err_no_rows)
      | some id ↦ process s id db
    ]
