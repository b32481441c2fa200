-- ===== src/DeviceAuth/Runs.antt =====
-- What a whole run of `Process` keeps.
use daxiang_vpn.Prelude.{
  ℕ, ◌≡◌, refl, not, Option, none, some, List, if◌then◌else◌, branch, Result, ok, err, ◌>>=◌,
}
use daxiang_vpn.DeviceAuth.State.{
  Error, err_no_rows, err_execution_unknown, err_verification, err_superseded, err_invalid,
  Database,
}
use daxiang_vpn.DeviceAuth.Plan.{Peer, Entry, Step, runtime_map, plan, verify}
use daxiang_vpn.DeviceAuth.Claim.{
  Surroundings, Claim, Claimed, claimed, stale, expired_grant, refused, claim, put_intents,
  is_expired,
}
use daxiang_vpn.DeviceAuth.Process.{
  reconcile, latest, expire_locked, certify, fail, commit, conclude, execute, perform, Stop,
  finished, failed_by, timed_out, after_claim, process, read_map,
}
use daxiang_vpn.DeviceAuth.Authority.{IsSound}
use daxiang_vpn.DeviceAuth.Growth.{
  SameViews, Keeps, SameViews-Keeps, Keeps-trans, Keeps-refl, SameViews-outbox,
}
use daxiang_vpn.DeviceAuth.Upkeep.{certify-SameViews, fail-Keeps, expire_locked-Keeps}
use daxiang_vpn.DeviceAuth.Claims.{ClaimKeeps, claim-ClaimKeeps}

module _ (s : Surroundings) (c : Claim) (db : Database) (v : IsSound db) where
  -- A run's outcome keeps.
  abbrev Keeping : Database × Option Error → Type 0
  Keeping r = Keeps db r.0

  expire_or :
      (now : ℕ) (r : Database × Option Error)
      → Keeping r
      → Keeping (if is_expired c.d now then expire_locked s c.d db else r)
  expire_or now r h =
      branch Keeping (is_expired c.d now) {x = expire_locked s c.d db} {y = r}
        (λ _. expire_locked-Keeps s c.d db v) (λ _. h)

  commit-Keeps :
      (r : Result Error Database)
      → ((db' : Database) → r ≡ ok db' → SameViews db db')
      → Keeping (commit s c db r)
  commit-Keeps (err e) h = fail-Keeps s c.op.id err_execution_unknown db v
  commit-Keeps (ok db') h =
      branch Keeping s.result_written {x = (db', none)}
        {y = fail s c.op.id err_execution_unknown db} (λ _. SameViews-Keeps v (h db' refl))
        (λ _. fail-Keeps s c.op.id err_execution_unknown db v)

  verified-Keeps :
      (r : Result Error (Unit {0}))
      → Keeping (elim r [
        | err e ↦ fail s c.op.id e db
        | ok u ↦
            if is_expired c.d s.now_certified
            then expire_locked s c.d db
            else commit s c db (certify c s.now_done db)
      ])
  verified-Keeps (err e) = fail-Keeps s c.op.id e db v
  verified-Keeps (ok u) =
      expire_or s.now_certified _
        (commit-Keeps (certify c s.now_done db) (certify-SameViews c s.now_done db))

  after-Keeps :
      (before : List Entry) (o : Option (List Peer))
      → Keeping (elim o [
        | none ↦ fail s c.op.id err_execution_unknown db
        | some peers ↦
            elim (read_map s err_verification peers >>= λ after.
            verify c.d c.history before after) [
              | err e ↦ fail s c.op.id e db
              | ok u ↦
                  if is_expired c.d s.now_certified
                  then expire_locked s c.d db
                  else commit s c db (certify c s.now_done db)
            ]
      ])
  after-Keeps before none = fail-Keeps s c.op.id err_execution_unknown db v
  after-Keeps before (some peers) = verified-Keeps _

  conclude-Keeps : (before : List Entry) → Keeping (conclude s c before db)
  unfolding conclude
  conclude-Keeps before = expire_or s.now_verified _ (after-Keeps before s.after)

-- From a database that keeps, with only the intents written.
moved-Keeps :
    (s : Surroundings) (c : Claim) (before : List Entry) (a db : Database)
    → Keeps a db
    → (t : Stop)
    → Keeps a
        (elim t as (λ _. Database × Option Error) [
          | finished ↦ conclude s c before db
          | failed_by e ↦ fail s c.op.id e db
          | timed_out ↦ expire_locked s c.d db
        ]).0
moved-Keeps s c before a db p finished = Keeps-trans p (conclude-Keeps s c db p.sound before)
moved-Keeps s c before a db p (failed_by e) = Keeps-trans p (fail-Keeps s c.op.id e db p.sound)
moved-Keeps s c before a db p timed_out = Keeps-trans p (expire_locked-Keeps s c.d db p.sound)

module _ (s : Surroundings) (c : Claim) (db : Database) (v : IsSound db) where
  execute-Keeps :
      (before : List Entry) (steps : List Step) → Keeps db (execute s c before steps db).0
  unfolding execute
  execute-Keeps before steps =
      let db' : Database = record db { intents = put_intents c steps db.intents } in
      let same : Keeps db db' = SameViews-Keeps v (SameViews-outbox db db' refl refl refl refl) in
      branch (Keeping s c db v) (not s.intents_written)
        (λ _. fail-Keeps s c.op.id err_execution_unknown db v)
        (λ _. moved-Keeps s c before db db' same (perform c.d s.answers 0 steps))

  planned-Keeps :
      (before : List Entry) (r : Result Error (List Step))
      → Keeping s c db v (elim r [
        | err e ↦ fail s c.op.id e db
        | ok steps ↦
            if is_expired c.d s.now_planned
            then expire_locked s c.d db
            else execute s c before steps db
      ])
  planned-Keeps before (err e) = fail-Keeps s c.op.id e db v
  planned-Keeps before (ok steps) = expire_or s c db v s.now_planned _ (execute-Keeps before steps)

  mapped-Keeps :
      (r : Result Error (List Entry))
      → Keeping s c db v (elim r [
        | err e ↦ fail s c.op.id e db
        | ok before ↦ elim (plan s.env.policy db.intents c.d c.history before) [
          | err e ↦ fail s c.op.id e db
          | ok steps ↦
              if is_expired c.d s.now_planned
              then expire_locked s c.d db
              else execute s c before steps db
        ]
      ])
  mapped-Keeps (err e) = fail-Keeps s c.op.id e db v
  mapped-Keeps (ok before) =
      planned-Keeps before (plan s.env.policy db.intents c.d c.history before)

  before-Keeps :
      (o : Option (List Peer))
      → Keeping s c db v (elim o [
        | none ↦ fail s c.op.id err_execution_unknown db
        | some peers ↦ elim (runtime_map s.env.valid_key peers) [
          | err e ↦ fail s c.op.id e db
          | ok before ↦ elim (plan s.env.policy db.intents c.d c.history before) [
            | err e ↦ fail s c.op.id e db
            | ok steps ↦
                if is_expired c.d s.now_planned
                then expire_locked s c.d db
                else execute s c before steps db
          ]
        ]
      ])
  before-Keeps none = fail-Keeps s c.op.id err_execution_unknown db v
  before-Keeps (some peers) = mapped-Keeps (runtime_map s.env.valid_key peers)

  after_claim-Keeps : Keeps db (after_claim s c db).0
  unfolding after_claim
  after_claim-Keeps = expire_or s c db v s.now_snapshot _ (before-Keeps s.before)

claimed-Keeps :
    (s : Surroundings) (db : Database)
    → IsSound db
    → (r : Claimed) → ClaimKeeps db r
    → Keeps db
        (elim r as (λ _. Database × Option Error) [
          | refused e ↦ (db, some e)
          | stale db' ↦ (db', some err_superseded)
          | expired_grant d ↦ expire_locked s d db
          | claimed db' c ↦ after_claim s c db'
        ]).0
unfolding ClaimKeeps
claimed-Keeps s db v (claimed db' c) same =
    let p = SameViews-Keeps v same in Keeps-trans p (after_claim-Keeps s c db' p.sound)
claimed-Keeps s db v (stale db') same = SameViews-Keeps v same
claimed-Keeps s db v (expired_grant d) _ = expire_locked-Keeps s d db v
claimed-Keeps s db v (refused e) _ = Keeps-refl v

pub process-Keeps :
    (s : Surroundings) (id : ℕ) (db : Database) → IsSound db → Keeps db (process s id db).0
unfolding process
process-Keeps s id db v =
    branch (λ (r : Database × Option Error). Keeps db r.0) (not (s.env.identifier id))
      {x = (db, some err_invalid)} (λ _. Keeps-refl v)
      (λ _. claimed-Keeps s db v (claim s.env id db) (claim-ClaimKeeps s.env id db))

chosen-Keeps :
    (s : Surroundings) (db : Database)
    → IsSound db
    → (o : Option ℕ)
    → Keeps db
        (elim o as (λ _. Database × Option Error) [
          | none ↦ (db, some err_no_rows)
          | some id ↦ process s id db
        ]).0
chosen-Keeps s db v none = Keeps-refl v
chosen-Keeps s db v (some id) = process-Keeps s id db v

pub reconcile-Keeps :
    (s : Surroundings) (device : ℕ) (db : Database)
    → IsSound db
    → Keeps db (reconcile s device db).0
unfolding reconcile
reconcile-Keeps s device db v =
    branch (λ (r : Database × Option Error). Keeps db r.0) (not (s.env.identifier device))
      {x = (db, some err_invalid)} (λ _. Keeps-refl v)
      (λ _. chosen-Keeps s db v (latest s.env.policy.epoch device db))
