-- ===== src/DeviceAuth/Completion.antt =====
-- A reconciliation that reports success was a whole one.
use daxiang_vpn.Prelude.{
  ◌≡◌, refl, not, Option, none, some, List, if◌then◌else◌, Result, ok, err, branch,
}
use daxiang_vpn.DeviceAuth.State.{Error, err_execution_unknown, Database}
use daxiang_vpn.DeviceAuth.Plan.{Peer, Entry, Step, runtime_map, plan}
use daxiang_vpn.DeviceAuth.Claim.{Surroundings, Claim, put_intents, is_expired}
use daxiang_vpn.DeviceAuth.Process.{
  expire_locked, fail, conclude, execute, perform, Stop, finished, failed_by, timed_out,
  after_claim,
}
use daxiang_vpn.DeviceAuth.Certified.{Verified, expire_locked-none, conclude-Ends}

-- A whole reconciliation: what the claim read, the first snapshot, the plan, its actions and the last snapshot.
pub record Completed (s : Surroundings) (c : Claim) (db db' : Database) : Type 0 where
  pub peers : List Peer
  pub before : List Entry
  pub steps : List Step
  pub answered : s.before ≡ some peers
  pub read : runtime_map s.env.valid_key peers ≡ ok before
  pub planned : plan s.env.policy db.intents c.d c.history before ≡ ok steps
  pub performed : perform c.d s.answers 0 steps ≡ finished
  pub verified : Verified s c before db'

module _ (s : Surroundings) (c : Claim) (db : Database) where
  abbrev pub Completes : Database × Option Error → Type 0
  Completes r = r.1 ≡ none → Completed s c db r.0

  expire_locked-Completes : (db' : Database) → Completes (expire_locked s c.d db')
  expire_locked-Completes db' h = let no_end = expire_locked-none s c.d db' h in cc

  fail-Completes : (e : Error) (db' : Database) → Completes (fail s c.op.id e db')
  fail-Completes e db' h = cc

  module _ (peers : List Peer) (before : List Entry) (steps : List Step)
      (answered : s.before ≡ some peers) (read : runtime_map s.env.valid_key peers ≡ ok before)
      (planned : plan s.env.policy db.intents c.d c.history before ≡ ok steps) where
    performed-Completes :
        (db' : Database) (t : Stop)
        → perform c.d s.answers 0 steps ≡ t
        → Completes (elim t [
          | finished ↦ conclude s c before db'
          | failed_by e ↦ fail s c.op.id e db'
          | timed_out ↦ expire_locked s c.d db'
        ])
    performed-Completes db' finished q h = record {
      peers = peers;
      before = before;
      steps = steps;
      answered = answered;
      read = read;
      planned = planned;
      performed = q;
      verified = conclude-Ends s c before db' h;
    }
    performed-Completes db' (failed_by e) q h = cc
    performed-Completes db' timed_out q h = expire_locked-Completes db' h

    execute-Completes : Completes (execute s c before steps db)
    unfolding execute
    execute-Completes =
        branch Completes (not s.intents_written) {x = fail s c.op.id err_execution_unknown db}
          (λ _. fail-Completes err_execution_unknown db)
          (λ _.
            performed-Completes (record db { intents = put_intents c steps db.intents })
              (perform c.d s.answers 0 steps) refl)

  planned-Completes :
      (peers : List Peer) (before : List Entry)
      → s.before ≡ some peers
      → runtime_map s.env.valid_key peers ≡ ok before
      → (r : Result Error (List Step)) → plan s.env.policy db.intents c.d c.history before ≡ r
      → Completes (elim r [
        | err e ↦ fail s c.op.id e db
        | ok steps ↦
            if is_expired c.d s.now_planned
            then expire_locked s c.d db
            else execute s c before steps db
      ])
  planned-Completes peers before answered read (err e) q = fail-Completes e db
  planned-Completes peers before answered read (ok steps) q =
      branch Completes (is_expired c.d s.now_planned) {x = expire_locked s c.d db}
        {y = execute s c before steps db} (λ _. expire_locked-Completes db)
        (λ _. execute-Completes peers before steps answered read q)

  mapped-Completes :
      (peers : List Peer)
      → s.before ≡ some peers
      → (r : Result Error (List Entry)) → runtime_map s.env.valid_key peers ≡ r
      → Completes (elim r [
        | err e ↦ fail s c.op.id e db
        | ok before ↦ elim (plan s.env.policy db.intents c.d c.history before) [
          | err e ↦ fail s c.op.id e db
          | ok steps ↦
              if is_expired c.d s.now_planned
              then expire_locked s c.d db
              else execute s c before steps db
        ]
      ])
  mapped-Completes peers answered (err e) q = fail-Completes e db
  mapped-Completes peers answered (ok before) q = planned-Completes peers before answered q _ refl

  snapshot-Completes :
      (o : Option (List Peer))
      → s.before ≡ o
      → Completes (elim o [
        | none ↦ fail s c.op.id err_execution_unknown db
        | some peers ↦ elim (runtime_map s.env.valid_key peers) [
          | err e ↦ fail s c.op.id e db
          | ok before ↦ elim (plan s.env.policy db.intents c.d c.history before) [
            | err e ↦ fail s c.op.id e db
            | ok steps ↦
                if is_expired c.d s.now_planned
                then expire_locked s c.d db
                else execute s c before steps db
          ]
        ]
      ])
  snapshot-Completes none q = fail-Completes err_execution_unknown db
  snapshot-Completes (some peers) q = mapped-Completes peers q _ refl

  pub after_claim-Completes : Completes (after_claim s c db)
  unfolding after_claim
  after_claim-Completes =
      branch Completes (is_expired c.d s.now_snapshot) {x = expire_locked s c.d db}
        (λ _. expire_locked-Completes db) (λ _. snapshot-Completes s.before refl)
