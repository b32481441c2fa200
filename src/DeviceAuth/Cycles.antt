-- ===== src/DeviceAuth/Cycles.antt =====
-- What a sweep and a cycle of the scheduler keep.
use daxiang_vpn.Prelude.{
  ℕ, zero, suc, ◌+◌, ◌%◌, ◌&&◌, not, Bool, true, false, Option, none, some, List, [], ◌∷◌, length,
  branch,
}
use daxiang_vpn.DeviceAuth.State.{Error, err_expired, err_no_rows, err_storage, Device, Database}
use daxiang_vpn.DeviceAuth.Admission.{Env}
use daxiang_vpn.DeviceAuth.Access.{find_device}
use daxiang_vpn.DeviceAuth.Claim.{Surroundings}
use daxiang_vpn.DeviceAuth.Process.{expire_locked}
use daxiang_vpn.DeviceAuth.Enroll.{refresh_deadlines}
use daxiang_vpn.DeviceAuth.Authority.{IsSound}
use daxiang_vpn.DeviceAuth.Growth.{Keeps, Keeps-trans, Keeps-refl}
use daxiang_vpn.DeviceAuth.Upkeep.{expire_locked-Keeps, refresh-Keeps}
use daxiang_vpn.DeviceAuth.Runs.{reconcile-Keeps}
use daxiang_vpn.DeviceAuth.Schedule.{
  sweep_on, sweep_from, sweep_expiry, overdue_ids, Scheduler, degraded_at, Cycle, scheduled, nth,
  Turns, turn, turns, reconcile_all, after_sweep, tick,
}

sweep_on-Keeps :
    (a : Database) (r : Database × Option Error) (k : Database → Database × Option Error)
    → Keeps a r.0
    → ((x : Database) → Keeps a x → Keeps a (k x).0)
    → Keeps a (sweep_on r k).0
sweep_on-Keeps a (db, none) k p f = p
sweep_on-Keeps a (db, some err_expired) k p f = f db p
sweep_on-Keeps a (db, some _) k p f = p

found-Keeps :
    (s : Surroundings) (a db : Database) (o : Option Device)
    (k : Database → Database × Option Error)
    → Keeps a db
    → ((x : Database) → Keeps a x → Keeps a (k x).0)
    → Keeps a
        (elim o as (λ _. Database × Option Error) [
          | none ↦ (db, some err_no_rows)
          | some d ↦ sweep_on (expire_locked s d db) k
        ]).0
found-Keeps s a db none k p f = p
found-Keeps s a db (some d) k p f =
    sweep_on-Keeps a (expire_locked s d db) k (Keeps-trans p (expire_locked-Keeps s d db p.sound)) f

sweep_from-Keeps :
    (s : ℕ → Surroundings) (i : ℕ) (ids : List ℕ) (a db : Database)
    → Keeps a db
    → Keeps a (sweep_from s i ids db).0
unfolding sweep_from
sweep_from-Keeps s i [] a db p = p
sweep_from-Keeps s i (id ∷ ids) a db p =
    found-Keeps (s i) a db (find_device id db.devices) (λ x. sweep_from s (i + 1) ids x) p
      (λ x q. sweep_from-Keeps s (i + 1) ids a x q)

sweep_expiry-Keeps :
    (env : Env) (s : ℕ → Surroundings) (db : Database)
    → IsSound db
    → Keeps db (sweep_expiry env s db).0
unfolding sweep_expiry
sweep_expiry-Keeps env s db v =
    branch (λ (r : Database × Option Error). Keeps db r.0) env.fence_taken
      {y = (db, some err_storage)}
      (λ _. sweep_from-Keeps s 0 (overdue_ids env.now db.devices) db db (Keeps-refl v))
      (λ _. Keeps-refl v)

turn_if :
    (c : Cycle) (ids : List ℕ) (k i : ℕ) (a : Database) (t : Turns) (o : Option ℕ) (b : Bool)
    → Keeps a t.database
    → ((u : Turns) → Keeps a u.database → Keeps a (turns c ids k (i + 1) u).database)
    → Keeps a
        (elim o as (λ _. Turns) [
          | none ↦ t
          | some id ↦ elim b [
            | true ↦ record t { cursor = (t.cursor + 1) % length ids; is_stopped = true }
            | false ↦ turns c ids k (i + 1) (turn c (length ids) i id t)
          ]
        ]).database
unfolding turn
turn_if c ids k i a t none b p f = p
turn_if c ids k i a t (some id) true p f = p
turn_if c ids k i a t (some id) false p f =
    f (turn c (length ids) i id t)
      (Keeps-trans p (reconcile-Keeps (c.runs i) id t.database p.sound))

turns-Keeps :
    (c : Cycle) (ids : List ℕ) (k i : ℕ) (a : Database) (t : Turns)
    → Keeps a t.database
    → Keeps a (turns c ids k i t).database
unfolding turns
turns-Keeps c ids zero i a t p = p
turns-Keeps c ids (suc k) i a t p =
    turn_if c ids k i a t (nth t.cursor ids) (c.ended i) p
      (λ u q. turns-Keeps c ids k (i + 1) a u q)

reconcile_all-Keeps :
    (c : Cycle) (ids : List ℕ) (cursor : ℕ) (a db : Database)
    → Keeps a db
    → Keeps a (reconcile_all c ids cursor db).0
unfolding reconcile_all
reconcile_all-Keeps c [] cursor a db p = p
reconcile_all-Keeps c (id ∷ ids) cursor a db p =
    turns-Keeps c (id ∷ ids) (length (id ∷ ids)) 0 a
      (record {
        database = db;
        cursor = cursor % length (id ∷ ids);
        is_failed = false;
        is_stopped = false;
        served = [];
      })
      p

after_sweep-Keeps :
    (c : Cycle) (x : Scheduler) (a : Database) (r : Database × Option Error)
    → Keeps a r.0
    → Keeps a (after_sweep c x r).0
after_sweep-Keeps c x a (db, some e) p = p
after_sweep-Keeps c x a (db, none) p =
    let q = Keeps-trans p (refresh-Keeps c.refresh_env db p.sound) in
    let db' : Database = refresh_deadlines c.refresh_env db in
    branch (λ (r : Database × Scheduler × List ℕ). Keeps a r.0)
      (not (c.challenges_swept && c.refresh_env.fence_taken && c.refresh_env.policy_matches))
      {x = (db, degraded_at c.now x.cursor, [])} (λ _. p)
      (λ _.
        branch (λ (r : Database × Scheduler × List ℕ). Keeps a r.0) c.listed
          {y = (db', degraded_at c.now x.cursor, [])}
          (λ _. reconcile_all-Keeps c (scheduled db'.devices) x.cursor a db' q) (λ _. q))

pub tick-Keeps : (c : Cycle) (x : Scheduler) (db : Database) → IsSound db → Keeps db (tick c x db).0
unfolding tick
tick-Keeps c x db v =
    after_sweep-Keeps c x db (sweep_expiry c.sweep_env c.sweeps db)
      (sweep_expiry-Keeps c.sweep_env c.sweeps db v)
