-- ===== src/DeviceAuth/Schedule.antt =====
-- hub/internal/deviceauth/scheduler.go: `SweepExpiry` and `Tick`. A cycle also returns the devices
-- that it reconciled, in their order.
use daxiang_vpn.Prelude.{
  ℕ, zero, suc, ◌+◌, ◌%◌, ◌&&◌, ◌||◌, not, ltb, Bool, true, false, Option, none, some, List, [],
  ◌∷◌, ◌++◌, length, if◌then◌else◌, find_row,
}
use daxiang_vpn.DeviceAuth.State.{
  Error, err_expired, err_superseded, err_no_rows, err_storage, Device, Database,
}
use daxiang_vpn.DeviceAuth.Admission.{Env}
use daxiang_vpn.DeviceAuth.Access.{find_device}
use daxiang_vpn.DeviceAuth.Enroll.{refresh_deadlines}
use daxiang_vpn.DeviceAuth.Claim.{Surroundings, is_expired}
use daxiang_vpn.DeviceAuth.Process.{expire_locked, mark_expired, reconcile}
use daxiang_vpn.DeviceAuth.Submit.{submit}

-- The active devices whose grant has ended.
abbrev pub overdue_ids : ℕ → List Device → List ℕ
overdue_ids now [] = []
overdue_ids now (d ∷ ds) =
    let rest = overdue_ids now ds in if is_expired d now then d.id ∷ rest else rest

-- Only an expiry lets the sweep go on.
abbrev pub sweep_on :
    Database × Option Error → (Database → Database × Option Error) → Database × Option Error
sweep_on (db, some err_expired) k = k db
sweep_on (db, e) k = (db, e)

unfoldable pub sweep_from : (ℕ → Surroundings) → ℕ → List ℕ → Database → Database × Option Error
unfolding find_row submit mark_expired
sweep_from s i [] db = (db, none)
sweep_from s i (id ∷ ids) db = elim (find_device id db.devices) [
  | none ↦ (db, some err_no_rows)
  | some d ↦ sweep_on (expire_locked (s i) d db) (λ db'. sweep_from s (i + 1) ids db')
]

unfoldable pub sweep_expiry : Env → (ℕ → Surroundings) → Database → Database × Option Error
unfolding sweep_from
sweep_expiry env s db =
    if env.fence_taken
    then sweep_from s 0 (overdue_ids env.now db.devices) db
    else (db, some err_storage)

pub record Scheduler : Type 0 where
  pub last_cycle : ℕ
  pub is_degraded : Bool
  pub cursor : ℕ

-- What a cycle finds: for each of its parts the clock and the answers, and whether its context
-- has ended before each turn.
pub record Cycle : Type 0 where
  pub now : ℕ
  pub sweep_env : Env
  pub sweeps : ℕ → Surroundings
  pub challenges_swept : Bool
  pub refresh_env : Env
  pub listed : Bool
  pub ended : ℕ → Bool
  pub runs : ℕ → Surroundings

abbrev pub scheduled : List Device → List ℕ
scheduled [] = []
scheduled (d ∷ ds) = let rest = scheduled ds in if ltb 0 d.generation then d.id ∷ rest else rest

abbrev pub nth : ℕ → List ℕ → Option ℕ
nth i [] = none
nth zero (x ∷ xs) = some x
nth (suc i) (x ∷ xs) = nth i xs

-- The loop's state: `is_failed` when some device was not reconciled for a reason that counts.
pub record Turns : Type 0 where
  pub database : Database
  pub cursor : ℕ
  pub is_failed : Bool
  pub is_stopped : Bool
  pub served : List ℕ

abbrev pub counts : Option Error → Bool
counts none = false
counts (some err_superseded) = false
counts (some err_expired) = false
counts (some _) = true

unfoldable pub turn : Cycle → ℕ → ℕ → ℕ → Turns → Turns
unfolding reconcile
turn c n i id t =
    let r = reconcile (c.runs i) id t.database in
    record {
      database = r.0;
      cursor = (t.cursor + 1) % n;
      is_failed = t.is_failed || counts r.1;
      is_stopped = false;
      served = t.served ++ id ∷ [];
    }

-- `for range ids`: the cursor moves before the context is looked at.
unfoldable pub turns : Cycle → List ℕ → ℕ → ℕ → Turns → Turns
unfolding turn
turns c ids zero i t = t
turns c ids (suc k) i t = elim (nth t.cursor ids) [
  | none ↦ t
  | some id ↦ elim (c.ended i) [
    | true ↦ record t { cursor = (t.cursor + 1) % length ids; is_stopped = true }
    | false ↦ turns c ids k (i + 1) (turn c (length ids) i id t)
  ]
]

abbrev pub degraded_at : ℕ → ℕ → Scheduler
degraded_at now cursor = record { last_cycle = now; is_degraded = true; cursor = cursor }

abbrev pub close_cycle : ℕ → Turns → Database × Scheduler × List ℕ
close_cycle now t = (
  t.database,
  record { last_cycle = now; is_degraded = t.is_stopped || t.is_failed; cursor = t.cursor },
  t.served,
)

unfoldable pub reconcile_all : Cycle → List ℕ → ℕ → Database → Database × Scheduler × List ℕ
unfolding turns
reconcile_all c [] cursor db =
    (db, record { last_cycle = c.now; is_degraded = false; cursor = 0 }, [])
reconcile_all c (id ∷ ids) cursor db = close_cycle c.now (
    turns c (id ∷ ids) (length (id ∷ ids)) 0 (record {
      database = db;
      cursor = cursor % length (id ∷ ids);
      is_failed = false;
      is_stopped = false;
      served = [];
    }))

abbrev pub after_sweep : Cycle → Scheduler → Database × Option Error → Database × Scheduler × List ℕ
after_sweep c x (db, some e) = (db, degraded_at c.now x.cursor, [])
after_sweep c x (db, none) =
    if not (c.challenges_swept && c.refresh_env.fence_taken && c.refresh_env.policy_matches)
    then (db, degraded_at c.now x.cursor, [])
    else let db' = refresh_deadlines c.refresh_env db in
      if c.listed
      then reconcile_all c (scheduled db'.devices) x.cursor db'
      else (db', degraded_at c.now x.cursor, [])

unfoldable pub tick : Cycle → Scheduler → Database → Database × Scheduler × List ℕ
unfolding sweep_expiry refresh_deadlines reconcile_all
tick c x db = after_sweep c x (sweep_expiry c.sweep_env c.sweeps db)
