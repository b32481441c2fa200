-- ===== src/DeviceAuth/History.antt =====
-- Histories of the authority's database: the operations of store.go, executor.go and scheduler.go in
-- any order.
use daxiang_vpn.Prelude.{ℕ, List, [], ◌∷◌, find_row}
use daxiang_vpn.DeviceAuth.State.{Database, Command}
use daxiang_vpn.DeviceAuth.Admission.{Env}
use daxiang_vpn.DeviceAuth.Submit.{submit}
use daxiang_vpn.DeviceAuth.Enroll.{Enrollment, enroll, refresh_deadlines}
use daxiang_vpn.DeviceAuth.Claim.{Surroundings}
use daxiang_vpn.DeviceAuth.Process.{reconcile, process}
use daxiang_vpn.DeviceAuth.Authority.{IsSound}
use daxiang_vpn.DeviceAuth.Growth.{Keeps, Keeps-trans, Keeps-refl, submit-Keeps}
use daxiang_vpn.DeviceAuth.Upkeep.{enroll-Keeps, refresh-Keeps}
use daxiang_vpn.DeviceAuth.Schedule.{Cycle, Scheduler, tick}
use daxiang_vpn.DeviceAuth.Cycles.{tick-Keeps}
use daxiang_vpn.DeviceAuth.Runs.{process-Keeps, reconcile-Keeps}

-- A call of the authority, with what it finds around it.
pub data Event : Type 0 where
  submitted : Env → Command → Event
  enrolled : Env → Enrollment → Event
  refreshed : Env → Event
  processed : Surroundings → ℕ → Event
  reconciled : Surroundings → ℕ → Event
  ticked : Cycle → Scheduler → Event

unfoldable pub serve : Event → Database → Database
unfolding submit enroll refresh_deadlines process reconcile tick
serve (submitted env c) db = (submit env c db).0
serve (enrolled env e) db = enroll env e db
serve (refreshed env) db = refresh_deadlines env db
serve (processed s id) db = (process s id db).0
serve (reconciled s device) db = (reconcile s device db).0
serve (ticked c x) db = (tick c x db).0

unfoldable pub serve_all : List Event → Database → Database
unfolding serve
serve_all [] db = db
serve_all (e ∷ es) db = serve_all es (serve e db)

abbrev pub empty_database : Database
empty_database = record {
  devices = [];
  addresses = [];
  bindings = [];
  tombstones = [];
  operations = [];
  outbox = [];
  intents = [];
  executor_fence = 0;
}

empty-IsSound : IsSound empty_database
unfolding find_row
empty-IsSound = record {
  current = λ i k h. cc;
  unique = λ i k h. cc;
  granted = λ i k h. cc;
  buried = λ k h. cc;
}

serve-Keeps : (e : Event) (db : Database) → IsSound db → Keeps db (serve e db)
unfolding serve
serve-Keeps (submitted env c) db v = submit-Keeps env c db v
serve-Keeps (enrolled env e) db v = enroll-Keeps env e db v
serve-Keeps (refreshed env) db v = refresh-Keeps env db v
serve-Keeps (processed s id) db v = process-Keeps s id db v
serve-Keeps (reconciled s device) db v = reconcile-Keeps s device db v
serve-Keeps (ticked c x) db v = tick-Keeps c x db v

pub serve_all-Keeps : (es : List Event) (db : Database) → IsSound db → Keeps db (serve_all es db)
unfolding serve_all
serve_all-Keeps [] db v = Keeps-refl v
serve_all-Keeps (e ∷ es) db v =
    let p = serve-Keeps e db v in Keeps-trans p (serve_all-Keeps es (serve e db) p.sound)

-- After any sequence of `Submit`, `Enroll`, `RefreshDeadlines`, `Process`, `Reconcile` and `Tick` calls on an empty database, with
-- any clocks, failures and external answers: the current key of a device is the one key that is
-- bound to it and not revoked, only an active device has a key, and every revoked key has a tombstone.
pub serve_all-IsSound : (es : List Event) → IsSound (serve_all es empty_database)
serve_all-IsSound es = (serve_all-Keeps es empty_database empty-IsSound).sound
