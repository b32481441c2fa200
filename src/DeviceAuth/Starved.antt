-- ===== src/DeviceAuth/Starved.antt =====
-- What the scheduler's cursor does when a cycle's context ends.
use daxiang_vpn.Prelude.{
  ℕ, zero, suc, ◌≡◌, refl, ◌==◌, true, false, List, [], ◌∷◌, ◌++◌, has, arith,
}
use daxiang_vpn.DeviceAuth.State.{Database}
use daxiang_vpn.DeviceAuth.Schedule.{Cycle, turn, turns, reconcile_all}

-- The devices that cycles over the same list reconcile, each from where the one before stopped.
unfoldable pub served_by : (ℕ → Cycle) → ℕ → List ℕ → ℕ → Database → List ℕ
unfolding reconcile_all
served_by cycles zero ids cursor db = []
served_by cycles (suc m) ids cursor db =
    let r = reconcile_all (cycles m) ids cursor db in r.2 ++ served_by cycles m ids r.1.cursor r.0

module _ (c : Cycle) (a b : ℕ) (db : Database) (going : c.ended 0 ≡ false)
    (over : c.ended 1 ≡ true) where
  stopped-served : (reconcile_all c (a ∷ b ∷ []) 0 db).2 ≡ a ∷ []
  unfolding reconcile_all turns turn
  stopped-served = ground (arith, going, over)

  stopped-cursor : (reconcile_all c (a ∷ b ∷ []) 0 db).1.cursor ≡ 0
  unfolding reconcile_all turns turn
  stopped-cursor = ground (arith, going, over)

-- With two devices and the cursor at the first, when the context of every cycle ends during its first
-- turn: however many cycles run, the second device is never reconciled.
pub served_by-starves :
    (cycles : ℕ → Cycle) (m a b : ℕ) (db : Database)
    → (b == a) ≡ false
    → ((j : ℕ) → (cycles j).ended 0 ≡ false)
    → ((j : ℕ) → (cycles j).ended 1 ≡ true)
    → has b (served_by cycles m (a ∷ b ∷ []) 0 db) ≡ false
unfolding served_by
served_by-starves cycles zero a b db d g o = refl
served_by-starves cycles (suc m) a b db d g o =
    let db' : Database = (reconcile_all (cycles m) (a ∷ b ∷ []) 0 db).0 in
    let ih = served_by-starves cycles m a b db' d g o in
    rw
      (
        served_by,
        stopped-served (cycles m) a b db (g m) (o m),
        stopped-cursor (cycles m) a b db (g m) (o m),
      )
      (ground (arith, ih))
