-- ===== src/DeviceAuth/Rounds.antt =====
-- Cycles of the scheduler on two devices, and instances of the theorems about them.
use daxiang_vpn.Prelude.{ℕ, ◌≡◌, refl, ◌==◌, not, Bool, true, false, [], ◌∷◌, has}
use daxiang_vpn.DeviceAuth.Schedule.{Cycle, reconcile_all}
use daxiang_vpn.DeviceAuth.Fairness.{reconcile_all-serves}
use daxiang_vpn.DeviceAuth.Starved.{served_by, served_by-starves}
use daxiang_vpn.DeviceAuth.History.{serve_all, empty_database}
use daxiang_vpn.DeviceAuth.Tests.{env_at, granted}
use daxiang_vpn.DeviceAuth.Executions.{surroundings}

-- A cycle whose context ends before that turn, or with `false` never.
abbrev cycle : (ℕ → Bool) → Cycle
cycle ended = record {
  now = 20;
  sweep_env = env_at 20;
  sweeps = λ i. surroundings;
  challenges_swept = true;
  refresh_env = env_at 20;
  listed = true;
  ended = ended;
  runs = λ i. surroundings;
}

reconcile_all-serves_example :
    has 2 (reconcile_all (cycle (λ j. false)) (1 ∷ 2 ∷ []) 5 (serve_all granted empty_database)).2
    ≡ true
reconcile_all-serves_example =
    reconcile_all-serves (cycle (λ j. false)) 2 (1 ∷ 2 ∷ []) 5 (serve_all granted empty_database)
      (λ j. refl) refl

served_by-starves_example :
    has 2 (
      served_by
        (λ m. cycle (λ j. not (j == 0)))
        9
        (1 ∷ 2 ∷ [])
        0
        (serve_all granted empty_database))
    ≡ false
served_by-starves_example =
    served_by-starves (λ m. cycle (λ j. not (j == 0))) 9 1 2 (serve_all granted empty_database) refl
      (λ j. refl) (λ j. refl)
