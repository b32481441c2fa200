-- ===== src/ProcessBudget/Seats.antt =====
-- The seats after any history of runs, in any interleaving.
use daxiang_vpn.Prelude.{
  ℕ, ◌+◌, ◌-◌, ◌≤◌, ◌≡◌, ◌&&◌, not, ◌==◌, Bool, Option, none, some, List, [], ◌∷◌, if◌then◌else◌,
  arith,
}
use daxiang_vpn.ProcessBudget.Runner.{Kind, Spec, Runner, Report, admit, conclude}

-- A runner, how many runs hold a seat, and how many runs have lost their supervision.
pub record World : Type 0 where
  pub runner : Runner
  pub running : ℕ
  pub lost : ℕ

pub data Event : Type 0 where
  starts : Option Bool → Spec → Event
  ends : Spec → Report → Event

-- The process started and its cleanup is not confirmed.
abbrev pub is_lost : Report → Bool
is_lost p = not p.ended_early && p.found && not p.verified

abbrev pub seated : ℕ → Option Kind → ℕ
seated n none = n + 1
seated n (some k) = n

unfoldable pub step : Event → World → World
unfolding admit conclude
step (starts ctx s) w =
    let (r, k) = admit ctx s w.runner in
    record { runner = r; running = seated w.running k; lost = w.lost }
step (ends s p) w = if w.running == 0 then w else record {
  runner = (conclude s p w.runner).0;
  running = w.running - 1;
  lost = if is_lost p then w.lost + 1 else w.lost;
}

unfoldable pub run : List Event → World → World
unfolding step
run [] w = w
run (e ∷ es) w = run es (step e w)

abbrev pub IsSeated : ℕ → World → Type 0
IsSeated capacity w =
    (w.runner.taken ≡ w.running + w.lost)
    × (w.runner.taken ≤ w.runner.capacity)
    × (w.runner.capacity ≡ capacity)

admit-IsSeated :
    (capacity : ℕ) (ctx : Option Bool) (s : Spec) (w : World)
    → IsSeated capacity w
    → IsSeated capacity (step (starts ctx s) w)
unfolding step admit
admit-IsSeated capacity none s w v = v
admit-IsSeated capacity (some c) s w v = ground arith

conclude-IsSeated :
    (capacity : ℕ) (s : Spec) (p : Report) (w : World)
    → IsSeated capacity w
    → IsSeated capacity (step (ends s p) w)
unfolding step conclude
conclude-IsSeated capacity s p w v = ground arith

step-IsSeated :
    (capacity : ℕ) (e : Event) (w : World) → IsSeated capacity w → IsSeated capacity (step e w)
step-IsSeated capacity (starts ctx s) w v = admit-IsSeated capacity ctx s w v
step-IsSeated capacity (ends s p) w v = conclude-IsSeated capacity s p w v

-- From any runner within its capacity, after any interleaving of starts and ends, the seats taken
-- are those of the runs in progress and those of the runs whose supervision was lost, and are at
-- most the capacity: a lost seat is never given out again.
pub run-IsSeated :
    (capacity : ℕ) (es : List Event) (w : World)
    → IsSeated capacity w
    → IsSeated capacity (run es w)
unfolding run
run-IsSeated capacity [] w v = v
run-IsSeated capacity (e ∷ es) w v =
    run-IsSeated capacity es (step e w) (step-IsSeated capacity e w v)
