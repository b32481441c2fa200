-- ===== src/ProcessBudget/Tests.antt =====
-- A runner with one seat: a run that ends well, one that writes too much and one that is lost.
use daxiang_vpn.Prelude.{◌≤◌, ◌≡◌, refl, true, false, none, some, List, [], ◌∷◌, arith}
use daxiang_vpn.ProcessBudget.Runner.{
  busy, output_limit, Spec, Runner, Report, admit, valid_spec, conclude, classify, write, write_all,
}
use daxiang_vpn.ProcessBudget.Output.{total, stdout_of, conclude-whole}
use daxiang_vpn.ProcessBudget.Seats.{World, Event, starts, ends, step, run, IsSeated, run-IsSeated}

program : Unit {0}
unfolding admit valid_spec conclude classify write write_all step run
program = tt

abbrev spec : Spec
spec = record { executable = 1 ∷ []; args = []; timeout = 1_000_000_000; output_limit = 4 }

abbrev good : Report
good = record {
  ended_early = false;
  found = true;
  started = true;
  verified = true;
  fails = false;
  pieces =
      record { is_stdout = true; bytes = 5 ∷ 6 ∷ [] }
      ∷ record { is_stdout = false; bytes = 7 ∷ [] }
      ∷ record { is_stdout = true; bytes = 8 ∷ [] }
      ∷ [];
  bounded_ended = false;
  caller_cancelled = false;
}

abbrev loud : Report
loud = record good { pieces = record { is_stdout = true; bytes = 1 ∷ 2 ∷ 3 ∷ 4 ∷ 5 ∷ [] } ∷ [] }

abbrev lost : Report
lost = record good { verified = false }

abbrev one_seat : Runner
one_seat = record { capacity = 1; taken = 0 }

abbrev in_use : Runner
in_use = record { capacity = 1; taken = 1 }

second_refused : (admit (some false) spec in_use).1 ≡ some busy
unfolding program
second_refused = refl

loud_refused : (conclude spec loud in_use).1.kind ≡ some output_limit
unfolding program
loud_refused = refl

good_ends : (conclude spec good in_use).1.kind ≡ none
unfolding program
good_ends = refl

conclude-whole_example :
    (good.verified ≡ true)
    × ((conclude spec good in_use).0.taken ≡ 0)
    × ((conclude spec good in_use).1.stdout ≡ stdout_of good.pieces)
    × (total good.pieces ≤ 4)
conclude-whole_example = conclude-whole spec good in_use good_ends

abbrev history : List Event
history =
    starts (some false) spec
    ∷ ends spec good
    ∷ starts (some false) spec
    ∷ ends spec lost
    ∷ starts (some false) spec
    ∷ []

abbrev idle : World
idle = record { runner = one_seat; running = 0; lost = 0 }

-- The last start finds the seat of the lost run still taken.
history_seats : (run history idle).runner.taken ≡ 1
unfolding program
history_seats = refl

idle-IsSeated : IsSeated 1 idle
idle-IsSeated = (refl, omega arith, refl)

run-IsSeated_example : IsSeated 1 (run history idle)
run-IsSeated_example = run-IsSeated 1 history idle idle-IsSeated
