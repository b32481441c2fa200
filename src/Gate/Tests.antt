-- ===== src/Gate/Tests.antt =====
-- A session from its first grant to its cleanup, and the theorems of the gate at that history.
use daxiang_vpn.Prelude.{◌<◌, ◌≡◌, refl, true, false, Option, none, some, List, [], ◌∷◌, arith, inr}
use daxiang_vpn.Gate.State.{Prefix, Addr, v4, raw, err_closed, err_cleanup_unknown, leased}
use daxiang_vpn.Gate.Policy.{
  valid_prefix, disjoint_from, valid_sources, covers_from, covers, covers-any_contains,
}
use daxiang_vpn.Gate.Invalidate.{close_for, collect}
use daxiang_vpn.Gate.Admit.{contains, acquire_source, any_contains}
use daxiang_vpn.Gate.Owner.{own, await_begin, answer}
use daxiang_vpn.Gate.Fence.{writing, begin, new_fence}
use daxiang_vpn.Gate.Step.{
  Action, owns, grants, closes_for, acquires, reserves, attaches, attaches_fenced, reaps, finishes,
  begins, clears, dones, close_begins, close_ends, step, run, new,
}
use daxiang_vpn.Gate.Handover.{IsReaped, own-IsReaped, await_begin-IsReaped}
use daxiang_vpn.Gate.Revocation.Final.{begin-after_close_for}
use daxiang_vpn.Gate.Capacity.Bounds.{IsBounded}
use daxiang_vpn.Gate.Capacity.Steps.{run-IsBounded, new-IsBounded}

-- 10.66.0.0/16 and 10.66.0.9.
abbrev pub sources : List Prefix
sources = record { base = 0x0a420000; bits = 16 } ∷ []

abbrev customer : Option Addr
customer = some (v4 0x0a420009)

-- A client and one fenced upstream, with a write in flight.
abbrev opening : List Action
opening =
    owns 1
    ∷ grants 10 1 1000
    ∷ acquires 11 customer
    ∷ attaches 12 0 (raw 7)
    ∷ reserves 13 0
    ∷ attaches_fenced 14 1 (raw 8)
    ∷ begins 15 writing 1
    ∷ []

-- The session is closed, and the cleanup runs to its end.
abbrev pub session : List Action
session =
    owns 1
    ∷ grants 10 1 1000
    ∷ acquires 11 customer
    ∷ attaches 12 0 (raw 7)
    ∷ reserves 13 0
    ∷ attaches_fenced 14 1 (raw 8)
    ∷ begins 15 writing 1
    ∷ closes_for 1
    ∷ reaps 0
    ∷ close_begins 1
    ∷ clears writing 1
    ∷ dones 1
    ∷ close_ends 1
    ∷ reaps 1
    ∷ finishes
    ∷ []

program : Unit {0}
unfolding run step new own close_for collect await_begin begin any_contains acquire_source
program = tt

-- The write holds its permit, and a second one is refused.
opening_busy : (step (begins 16 writing 1) (run opening (new sources))).owner ≡ 1
unfolding program
opening_busy = refl

opening_issued : (run opening (new sources)).next_registration ≡ 2
unfolding program
opening_issued = refl

-- In the middle of the cleanup no owner is accepted.
own_early : (own 2 (step (closes_for 1) (run opening (new sources)))).1 ≡ some err_cleanup_unknown
unfolding program
own_early = refl

session_over : (own 2 (run session (new sources))).1 ≡ none
unfolding program
session_over = refl

session_issued : 1 < (run session (new sources)).next_registration
unfolding program
session_issued = omega arith

own-IsReaped_example : IsReaped (run session (new sources)) 1
own-IsReaped_example = own-IsReaped sources session 2 1 session_over session_issued

session_closed : await_begin 2000 (run session (new sources)) ≡ answer none
unfolding program
session_closed = refl

await_begin-IsReaped_example :
    (leased 2000 (run session (new sources)) ≡ false)
    × ((run session (new sources)).cleanup ≡ none)
    × IsReaped (run session (new sources)) 1
await_begin-IsReaped_example =
    await_begin-IsReaped sources session 2 1 2000 session_closed session_issued

opening_owner : (run opening (new sources)).owner ≡ 1
unfolding program
opening_owner = refl

opening_bound : 1 < (run opening (new sources)).next_registration
unfolding program
opening_bound = omega arith

-- After the close a new owner is granted a lease, and the old upstream stays refused.
abbrev later : List Action
later =
    reaps 0
    ∷ close_begins 1
    ∷ clears writing 1
    ∷ dones 1
    ∷ close_ends 1
    ∷ reaps 1
    ∷ finishes
    ∷ owns 2
    ∷ grants 30 2 900
    ∷ []

begin-after_close_for_example :
    let g = run later (close_for 1 (run opening (new sources))) in
    begin 31 writing 1 (new_fence (raw 8)) g ≡ (g, some err_closed)
begin-after_close_for_example =
    begin-after_close_for sources opening later 1 1 31 writing (new_fence (raw 8))
      (inr opening_owner) opening_bound

run-IsBounded_example : IsBounded (run session (new sources))
run-IsBounded_example = run-IsBounded session (new-IsBounded sources)

-- 10.66.0.0/17 and 10.66.128.0/17, which cover 10.66.0.0/16.
abbrev halves : List Prefix
halves = record { base = 0x0a428000; bits = 17 } ∷ record { base = 0x0a420000; bits = 17 } ∷ []

abbrev whole : Prefix
whole = record { base = 0x0a420000; bits = 16 }

halves_cover : covers halves [] whole ≡ true
unfolding covers valid_sources disjoint_from valid_prefix covers_from
halves_cover = refl

in_whole : contains whole (v4 0x0a42c801) ≡ true
in_whole = refl

covers-any_contains_example : any_contains halves (v4 0x0a42c801) ≡ true
covers-any_contains_example = covers-any_contains halves [] whole 0x0a42c801 halves_cover in_whole
