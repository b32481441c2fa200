-- ===== src/HttpAdmission/Tests.antt =====
-- The default budget at a few requests, and the theorems there.
use daxiang_vpn.Prelude.{ℕ, ◌+◌, ◌≤◌, ◌≡◌, refl, Bool, true, false, List, [], ◌∷◌, length}
use daxiang_vpn.HttpAdmission.Float.{of_nat, add, sub, mul, div, ceil}
use daxiang_vpn.HttpAdmission.Tokens.{full_tokens, is_full, refill, retry, spend}
use daxiang_vpn.HttpAdmission.Defs.{
  denied, rate_limited, Context, default_config, valid_config, fresh, find, sweep_loop, acquire,
  acquire_known, release, retry_after, second,
}
use daxiang_vpn.HttpAdmission.World.{World, Event, request, finish, count_name, step, run}
use daxiang_vpn.HttpAdmission.Limits.{run_limits}

program : Unit {0}
unfolding step run acquire acquire_known release full_tokens is_full refill retry spend of_nat add
    sub mul div ceil valid_config find sweep_loop
program = tt

abbrev calm : Context
calm = record { at_entry = false; at_lock = false; at_reservation = false }

abbrev any_name : ℕ → Bool
any_name n = true

-- Three requests of one source, of which the third meets its limit, one end, and one more request.
abbrev history : List Event
history =
    request calm 5 9
    ∷ request calm 6 9
    ∷ request calm 7 9
    ∷ finish (record { name = 9; slot = 0 })
    ∷ request calm 8 9
    ∷ []

default_valid : valid_config default_config ≡ true
unfolding program
default_valid = refl

history_held :
    length (run any_name history (record { adm = fresh default_config 0; held = [] })).held ≡ 2
unfolding program
history_held = refl

run_limits_example :
    let w = run any_name history (record { adm = fresh default_config 0; held = [] }) in
    (length w.held ≤ 8)
    × (count_name 9 w.held ≤ 2)
    × (length w.adm.sources ≤ 1024)
    × (w.adm.active ≡ length w.held)
run_limits_example = run_limits any_name default_config 0 history 9 default_valid

-- Four requests of a source, each over before the next, that take its four tokens.
abbrev visit : ℕ → List Event → List Event
visit now es = request calm now 9 ∷ finish (record { name = 9; slot = 0 }) ∷ es

abbrev visited : World
visited =
    run any_name (visit 263044168 (visit 397057757 (visit 576884438 (visit 606290941 []))))
      (record { adm = fresh default_config 0; held = [] })

-- The next request is refused, with a wait of 567711880 ns.
refused_once : (acquire any_name calm 695332288 9 visited.adm).1 ≡ denied (rate_limited 567711880)
unfolding program
refused_once = refl

-- After exactly this wait it is refused again: the tokens are rounded, to less than one.
refused_again :
    (acquire any_name calm
      (695332288 + 567711880)
      9
      (acquire any_name calm 695332288 9 visited.adm).0).1
    ≡ denied (rate_limited 1)
unfolding program
refused_again = refl

one_second : retry_after second ≡ 1
unfolding retry_after
one_second = refl
