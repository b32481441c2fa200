-- ===== src/Gate/Owner.antt =====
-- gate.go: `own`, `grant`, `Close` and `AwaitClosed`.
use daxiang_vpn.Prelude.{ℕ, ◌+◌, ◌&&◌, ◌||◌, not, Option, none, some, ltb, ◌==◌, if◌then◌else◌}
use daxiang_vpn.Gate.State.{
  Gate, Error, err_closed, err_protocol, err_cleanup_unknown, is_some, is_nil, leased, max_lease,
}
use daxiang_vpn.Gate.Invalidate.{close_for}

unfoldable pub own : ℕ → Gate → Gate × Option Error
own owner g =
    if not g.initialized || is_some g.cleanup || not (is_nil g.admissions)
    then (g, some err_cleanup_unknown)
    else if not (g.owner == 0) && not (g.owner == owner)
    then (g, some err_closed)
    else (record g { owner = owner; expires = 0 }, none)

unfoldable pub grant : ℕ → ℕ → ℕ → Gate → Gate × Option Error
grant now owner until g =
    if not (ltb now until) || ltb (now + max_lease) until
    then (g, some err_protocol)
    else if is_some g.cleanup || not (g.owner == owner) || owner == 0
    then (g, some err_closed)
    else (record g { expires = until }, none)

unfoldable pub close : Gate → Gate
unfolding close_for
close g = close_for 0 g

-- The first section of `AwaitClosed`: an answer, or the wait for the running task.
pub data Wait : Type 0 where
  answer : Option Error → Wait
  wait : Wait

unfoldable pub await_begin : ℕ → Gate → Wait
await_begin now g =
    if leased now g
    then answer (some err_closed)
    else if is_some g.cleanup
    then wait
    else if not (is_nil g.admissions)
    then answer (some err_cleanup_unknown)
    else answer none

-- What the `select` sees: the task is done, in a later state, or the command budget ends first.
unfoldable pub await_end : ℕ → Option Gate → Option Error
await_end now none = some err_cleanup_unknown
await_end now (some g) = if leased now g then some err_closed else none

-- `later` is the time and the state when `task.done` closes, if it does within the budget.
unfoldable pub await_closed : ℕ → Gate → ℕ → Option Gate → Option Error
unfolding await_begin await_end
await_closed now g now' later = elim (await_begin now g) [
  | answer e ↦ e
  | wait ↦ await_end now' later
]
