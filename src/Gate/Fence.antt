-- ===== src/Gate/Fence.antt =====
-- write_fence.go. `begin`, `end` and `Close` are the sections under the gate's lock; the transport's
-- own calls stand between them.
use daxiang_vpn.Prelude.{
  ℕ, ◌+◌, ◌-◌, Bool, true, false, ◌&&◌, ◌||◌, not, Option, none, some, if◌then◌else◌,
}
use daxiang_vpn.Gate.State.{
  Gate, Fence, Conn, fenced, Handle, outside, inside, Error, err_closed, err_capacity, err_protocol,
  conn_eq, is_some, leased, set_reg,
}
use daxiang_vpn.Gate.Attach.{Verdict, settled, late, attach_end, attach_late, release}

-- `liveLocked`
unfoldable pub is_live : ℕ → Gate → ℕ → Fence → Bool
is_live now g r f =
    let x = g.reg r in
    let a = g.adm x.admission in
    not f.closed
    && not x.released
    && not x.aborted
    && not x.quarantined
    && not a.released
    && not a.cancelled
    && not (is_some g.cleanup)
    && leased now g

abbrev pub new_fence : Conn → Fence
new_fence c = record {
  inner = c;
  closed = false;
  completed = false;
  write_active = false;
  deadline_active = false;
  revoker_active = false;
  operations = 0;
}

-- `r.fence != nil && r.fence.Conn == c`
abbrev pub wraps : Option Fence → Conn → Bool
wraps none c = false
wraps (some f) c = conn_eq f.inner c

-- The state with fence `f` at registration `r`.
abbrev pub set_fence : Gate → ℕ → Fence → Gate
set_fence g r f = set_reg g r (record (g.reg r) { fence = some f })

unfoldable pub is_live_at : ℕ → Gate → ℕ → Bool
unfolding is_live
is_live_at now g r = elim (g.reg r).fence [ none ↦ false | some f ↦ is_live now g r f ]

-- The first section of `AttachFenced`.
unfoldable pub attach_fenced_begin : ℕ → ℕ → Conn → Gate → Gate × Verdict
unfolding is_live_at is_live
attach_fenced_begin now r c g =
    let x = g.reg r in
    let f = new_fence c in
    let y = record x { fence = some f; conn = some (fenced r); attached = true } in
    if wraps x.fence c
    then (g, settled (if is_live_at now g r then none else some err_closed))
    else if x.attached || x.aborted || x.released || is_some x.fence
    then (g, settled (some err_protocol))
    else if is_live now g r f
    then (set_reg g r (record y { ready = true }), settled none)
    else (set_reg g r y, late x.quarantined g.owner)

-- The connection that the caller goes on with, in the success case, is the fence of `r`.
unfoldable pub attach_fenced : ℕ → Handle → Option Conn → Gate → Gate × Option Error
unfolding attach_fenced_begin attach_late
attach_fenced now h none g = (g, some err_protocol)
attach_fenced now outside (some c) g = (g, none)
attach_fenced now (inside r) (some c) g = attach_end r (attach_fenced_begin now r c g)

-- Which flag `begin` and `end` work on.
pub data Slot : Type 0 where
  writing updating : Slot

abbrev pub is_active : Slot → Fence → Bool
is_active writing f = f.write_active
is_active updating f = f.deadline_active

abbrev pub set_active : Slot → Bool → Fence → Fence
set_active writing b f = record f { write_active = b }
set_active updating b f = record f { deadline_active = b }

abbrev pub add_operation : Fence → Fence
add_operation f = record f { operations = f.operations + 1 }

unfoldable pub begin : ℕ → Slot → ℕ → Fence → Gate → Gate × Option Error
unfolding is_live
begin now s r f g =
    if not (is_live now g r f)
    then (g, some err_closed)
    else if is_active s f
    then (g, some err_capacity)
    else (set_fence g r (set_active s true (add_operation f)), none)

-- The locked section of `end`; `operations.Done()` follows it outside the lock.
unfoldable pub end_flag : Slot → ℕ → Fence → Gate → Gate
end_flag s r f g = set_fence g r (set_active s false f)

unfoldable pub done : ℕ → Fence → Gate → Gate
done r f g = set_fence g r (record f { operations = f.operations - 1 })

-- The branch of `updateDeadline` for a deadline that has passed.
unfoldable pub revoke_begin : ℕ → Fence → Gate → Gate × Option Error
revoke_begin r f g =
    if f.closed
    then (g, some err_closed)
    else if f.revoker_active
    then (g, some err_capacity)
    else (set_fence g r (record f { revoker_active = true; operations = f.operations + 1 }), none)

unfoldable pub revoke_end : ℕ → Fence → Gate → Gate
revoke_end r f g = set_fence g r (record f { revoker_active = false })

-- `Close`, up to the transport's own close.
unfoldable pub close_begin : ℕ → Fence → Gate → Gate
close_begin r f g = set_fence g r (record f { closed = true })

-- The rest of `Close`, behind `operations.Wait()`.
unfoldable pub close_end : ℕ → Fence → Gate → Gate
unfolding release
close_end r f g = release (inside r) (set_fence g r (record f { completed = true }))
