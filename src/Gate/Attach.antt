-- ===== src/Gate/Attach.antt =====
-- gate.go: `Attach`, `Track`, `Abort`, `Untrack` and both `Release` methods. `Attach` takes the lock
-- three times when it comes late: the sections are functions, and `attach` runs them in order.
use daxiang_vpn.Prelude.{
  ℕ, Bool, true, false, ◌&&◌, ◌||◌, not, Option, none, some, List, [], ◌∷◌, if◌then◌else◌, remove,
  update,
}
use daxiang_vpn.Gate.State.{
  Gate, Registration, Conn, Handle, outside, inside, Error, err_closed, err_protocol, conn_is,
  is_nil, leased, set_reg, set_adm,
}
use daxiang_vpn.Gate.Invalidate.{close_for}

-- The outcome of the first section: a result, or what the late case has captured.
pub data Verdict : Type 0 where
  settled : Option Error → Verdict
  late : Bool → ℕ → Verdict

-- `a.ctx.Err() != nil || r.quarantined || g.owner == "" || !time.Now().Before(g.expires)`
abbrev pub is_late : ℕ → Gate → ℕ → Bool
is_late now g r =
    let x = g.reg r in (g.adm x.admission).cancelled || x.quarantined || not (leased now g)

unfoldable pub attach_again : Gate → ℕ → Conn → Option Error
attach_again g r c =
    let x = g.reg r in
    if not (conn_is x.conn c)
    then some err_protocol
    else if (g.adm x.admission).cancelled || x.quarantined || x.released
    then some err_closed
    else none

unfoldable pub attach_first : ℕ → ℕ → Conn → Gate → Gate × Verdict
attach_first now r c g =
    let x = g.reg r in
    let y = record x { conn = some c; attached = true } in
    if is_late now g r
    then (set_reg g r y, late x.quarantined g.owner)
    else (set_reg g r (record y { ready = true }), settled none)

unfoldable pub attach_begin : ℕ → ℕ → Conn → Gate → Gate × Verdict
unfolding attach_again attach_first
attach_begin now r c g =
    let x = g.reg r in
    if x.attached
    then (g, settled (attach_again g r c))
    else if x.aborted || x.released
    then (g, settled (some err_protocol))
    else attach_first now r c g

unfoldable pub close_ready : ℕ → Gate → Gate
close_ready r g = set_reg g r (record (g.reg r) { ready = true })

-- The end of a late `Attach`: close the scope unless a quarantine owns the resource, then publish.
unfoldable pub attach_late : ℕ → Bool → ℕ → Gate → Gate
unfolding close_for close_ready
attach_late r quarantined owner g = close_ready r (if quarantined then g else close_for owner g)

abbrev pub attach_end : ℕ → Gate × Verdict → Gate × Option Error
attach_end r (g, settled e) = (g, e)
attach_end r (g, late quarantined owner) = (attach_late r quarantined owner g, some err_closed)

unfoldable pub attach : ℕ → Handle → Option Conn → Gate → Gate × Option Error
unfolding attach_begin attach_late
attach now h none g = (g, some err_protocol)
attach now outside (some c) g = (g, none)
attach now (inside r) (some c) g = attach_end r (attach_begin now r c g)

-- `Track` attaches the reserved client.
unfoldable pub track : ℕ → Handle → Option Conn → Gate → Gate × Option Error
unfolding attach
track now h none g = (g, some err_protocol)
track now outside (some c) g = (g, none)
track now (inside a) (some c) g = attach now (inside (g.adm a).client) (some c) g

-- `r.released = true`, out of its admission's map, and the admission out of the gate's if it has
-- ended and holds nothing else.
unfoldable pub drop : ℕ → Gate → Gate
drop r g =
    let x = g.reg r in
    let a = g.adm x.admission in
    let left = remove r a.registrations in
    record g {
      reg = update g.reg r (record x { released = true });
      adm = update g.adm x.admission (record a { registrations = left });
      admissions =
          if a.released && is_nil left then remove x.admission g.admissions else g.admissions;
    }

unfoldable pub abort : Handle → Gate → Gate
unfolding drop
abort outside g = g
abort (inside r) g =
    let x = g.reg r in
    let g' = set_reg g r (record x { aborted = true; ready = true }) in
    if x.attached || x.aborted || x.released then g else if x.quarantined then g' else drop r g'

-- `r.fence != nil && !r.fence.completed`
abbrev pub fence_open : Registration → Bool
fence_open x = elim x.fence [ none ↦ false | some f ↦ not f.completed ]

-- Whether `Release` has to leave the registration alone.
unfoldable pub is_held : Registration → Bool
is_held x = x.quarantined || x.released || fence_open x || (not x.attached && not x.aborted)

unfoldable pub release : Handle → Gate → Gate
unfolding drop is_held
release outside g = g
release (inside r) g = if is_held (g.reg r) then g else drop r g

-- The first attached registration of the list that holds the connection.
unfoldable pub find_conn : Gate → Conn → List ℕ → Handle
find_conn g c [] = outside
find_conn g c (r ∷ l) =
    if (g.reg r).attached && conn_is (g.reg r).conn c then inside r else find_conn g c l

unfoldable pub untrack : Handle → Conn → Gate → Gate
unfolding find_conn release
untrack outside c g = g
untrack (inside a) c g = release (find_conn g c (g.adm a).registrations) g

-- The client's part of `Release`: a pending reservation is aborted, and one that no quarantine
-- holds is let go. Inside the quarantine test its abort has been done already.
unfoldable pub release_client : ℕ → Gate → Gate
release_client a g =
    let y = g.adm a in
    let r = y.client in
    let x = g.reg r in
    let pending = not x.attached && not x.aborted && not x.released in
    let x' = if pending then record x { aborted = true; ready = true } else x in
    if not x.quarantined && not x.released
    then record g {
      reg = update g.reg r (record x' { released = true });
      adm = update g.adm a (record y { registrations = remove r y.registrations });
    }
    else set_reg g r x'

unfoldable pub end_admission : ℕ → Gate → Gate
unfolding release_client
end_admission a g =
    let g' =
      release_client a (set_adm g a (record (g.adm a) { released = true; cancelled = true })) in
    if is_nil (g'.adm a).registrations
    then record g' { admissions = remove a g'.admissions }
    else g'

-- `Admission.Release`
unfoldable pub release_admission : Handle → Gate → Gate
unfolding end_admission
release_admission outside g = g
release_admission (inside a) g = if (g.adm a).released then g else end_admission a g
