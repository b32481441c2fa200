-- ===== src/Gate/Admit.antt =====
-- gate.go: `AcquireSource` and `Reserve`. `source(raw)` is an argument: the parsed address, or
-- `none` where it fails.
use daxiang_vpn.Prelude.{
  ℕ, suc, ◌-◌, ◌/◌, ◌^◌, Bool, false, ◌||◌, not, Option, none, some, List, [], ◌∷◌, leb, ◌==◌,
  if◌then◌else◌, length, update,
}
use daxiang_vpn.Gate.State.{
  Gate, Addr, v4, v6, Prefix, Handle, outside, inside, Result, ok, err, err_policy, err_closed,
  err_capacity, max_admissions, max_tracked_connections, is_some, leased, new_registration,
}
use daxiang_vpn.Gate.Invalidate.{begin_invalidate}

-- `netip.Prefix.Contains`, for an IPv4 prefix.
abbrev pub contains : Prefix → Addr → Bool
contains p (v4 a) = a / 2 ^ (32 - p.bits) == p.base / 2 ^ (32 - p.bits)
contains p (v6 a) = false

unfoldable pub any_contains : List Prefix → Addr → Bool
any_contains [] a = false
any_contains (p ∷ ps) a = contains p a || any_contains ps a

-- The new admission and its reserved client.
unfoldable pub admit : Gate → Gate
admit g =
    let a = g.next_admission in
    let r = g.next_registration in
    record g {
      adm =
          update g.adm a
            (record { cancelled = false; registrations = r ∷ []; client = r; released = false });
      reg = update g.reg r (new_registration a);
      admissions = a ∷ g.admissions;
      next_admission = suc a;
      next_registration = suc r;
    }

unfoldable pub acquire_managed : ℕ → Gate → Gate × Result Handle
unfolding admit begin_invalidate
acquire_managed now g =
    if is_some g.cleanup || not (leased now g)
    then (g, err err_closed)
    else if leb max_admissions (length g.admissions)
    then (begin_invalidate 0 g, err err_capacity)
    else (admit g, ok (inside g.next_admission))

unfoldable pub acquire_source : ℕ → Option Addr → Gate → Gate × Result Handle
unfolding acquire_managed
acquire_source now addr g = if not g.initialized then (g, err err_policy) else elim addr [
  | none ↦ (g, err err_policy)
  | some a ↦ if any_contains g.managed a then acquire_managed now g else (g, ok outside)
]

-- The new registration of admission `a`.
unfoldable pub enroll : ℕ → Gate → Gate
enroll a g =
    let r = g.next_registration in
    let x = g.adm a in
    record g {
      adm = update g.adm a (record x { registrations = r ∷ x.registrations });
      reg = update g.reg r (new_registration a);
      next_registration = suc r;
    }

unfoldable pub reserve : ℕ → Handle → Gate → Gate × Result Handle
unfolding enroll begin_invalidate
reserve now outside g = (g, ok outside)
reserve now (inside a) g =
    let x = g.adm a in
    if x.released || x.cancelled || is_some g.cleanup || not (leased now g)
    then (g, err err_closed)
    else if leb max_tracked_connections (length x.registrations)
    then (begin_invalidate 0 g, err err_capacity)
    else (enroll a g, ok (inside g.next_registration))
