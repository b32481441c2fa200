-- ===== src/DeviceAuth/Authority.antt =====
-- Who holds which key: the invariant of the authority, and that it survives every operation.
use daxiang_vpn.Prelude.{ℕ, ◌≡◌, true, false, Option, none, some, arith}
use daxiang_vpn.DeviceAuth.State.{active, Net, Device, Database, Command}
use daxiang_vpn.DeviceAuth.Admission.{Env}
use daxiang_vpn.DeviceAuth.Access.{find_device}
use daxiang_vpn.DeviceAuth.Change.{next_state, record_change, first_of}
use daxiang_vpn.DeviceAuth.Views.{
  key_of, state_of, live, is_spent, is_buried, only, key_of-record_change, state_of-record_change,
  live-record_change, is_spent-record_change, is_buried-record_change,
}

-- A device's current key is the one live key that is bound to it; only an active device has one;
-- and the removal of each key that was revoked is on record.
pub record IsSound (db : Database) : Type 0 where
  pub current : (i k : ℕ) → key_of i db ≡ some k → live k db ≡ some i
  pub unique : (i k : ℕ) → live k db ≡ some i → key_of i db ≡ some k
  pub granted : (i k : ℕ) → key_of i db ≡ some k → state_of i db ≡ some active
  pub buried : (k : ℕ) → is_spent k db ≡ true → is_buried k db ≡ true

pub record Unbound (db : Database) (new : Option ℕ) : Type 0 where
  pub not_live : (k : ℕ) → only k new ≡ true → live k db ≡ none
  pub not_spent : (k : ℕ) → only k new ≡ true → is_spent k db ≡ false

module _ (env : Env) (c : Command) (digest : ℕ) (d : Device) (db : Database)
    (bound : Option (ℕ × Net)) (here : find_device d.id db.devices ≡ some d) (v : IsSound db)
    (new : Unbound db (first_of bound))
    (may : (k : ℕ) → first_of bound ≡ some k → next_state c.action d.state ≡ active) where
  abbrev after : Database
  after = (record_change env c digest d bound db).0

  change_current : (i k : ℕ) → key_of i after ≡ some k → live k after ≡ some i
  change_current i k h =
      let e = key_of-record_change env c digest d db here bound i in
      let l = live-record_change env c digest d db here bound k in
      ground (arith, e, l, v.current i k, new.not_live k)

  change_unique : (i k : ℕ) → live k after ≡ some i → key_of i after ≡ some k
  change_unique i k h =
      let e = key_of-record_change env c digest d db here bound i in
      let l = live-record_change env c digest d db here bound k in
      ground (arith, e, l, v.unique i k, v.current i k, new.not_live k)

  change_granted : (i k : ℕ) → key_of i after ≡ some k → state_of i after ≡ some active
  change_granted i k h =
      let e = key_of-record_change env c digest d db here bound i in
      let s = state_of-record_change env c digest d db here bound i in
      ground (arith, e, s, v.granted i k, may k)

  change_buried : (k : ℕ) → is_spent k after ≡ true → is_buried k after ≡ true
  change_buried k h =
      let s = is_spent-record_change env c digest d db here bound k in
      is_buried-record_change env c digest d db here bound k (ground (arith, v.buried k))

  pub record_change-IsSound : IsSound after
  record_change-IsSound = record {
    current = change_current;
    unique = change_unique;
    granted = change_granted;
    buried = change_buried;
  }
