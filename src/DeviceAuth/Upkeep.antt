-- ===== src/DeviceAuth/Upkeep.antt =====
-- What each operation beside `Submit` keeps: `Enroll`, `RefreshDeadlines` and the writes of `Process`.
use daxiang_vpn.Prelude.{
  ℕ, ◌≡◌, refl, sym, subst, ◌∙◌, ◌&&◌, not, ◌==◌, Bool, true, false, Option, none, some, ◌∷◌, inl,
  inr, if◌then◌else◌, any-update_where, view-update_where, is_some, find_row, arith, Result, ok,
  err, Result-cases, ok-inj, require-ok, passed-ok,
}
use daxiang_vpn.DeviceAuth.State.{
  Error, err_execution_unknown, err_expired, Device, Binding, Operation, Database,
}
use daxiang_vpn.DeviceAuth.Admission.{Env}
use daxiang_vpn.DeviceAuth.Access.{find_device}
use daxiang_vpn.DeviceAuth.Submit.{submit}
use daxiang_vpn.DeviceAuth.Enroll.{
  Enrollment, new_device, enroll, enroll_checked, keep_result, refresh_deadlines,
}
use daxiang_vpn.DeviceAuth.Claim.{Surroundings, Claim}
use daxiang_vpn.DeviceAuth.Process.{
  expiry_command, record_failure, mark_expired, expire_locked, certify, fail,
}
use daxiang_vpn.DeviceAuth.Views.{key_of, live, live_in, spent_in, key_in, state_in}
use daxiang_vpn.DeviceAuth.Authority.{IsSound}
use daxiang_vpn.DeviceAuth.Growth.{
  SameViews, Keeps, SameViews-Keeps, Keeps-trans, Keeps-refl, SameViews-outbox, submit-Keeps,
}

pub certify-SameViews :
    (c : Claim) (now : ℕ) (db db' : Database) → certify c now db ≡ ok db' → SameViews db db'
unfolding certify
certify-SameViews c now db db' h =
    let (fresh, h1) = require-ok _ _ _ h in
    let (fenced, h2) = require-ok _ _ _ h1 in
    subst (λ (x : Database). SameViews db x) (ok-inj h2)
      (record {
        keys = λ i.
            view-update_where key_in _ _ (λ x. refl) (λ (d : Device). d.id) i db.devices
              (λ x. refl);
        states = λ i.
            view-update_where state_in _ _ (λ x. refl) (λ (d : Device). d.id) i db.devices
              (λ x. refl);
        lives = λ k.
            view-update_where live_in _ _ (λ x. refl) (λ (b : Binding). b.public_key) k _
              (λ x. refl)
            ∙ view-update_where live_in _ _ (λ x. refl) (λ (b : Binding). b.public_key) k
                db.bindings (λ x. refl);
        spents = λ k.
            view-update_where spent_in _ _ (λ x. refl) (λ (b : Binding). b.public_key) k _
              (λ x. refl)
            ∙ view-update_where spent_in _ _ (λ x. refl) (λ (b : Binding). b.public_key) k
                db.bindings (λ x. refl);
        burials = λ k. any-update_where (λ t. t.public_key == k) _ _ db.tombstones (λ x. refl);
        log = refl;
      })

-- A new device, with no key.
module _ (e : Enrollment) (db : Database) (fresh : find_device e.device_id db.devices ≡ none)
    (v : IsSound db) where
  abbrev added : Database
  added = record db { devices = new_device e ∷ db.devices }

  added_unique : (i k : ℕ) → live k added ≡ some i → key_of i added ≡ some k
  unfolding find_row
  added_unique i k h = ground (arith, v.unique i k, fresh)

  added-IsSound : IsSound added
  unfolding find_row
  added-IsSound = record {
    current = λ i k h. ground (arith, v.current i k);
    unique = added_unique;
    granted = λ i k h. ground (arith, v.granted i k);
    buried = v.buried;
  }

  added-Keeps : Keeps db added
  unfolding find_row
  added-Keeps = record {
    sound = added-IsSound;
    spent = λ k h. h;
    final = λ i h. ground (arith, fresh);
    answered = λ c o h. h;
  }

none_if : {A : Type 0} (o : Option A) → not (is_some o) ≡ true → o ≡ none
none_if none h = refl
none_if (some a) h = cc

enroll_checked-Keeps :
    (env : Env) (e : Enrollment) (db db' : Database)
    → IsSound db
    → enroll_checked env e db ≡ ok db'
    → Keeps db db'
unfolding enroll_checked
enroll_checked-Keeps env e db db' v h =
    let (valid, h1) = require-ok _ _ _ h in
    let (fenced, h2) = require-ok _ _ _ h1 in
    let (matched, h3) = require-ok _ _ _ h2 in
    let (u, room, h4) = passed-ok _ _ h3 in
    let (fresh, h5) = require-ok _ _ _ h4 in
    subst (λ (x : Database). Keeps db x) (ok-inj h5) (added-Keeps e db (none_if _ fresh) v)

pub enroll-Keeps :
    (env : Env) (e : Enrollment) (db : Database) → IsSound db → Keeps db (enroll env e db)
unfolding enroll
enroll-Keeps env e db v = elim (Result-cases (enroll_checked env e db)) [
  | inl (db', h) ↦
      subst (λ (r : Result Error Database). Keeps db (keep_result db r)) (sym h)
        (enroll_checked-Keeps env e db db' v h)
  | inr (x, h) ↦
      subst (λ (r : Result Error Database). Keeps db (keep_result db r)) (sym h) (Keeps-refl v)
]

kept_if :
    (b : Bool) (db db' : Database)
    → IsSound db
    → SameViews db db'
    → Keeps db (if b then db' else db)
kept_if true db db' v s = SameViews-Keeps v s
kept_if false db db' v s = Keeps-refl v

pub refresh-Keeps : (env : Env) (db : Database) → IsSound db → Keeps db (refresh_deadlines env db)
unfolding refresh_deadlines
refresh-Keeps env db v =
    kept_if (env.fence_taken && env.policy_matches) db _ v
      (SameViews-outbox db _ refl refl refl refl)

pub fail-Keeps :
    (s : Surroundings) (id : ℕ) (cause : Error) (db : Database)
    → IsSound db
    → Keeps db (fail s id cause db).0
unfolding record_failure
fail-Keeps s id cause db v =
    kept_if s.failure_written db _ v (SameViews-outbox db _ refl refl refl refl)

marked_if :
    (b : Bool) (a db db' : Database) (x y : Option Error)
    → Keeps a db
    → SameViews db db'
    → let r : Database × Option Error = if b then (db', x) else (db, y) in Keeps a r.0
marked_if true a db db' x y p s = Keeps-trans p (SameViews-Keeps p.sound s)
marked_if false a db db' x y p s = p

mark_expired-Keeps :
    (s : Surroundings) (a : Database) (r : Database × Result Error Operation)
    → Keeps a r.0
    → Keeps a (mark_expired s r).0
unfolding mark_expired
mark_expired-Keeps s a (db, err e) p = p
mark_expired-Keeps s a (db, ok o) p =
    marked_if s.expiry_written a db _ (some err_expired) (some err_execution_unknown) p
      (SameViews-outbox db _ refl refl refl refl)

pub expire_locked-Keeps :
    (s : Surroundings) (d : Device) (db : Database) → IsSound db → Keeps db (expire_locked s d db).0
expire_locked-Keeps s d db v =
    mark_expired-Keeps s db (submit s.expiry_env (expiry_command s d) db)
      (submit-Keeps s.expiry_env (expiry_command s d) db v)
