-- ===== src/DeviceAuth/Accept.antt =====
-- What an accepted command has passed, and what an error leaves.
use daxiang_vpn.Prelude.{
  ℕ, ◌≡◌, refl, sym, ap, subst, ◌∙◌, ◌||◌, not, ◌==◌, Bool, true, false, Option, none, some, ◌⊎◌,
  inl, inr, if◌then◌else◌, is_some, ok, ◌>>◌, require, require-ok, bind-ok, get-ok, passed-ok,
  ok-inj, ==→eq,
}
use daxiang_vpn.DeviceAuth.State.{
  Error, err_conflict, Net, Device, Operation, Database, Command, is_apply, is_active,
}
use daxiang_vpn.DeviceAuth.Admission.{Env}
use daxiang_vpn.DeviceAuth.Submit.{transact}
use daxiang_vpn.DeviceAuth.Access.{find_device, find_binding, authorize, may_apply, find_request}
use daxiang_vpn.DeviceAuth.Change.{vacant, vacant_key, record_change, change}

may-is_active :
    (b : Bool) (env : Env) (db : Database) (d : Device) (u : Unit {0})
    → (if b then may_apply env db d else ok tt) ≡ ok u
    → (not b || is_active d.state) ≡ true
may-is_active true env db d u h = (require-ok _ _ _ h).0
may-is_active false env db d u h = refl

-- The device that an authorized command is about.
pub authorize-device :
    (env : Env) (c : Command) (db : Database) (d : Device)
    → authorize env c db ≡ ok d
    → (find_device c.device_id db.devices ≡ some d)
      × (d.owner_id ≡ c.owner_id)
      × ((not (is_apply c.action) || is_active d.state) ≡ true)
unfolding authorize
authorize-device env c db d h0 =
    let (fence, h1) = require-ok _ _ _ h0 in
    let (policy, h2) = require-ok _ _ _ h1 in
    let (passed, checked, h3) = passed-ok _ _ h2 in
    let (d', found, h4) = get-ok _ _ _ h3 in
    let (owner, h5) = require-ok _ _ _ h4 in
    let (granted, may, h6) = passed-ok _ _ h5 in
    let (timely, h7) = require-ok _ _ _ h6 in
    let e : d' ≡ d = ok-inj h7 in
    (
      found ∙ ap (λ (x : Device). some x) e,
      ==→eq d.owner_id c.owner_id
          (subst (λ (x : Device). (x.owner_id == c.owner_id) ≡ true) e owner),
      subst (λ (x : Device). (not (is_apply c.action) || is_active x.state) ≡ true) e
          (may-is_active (is_apply c.action) env db d' granted may),
    )

not_some {ℓ} : {A : Type ℓ} (o : Option A) → not (is_some o) ≡ true → o ≡ none
not_some none h = refl
not_some (some a) h = cc

-- The key and the address that are bound: the command's, and a key that was never bound.
pub record Vacancy (c : Command) (db : Database) (new : Option (ℕ × Net)) : Type 0 where
  pub key : ℕ
  pub n : Net
  pub bound : new ≡ some (key, n)
  pub free : find_binding key db.bindings ≡ none
  pub named : c.public_key ≡ some key

vacant_key-free :
    (c : Command) (db : Database) (d : Device) (bound : Option (ℕ × Net))
    → vacant_key c db d ≡ ok bound
    → Vacancy c db bound
unfolding vacant_key
vacant_key-free c db d bound h0 =
    let (quota, h1) = require-ok _ _ _ h0 in
    let (key, named, h2) = get-ok _ _ _ h1 in
    let (n, addressed, h3) = get-ok _ _ _ h2 in
    let (free, h4) = require-ok _ _ _ h3 in
    let (owned, h5) = require-ok _ _ _ h4 in
    record {
      key = key;
      n = n;
      bound = sym (ok-inj h5);
      free = not_some (find_binding key db.bindings) free;
      named = named;
    }

vacant_if :
    (b : Bool) (c : Command) (db : Database) (d : Device) (bound : Option (ℕ × Net))
    → (if not b then ok none else vacant_key c db d) ≡ ok bound
    → (bound ≡ none) ⊎ ((b ≡ true) × Vacancy c db bound)
vacant_if true c db d bound h = inr (refl, vacant_key-free c db d bound h)
vacant_if false c db d bound h = inl (sym (ok-inj {E = Error} h))

-- A command binds the key that it names, which was never bound, and only `apply` binds one.
pub vacant-free :
    (c : Command) (db : Database) (d : Device) (bound : Option (ℕ × Net))
    → vacant c db d ≡ ok bound
    → (bound ≡ none) ⊎ ((is_apply c.action ≡ true) × Vacancy c db bound)
unfolding vacant
vacant-free c db d bound h = vacant_if (is_apply c.action) c db d bound h

-- An accepted transaction repeats an operation, or records a change of its device.
pub data Transacted (env : Env) (c : Command) (db db' : Database) (o : Operation) : Type 0 where
  repeated :
      find_request c db.operations ≡ some o
      → o.request_digest ≡ env.digest c
      → db' ≡ db
      → Transacted env c db db' o
  changed :
      (d : Device) (bound : Option (ℕ × Net))
      → find_request c db.operations ≡ none
      → find_device c.device_id db.devices ≡ some d
      → (not (is_apply c.action) || is_active d.state) ≡ true
      → d.generation ≡ c.expected_generation
      → vacant c db d ≡ ok bound
      → (db', o) ≡ record_change env c (env.digest c) d bound db
      → Transacted env c db db' o

change-Transacted :
    (env : Env) (c : Command) (d : Device) (db db' : Database) (o : Operation)
    → find_request c db.operations ≡ none
    → find_device c.device_id db.devices ≡ some d
    → (not (is_apply c.action) || is_active d.state) ≡ true
    → change env c (env.digest c) d db ≡ ok (db', o)
    → Transacted env c db db' o
unfolding change
change-Transacted env c d db db' o new f a h0 =
    let (expected, h1) = require-ok _ _ _ h0 in
    let (room, h2) = require-ok _ _ _ h1 in
    let (bound, free, h3) = bind-ok _ _ h2 in
    let (fresh, h4) = require-ok _ _ _ h3 in
    changed d bound new f a (==→eq _ _ expected) free (sym (ok-inj h4))

transact_if :
    (env : Env) (c : Command) (d : Device) (db db' : Database) (o : Operation)
    (found : Option Operation)
    → find_request c db.operations ≡ found
    → find_device c.device_id db.devices ≡ some d
    → (not (is_apply c.action) || is_active d.state) ≡ true
    → elim found [
      | some x ↦ require (x.request_digest == env.digest c) err_conflict >> ok (db, x)
      | none ↦ change env c (env.digest c) d db
    ]
      ≡ ok (db', o)
    → Transacted env c db db' o
transact_if env c d db db' o none f g a h = change-Transacted env c d db db' o f g a h
transact_if env c d db db' o (some x) f g a h =
    let (same, h1) = require-ok _ _ _ h in
    let e : (db, x) ≡ (db', o) = ok-inj h1 in
    let x-eq : x ≡ o = ap (λ (p : Database × Operation). p.1) e in
    repeated (f ∙ ap (λ (p : Operation). some p) x-eq)
      (subst (λ (p : Operation). p.request_digest ≡ env.digest c) x-eq (==→eq _ _ same))
      (sym (ap (λ (p : Database × Operation). p.0) e))

pub transact-Transacted :
    (env : Env) (c : Command) (db db' : Database) (o : Operation)
    → transact env c db ≡ ok (db', o)
    → Transacted env c db db' o
unfolding transact
transact-Transacted env c db db' o h =
    let (d, authorized, h1) = bind-ok _ _ h in
    let (found, owner, may) = authorize-device env c db d authorized in
    transact_if env c d db db' o (find_request c db.operations) refl found may h1
