-- ===== src/DeviceAuth/Outcomes.antt =====
-- How `submit` ends: what an accepted command has passed, what an error leaves, and a repetition.
use daxiang_vpn.Prelude.{
  ℕ, ◌≡◌, refl, sym, ap, subst, ◌∙◌, ◌==◌, Bool, true, false, Option, none, some, ◌⊎◌, inl, inr,
  if◌then◌else◌, Result, ok, err, ◌>>=◌, ◌>>◌, require, require-ok, get, bind-ok, get-ok, ok-inj,
  ==_refl,
}
use daxiang_vpn.DeviceAuth.State.{
  Error, err_invalid, err_protected, Policy, Net, err_conflict, err_overdue, Device, Operation,
  Database, Command, is_apply,
}
use daxiang_vpn.DeviceAuth.Admission.{Env, address, admissible, admit_key, admit_no_key}
use daxiang_vpn.DeviceAuth.Submit.{is_late, submit_admitted, transact, degrade, settle, submit}
use daxiang_vpn.DeviceAuth.Access.{authorize, find_request}
use daxiang_vpn.DeviceAuth.Change.{change}
use daxiang_vpn.DeviceAuth.Accept.{Transacted, transact-Transacted}

admitted_if :
    (b : Bool) (env : Env) (c a : Command)
    → (if b then admit_key env c else admit_no_key c) ≡ ok a
    → a ≡ record c { address = a.address }
admitted_if true env c a h0 =
    let (key, named, h1) = get-ok _ _ _ h0 in
    let (valid, h2) = require-ok _ _ _ h1 in
    let (n, addressed, h3) = bind-ok _ _ h2 in
    let e : record c { address = some n } ≡ a = ok-inj {E = Error} h3 in
    sym e ∙ ap (λ (x : Command). record c { address = x.address }) e
admitted_if false env c a h0 =
    let (none_given, h1) = require-ok _ _ _ h0 in
    let e : c ≡ a = ok-inj {E = Error} h1 in
    sym e ∙ ap (λ (x : Command). record c { address = x.address }) e

-- `admissible` changes only the spelling of the address.
pub admissible-command :
    (env : Env) (c a : Command) → admissible env c ≡ ok a → a ≡ record c { address = a.address }
unfolding admissible
admissible-command env c a h =
    let (names, h1) = require-ok _ _ _ h in admitted_if (is_apply c.action) env c a h1

settle-ok :
    (device : ℕ) (db : Database) (r : Result Error (Database × Operation)) (o : Operation)
    → (settle device db r).1 ≡ ok o
    → r ≡ ok ((settle device db r).0, o)
settle-ok device db (ok (db', x)) o h = ap (λ (p : Operation). ok (db', p)) (ok-inj {E = Error} h)
settle-ok device db (err e) o h = cc

err-inj : {A : Type 0} {x y : Error} → let r : Result Error A = err x in r ≡ err y → x ≡ y
err-inj h = cc

-- An early return with an error that is not for an overdue operation, and what follows it.
require-is_late :
    {A : Type 0} (b : Bool) (x e : Error) (s : Result Error A)
    → is_late x ≡ false
    → (s ≡ err e → is_late e ≡ false)
    → (require b x >> s) ≡ err e
    → is_late e ≡ false
unfolding ◌>>◌ require
require-is_late true x e s p k h = k h
require-is_late false x e s p k h = subst (λ (y : Error). is_late y ≡ false) (err-inj h) p

bind-is_late :
    {A B : Type 0} (r : Result Error A) (k : A → Result Error B) (e : Error)
    → (r ≡ err e → is_late e ≡ false)
    → ((a : A) → k a ≡ err e → is_late e ≡ false)
    → (r >>= k) ≡ err e
    → is_late e ≡ false
unfolding ◌>>=◌
bind-is_late (ok a) k e p q h = q a h
bind-is_late (err x) k e p q h = p (ap err (err-inj h))

get-is_late :
    {A B : Type 0} (o : Option A) (x : Error) (k : A → Result Error B) (e : Error)
    → is_late x ≡ false
    → ((a : A) → k a ≡ err e → is_late e ≡ false)
    → (get o x >>= k) ≡ err e
    → is_late e ≡ false
unfolding ◌>>=◌ get
get-is_late none x k e p q h = subst (λ (y : Error). is_late y ≡ false) (err-inj h) p
get-is_late (some a) x k e p q h = q a h

address-is_late :
    (policy : Policy) (key : ℕ) (n : Option Net) (e : Error)
    → address policy key n ≡ err e
    → is_late e ≡ false
unfolding address
address-is_late policy key none e h = subst (λ (y : Error). is_late y ≡ false) (err-inj h) refl
address-is_late policy key (some n) e h =
    require-is_late _ err_invalid e _ refl
      (require-is_late _ err_protected e _ refl
        (require-is_late _ err_protected e _ refl (λ x. cc)))
      h

key_if-is_late :
    (b : Bool) (env : Env) (c : Command) (e : Error)
    → (if b then admit_key env c else admit_no_key c) ≡ err e
    → is_late e ≡ false
key_if-is_late true env c e h =
    get-is_late c.public_key err_invalid _ e refl
      (λ key. require-is_late _ err_invalid e _ refl (
        bind-is_late (address env.policy key c.address) _ e
          (address-is_late env.policy key c.address e) (λ n x. cc)))
      h
key_if-is_late false env c e h = require-is_late _ err_invalid e _ refl (λ x. cc) h

admissible-is_late :
    (env : Env) (c : Command) (e : Error) → admissible env c ≡ err e → is_late e ≡ false
unfolding admissible
admissible-is_late env c e h =
    require-is_late _ err_invalid e _ refl (key_if-is_late (is_apply c.action) env c e) h

settle_late :
    (device : ℕ) (db : Database) (x e : Error)
    → x ≡ e
    → ((is_late e ≡ false) × ((if is_late x then degrade device db else db) ≡ db))
      ⊎ ((e ≡ err_overdue) × ((if is_late x then degrade device db else db) ≡ degrade device db))
settle_late device db err_overdue e q = inr (sym q, refl)
settle_late device db x e q = inl (subst (λ (y : Error). is_late y ≡ false) q refl, refl)

settle-err :
    (device : ℕ) (db : Database) (r : Result Error (Database × Operation)) (e : Error)
    → (settle device db r).1 ≡ err e
    → ((is_late e ≡ false) × ((settle device db r).0 ≡ db))
      ⊎ ((e ≡ err_overdue) × ((settle device db r).0 ≡ degrade device db))
settle-err device db (ok (db', x)) e h = cc
settle-err device db (err x) e h = settle_late device db x e (err-inj h)

admitted-ok :
    (env : Env) (c : Command) (db : Database) (r : Result Error Command) (o : Operation)
    → (submit_admitted env c db r).1 ≡ ok o
    → (a : Command) × (r ≡ ok a) × Transacted env a db (submit_admitted env c db r).0 o
admitted-ok env c db (err e) o h = cc
admitted-ok env c db (ok a) o h =
    (a, refl, transact-Transacted env a db _ o (settle-ok c.device_id db (transact env a db) o h))

admitted-err :
    (env : Env) (c : Command) (db : Database) (r : Result Error Command) (e : Error)
    → (submit_admitted env c db r).1 ≡ err e
    → (admissible env c ≡ r)
    → ((is_late e ≡ false) × ((submit_admitted env c db r).0 ≡ db))
      ⊎ ((e ≡ err_overdue) × ((submit_admitted env c db r).0 ≡ degrade c.device_id db))
admitted-err env c db (err x) e h q =
    inl (admissible-is_late env c e (q ∙ ap err (err-inj h)), refl)
admitted-err env c db (ok a) e h q = settle-err c.device_id db (transact env a db) e h

admitted-authorize :
    (env : Env) (c : Command) (db : Database) (r : Result Error Command) (o : Operation)
    → (submit_admitted env c db r).1 ≡ ok o
    → (a : Command) × (r ≡ ok a) × ((d : Device) × (authorize env a db ≡ ok d))
unfolding transact
admitted-authorize env c db (err e) o h = cc
admitted-authorize env c db (ok a) o h =
    let (d, authorized, rest) = bind-ok _ _ (settle-ok c.device_id db (transact env a db) o h) in
    (a, refl, (d, authorized))

-- An accepted command is authorized.
pub submit-authorize :
    (env : Env) (c : Command) (db : Database) (o : Operation)
    → (submit env c db).1 ≡ ok o
    → (a : Command) × (admissible env c ≡ ok a) × ((d : Device) × (authorize env a db ≡ ok d))
unfolding submit
submit-authorize env c db o h = admitted-authorize env c db (admissible env c) o h

-- How `submit` ends.
pub submit-Transacted :
    (env : Env) (c : Command) (db : Database) (o : Operation)
    → (submit env c db).1 ≡ ok o
    → (a : Command) × (admissible env c ≡ ok a) × Transacted env a db (submit env c db).0 o
unfolding submit
submit-Transacted env c db o h = admitted-ok env c db (admissible env c) o h

-- A refused command leaves the database, or degrades it.
pub submit-degrade :
    (env : Env) (c : Command) (db : Database) (e : Error)
    → (submit env c db).1 ≡ err e
    → ((is_late e ≡ false) × ((submit env c db).0 ≡ db))
      ⊎ ((e ≡ err_overdue) × ((submit env c db).0 ≡ degrade c.device_id db))
unfolding submit
submit-degrade env c db e h = admitted-err env c db (admissible env c) e h refl

found_if :
    (env : Env) (c : Command) (db : Database) (d : Device) (o : Operation)
    (found : Option Operation)
    → found ≡ some o
    → o.request_digest ≡ env.digest c
    → elim found [
      | some x ↦ require (x.request_digest == env.digest c) err_conflict >> ok (db, x)
      | none ↦ change env c (env.digest c) d db
    ]
      ≡ ok (db, o)
unfolding ◌>>◌ require
found_if env c db d o (some x) f e =
    let this : x ≡ o = cc in
    let same : (x.request_digest == env.digest c) ≡ true =
      subst (λ (y : Operation). (y.request_digest == env.digest c) ≡ true) (sym this)
        (subst (λ (n : ℕ). (o.request_digest == n) ≡ true) e (==_refl o.request_digest)) in
    rw same (ap (λ (y : Operation). ok (db, y)) this)
found_if env c db d o none f e = cc

-- An authorized command whose request has an answer gets this answer, and changes nothing.
pub submit-find_request :
    (env : Env) (c a : Command) (db : Database) (d : Device) (o : Operation)
    → admissible env c ≡ ok a
    → authorize env a db ≡ ok d
    → find_request a db.operations ≡ some o
    → o.request_digest ≡ env.digest a
    → submit env c db ≡ (db, ok o)
unfolding submit transact ◌>>=◌
submit-find_request env c a db d o admitted authorized f e =
    rw (admitted, authorized, found_if env a db d o (find_request a db.operations) f e) refl
