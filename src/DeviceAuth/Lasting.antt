-- ===== src/DeviceAuth/Lasting.antt =====
-- What later calls never undo: a spent key, a revocation, and the answer to a command.
use daxiang_vpn.Prelude.{
  ℕ, ◌≡◌, ◌≢◌, refl, sym, ap, subst, ◌∙◌, true, false, Option, none, some, List, key-find_row, ok,
  err, Result-cases, ok-inj, arith, Option-cases, inl, inr,
}
use daxiang_vpn.DeviceAuth.State.{
  Error, revoked, Net, Device, Binding, Operation, Database, Command, is_apply,
}
use daxiang_vpn.DeviceAuth.Admission.{Env, admissible}
use daxiang_vpn.DeviceAuth.Access.{find_device, find_binding, find_request, authorize}
use daxiang_vpn.DeviceAuth.Submit.{submit}
use daxiang_vpn.DeviceAuth.Change.{first_of, record_change}
use daxiang_vpn.DeviceAuth.Views.{
  key_of, state_of, live_in, is_spent, spent_in, is_spent-record_change,
}
use daxiang_vpn.DeviceAuth.Requests.{find_request-same, find_request-recorded}
use daxiang_vpn.DeviceAuth.Accept.{Transacted, repeated, changed, authorize-device}
use daxiang_vpn.DeviceAuth.Outcomes.{
  submit-Transacted, submit-authorize, submit-find_request, admissible-command,
}
use daxiang_vpn.DeviceAuth.Authority.{IsSound, Unbound}
use daxiang_vpn.DeviceAuth.Growth.{submit-Keeps, vacant-Unbound}
use daxiang_vpn.DeviceAuth.History.{
  Event, serve_all, empty_database, serve_all-Keeps, serve_all-IsSound,
}

live_spent : (o : Option Binding) (i : ℕ) → live_in o ≡ some i → spent_in o ≡ true → false ≡ true
live_spent none i h k = cc
live_spent (some b) i h k = ground arith

-- No device has a spent key.
spent-key_of : (db : Database) (k i : ℕ) → IsSound db → is_spent k db ≡ true → key_of i db ≢ some k
spent-key_of db k i v s h =
    let e = live_spent (find_binding k db.bindings) i (v.current i k h) s in cc

changed-is_spent :
    (env : Env) (c : Command) (digest : ℕ) (d : Device) (bound : Option (ℕ × Net)) (db : Database)
    (k : ℕ)
    → IsSound db
    → find_device d.id db.devices ≡ some d
    → Unbound db (first_of bound)
    → key_of d.id db ≡ some k
    → is_spent k (record_change env c digest d bound db).0 ≡ true
changed-is_spent env c digest d bound db k v here new h = ground (
  arith,
  is_spent-record_change env c digest d db here bound k,
  v.current d.id k h,
  new.not_live k,
)

-- The request that was admitted is the one that was submitted.
admissible-find_request :
    (env : Env) (c a : Command) (os : List Operation)
    → admissible env c ≡ ok a
    → find_request a os ≡ find_request c os
admissible-find_request env c a os h =
    let e = admissible-command env c a h in
    find_request-same a c os (ap (λ (x : Command). x.actor_id) e) (ap (λ (x : Command). x.action) e)
      (ap (λ (x : Command). x.idempotency_key) e)

Transacted-is_spent :
    (env : Env) (a : Command) (db db' : Database) (o : Operation) (k : ℕ)
    → IsSound db
    → find_request a db.operations ≡ none
    → key_of a.device_id db ≡ some k
    → Transacted env a db db' o
    → is_spent k db' ≡ true
Transacted-is_spent env a db db' o k v new h (repeated f e same) = cc
Transacted-is_spent env a db db' o k v new h (changed d bound r f may g w e) =
    let own : d.id ≡ a.device_id = key-find_row (λ x. x.id) a.device_id db.devices f in
    let here : find_device d.id db.devices ≡ some d =
      subst (λ (j : ℕ). find_device j db.devices ≡ some d) (sym own) f in
    let (unbound, may_bind) = vacant-Unbound a db d bound may w in
    subst (λ (x : Database). is_spent k x ≡ true) (sym (ap (λ (p : Database × Operation). p.0) e))
      (changed-is_spent env a (env.digest a) d bound db k v here unbound
        (subst (λ (j : ℕ). key_of j db ≡ some k) (sym own) h))

submit-is_spent :
    (env : Env) (c : Command) (db : Database) (o : Operation) (k : ℕ)
    → IsSound db
    → find_request c db.operations ≡ none
    → (submit env c db).1 ≡ ok o
    → key_of c.device_id db ≡ some k
    → is_spent k (submit env c db).0 ≡ true
submit-is_spent env c db o k v new h key =
    let (a, admitted, t) = submit-Transacted env c db o h in
    let device : a.device_id ≡ c.device_id =
      ap (λ (x : Command). x.device_id) (admissible-command env c a admitted) in
    Transacted-is_spent env a db (submit env c db).0 o k v
      (admissible-find_request env c a db.operations admitted ∙ new)
      (subst (λ (j : ℕ). key_of j db ≡ some k) (sym device) key) t

-- Whatever came before: when a new command on a device is accepted, be it a rotation, a disabling,
-- an expiry or a revocation, the key that the device had until then is, after any later calls, the
-- key of no device.
pub submit-key_of :
    (before later : List Event) (env : Env) (c : Command) (o : Operation) (k i : ℕ)
    → find_request c (serve_all before empty_database).operations ≡ none
    → key_of c.device_id (serve_all before empty_database) ≡ some k
    → (submit env c (serve_all before empty_database)).1 ≡ ok o
    → key_of i (serve_all later (submit env c (serve_all before empty_database)).0) ≢ some k
submit-key_of before later env c o k i new key h =
    let db : Database = serve_all before empty_database in
    let v = serve_all-IsSound before in
    let p = submit-Keeps env c db v in
    let q = serve_all-Keeps later (submit env c db).0 p.sound in
    spent-key_of (serve_all later (submit env c db).0) k i q.sound
      (q.spent k (submit-is_spent env c db o k v new h key))

refused_device :
    (env : Env) (c a : Command) (db : Database) (d : Device)
    → admissible env c ≡ ok a
    → is_apply c.action ≡ true
    → state_of c.device_id db ≡ some revoked
    → authorize env a db ≢ ok d
refused_device env c a db d admitted grants r h =
    let (found, owner, may) = authorize-device env a db d h in
    let e = admissible-command env c a admitted in
    let action = ap (λ (x : Command). x.action) e in
    let device = ap (λ (x : Command). x.device_id) e in
    ground (arith, found, may, action, device, r, grants)

-- A device that is revoked stays revoked, and without a key, after any later calls; and every
-- `apply` on it is refused, also one that repeats a request that was answered while it was active.
pub submit-revoked :
    (before later : List Event) (env : Env) (c : Command)
    → state_of c.device_id (serve_all before empty_database) ≡ some revoked
    → is_apply c.action ≡ true
    → (state_of c.device_id (serve_all later (serve_all before empty_database)) ≡ some revoked)
      × (key_of c.device_id (serve_all later (serve_all before empty_database)) ≡ none)
      × ((e : Error) × ((submit env c (serve_all later (serve_all before empty_database))).1
            ≡ err e))
submit-revoked before later env c r grants =
    let db : Database = serve_all later (serve_all before empty_database) in
    let p = serve_all-Keeps later (serve_all before empty_database) (serve_all-IsSound before) in
    let still = p.final c.device_id r in
    (
      still,
      elim (Option-cases (key_of c.device_id db)) [
        | inl e ↦ e
        | inr (k, e) ↦ let granted = p.sound.granted c.device_id k e in cc
      ],
      elim (Result-cases (submit env c db).1) [
        | inl (o, h) ↦
            let (a, admitted, (d, authorized)) = submit-authorize env c db o h in
            absurd (refused_device env c a db d admitted grants still authorized)
        | inr x ↦ x
      ],
    )

Transacted-find_request :
    (env : Env) (a : Command) (db db' : Database) (o : Operation)
    → Transacted env a db db' o
    → (find_request a db'.operations ≡ some o) × (o.request_digest ≡ env.digest a)
Transacted-find_request env a db db' o (repeated f e same) =
    (subst (λ (x : Database). find_request a x.operations ≡ some o) (sym same) f, e)
Transacted-find_request env a db db' o (changed d bound r f may g w e) =
    subst
      (λ (p : Database × Operation).
        (find_request a p.0.operations ≡ some p.1) × (p.1.request_digest ≡ env.digest a))
      (sym e) (find_request-recorded env a (env.digest a) d bound db, unfold record_change in refl)

-- A command that was accepted, submitted again after any later calls: where it is authorized and its digest
-- is the one of before, it gets the same operation and the database does not change.
pub submit-submit :
    (before later : List Event) (env again : Env) (c a a' : Command) (o : Operation) (d : Device)
    → (submit env c (serve_all before empty_database)).1 ≡ ok o
    → admissible env c ≡ ok a
    → admissible again c ≡ ok a'
    → again.digest a' ≡ env.digest a
    → authorize again a' (serve_all later (submit env c (serve_all before empty_database)).0) ≡ ok d
    → submit again c (serve_all later (submit env c (serve_all before empty_database)).0)
      ≡ (serve_all later (submit env c (serve_all before empty_database)).0, ok o)
submit-submit before later env again c a a' o d h admitted admitted' same authorized =
    let db : Database = serve_all before empty_database in
    let p = submit-Keeps env c db (serve_all-IsSound before) in
    let q = serve_all-Keeps later (submit env c db).0 p.sound in
    let (x, x_admitted, t) = submit-Transacted env c db o h in
    let x_is : x ≡ a = ok-inj {E = Error} (sym x_admitted ∙ admitted) in
    let (f, e) = Transacted-find_request env x db (submit env c db).0 o t in
    let answered : find_request c (submit env c db).0.operations ≡ some o =
      sym (admissible-find_request env c x (submit env c db).0.operations x_admitted) ∙ f in
    let still = q.answered c o answered in
    submit-find_request again c a' (serve_all later (submit env c db).0) d o admitted' authorized
      (admissible-find_request again c a' (serve_all later (submit env c db).0).operations admitted'
        ∙ still)
      (e ∙ ap env.digest x_is ∙ sym same)
