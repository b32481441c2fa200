-- ===== src/DeviceAuth/Growth.antt =====
-- What every operation keeps: the authority stays sound, a spent key stays spent and a revoked device
-- stays revoked.
use daxiang_vpn.Prelude.{
  ℕ, ◌≡◌, refl, sym, ap, subst, ◌∙◌, ◌||◌, not, ◌==◌, true, Option, none, some, List, inl, inr, any,
  key-find_row, arith, ==→eq, ok, Result-cases,
}
use daxiang_vpn.DeviceAuth.State.{
  Action, apply, DeviceState, active, revoked, Net, Device, Binding, Tombstone, Operation, Database,
  Command, is_apply, is_active,
}
use daxiang_vpn.DeviceAuth.Admission.{Env}
use daxiang_vpn.DeviceAuth.Access.{find_device, find_binding, find_request}
use daxiang_vpn.DeviceAuth.Change.{vacant, next_state, record_change, first_of}
use daxiang_vpn.DeviceAuth.Submit.{submit, degrade}
use daxiang_vpn.DeviceAuth.Views.{
  key_of, state_of, live, live_in, spent_in, is_spent, is_buried, key_in, state_in,
  state_of-record_change, is_spent-record_change,
}
use daxiang_vpn.DeviceAuth.Accept.{vacant-free, Transacted, repeated, changed}
use daxiang_vpn.DeviceAuth.Outcomes.{submit-Transacted, submit-degrade}
use daxiang_vpn.DeviceAuth.Requests.{find_request-record_change}
use daxiang_vpn.DeviceAuth.Authority.{IsSound, Unbound, record_change-IsSound}

-- The two databases say the same of every device and key.
pub record SameViews (db db' : Database) : Type 0 where
  pub keys : (i : ℕ) → key_of i db' ≡ key_of i db
  pub states : (i : ℕ) → state_of i db' ≡ state_of i db
  pub lives : (k : ℕ) → live k db' ≡ live k db
  pub spents : (k : ℕ) → is_spent k db' ≡ is_spent k db
  pub burials : (k : ℕ) → is_buried k db' ≡ is_buried k db
  pub log : db'.operations ≡ db.operations

-- What an operation keeps.
pub record Keeps (db db' : Database) : Type 0 where
  pub sound : IsSound db'
  pub spent : (k : ℕ) → is_spent k db ≡ true → is_spent k db' ≡ true
  pub final : (i : ℕ) → state_of i db ≡ some revoked → state_of i db' ≡ some revoked
  pub answered :
      (c : Command) (o : Operation)
      → find_request c db.operations ≡ some o
      → find_request c db'.operations ≡ some o

pub SameViews-Keeps : {db db' : Database} → IsSound db → SameViews db db' → Keeps db db'
SameViews-Keeps v s = record {
  sound = record {
    current = λ i k h. s.lives k ∙ v.current i k (sym (s.keys i) ∙ h);
    unique = λ i k h. s.keys i ∙ v.unique i k (sym (s.lives k) ∙ h);
    granted = λ i k h. s.states i ∙ v.granted i k (sym (s.keys i) ∙ h);
    buried = λ k h. s.burials k ∙ v.buried k (sym (s.spents k) ∙ h);
  };
  spent = λ k h. s.spents k ∙ h;
  final = λ i h. s.states i ∙ h;
  answered = λ c o h. ap (find_request c) s.log ∙ h;
}

pub Keeps-trans : {a b c : Database} → Keeps a b → Keeps b c → Keeps a c
Keeps-trans p q = record {
  sound = q.sound;
  spent = λ k h. q.spent k (p.spent k h);
  final = λ i h. q.final i (p.final i h);
  answered = λ c o h. q.answered c o (p.answered c o h);
}

pub Keeps-refl : {db : Database} → IsSound db → Keeps db db
Keeps-refl v = record { sound = v; spent = λ k h. h; final = λ i h. h; answered = λ c o h. h }

-- A change of the outbox, the intents or the executor's fence alone.
pub SameViews-outbox :
    (db db' : Database)
    → db'.devices ≡ db.devices
    → db'.bindings ≡ db.bindings
    → db'.tombstones ≡ db.tombstones
    → db'.operations ≡ db.operations
    → SameViews db db'
SameViews-outbox db db' d b t o = record {
  keys = λ i. ap (λ (x : List Device). key_in (find_device i x)) d;
  states = λ i. ap (λ (x : List Device). state_in (find_device i x)) d;
  lives = λ k. ap (λ (x : List Binding). live_in (find_binding k x)) b;
  spents = λ k. ap (λ (x : List Binding). spent_in (find_binding k x)) b;
  burials = λ k. ap (λ (x : List Tombstone). any (λ t. t.public_key == k) x) t;
  log = o;
}

next_state_revoked : (a : Action) → next_state a revoked ≡ revoked
unfolding next_state
next_state_revoked apply = refl
next_state_revoked _ = refl

next_state_active :
    (a : Action) (s : DeviceState)
    → is_apply a ≡ true
    → is_active s ≡ true
    → next_state a s ≡ active
unfolding next_state
next_state_active apply active h k = refl
next_state_active apply _ h k = cc
next_state_active _ _ h k = cc

free-Unbound :
    (db : Database) (key : ℕ) → find_binding key db.bindings ≡ none → Unbound db (some key)
free-Unbound db key f = record {
  not_live =
      λ k h. ap live_in (subst (λ (j : ℕ). find_binding j db.bindings ≡ none) (==→eq key k h) f);
  not_spent =
      λ k h. ap spent_in (subst (λ (j : ℕ). find_binding j db.bindings ≡ none) (==→eq key k h) f);
}

none-Unbound : (db : Database) → Unbound db none
none-Unbound db = record { not_live = λ k h. cc; not_spent = λ k h. cc }

-- What an accepted command may bind.
pub vacant-Unbound :
    (c : Command) (db : Database) (d : Device) (bound : Option (ℕ × Net))
    → (not (is_apply c.action) || is_active d.state) ≡ true
    → vacant c db d ≡ ok bound
    → Unbound db (first_of bound)
      × ((k : ℕ) → first_of bound ≡ some k → next_state c.action d.state ≡ active)
vacant-Unbound c db d bound a w = elim (vacant-free c db d bound w) [
  | inl e ↦
      subst
        (λ (o : Option (ℕ × Net)).
          Unbound db (first_of o)
          × ((k : ℕ) → first_of o ≡ some k → next_state c.action d.state ≡ active))
        (sym e) (none-Unbound db, λ k h. cc)
  | inr (is, free) ↦
      subst
        (λ (o : Option (ℕ × Net)).
          Unbound db (first_of o)
          × ((k : ℕ) → first_of o ≡ some k → next_state c.action d.state ≡ active))
        (sym free.bound)
        (
          free-Unbound db free.key free.free,
          λ k h. next_state_active c.action d.state is (ground arith),
        )
]

module _ (env : Env) (c : Command) (db : Database) (v : IsSound db) where
  change-Keeps :
      (digest : ℕ) (d : Device) (bound : Option (ℕ × Net))
      → find_request c db.operations ≡ none
      → find_device c.device_id db.devices ≡ some d
      → (not (is_apply c.action) || is_active d.state) ≡ true
      → vacant c db d ≡ ok bound
      → Keeps db (record_change env c digest d bound db).0
  change-Keeps digest d bound r f a w =
      let own : d.id ≡ c.device_id = key-find_row (λ x. x.id) c.device_id db.devices f in
      let here : find_device d.id db.devices ≡ some d =
        subst (λ (j : ℕ). find_device j db.devices ≡ some d) (sym own) f in
      let (new, may) = vacant-Unbound c db d bound a w in
      record {
        sound = record_change-IsSound env c digest d db bound here v new may;
        spent = λ k h.
            ground
              (arith, is_spent-record_change env c digest d db here bound k, new.not_spent k, h);
        final = λ i h. ground (
          arith,
          state_of-record_change env c digest d db here bound i,
          here,
          h,
          next_state_revoked c.action,
        );
        answered = λ x o h. find_request-record_change env c digest d bound db x o r h;
      }

module _ (env : Env) (c : Command) (db : Database) (v : IsSound db) where
  Transacted-Keeps :
      (a : Command) (o : Operation) (db' : Database) → Transacted env a db db' o → Keeps db db'
  Transacted-Keeps a o db' (repeated f d e) =
      subst (λ (x : Database). Keeps db x) (sym e) (Keeps-refl v)
  Transacted-Keeps a o db' (changed d bound r f may g w e) =
      subst (λ (x : Database). Keeps db x) (sym (ap (λ (p : Database × Operation). p.0) e))
        (change-Keeps env a db v (env.digest a) d bound r f may w)

  pub submit-Keeps : Keeps db (submit env c db).0
  submit-Keeps = elim (Result-cases (submit env c db).1) [
    | inl (o, e) ↦
        let (a, admitted, t) = submit-Transacted env c db o e in
        Transacted-Keeps a o (submit env c db).0 t
    | inr (e, h) ↦ elim (submit-degrade env c db e h) [
      | inl (on_time, same) ↦ subst (λ (x : Database). Keeps db x) (sym same) (Keeps-refl v)
      | inr (late, marked) ↦
          subst (λ (x : Database). Keeps db x) (sym marked)
            (unfold degrade in SameViews-Keeps v (SameViews-outbox db _ refl refl refl refl))
    ]
  ]
