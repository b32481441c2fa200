-- ===== src/DeviceAuth/Requests.antt =====
-- The request that an operation answers, and that the log of operations keeps it.
use daxiang_vpn.Prelude.{
  ℕ, ◌+◌, ◌≡◌, refl, ◌&&◌, ◌==◌, Bool, true, false, Option, none, some, List, [], ◌∷◌,
  if◌then◌else◌, arith, ==→eq,
}
use daxiang_vpn.DeviceAuth.State.{
  Action, apply, disable, expire, revoke, Net, Device, Operation, Database, Command, action_eq,
}
use daxiang_vpn.DeviceAuth.Admission.{Env}
use daxiang_vpn.DeviceAuth.Access.{find_request}
use daxiang_vpn.DeviceAuth.Change.{record_change, operation_of}

action_eq-eq : (a b : Action) → action_eq a b ≡ true → a ≡ b
action_eq-eq apply apply h = refl
action_eq-eq disable disable h = refl
action_eq-eq expire expire h = refl
action_eq-eq revoke revoke h = refl
action_eq-eq apply _ h = cc
action_eq-eq disable _ h = cc
action_eq-eq expire _ h = cc
action_eq-eq revoke _ h = cc

action_eq_refl : (a : Action) → action_eq a a ≡ true
action_eq_refl apply = refl
action_eq_refl disable = refl
action_eq_refl expire = refl
action_eq_refl revoke = refl

-- The two commands are one request.
abbrev pub same_request : Command → Command → Bool
same_request a c =
    a.actor_id == c.actor_id
    && action_eq a.action c.action
    && a.idempotency_key == c.idempotency_key

pub find_request-same :
    (a c : Command) (os : List Operation)
    → a.actor_id ≡ c.actor_id
    → a.action ≡ c.action
    → a.idempotency_key ≡ c.idempotency_key
    → find_request a os ≡ find_request c os
unfolding find_request
find_request-same a c [] h k l = refl
find_request-same a c (o ∷ os) h k l =
    let ih = find_request-same a c os h k l in rw (h, k, l, ih) refl

find_request-change :
    (a c : Command) (op : Operation) (os : List Operation) (o : Operation) (b : Bool)
    → same_request a c ≡ b
    → find_request a os ≡ none
    → find_request c os ≡ some o
    → (if b then some op else find_request c os) ≡ some o
find_request-change a c op os o true h new f =
    let actor : a.actor_id ≡ c.actor_id = ==→eq _ _ (ground arith) in
    let action : a.action ≡ c.action = action_eq-eq _ _ (ground arith) in
    let key : a.idempotency_key ≡ c.idempotency_key = ==→eq _ _ (ground arith) in
    let e = find_request-same a c os actor action key in cc
find_request-change a c op os o false h new f = f

module _ (env : Env) (a : Command) (digest : ℕ) (d : Device) (bound : Option (ℕ × Net))
    (db : Database) where
  -- A recorded change answers no request that has its answer.
  pub find_request-record_change :
      (c : Command) (o : Operation)
      → find_request a db.operations ≡ none
      → find_request c db.operations ≡ some o
      → find_request c (record_change env a digest d bound db).0.operations ≡ some o
  unfolding record_change find_request
  find_request-record_change c o new f =
      find_request-change a c (operation_of env a digest (d.generation + 1)) db.operations o
        (same_request a c) refl new f

  pub find_request-recorded :
      find_request a (record_change env a digest d bound db).0.operations
      ≡ some (record_change env a digest d bound db).1
  unfolding record_change find_request
  find_request-recorded = ground (arith, action_eq_refl a.action)
