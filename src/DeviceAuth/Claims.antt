-- ===== src/DeviceAuth/Claims.antt =====
-- What the first transaction of `Process` leaves.
use daxiang_vpn.Prelude.{
  ℕ, ◌+◌, leb, refl, ◌&&◌, not, ◌==◌, Bool, true, false, Option, none, some, if◌then◌else◌,
}
use daxiang_vpn.DeviceAuth.State.{
  Error, err_generation, err_storage, err_policy, err_no_rows, Device, Operation, Database,
}
use daxiang_vpn.DeviceAuth.Admission.{Env, max_generation}
use daxiang_vpn.DeviceAuth.Access.{find_device}
use daxiang_vpn.DeviceAuth.Change.{find_operation}
use daxiang_vpn.DeviceAuth.Claim.{
  Claim, Claimed, claimed, stale, expired_grant, refused, claim, claim_device, is_expired,
}
use daxiang_vpn.DeviceAuth.Growth.{SameViews, SameViews-outbox}

-- What a claim leaves.
unfoldable pub ClaimKeeps : Database → Claimed → Type 0
ClaimKeeps db (claimed db' c) = SameViews db db'
ClaimKeeps db (stale db') = SameViews db db'
ClaimKeeps db _ = Unit

refused-ClaimKeeps : (db : Database) (e : Error) → ClaimKeeps db (refused e)
unfolding ClaimKeeps
refused-ClaimKeeps db e = tt

stale_if :
    (b : Bool) (db db' : Database) (r : Claimed)
    → SameViews db db'
    → ClaimKeeps db r
    → ClaimKeeps db (if b then stale db' else r)
unfolding ClaimKeeps
stale_if true db db' r s h = s
stale_if false db db' r s h = h

expired_if :
    (b : Bool) (db : Database) (d : Device) (r : Claimed)
    → ClaimKeeps db r
    → ClaimKeeps db (if b then expired_grant d else r)
unfolding ClaimKeeps
expired_if true db d r h = tt
expired_if false db d r h = h

refused_if :
    (b : Bool) (db : Database) (e : Error) (r : Claimed)
    → ClaimKeeps db r
    → ClaimKeeps db (if b then refused e else r)
unfolding ClaimKeeps
refused_if true db e r h = tt
refused_if false db e r h = h

claimed-ClaimKeeps :
    (db db' : Database) (c : Claim) → SameViews db db' → ClaimKeeps db (claimed db' c)
unfolding ClaimKeeps
claimed-ClaimKeeps db db' c s = s

claim_device-ClaimKeeps :
    (env : Env) (op : Operation) (d : Device) (db : Database)
    → ClaimKeeps db (claim_device env op d db)
unfolding claim_device
claim_device-ClaimKeeps env op d db =
    stale_if (not (op.epoch == env.policy.epoch && op.generation == d.generation)) db _ _
      (SameViews-outbox db _ refl refl refl refl)
      (expired_if (is_expired d env.now) db d _ (
        refused_if (leb max_generation (db.executor_fence + 1)) db err_generation _
          (claimed-ClaimKeeps db _ _ (SameViews-outbox db _ refl refl refl refl))))

found-ClaimKeeps :
    (env : Env) (op : Operation) (db : Database) (o : Option Device)
    → ClaimKeeps db (elim o as (λ _. Claimed) [
      | none ↦ refused err_no_rows
      | some d ↦ claim_device env op d db
    ])
found-ClaimKeeps env op db none = refused-ClaimKeeps db err_no_rows
found-ClaimKeeps env op db (some d) = claim_device-ClaimKeeps env op d db

asked-ClaimKeeps :
    (env : Env) (db : Database) (o : Option Operation)
    → ClaimKeeps db (elim o as (λ _. Claimed) [
      | none ↦ refused err_no_rows
      | some op ↦ elim (find_device op.device_id db.devices) [
        | none ↦ refused err_no_rows
        | some d ↦ claim_device env op d db
      ]
    ])
asked-ClaimKeeps env db none = refused-ClaimKeeps db err_no_rows
asked-ClaimKeeps env db (some op) = found-ClaimKeeps env op db (find_device op.device_id db.devices)

pub claim-ClaimKeeps : (env : Env) (id : ℕ) (db : Database) → ClaimKeeps db (claim env id db)
unfolding claim
claim-ClaimKeeps env id db = refused_if (not env.fence_taken) db err_storage _ (
    refused_if (not env.policy_matches) db err_policy _
      (asked-ClaimKeeps env db (find_operation id db.operations)))
