-- ===== src/DeviceAuth/Claim.antt =====
-- hub/internal/deviceauth/executor.go: what a run of `Process` finds around it, its first transaction
-- and the intents that it prepares.
use daxiang_vpn.Prelude.{
  ℕ, ◌+◌, ◌&&◌, not, leb, ◌==◌, Bool, true, false, Option, none, some, List, [], ◌∷◌, keep,
  if◌then◌else◌, any, find_row, update_where,
}
use daxiang_vpn.DeviceAuth.State.{
  Error, err_generation, err_policy, err_no_rows, err_storage, pending, superseded, Net, Device,
  Binding, Operation, Outbox, Intent, Database, is_active,
}
use daxiang_vpn.DeviceAuth.Admission.{Env, max_generation}
use daxiang_vpn.DeviceAuth.Access.{find_device}
use daxiang_vpn.DeviceAuth.Change.{find_operation}
use daxiang_vpn.DeviceAuth.Plan.{Peer, Step, remove, grant}

-- The outcome of one external action, with what is asked before and after it.
pub record Answer : Type 0 where
  pub same_file : Bool
  pub ended_before : Bool
  pub now_before : ℕ
  pub now_after : ℕ
  pub performed : Bool

-- A run's surroundings. `none` of a snapshot is an error or the end of its context.
pub record Surroundings : Type 0 where
  pub env : Env
  pub before : Option (List Peer)
  pub now_snapshot : ℕ
  pub now_planned : ℕ
  pub intents_written : Bool
  pub answers : ℕ → Answer
  pub after : Option (List Peer)
  pub now_verified : ℕ
  pub now_certified : ℕ
  pub now_done : ℕ
  pub result_written : Bool
  pub failure_written : Bool
  -- The clock and the new name of `expireLocked`, and the texts of its command: the actor, the
  -- digest that names the request, and the reason.
  pub expiry_env : Env
  pub expiry_actor : ℕ
  pub expiry_key : ℕ → ℕ → ℕ
  pub expiry_reason : ℕ
  pub expiry_written : Bool

abbrev pub is_expired : Device → ℕ → Bool
is_expired d now = is_active d.state && leb d.valid_until now

abbrev pub at_operation : ℕ → (Outbox → Outbox) → Database → Database
at_operation id f db = record db { outbox = update_where (λ o. o.operation_id == id) f db.outbox }

-- What a claim reads: the operation with its new fence, its device and the device's keys.
pub record Claim : Type 0 where
  pub op : Operation
  pub d : Device
  pub history : List Binding
  pub fence : ℕ

pub data Claimed : Type 0 where
  claimed : Database → Claim → Claimed
  stale : Database → Claimed
  expired_grant : Device → Claimed
  refused : Error → Claimed

-- The first transaction, on the operation and the device that it reads.
unfoldable pub claim_device : Env → Operation → Device → Database → Claimed
claim_device env op d db =
    if not (op.epoch == env.policy.epoch && op.generation == d.generation)
    then stale (at_operation op.id (λ o. record o { state = superseded; last_error = none }) db)
    else if is_expired d env.now
    then expired_grant d
    else if leb max_generation (db.executor_fence + 1)
    then refused err_generation
    else let fence = db.executor_fence + 1 in
      claimed
        (record (at_operation op.id
          (λ o. record o {
            state = pending;
            attempts = o.attempts + 1;
            fence = fence;
            last_error = none;
          })
          db) { executor_fence = fence })
        (record {
          op = op;
          d = d;
          history = keep (λ b. b.device_id == d.id) db.bindings;
          fence = fence;
        })

unfoldable pub claim : Env → ℕ → Database → Claimed
unfolding claim_device find_row
claim env id db =
    if not env.fence_taken
    then refused err_storage
    else if not env.policy_matches
    then refused err_policy
    else elim (find_operation id db.operations) [
      | none ↦ refused err_no_rows
      | some op ↦ elim (find_device op.device_id db.devices) [
        | none ↦ refused err_no_rows
        | some d ↦ claim_device env op d db
      ]
    ]

-- `INSERT … ON CONFLICT DO UPDATE` of one prepared intent.
abbrev pub is_intent : ℕ → ℕ → Bool → Intent → Bool
is_intent id key is_grant i =
    i.operation_id == id && i.public_key == key && (if is_grant then i.is_grant else not i.is_grant)

abbrev pub put_intent : Claim → ℕ → Bool → Net → List Intent → List Intent
put_intent c key is_grant n is =
    if any (is_intent c.op.id key is_grant) is
    then update_where (is_intent c.op.id key is_grant)
        (λ i. record i { fence = c.fence; is_verified = false }) is
    else record {
      operation_id = c.op.id;
      public_key = key;
      is_grant = is_grant;
      epoch = c.op.epoch;
      generation = c.d.generation;
      fence = c.fence;
      address = n;
      is_verified = false;
    }
      ∷ is

unfoldable pub put_intents : Claim → List Step → List Intent → List Intent
put_intents c [] is = is
put_intents c (remove key n ∷ steps) is = put_intents c steps (put_intent c key false n is)
put_intents c (grant key n ∷ steps) is = put_intents c steps (put_intent c key true n is)
