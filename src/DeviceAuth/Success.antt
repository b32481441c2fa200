-- ===== src/DeviceAuth/Success.antt =====
-- `Process` reports success only after a whole reconciliation.
use daxiang_vpn.Prelude.{
  ℕ, ◌+◌, ◌≡◌, refl, ap, subst, not, ◌==◌, ==→eq, Bool, true, false, Option, none, some,
  if◌then◌else◌, keep, arith, branch,
}
use daxiang_vpn.DeviceAuth.State.{
  Error, err_storage, err_policy, err_no_rows, err_superseded, err_invalid, Device, Operation,
  Database,
}
use daxiang_vpn.DeviceAuth.Admission.{Env}
use daxiang_vpn.DeviceAuth.Access.{find_device}
use daxiang_vpn.DeviceAuth.Change.{find_operation}
use daxiang_vpn.DeviceAuth.Claim.{
  Surroundings, Claim, Claimed, claimed, stale, expired_grant, refused, claim, claim_device,
  is_expired,
}
use daxiang_vpn.DeviceAuth.Process.{expire_locked, after_claim, process}
use daxiang_vpn.DeviceAuth.Certified.{expire_locked-none}
use daxiang_vpn.DeviceAuth.Completion.{Completed, after_claim-Completes}

-- What a claim has read, and what it leaves of the intents.
pub record Claiming (env : Env) (id : ℕ) (db db' : Database) (c : Claim) : Type 0 where
  pub asked : find_operation id db.operations ≡ some c.op
  pub about : find_device c.op.device_id db.devices ≡ some c.d
  pub current : (c.op.epoch ≡ env.policy.epoch) × (c.op.generation ≡ c.d.generation)
  pub active_still : is_expired c.d env.now ≡ false
  pub whole : c.history ≡ keep (λ b. b.device_id == c.d.id) db.bindings
  pub kept : db'.intents ≡ db.intents

abbrev is_claimed : Claimed → Bool
is_claimed (claimed db' c) = true
is_claimed _ = false

other_if :
    (b : Bool) (x y : Claimed) (db' : Database) (c : Claim)
    → is_claimed x ≡ false
    → (if b then x else y) ≡ claimed db' c
    → (b ≡ false) × (y ≡ claimed db' c)
other_if true x y db' c n h = let is : is_claimed x ≡ true = ap is_claimed h in cc
other_if false x y db' c n h = (refl, h)

claim_device-Claiming :
    (env : Env) (id : ℕ) (op : Operation) (d : Device) (db db' : Database) (c : Claim)
    → find_operation id db.operations ≡ some op
    → find_device op.device_id db.devices ≡ some d
    → claim_device env op d db ≡ claimed db' c
    → Claiming env id db db' c
unfolding claim_device
claim_device-Claiming env id op d db db' c f g h0 =
    let epoch : (op.epoch == env.policy.epoch) ≡ true = ground arith in
    let generation : (op.generation == d.generation) ≡ true = ground arith in
    let still : is_expired d env.now ≡ false = ground arith in
    let same : record {
      op = op;
      d = d;
      history = keep (λ b. b.device_id == d.id) db.bindings;
      fence = db.executor_fence + 1;
    }
        ≡ c =
      ground arith in
    let kept : db'.intents ≡ db.intents = ground arith in
    subst (λ (x : Claim). Claiming env id db db' x) same
      (record {
        asked = f;
        about = g;
        current = (==→eq _ _ epoch, ==→eq _ _ generation);
        active_still = still;
        whole = refl;
        kept = kept;
      })

found-Claiming :
    (env : Env) (id : ℕ) (op : Operation) (db db' : Database) (c : Claim) (o : Option Device)
    → find_operation id db.operations ≡ some op
    → find_device op.device_id db.devices ≡ o
    → elim o as (λ _. Claimed) [ none ↦ refused err_no_rows | some d ↦ claim_device env op d db ]
      ≡ claimed db' c
    → Claiming env id db db' c
found-Claiming env id op db db' c none f g h = cc
found-Claiming env id op db db' c (some d) f g h = claim_device-Claiming env id op d db db' c f g h

asked-Claiming :
    (env : Env) (id : ℕ) (db db' : Database) (c : Claim) (o : Option Operation)
    → find_operation id db.operations ≡ o
    → elim o as (λ _. Claimed) [
      | none ↦ refused err_no_rows
      | some op ↦ elim (find_device op.device_id db.devices) [
        | none ↦ refused err_no_rows
        | some d ↦ claim_device env op d db
      ]
    ]
      ≡ claimed db' c
    → Claiming env id db db' c
asked-Claiming env id db db' c none f h = cc
asked-Claiming env id db db' c (some op) f h =
    found-Claiming env id op db db' c (find_device op.device_id db.devices) f refl h

claim-Claiming :
    (env : Env) (id : ℕ) (db db' : Database) (c : Claim)
    → claim env id db ≡ claimed db' c
    → Claiming env id db db' c
unfolding claim
claim-Claiming env id db db' c h0 =
    let (fenced, h1) = other_if (not env.fence_taken) (refused err_storage) _ db' c refl h0 in
    let (matched, h2) = other_if (not env.policy_matches) (refused err_policy) _ db' c refl h1 in
    asked-Claiming env id db db' c (find_operation id db.operations) refl h2

claimed-Success :
    (s : Surroundings) (id : ℕ) (db : Database) (r : Claimed)
    → claim s.env id db ≡ r
    → (elim r as (λ _. Database × Option Error) [
      | refused e ↦ (db, some e)
      | stale db' ↦ (db', some err_superseded)
      | expired_grant d ↦ expire_locked s d db
      | claimed db' c ↦ after_claim s c db'
    ]).1
      ≡ none
    → (db' : Database) × ((c : Claim) × (Claiming s.env id db db' c
          × Completed s c db'
              (elim r as (λ _. Database × Option Error) [
                | refused e ↦ (db, some e)
                | stale db' ↦ (db', some err_superseded)
                | expired_grant d ↦ expire_locked s d db
                | claimed db' c ↦ after_claim s c db'
              ]).0))
claimed-Success s id db (refused e) q h = cc
claimed-Success s id db (stale db') q h = cc
claimed-Success s id db (expired_grant d) q h = let no_end = expire_locked-none s d db h in cc
claimed-Success s id db (claimed db' c) q h =
    (db', (c, (claim-Claiming s.env id db db' c q, after_claim-Completes s c db' h)))

-- A success is a claim and a whole reconciliation after it.
pub process-Completed :
    (s : Surroundings) (id : ℕ) (db : Database)
    → (process s id db).1 ≡ none
    → (claimed_db : Database) × ((c : Claim) × (Claiming s.env id db claimed_db c
          × Completed s c claimed_db (process s id db).0))
unfolding process
process-Completed s id db h0 =
    branch
      (λ (r : Database × Option Error).
        r.1 ≡ none
        → (claimed_db : Database) × ((c : Claim) × (Claiming s.env id db claimed_db c
              × Completed s c claimed_db r.0)))
      (not (s.env.identifier id)) {x = (db, some err_invalid)} (λ _ e. cc)
      (λ _. claimed-Success s id db (claim s.env id db) refl) h0
