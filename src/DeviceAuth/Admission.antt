-- ===== src/DeviceAuth/Admission.antt =====
-- hub/internal/deviceauth/store.go and resources.go: the address rules, the ceilings of the tables,
-- and what `Submit` tests before its transaction.
use daxiang_vpn.Prelude.{
  ℕ, ◌/◌, ◌^◌, ◌&&◌, ◌||◌, not, ltb, ◌==◌, min, Bool, false, Option, none, some, List, [], ◌∷◌,
  length, if◌then◌else◌, any, is_some, Result, ok, err, ◌>>=◌, ◌>>◌, require, get,
}
use daxiang_vpn.DeviceAuth.State.{
  Error, err_invalid, err_protected, err_quota, Net, Protection, Policy, Device, Command, is_apply,
  width, agree,
}

-- `netip` on a host prefix: `Is4In6`, `IsUnspecified`, `IsMulticast`, `IsLoopback`.
abbrev pub is_special : Net → Bool
is_special n =
    n.base == 0
    || (if n.is6
        then n.base / 2 ^ 32 == 0xffff || n.base / 2 ^ 120 == 0xff || n.base == 1
        else n.base / 2 ^ 28 == 14 || n.base / 2 ^ 24 == 127)

unfoldable pub is_protected : List Protection → ℕ → Net → Bool
is_protected [] key n = false
is_protected (p ∷ ps) key n =
    elim p.public_key [ none ↦ false | some k ↦ key == k ]
    || elim p.prefix [ none ↦ false | some q ↦ agree (min q.bits n.bits) q n ]
    || is_protected ps key n

abbrev pub in_pools : List Net → Net → Bool
in_pools pools n = any (λ q. agree q.bits q n) pools

-- `address`; `none` is a text that is no prefix.
unfoldable pub address : Policy → ℕ → Option Net → Result Error Net
unfolding is_protected
address policy key none = err err_invalid
address policy key (some n) = do
  require (n.bits == width n && not (is_special n)) err_invalid
  require (in_pools policy.address_pools n) err_protected
  require (not (is_protected policy.protected key n)) err_protected
  ok n

-- The sizes of the file and of the tables that are not modelled, against the ceilings of
-- `ResourceLimits`.
pub record Usage : Type 0 where
  pub pages : ℕ
  pub page_size : ℕ
  pub credentials : ℕ
  pub activations : ℕ
  pub requests : ℕ
  pub audits : ℕ

pub record Limits : Type 0 where
  pub grant_high_water_bytes : ℕ
  pub devices : ℕ
  pub credentials : ℕ
  pub activations : ℕ
  pub requests : ℕ
  pub audits : ℕ

unfoldable pub grant_resources : Limits → Usage → List Device → Result Error (Unit {0})
grant_resources l u devices = do
  require (ltb 0 u.page_size && ltb u.pages (l.grant_high_water_bytes / u.page_size)) err_quota
  require
      (ltb (length devices) l.devices
        && ltb u.credentials l.credentials
        && ltb u.activations l.activations
        && ltb u.requests l.requests
        && ltb u.audits l.audits)
      err_quota

-- What a call finds: the store's options, its clock, whether the fence is taken and the database is
-- the one of the policy, the caller's check, and a new random name. The tests of texts are Go's.
pub record Env : Type 0 where
  pub policy : Policy
  pub limits : Limits
  pub usage : Usage
  pub revocation_budget : ℕ
  pub now : ℕ
  pub fence_taken : Bool
  pub policy_matches : Bool
  pub check : Option Error
  pub fresh_id : ℕ
  pub identifier : ℕ → Bool
  pub valid_reason : ℕ → Bool
  pub valid_key : ℕ → Bool
  pub digest : Command → ℕ

abbrev pub max_bindings : ℕ
max_bindings = 4096

abbrev pub max_generation : ℕ
max_generation = 9223372036854775807

-- The key and the address of an `apply`, or none with the other actions.
abbrev pub admit_key : Env → Command → Result Error Command
admit_key env c = do
  key ← get c.public_key err_invalid
  require (env.valid_key key) err_invalid
  n ← address env.policy key c.address
  ok (record c { address = some n })

abbrev pub admit_no_key : Command → Result Error Command
admit_no_key c = require (not (is_some c.public_key) && not (is_some c.address)) err_invalid >> ok c

-- The tests before the transaction: the command with its canonical address.
unfoldable pub admissible : Env → Command → Result Error Command
unfolding address
admissible env c = do
  require
      (env.identifier c.actor_id
        && env.identifier c.owner_id
        && env.identifier c.device_id
        && env.identifier c.idempotency_key
        && env.valid_reason c.reason)
      err_invalid
  (if is_apply c.action then admit_key env c else admit_no_key c)
