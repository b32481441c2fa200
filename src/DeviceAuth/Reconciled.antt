-- ===== src/DeviceAuth/Reconciled.antt =====
-- A successful `Process`, said of the snapshots, the steps and the tables.
use daxiang_vpn.Prelude.{
  ℕ, ◌≡◌, ◌≢◌, ◌&&◌, not, ltb, Bool, false, none, some, List, [], ◌∷◌, is_some, ◌⊎◌, ok,
}
use daxiang_vpn.DeviceAuth.State.{Net, done, Device, Binding, Database, is_active}
use daxiang_vpn.DeviceAuth.Access.{find_binding, find_device}
use daxiang_vpn.DeviceAuth.Change.{find_operation}
use daxiang_vpn.DeviceAuth.Plan.{Peer, runtime_map, Entry, Step, find_entry, plan}
use daxiang_vpn.DeviceAuth.Claim.{Surroundings, Claim}
use daxiang_vpn.DeviceAuth.Certified.{state_at}
use daxiang_vpn.DeviceAuth.Performed.{Each, InTime, AllDone, NoPeer}

-- The key of an active device runs with the device's address and nothing else.
abbrev pub Runs : Device → List Entry → Type 0
Runs d after =
    (is_active d.state ≡ false)
    ⊎ ((d.public_key ≡ none)
        ⊎ ((key : ℕ) × ((n : Net) × ((e : Entry) × ((d.public_key ≡ some key)
                  × (d.address ≡ some n)
                  × (find_entry key after ≡ some e)
                  × (e.ips ≡ n ∷ []))))))

abbrev pub Owned : List Binding → ℕ → Type 0
Owned history k = (b : Binding) × (find_binding k history ≡ some b)

abbrev pub SameEntry : Entry → List Entry → Type 0
SameEntry e es = (x : Entry) × (find_entry e.key es ≡ some x) × (x.ips ≡ e.ips)

-- A key that one of the device's revoked bindings names runs at no peer.
abbrev pub Gone : ℕ → List Peer → Binding → Type 0
Gone device peers b =
    (b.device_id ≢ device) ⊎ ((b.revoked_generation ≡ 0) ⊎ NoPeer b.public_key peers)

-- What a success has seen and left, of the claim of the operation `c.op` of the device `c.d`.
pub record Reconciled (s : Surroundings) (id : ℕ) (db db' : Database) (c : Claim) : Type 0 where
  pub asked : find_operation id db.operations ≡ some c.op
  pub about : find_device c.op.device_id db.devices ≡ some c.d
  pub current : (c.op.epoch ≡ s.env.policy.epoch) × (c.op.generation ≡ c.d.generation)
  pub peers : List Peer
  pub before : List Entry
  pub first : (s.before ≡ some peers) × (runtime_map s.env.valid_key peers ≡ ok before)
  pub steps : List Step
  pub planned : plan s.env.policy db.intents c.d c.history before ≡ ok steps
  pub performed : AllDone c.d s.answers 0 steps
  pub last_peers : List Peer
  pub after : List Entry
  pub last : (s.after ≡ some last_peers) × (runtime_map s.env.valid_key last_peers ≡ ok after)
  pub gone : Each (Gone c.d.id last_peers) db.bindings
  pub runs : Runs c.d after
  pub kept : Each (λ e. Owned c.history e.key ⊎ SameEntry e after) before
  pub known :
      Each (λ e. Owned c.history e.key ⊎ ((x : Entry) × (find_entry e.key before ≡ some x))) after
  pub in_time : InTime c.d s.env.now × InTime c.d s.now_certified
  pub recorded : state_at c.op.id db'.outbox ≡ some done

abbrev is_gone : List Entry → Binding → Bool
is_gone after b = not (ltb 0 b.revoked_generation && is_some (find_entry b.public_key after))
