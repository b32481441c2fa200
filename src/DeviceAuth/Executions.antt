-- ===== src/DeviceAuth/Executions.antt =====
-- Runs of the executor on the authority's tests, and instances of the theorems about them.
use daxiang_vpn.Prelude.{
  ℕ, ◌+◌, ◌*◌, ◌^◌, ◌≡◌, refl, true, false, some, [], ◌∷◌, find_row, ok, require, get, ◌>>=◌, ◌>>◌,
}
use daxiang_vpn.DeviceAuth.State.{active, Net, Device, Binding}
use daxiang_vpn.DeviceAuth.Admission.{is_protected, address}
use daxiang_vpn.DeviceAuth.Plan.{
  Peer, read_ips, read_peers, runtime_map, Entry, remove, grant, is_owned, removals, is_clear,
  plan_grant, plan, verify,
}
use daxiang_vpn.DeviceAuth.Claim.{Answer, Surroundings, Claim}
use daxiang_vpn.DeviceAuth.Carried.{carry_all}
use daxiang_vpn.DeviceAuth.Agreement.{plan-verify}
use daxiang_vpn.DeviceAuth.Reconciled.{Reconciled}
use daxiang_vpn.DeviceAuth.Tests.{v4, env_at}

abbrev host : Net
host = v4 (10 * 2 ^ 24 + 1) 32

abbrev peer : ℕ → Net → Peer
peer key n = record { public_key = key; allowed_ips = some n ∷ [] }

abbrev answer : Answer
answer = record {
  same_file = true;
  ended_before = false;
  now_before = 20;
  now_after = 20;
  performed = true;
}

-- Everything succeeds, and the key 501 runs afterwards, beside a peer of no device.
abbrev pub surroundings : Surroundings
surroundings = record {
  env = env_at 20;
  before = some (peer 900 (v4 (11 * 2 ^ 24) 8) ∷ []);
  now_snapshot = 20;
  now_planned = 20;
  intents_written = true;
  answers = λ i. answer;
  after = some (peer 501 host ∷ peer 900 (v4 (11 * 2 ^ 24) 8) ∷ []);
  now_verified = 20;
  now_certified = 20;
  now_done = 20;
  result_written = true;
  failure_written = true;
  expiry_env = env_at 20;
  expiry_actor = 8;
  expiry_key = λ i g. 1000 + i + g;
  expiry_reason = 4;
  expiry_written = true;
}

abbrev bound : ℕ → ℕ → Binding
bound key revoked = record {
  public_key = key;
  device_id = 1;
  address = host;
  managed_by = 7;
  created_generation = 1;
  revoked_generation = revoked;
  removed_generation = 0;
  applied = true;
}

abbrev rotated : Device
rotated = record {
  id = 1;
  owner_id = 2;
  state = active;
  valid_until = 1000;
  generation = 2;
  applied_generation = 1;
  public_key = some 502;
  address = some host;
}

abbrev entry : ℕ → Net → Entry
entry key n = record { key = key; ips = n ∷ [] }

plan-verify_example :
    verify rotated
      (bound 502 0 ∷ bound 501 2 ∷ [])
      (entry 501 host ∷ entry 900 (v4 (11 * 2 ^ 24) 8) ∷ [])
      (carry_all
        (remove 501 host ∷ grant 502 host ∷ [])
        (entry 501 host ∷ entry 900 (v4 (11 * 2 ^ 24) 8) ∷ []))
    ≡ ok tt
unfolding find_row address is_protected require get ◌>>=◌ ◌>>◌ runtime_map read_peers read_ips plan
    is_owned removals plan_grant is_clear
plan-verify_example =
    plan-verify (λ k. true) (peer 501 host ∷ peer 900 (v4 (11 * 2 ^ 24) 8) ∷ []) (env_at 20).policy
      [] rotated (bound 502 0 ∷ bound 501 2 ∷ [])
      (entry 501 host ∷ entry 900 (v4 (11 * 2 ^ 24) 8) ∷ []) (remove 501 host ∷ grant 502 host ∷ [])
      refl refl refl
