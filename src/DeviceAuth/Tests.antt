-- ===== src/DeviceAuth/Tests.antt =====
-- Runs of the authority, and instances of its theorems: device 1 is enrolled, gets the key 501, changes
-- it for 502 and is revoked.
use daxiang_vpn.Prelude.{
  ℕ, ◌+◌, ◌*◌, ◌^◌, ◌≡◌, ◌≢◌, refl, true, false, Option, none, some, List, [], ◌∷◌, find_row,
  update_where, ok, err, require, get, ◌>>=◌, ◌>>◌,
}
use daxiang_vpn.DeviceAuth.State.{
  Error, err_unauthorized, Action, apply, revoke, active, revoked, Net, Device, Database, Command,
}
use daxiang_vpn.DeviceAuth.Admission.{Env, is_protected, address, grant_resources, admissible}
use daxiang_vpn.DeviceAuth.Access.{authorize, find_request, is_overdue}
use daxiang_vpn.DeviceAuth.Change.{
  operation_of, vacant, vacant_key, reserved_by, next_state, bury, revoke_bindings, supersede,
  record_change, change,
}
use daxiang_vpn.DeviceAuth.Submit.{submit, transact}
use daxiang_vpn.DeviceAuth.Enroll.{Enrollment, enroll, enroll_checked}
use daxiang_vpn.DeviceAuth.Views.{key_of, state_of}
use daxiang_vpn.DeviceAuth.Authority.{IsSound}
use daxiang_vpn.DeviceAuth.Refusal.{Refused, submit-Refused}
use daxiang_vpn.DeviceAuth.History.{
  Event, submitted, enrolled, serve, serve_all, empty_database, serve_all-IsSound,
}
use daxiang_vpn.DeviceAuth.Lasting.{submit-key_of, submit-revoked, submit-submit}

abbrev pub v4 : ℕ → ℕ → Net
v4 base bits = record { is6 = false; base = base; bits = bits }

-- A call at that time, which names its new row after the time.
abbrev pub env_at : ℕ → Env
env_at t = record {
  policy = record {
    epoch = 1;
    managed_by = 7;
    address_pools = v4 (10 * 2 ^ 24) 8 ∷ [];
    protected = [];
  };
  limits = record {
    grant_high_water_bytes = 65536;
    devices = 10;
    credentials = 10;
    activations = 10;
    requests = 10;
    audits = 10;
  };
  usage = record {
    pages = 3;
    page_size = 4096;
    credentials = 0;
    activations = 0;
    requests = 0;
    audits = 0;
  };
  revocation_budget = 60;
  now = t;
  fence_taken = true;
  policy_matches = true;
  check = none;
  fresh_id = t;
  identifier = λ x. true;
  valid_reason = λ x. true;
  valid_key = λ x. true;
  digest = λ c. c.reason;
}

abbrev pub command : Action → ℕ → Option ℕ → Option Net → Command
command action generation key n = record {
  actor_id = 3;
  owner_id = 2;
  device_id = 1;
  action = action;
  idempotency_key = generation;
  expected_generation = generation;
  public_key = key;
  address = n;
  reason = 9;
}

abbrev pub enrollment : Enrollment
enrollment = record { device_id = 1; owner_id = 2; is_customer = true; valid_until = 1000 }

abbrev pub first_grant : Command
first_grant = command apply 0 (some 501) (some (v4 (10 * 2 ^ 24 + 1) 32))

abbrev rotation : Command
rotation = command apply 1 (some 502) (some (v4 (10 * 2 ^ 24 + 1) 32))

abbrev revocation : Command
revocation = command revoke 2 none none

abbrev pub granted : List Event
granted = enrolled (env_at 10) enrollment ∷ submitted (env_at 11) first_grant ∷ []

abbrev finished : List Event
finished = submitted (env_at 12) rotation ∷ submitted (env_at 13) revocation ∷ []

abbrev ended : List Event
ended = enrolled (env_at 10) enrollment ∷ submitted (env_at 11) first_grant ∷ finished

program : Unit {0}
unfolding serve_all serve enroll enroll_checked grant_resources find_row submit admissible address
    is_protected transact authorize is_overdue find_request change vacant vacant_key reserved_by
    record_change next_state bury revoke_bindings supersede update_where require get ◌>>=◌ ◌>>◌
program = tt

key_of_example : key_of 1 (serve_all granted empty_database) ≡ some 501
unfolding program
key_of_example = refl

state_of_example : state_of 1 (serve_all ended empty_database) ≡ some revoked
unfolding program
state_of_example = refl

serve_all-IsSound_example : IsSound (serve_all ended empty_database)
serve_all-IsSound_example = serve_all-IsSound ended

submit-key_of_example :
    key_of 1 (
      serve_all
        (submitted (env_at 13) revocation ∷ [])
        (submit (env_at 12) rotation (serve_all granted empty_database)).0)
    ≢ some 501
unfolding program
submit-key_of_example =
    submit-key_of granted (submitted (env_at 13) revocation ∷ []) (env_at 12) rotation
      (operation_of (env_at 12) rotation 9 2) 501 1 refl refl refl

submit-revoked_example :
    (state_of 1 (serve_all (submitted (env_at 14) rotation ∷ []) (serve_all ended empty_database))
      ≡ some revoked)
    × (key_of 1 (serve_all (submitted (env_at 14) rotation ∷ []) (serve_all ended empty_database))
        ≡ none)
    × ((e : Error) × ((submit
            (env_at 15)
            first_grant
            (serve_all (submitted (env_at 14) rotation ∷ []) (serve_all ended empty_database))).1
          ≡ err e))
submit-revoked_example =
    submit-revoked ended (submitted (env_at 14) rotation ∷ []) (env_at 15) first_grant
      state_of_example refl

abbrev rotated_device : Device
rotated_device = record {
  id = 1;
  owner_id = 2;
  state = active;
  valid_until = 1000;
  generation = 2;
  applied_generation = 0;
  public_key = some 502;
  address = some (v4 (10 * 2 ^ 24 + 1) 32);
}

abbrev twice : Database
twice =
    serve_all (submitted (env_at 12) rotation ∷ [])
      (submit (env_at 11) first_grant
        (serve_all (enrolled (env_at 10) enrollment ∷ []) empty_database)).0

submit-submit_example :
    submit (env_at 14) first_grant twice ≡ (twice, ok (operation_of (env_at 11) first_grant 9 1))
unfolding program
submit-submit_example =
    submit-submit (enrolled (env_at 10) enrollment ∷ []) (submitted (env_at 12) rotation ∷ [])
      (env_at 11) (env_at 14) first_grant first_grant first_grant
      (operation_of (env_at 11) first_grant 9 1) rotated_device refl refl refl refl refl

submit-Refused_example :
    Refused rotation err_unauthorized
      (serve_all ended empty_database)
      (submit (env_at 14) rotation (serve_all ended empty_database)).0
unfolding program
submit-Refused_example =
    submit-Refused (env_at 14) rotation (serve_all ended empty_database) err_unauthorized refl
