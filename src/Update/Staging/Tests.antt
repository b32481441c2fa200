-- ===== src/Update/Staging/Tests.antt =====
-- A staged artifact: two releases of the hub and a policy that pins one key, and the theorems at
-- them. The tools are small functions: an object is found by its first byte, and the hash of a text
-- is one of two rows of digits.
use daxiang_vpn.Prelude.{
  ℕ, zero, suc, ◌*◌, ◌^◌, ◌<◌, ◌≤◌, ◌≡◌, refl, ◌==◌, Bool, true, false, Option, none, some, List,
  [], ◌∷◌, length, arith, if◌then◌else◌, ◌⊎◌,
}
use daxiang_vpn.Update.Text.{Bytes, codes, bytes_eq, split, split_once, parse_uint32}
use daxiang_vpn.Update.Version.{
  parse_version, parse_item, valid_version_ids, valid_id, numeric, compare_version,
}
use daxiang_vpn.Update.Staging.State.{
  ok, err, err_replay, Metadata, Key, Policy, Receipt, Tools, staging_status,
}
use daxiang_vpn.Update.Staging.Rules.{
  validate_metadata, validate_previous, validate_policy, valid_key, valid_scope, member, exact_hex,
  valid_key_id, artifact_name, fits, policy_bounds, collect_keys,
}
use daxiang_vpn.Update.Staging.Verify.{
  Reader, Context, verify, require, get, ◌>>◌, ◌>>=◌, decode_metadata, in_policy, authorizes,
  version_ge, parsed_ge, against_previous, check_artifact, signing_bytes, uint32,
}
use daxiang_vpn.Update.Staging.Authority.{IsAuthorized, verify-IsAuthorized, verify-artifact}
use daxiang_vpn.Update.Staging.History.{
  IsNewer, verify-IsNewer, validate_previous-verify, Attempt, stage, stage-IsNewer,
}
use daxiang_vpn.Update.Staging.Frame.{signing_bytes-injective}

program : Unit {0}
unfolding verify require get ◌>>◌ ◌>>=◌ decode_metadata validate_metadata in_policy authorizes
    version_ge parsed_ge against_previous check_artifact validate_policy fits valid_key
    policy_bounds collect_keys valid_scope member exact_hex valid_key_id artifact_name
    validate_previous parse_version parse_item valid_version_ids valid_id numeric compare_version
    split split_once parse_uint32 signing_bytes uint32
program = tt

abbrev row : ℕ → ℕ → Bytes
row zero c = []
row (suc n) c = c ∷ row n c

abbrev key : Key
key = record {
  id = codes "release-1";
  public_key = 1 ∷ [];
  valid_from = 100;
  valid_until = 10000;
  min_sequence = 1;
  max_sequence = 50;
}

abbrev hub : Metadata
hub = record {
  product = codes "hub";
  platform = codes "linux";
  architecture = codes "amd64";
  channel = codes "stable";
  version = codes "1.2.3";
  protocol = 1;
  source_commit = row 40 b'a';
  artifact_name = codes "hub-1";
  artifact_size = 3;
  artifact_sha256 = row 64 b'0';
  issued_at = 1000;
  expires_at = 5000;
  release_sequence = 7;
  security_version = 2;
  security_floor = 1;
}

abbrev newer_hub : Metadata
newer_hub = record hub { version = codes "1.3.0"; release_sequence = 8 }

abbrev policy : Policy
policy = record {
  scope = record {
    product = codes "hub";
    platform = codes "linux";
    architecture = codes "amd64";
    channel = codes "stable";
  };
  min_version = codes "1.0.0";
  min_protocol = 1;
  max_protocol = 2;
  min_sequence = 1;
  security_floor = 1;
  max_artifact_size = 1000;
  max_validity = 86400 * 1_000_000_000;
  keys = key ∷ [];
}

abbrev text_of : Metadata → Bytes
text_of m = m.release_sequence ∷ []

abbrev read_text : Bytes → Option Metadata
read_text (n ∷ []) = if n == 7 then some hub else if n == 8 then some newer_hub else none
read_text _ = none

abbrev tools : Tools
tools = record {
  read_envelope = λ raw. some (record {
    schema_version = 1;
    key_id = codes "release-1";
    metadata = raw;
    signature = row 128 b'f';
  });
  read_metadata = read_text;
  marshal = text_of;
  digest = λ s. if length s == 3 then row 64 b'0' else row 64 b'1';
  decode_hex = λ s. s;
  allowed_public_key = λ k. true;
  signed_by = λ k m s. bytes_eq k (1 ∷ []);
}

abbrev running : Option Context
running = some (record { at_entry = false; at_end = false })

abbrev artifact : Reader
artifact = record { content = 9 ∷ 9 ∷ 9 ∷ []; fails = false }

abbrev hub_receipt : Receipt
hub_receipt = record {
  schema_version = 1;
  status = staging_status;
  key_id = codes "release-1";
  metadata_sha256 = row 64 b'1';
  metadata = hub;
  verified_at = 2000;
  idempotent = false;
}

abbrev newer_receipt : Receipt
newer_receipt = record hub_receipt { metadata = newer_hub; verified_at = 3000 }

hub_staged : verify tools running (7 ∷ []) (some artifact) policy none 2000 ≡ ok hub_receipt
unfolding program
hub_staged = refl

newer_staged :
    verify tools running (8 ∷ []) (some artifact) policy (some hub_receipt) 3000 ≡ ok newer_receipt
unfolding program
newer_staged = refl

older_refused :
    verify tools running (7 ∷ []) (some artifact) policy (some newer_receipt) 4000 ≡ err err_replay
unfolding program
older_refused = refl

verify-IsAuthorized_example : IsAuthorized tools (7 ∷ []) policy 2000 hub_receipt
verify-IsAuthorized_example =
    verify-IsAuthorized tools running (7 ∷ []) (some artifact) policy none 2000 hub_receipt
      hub_staged

verify-artifact_example :
    (length artifact.content ≡ hub.artifact_size)
    × (tools.digest artifact.content ≡ hub.artifact_sha256)
    × (artifact.fails ≡ false)
verify-artifact_example =
    verify-artifact tools running (7 ∷ []) (some artifact) policy none 2000 hub_receipt artifact
      refl hub_staged

verify-IsNewer_example :
    IsNewer hub_receipt newer_receipt
    × ((7 < 8)
        ⊎ ((newer_receipt.metadata_sha256 ≡ hub_receipt.metadata_sha256)
            × (newer_receipt.key_id ≡ hub_receipt.key_id)))
verify-IsNewer_example =
    verify-IsNewer tools running (8 ∷ []) (some artifact) policy 3000 newer_receipt hub_receipt
      newer_staged

rows_hex : (b : Bool) → exact_hex (if b then row 64 b'0' else row 64 b'1') 32 ≡ true
unfolding exact_hex
rows_hex true = refl
rows_hex false = refl

all_hex : (s : Bytes) → exact_hex (tools.digest s) 32 ≡ true
all_hex s = rows_hex (length s == 3)

later_time : 3000 ≤ 9000
later_time = omega arith

validate_previous-verify_example : validate_previous tools (some newer_receipt) policy 9000 ≡ true
validate_previous-verify_example =
    validate_previous-verify tools running (8 ∷ []) (some artifact) policy 3000 newer_receipt
      (some hub_receipt) 9000 all_hex later_time newer_staged

abbrev calls : List Attempt
calls =
    record { ctx = running; raw = 8 ∷ []; artifact = some artifact; policy = policy; now = 3000 }
    ∷ record { ctx = running; raw = 7 ∷ []; artifact = some artifact; policy = policy; now = 4000 }
    ∷ []

hub_parsed : version_ge hub.version hub.version ≡ true
unfolding program
hub_parsed = refl

staged_calls : stage tools calls hub_receipt ≡ newer_receipt
unfolding program stage
staged_calls = refl

stage-IsNewer_example : IsNewer hub_receipt (stage tools calls hub_receipt)
stage-IsNewer_example = stage-IsNewer tools calls hub_receipt hub_parsed

short_name : length (codes "release-1") < 2 ^ 32
short_name = omega arith

abbrev signed_text : Bytes
signed_text = 7 ∷ []

signing_bytes-injective_example :
    (codes "release-1" ≡ codes "release-1") × (signed_text ≡ signed_text)
signing_bytes-injective_example =
    signing_bytes-injective (codes "release-1") (codes "release-1") signed_text signed_text
      short_name short_name refl
