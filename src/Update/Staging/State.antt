-- ===== src/Update/Staging/State.antt =====
-- shared/updateverify/types.go and the tables of verify.go. A string is its bytes. Times are Unix
-- seconds; the code refuses a negative one wherever it refuses 0, and so a time is a natural.
use daxiang_vpn.Prelude.{ℕ, ◌*◌, ◌^◌, Bool, Option, List, [], ◌∷◌}
use daxiang_vpn.Update.Text.{Bytes, codes}

pub data Error : Type 0 where
  err_policy err_cancelled err_metadata err_signature err_previous err_replay err_rollback
        err_artifact err_artifact_cancelled :
      Error

pub data Result {ℓ} (A : Type ℓ) : Type ℓ where
  ok : A → Result A
  err : Error → Result A

abbrev pub schema_version : ℕ
schema_version = 1

abbrev pub max_metadata_bytes : ℕ
max_metadata_bytes = 16 * 2 ^ 10

abbrev pub max_envelope_bytes : ℕ
max_envelope_bytes = 24 * 2 ^ 10

abbrev pub max_artifact_bytes : ℕ
max_artifact_bytes = 8 * 2 ^ 30

abbrev pub max_safe_integer : ℕ
max_safe_integer = 9007199254740991

-- time.Second, in nanoseconds.
abbrev pub second : ℕ
second = 1_000_000_000

abbrev pub max_validity : ℕ
max_validity = 30 * (24 * (3600 * second))

abbrev pub max_timestamp : ℕ
max_timestamp = 253402300799

abbrev pub staging_status : Bytes
staging_status = codes "verified_for_staging"

pub record Scope : Type 0 where
  pub product : Bytes
  pub platform : Bytes
  pub architecture : Bytes
  pub channel : Bytes

pub record Metadata : Type 0 where
  pub product : Bytes
  pub platform : Bytes
  pub architecture : Bytes
  pub channel : Bytes
  pub version : Bytes
  pub protocol : ℕ
  pub source_commit : Bytes
  pub artifact_name : Bytes
  pub artifact_size : ℕ
  pub artifact_sha256 : Bytes
  pub issued_at : ℕ
  pub expires_at : ℕ
  pub release_sequence : ℕ
  pub security_version : ℕ
  pub security_floor : ℕ

pub record Key : Type 0 where
  pub id : Bytes
  pub public_key : Bytes
  pub valid_from : ℕ
  pub valid_until : ℕ
  pub min_sequence : ℕ
  pub max_sequence : ℕ

pub record Policy : Type 0 where
  pub scope : Scope
  pub min_version : Bytes
  pub min_protocol : ℕ
  pub max_protocol : ℕ
  pub min_sequence : ℕ
  pub security_floor : ℕ
  pub max_artifact_size : ℕ
  pub max_validity : ℕ
  pub keys : List Key

pub record Receipt : Type 0 where
  pub schema_version : ℕ
  pub status : Bytes
  pub key_id : Bytes
  pub metadata_sha256 : Bytes
  pub metadata : Metadata
  pub verified_at : ℕ
  pub idempotent : Bool

-- The signed object: `metadata` is the raw text, `signature` is in hexadecimal digits.
pub record Envelope : Type 0 where
  pub schema_version : ℕ
  pub key_id : Bytes
  pub metadata : Bytes
  pub signature : Bytes

abbrev pub products : List Bytes
products =
    codes "cli"
    ∷ codes "desktop-gui"
    ∷ codes "python-sdk"
    ∷ codes "hub"
    ∷ codes "reverse"
    ∷ codes "android-control"
    ∷ []

abbrev pub platforms : List Bytes
platforms = codes "windows" ∷ codes "darwin" ∷ codes "linux" ∷ codes "android" ∷ []

abbrev pub architectures : List Bytes
architectures = codes "amd64" ∷ codes "arm64" ∷ []

abbrev pub channels : List Bytes
channels = codes "stable" ∷ codes "beta" ∷ codes "development" ∷ []

-- The code outside this repository: JSON, SHA-256 in hexadecimal digits, Ed25519.
pub record Tools : Type 0 where
  pub read_envelope : Bytes → Option Envelope
  pub read_metadata : Bytes → Option Metadata
  pub marshal : Metadata → Bytes
  pub digest : Bytes → Bytes
  pub decode_hex : Bytes → Bytes
  pub allowed_public_key : Bytes → Bool
  pub signed_by : Bytes → Bytes → Bytes → Bool
