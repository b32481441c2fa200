-- ===== src/Update/Staging/Verify.antt =====
-- shared/updateverify/verify.go: `Verify`; json.go: `decodeMetadata` and `signingBytes`. Of an
-- `io.Reader` the code sees the bytes it gives and whether an error follows them; of a context,
-- whether it is cancelled at each of the two places that ask.
use daxiang_vpn.Prelude.{
  ℕ, ◌+◌, ◌-◌, ◌/◌, ◌%◌, ◌^◌, ◌&&◌, ◌||◌, not, ltb, leb, ◌==◌, Bool, true, false, Option, none,
  some, [], ◌∷◌, ◌++◌, length, if◌then◌else◌, Ordering,
}
use daxiang_vpn.Update.Text.{Bytes, codes, bytes_eq}
use daxiang_vpn.Update.Version.{Version, parse_version, compare_version}
use daxiang_vpn.Update.Staging.State.{
  Error, err_policy, err_cancelled, err_metadata, err_signature, err_previous, err_replay,
  err_rollback, err_artifact, err_artifact_cancelled, Result, ok, err, Metadata, Key, Policy,
  Receipt, Tools, schema_version, max_metadata_bytes, max_envelope_bytes, second, max_timestamp,
  staging_status,
}
use daxiang_vpn.Update.Staging.Rules.{
  scope_of, scope_eq, exact_hex, valid_key_id, validate_metadata, find_key, validate_policy,
  validate_previous,
}

pub record Reader : Type 0 where
  pub content : Bytes
  pub fails : Bool

pub record Context : Type 0 where
  pub at_entry : Bool
  pub at_end : Bool

infixl 5 ◌>>=◌
unfoldable pub ◌>>=◌ {ℓ κ} : {A : Type ℓ} {B : Type κ} → Result A → (A → Result B) → Result B
err e >>= f = err e
ok a >>= f = f a

infixl 5 ◌>>◌
unfoldable pub ◌>>◌ {ℓ κ} : {A : Type ℓ} {B : Type κ} → Result A → Result B → Result B
err e >> s = err e
ok a >> s = s

-- An early return unless a condition holds.
unfoldable pub require : Bool → Error → Result (Unit {0})
require true e = ok tt
require false e = err e

unfoldable pub get {ℓ} : {A : Type ℓ} → Option A → Error → Result A
get none e = err e
get (some a) e = ok a

unfoldable pub decode_metadata : Tools → Bytes → Result Metadata
unfolding validate_metadata
decode_metadata tools raw = do
  require (ltb 0 (length raw) && leb (length raw) max_metadata_bytes) err_metadata
  m ← get (tools.read_metadata raw) err_metadata
  require (validate_metadata m && bytes_eq raw (tools.marshal m)) err_metadata
  ok m

-- `binary.BigEndian.AppendUint32` of a length
unfoldable pub uint32 : ℕ → Bytes
uint32 n = n / 2 ^ 24 % 2 ^ 8 ∷ n / 2 ^ 16 % 2 ^ 8 ∷ n / 2 ^ 8 % 2 ^ 8 ∷ n % 2 ^ 8 ∷ []

abbrev pub signing_domain : Bytes
signing_domain = codes "zhvpn/update-metadata/v1" ++ (0 ∷ [])

unfoldable pub signing_bytes : Bytes → Bytes → Bytes
signing_bytes key_id raw =
    signing_domain ++ (uint32 (length key_id) ++ (key_id ++ (uint32 (length raw) ++ raw)))

-- The scope, protocol, size and validity that the policy wants.
unfoldable pub in_policy : Policy → Metadata → ℕ → Bool
in_policy p m now =
    scope_eq (scope_of m) p.scope
    && leb p.min_protocol m.protocol
    && leb m.protocol p.max_protocol
    && leb m.artifact_size p.max_artifact_size
    && leb (m.expires_at - m.issued_at) (p.max_validity / second)
    && leb m.issued_at now
    && ltb now m.expires_at

unfoldable pub authorizes : Key → Metadata → ℕ → Bool
authorizes k m now =
    leb k.valid_from now
    && ltb now k.valid_until
    && leb k.valid_from m.issued_at
    && ltb m.issued_at k.valid_until
    && leb k.min_sequence m.release_sequence
    && leb m.release_sequence k.max_sequence

-- `compareVersion(parse(s), parse(t)) >= 0`; of a text that is no version, the parser returns a
-- version that is not valid, and no such text gets here.
abbrev pub not_less : Ordering → Bool
not_less Ordering.lt = false
not_less Ordering.eq = true
not_less Ordering.gt = true

unfoldable pub parsed_ge : Option Version → Option Version → Bool
unfolding compare_version
parsed_ge (some v) (some w) = not_less (compare_version v w)
parsed_ge _ _ = false

unfoldable pub version_ge : Bytes → Bytes → Bool
unfolding parse_version parsed_ge
version_ge s t = parsed_ge (parse_version s) (parse_version t)

-- Replay and rollback against the receipt before: whether this run repeats it.
unfoldable pub against_previous : Metadata → Bytes → Bytes → Option Receipt → Result Bool
unfolding version_ge
against_previous m hash key_id none = ok false
against_previous m hash key_id (some r) = do
  let old = r.metadata
  require (leb old.release_sequence m.release_sequence) err_replay
  let same = m.release_sequence == old.release_sequence
  require (not same || (bytes_eq hash r.metadata_sha256 && bytes_eq key_id r.key_id)) err_replay
  require
      (version_ge m.version old.version
        && leb old.security_version m.security_version
        && leb old.security_floor m.security_floor)
      err_rollback
  ok same

abbrev pub take : ℕ → Bytes → Bytes
take n [] = []
take n (c ∷ s) = if n == 0 then [] else c ∷ take (n - 1) s

-- At most `artifact_size + 1` bytes are read; an error after as many is not seen.
unfoldable pub check_artifact : Tools → Metadata → Reader → Context → Result (Unit {0})
check_artifact tools m r c = do
  let read = take (m.artifact_size + 1) r.content
  let failed = r.fails && leb (length r.content) m.artifact_size
  require
      (not failed
        && length read == m.artifact_size
        && bytes_eq (tools.digest read) m.artifact_sha256)
      (if c.at_end then err_artifact_cancelled else err_artifact)
  require (not c.at_end) err_artifact_cancelled

unfoldable pub verify :
    Tools → Option Context → Bytes → Option Reader → Policy → Option Receipt → ℕ → Result Receipt
unfolding validate_policy decode_metadata in_policy authorizes signing_bytes validate_previous
    version_ge against_previous check_artifact exact_hex valid_key_id
verify tools ctx raw artifact p previous now = do
  keys ← get (validate_policy tools p) err_policy
  c ← get ctx err_policy
  reader ← get artifact err_policy
  require (ltb 0 now && leb now max_timestamp) err_policy
  require (not c.at_entry) err_cancelled
  require (ltb 0 (length raw) && leb (length raw) max_envelope_bytes) err_metadata
  e ← get (tools.read_envelope raw) err_metadata
  require (e.schema_version == schema_version && valid_key_id e.key_id && exact_hex e.signature 64)
      err_metadata
  m ← decode_metadata tools e.metadata
  require (in_policy p m now) err_metadata
  key ← get (find_key e.key_id keys) err_signature
  require (authorizes key m now) err_signature
  require
      (tools.signed_by key.public_key (signing_bytes e.key_id e.metadata)
        (tools.decode_hex e.signature))
      err_signature
  require (validate_previous tools previous p now) err_previous
  require
      (version_ge m.version p.min_version
        && leb p.security_floor m.security_floor
        && leb p.min_sequence m.release_sequence)
      err_rollback
  let hash = tools.digest e.metadata
  same ← against_previous m hash e.key_id previous
  check_artifact tools m reader c
  ok (record {
    schema_version = schema_version;
    status = staging_status;
    key_id = e.key_id;
    metadata_sha256 = hash;
    metadata = m;
    verified_at = now;
    idempotent = same;
  })
