-- ===== src/Update/Staging/Accept.antt =====
-- What an accepted artifact has passed.
use daxiang_vpn.Prelude.{ℕ, ◌≡◌, refl, ◌&&◌, leb, ◌==◌, Bool, true, false, Option, none, some, List}
use daxiang_vpn.Update.Text.{Bytes}
use daxiang_vpn.Update.Staging.State.{
  Error, Result, ok, err, Metadata, Key, Policy, Receipt, Envelope, Tools, schema_version,
  staging_status,
}
use daxiang_vpn.Update.Staging.Rules.{
  exact_hex, valid_key_id, find_key, validate_policy, validate_previous,
}
use daxiang_vpn.Update.Staging.Verify.{
  Reader, Context, ◌>>=◌, ◌>>◌, require, get, decode_metadata, signing_bytes, in_policy, authorizes,
  version_ge, against_previous, check_artifact, verify,
}

ok-inj {ℓ} : {A : Type ℓ} {x y : A} → ok x ≡ ok y → y ≡ x
ok-inj h = cc

module _ {ℓ κ} {A : Type κ} {B : Type ℓ} {b : B} where
  pub bind-ok :
      (r : Result A) (k : A → Result B) → (r >>= k) ≡ ok b → (a : A) × (r ≡ ok a) × (k a ≡ ok b)
  unfolding ◌>>=◌
  bind-ok (ok a) k h = (a, refl, h)
  bind-ok (err e) k h = cc

  pub get-ok :
      (o : Option A) (e : Error) (k : A → Result B)
      → (get o e >>= k) ≡ ok b
      → (a : A) × (o ≡ some a) × (k a ≡ ok b)
  unfolding ◌>>=◌ get
  get-ok (some a) e k h = (a, refl, h)
  get-ok none e k h = cc

module _ {ℓ} {B : Type ℓ} {b : B} where
  pub require-ok :
      (c : Bool) (e : Error) (s : Result B) → (require c e >> s) ≡ ok b → (c ≡ true) × (s ≡ ok b)
  unfolding ◌>>◌ require
  require-ok true e s h = (refl, h)
  require-ok false e s h = cc

  passed-ok : (r : Result (Unit {0})) (s : Result B) → (r >> s) ≡ ok b → (r ≡ ok tt) × (s ≡ ok b)
  unfolding ◌>>◌
  passed-ok (ok u) s h = (refl, h)
  passed-ok (err e) s h = cc

module _ (tools : Tools) (ctx : Option Context) (raw : Bytes) (artifact : Option Reader)
    (p : Policy) (previous : Option Receipt) (now : ℕ) where
  -- Every check that an accepted run has passed, with what it read.
  pub record Accepted (r : Receipt) : Type 0 where
    pub keys : List Key
    pub c : Context
    pub reader : Reader
    pub e : Envelope
    pub m : Metadata
    pub key : Key
    pub same : Bool
    pub policy_ok : validate_policy tools p ≡ some keys
    pub reader_ok : artifact ≡ some reader
    pub envelope_ok : tools.read_envelope raw ≡ some e
    pub shape :
        (e.schema_version == schema_version && valid_key_id e.key_id && exact_hex e.signature 64)
        ≡ true
    pub metadata_ok : decode_metadata tools e.metadata ≡ ok m
    pub within : in_policy p m now ≡ true
    pub found : find_key e.key_id keys ≡ some key
    pub authorized : authorizes key m now ≡ true
    pub signed :
        tools.signed_by key.public_key
          (signing_bytes e.key_id e.metadata)
          (tools.decode_hex e.signature)
        ≡ true
    pub coherent : validate_previous tools previous p now ≡ true
    pub floors :
        (version_ge m.version p.min_version
          && leb p.security_floor m.security_floor
          && leb p.min_sequence m.release_sequence)
        ≡ true
    pub newer : against_previous m (tools.digest e.metadata) e.key_id previous ≡ ok same
    pub intact : check_artifact tools m reader c ≡ ok tt
    pub receipt : r ≡ record {
      schema_version = schema_version;
      status = staging_status;
      key_id = e.key_id;
      metadata_sha256 = tools.digest e.metadata;
      metadata = m;
      verified_at = now;
      idempotent = same;
    }

  pub verify-Accepted :
      (r : Receipt) → verify tools ctx raw artifact p previous now ≡ ok r → Accepted r
  unfolding verify
  verify-Accepted r h0 =
      let (keys, policy_ok, h1) = get-ok _ _ _ h0 in
      let (c, c_ok, h2) = get-ok _ _ _ h1 in
      let (reader, reader_ok, h3) = get-ok _ _ _ h2 in
      let (timed, h4) = require-ok _ _ _ h3 in
      let (going, h5) = require-ok _ _ _ h4 in
      let (sized, h6) = require-ok _ _ _ h5 in
      let (e, envelope_ok, h7) = get-ok _ _ _ h6 in
      let (shape, h8) = require-ok _ _ _ h7 in
      let (m, metadata_ok, h9) = bind-ok _ _ h8 in
      let (within, h10) = require-ok _ _ _ h9 in
      let (key, found, h11) = get-ok _ _ _ h10 in
      let (authorized, h12) = require-ok _ _ _ h11 in
      let (signed, h13) = require-ok _ _ _ h12 in
      let (coherent, h14) = require-ok _ _ _ h13 in
      let (floors, h15) = require-ok _ _ _ h14 in
      let (same, newer, h16) = bind-ok _ _ h15 in
      let (intact, h17) = passed-ok _ _ h16 in
      record {
        keys = keys;
        c = c;
        reader = reader;
        e = e;
        m = m;
        key = key;
        same = same;
        policy_ok = policy_ok;
        reader_ok = reader_ok;
        envelope_ok = envelope_ok;
        shape = shape;
        metadata_ok = metadata_ok;
        within = within;
        found = found;
        authorized = authorized;
        signed = signed;
        coherent = coherent;
        floors = floors;
        newer = newer;
        intact = intact;
        receipt = ok-inj h17;
      }
