-- ===== src/Update/Staging/Rules.antt =====
-- shared/updateverify/verify.go: the validation of scopes, metadata, policies and receipts.
use daxiang_vpn.Prelude.{
  ℕ, ◌-◌, ◌*◌, ◌/◌, ◌%◌, ◌&&◌, ◌||◌, not, ltb, leb, ◌==◌, Bool, true, false, Option, none, some,
  List, [], ◌∷◌, length, if◌then◌else◌,
}
use daxiang_vpn.Update.Text.{Bytes, codes, bytes_eq}
use daxiang_vpn.Update.Version.{Version, parse_version, is_digit}
use daxiang_vpn.Update.Staging.State.{
  Scope, Metadata, Key, Policy, Receipt, Tools, schema_version, max_artifact_bytes,
  max_safe_integer, second, max_validity, max_timestamp, staging_status, products, platforms,
  architectures, channels,
}

unfoldable pub member : Bytes → List Bytes → Bool
member x [] = false
member x (y ∷ ys) = bytes_eq x y || member x ys

abbrev pub scope_of : Metadata → Scope
scope_of m = record {
  product = m.product;
  platform = m.platform;
  architecture = m.architecture;
  channel = m.channel;
}

abbrev pub scope_eq : Scope → Scope → Bool
scope_eq s t =
    bytes_eq s.product t.product
    && bytes_eq s.platform t.platform
    && bytes_eq s.architecture t.architecture
    && bytes_eq s.channel t.channel

unfoldable pub valid_scope : Scope → Bool
unfolding member
valid_scope s =
    member s.product products
    && member s.platform platforms
    && member s.architecture architectures
    && member s.channel channels

abbrev pub is_lower : ℕ → Bool
is_lower c = leb b'a' c && leb c b'z'

abbrev pub is_letter : ℕ → Bool
is_letter c = is_lower c || leb b'A' c && leb c b'Z'

abbrev pub every : (ℕ → Bool) → Bytes → Bool
every p [] = true
every p (c ∷ s) = p c && every p s

abbrev pub hex_digit : ℕ → Bool
hex_digit c = is_digit c || leb b'a' c && leb c b'f'

unfoldable pub exact_hex : Bytes → ℕ → Bool
exact_hex s size = length s == size * 2 && every hex_digit s

unfoldable pub valid_key_id : Bytes → Bool
valid_key_id [] = false
valid_key_id (c ∷ s) =
    leb (length (c ∷ s)) 64
    && is_lower c
    && every (λ d. is_lower d || is_digit d || d == b'-') (c ∷ s)

-- The first character is a letter or a digit; a later one can be a separator too.
unfoldable pub artifact_name : Bytes → Bool
artifact_name [] = false
artifact_name (c ∷ s) =
    leb (length (c ∷ s)) 128
    && (is_letter c || is_digit c)
    && every (λ d. is_letter d || is_digit d || d == b'.' || d == b'_' || d == b'-') s

abbrev pub safe_positive : ℕ → Bool
safe_positive n = ltb 0 n && leb n max_safe_integer

abbrev pub no_prerelease : Version → Bool
no_prerelease v = elim v.pre [ [] ↦ true | x ∷ xs ↦ false ]

unfoldable pub validate_metadata : Metadata → Bool
unfolding parse_version valid_scope exact_hex artifact_name
validate_metadata m = elim (parse_version m.version) [
  | none ↦ false
  | some v ↦
      valid_scope (scope_of m)
      && not (bytes_eq m.channel (codes "stable") && not (no_prerelease v))
      && ltb 0 m.protocol
      && leb m.protocol 1024
      && exact_hex m.source_commit 20
      && artifact_name m.artifact_name
      && ltb 0 m.artifact_size
      && leb m.artifact_size max_artifact_bytes
      && exact_hex m.artifact_sha256 32
      && ltb 0 m.issued_at
      && ltb m.issued_at m.expires_at
      && leb m.expires_at max_timestamp
      && leb (m.expires_at - m.issued_at) (max_validity / second)
      && safe_positive m.release_sequence
      && safe_positive m.security_version
      && safe_positive m.security_floor
      && leb m.security_floor m.security_version
]

abbrev pub find_key : Bytes → List Key → Option Key
find_key id [] = none
find_key id (k ∷ ks) = if bytes_eq id k.id then some k else find_key id ks

abbrev pub has_public_key : Bytes → List Key → Bool
has_public_key key [] = false
has_public_key key (k ∷ ks) = bytes_eq key k.public_key || has_public_key key ks

abbrev pub is_found : Option Key → Bool
is_found none = false
is_found (some k) = true

unfoldable pub valid_key : Tools → Key → Bool
unfolding valid_key_id
valid_key tools k =
    valid_key_id k.id
    && tools.allowed_public_key k.public_key
    && ltb 0 k.valid_from
    && ltb k.valid_from k.valid_until
    && leb k.valid_until max_timestamp
    && leb (k.valid_until - k.valid_from) (5 * (366 * (24 * (60 * 60))))
    && safe_positive k.min_sequence
    && safe_positive k.max_sequence
    && leb k.min_sequence k.max_sequence

unfoldable pub fits : Tools → List Key → Key → Bool
unfolding valid_key
fits tools keys k =
    valid_key tools k
    && not (has_public_key k.public_key keys)
    && not (is_found (find_key k.id keys))

-- The loop over `p.Keys`; the map of the keys before, both by name and by public key, is a list.
unfoldable pub collect_keys : Tools → List Key → List Key → Option (List Key)
unfolding fits
collect_keys tools keys [] = some keys
collect_keys tools keys (k ∷ ks) =
    let rest = collect_keys tools (k ∷ keys) ks in if fits tools keys k then rest else none

unfoldable pub policy_bounds : Policy → Bool
unfolding parse_version valid_scope
policy_bounds p = elim (parse_version p.min_version) [
  | none ↦ false
  | some v ↦
      valid_scope p.scope
      && ltb 0 p.min_protocol
      && leb p.min_protocol p.max_protocol
      && leb p.max_protocol 1024
      && safe_positive p.min_sequence
      && safe_positive p.security_floor
      && ltb 0 p.max_artifact_size
      && leb p.max_artifact_size max_artifact_bytes
      && leb second p.max_validity
      && leb p.max_validity max_validity
      && p.max_validity % second == 0
      && ltb 0 (length p.keys)
      && leb (length p.keys) 16
]

unfoldable pub validate_policy : Tools → Policy → Option (List Key)
unfolding policy_bounds collect_keys
validate_policy tools p = if policy_bounds p then collect_keys tools [] p.keys else none

-- `false` is ErrPrevious.
unfoldable pub validate_previous : Tools → Option Receipt → Policy → ℕ → Bool
validate_previous tools none p now = true
validate_previous tools (some r) p now =
    validate_metadata r.metadata
    && r.schema_version == schema_version
    && bytes_eq r.status staging_status
    && valid_key_id r.key_id
    && exact_hex r.metadata_sha256 32
    && bytes_eq (tools.digest (tools.marshal r.metadata)) r.metadata_sha256
    && scope_eq (scope_of r.metadata) p.scope
    && leb r.metadata.issued_at r.verified_at
    && ltb r.verified_at r.metadata.expires_at
    && leb r.verified_at now
