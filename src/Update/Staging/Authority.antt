-- ===== src/Update/Staging/Authority.antt =====
-- Who signed what an accepted artifact is, and that it is the artifact that was read.
use daxiang_vpn.Prelude.{
  ℕ, zero, suc, ◌+◌, ◌≤◌, ◌<◌, ◌≡◌, refl, sym, ap, subst, ◌∙◌, ◌&&◌, Bool, true, false, Option,
  none, some, length, List, [], ◌∷◌, ◌⊎◌, inl, inr, arith, if◌then◌else◌, Bool-cases,
}
use mathlib.Core.List.{Memᴰ}
use mathlib.Core.List.Memᴰ
use daxiang_vpn.Update.Text.{Bytes, bytes_eq}
use daxiang_vpn.Update.Version.Order.{bytes_eq→eq}
use daxiang_vpn.Update.Staging.State.{ok, Metadata, Key, Policy, Receipt, Envelope, Tools}
use daxiang_vpn.Update.Staging.Rules.{
  find_key, fits, collect_keys, validate_policy, policy_bounds, validate_metadata,
}
use daxiang_vpn.Update.Staging.Verify.{
  Reader, Context, take, decode_metadata, signing_bytes, authorizes, check_artifact, verify,
}
use daxiang_vpn.Update.Staging.Accept.{require-ok, get-ok, verify-Accepted}

find_key-Mem :
    (id : Bytes) (ks : List Key) (k : Key)
    → find_key id ks ≡ some k
    → Memᴰ k ks × (bytes_eq id k.id ≡ true)
find_key-Mem id [] k h = cc
find_key-Mem id (x ∷ xs) k h = elim (Bool-cases (bytes_eq id x.id)) [
  | inl e ↦
      let q : x ≡ k = cc in (Memᴰ.head (sym q), subst (λ (y : Key). bytes_eq id y.id ≡ true) q e)
  | inr e ↦ let (mem, f) = find_key-Mem id xs k (ground (arith)) in (Memᴰ.tail mem, f)
]

some-inj {ℓ} : {A : Type ℓ} {x y : A} → some x ≡ some y → x ≡ y
some-inj h = cc

if_some {ℓ} :
    {A : Type ℓ} (b : Bool) (x : Option A) {y : A}
    → (if b then x else none) ≡ some y
    → (b ≡ true) × (x ≡ some y)
if_some true x h = (refl, h)
if_some false x h = cc

collect_keys-Mem :
    (tools : Tools) (acc ks keys : List Key) (k : Key)
    → collect_keys tools acc ks ≡ some keys
    → Memᴰ k keys
    → Memᴰ k acc ⊎ Memᴰ k ks
unfolding collect_keys
collect_keys-Mem tools acc [] keys k h mem =
    inl (subst (λ (l : List Key). Memᴰ k l) (sym (some-inj h)) mem)
collect_keys-Mem tools acc (x ∷ xs) keys k h mem =
    elim (collect_keys-Mem tools (x ∷ acc) xs keys k (if_some (fits tools acc x) _ h).1 mem) [
      | inl m ↦ elim (Memᴰ.cases_cons m) [ inl e ↦ inr (Memᴰ.head e) | inr n ↦ inl n ]
      | inr m ↦ inr (Memᴰ.tail m)
    ]

validate_policy-Mem :
    (tools : Tools) (p : Policy) (keys : List Key) (k : Key)
    → validate_policy tools p ≡ some keys
    → Memᴰ k keys
    → Memᴰ k p.keys
unfolding validate_policy
validate_policy-Mem tools p keys k h mem =
    elim (collect_keys-Mem tools [] p.keys keys k (if_some (policy_bounds p) _ h).1 mem) [
      | inl m ↦ absurd (Memᴰ.not-nil m)
      | inr m ↦ m
    ]

pub decode_metadata-marshal :
    (tools : Tools) (raw : Bytes) (m : Metadata)
    → decode_metadata tools raw ≡ ok m
    → (validate_metadata m ≡ true) × (raw ≡ tools.marshal m)
unfolding decode_metadata
decode_metadata-marshal tools raw m h =
    let (sized, h1) = require-ok _ _ _ h in
    let (m', read, h2) = get-ok _ _ _ h1 in
    let (valid, h3) = require-ok _ _ _ h2 in
    let e : m' ≡ m = cc in
    let v : (validate_metadata m && bytes_eq raw (tools.marshal m)) ≡ true =
      subst (λ (x : Metadata). (validate_metadata x && bytes_eq raw (tools.marshal x)) ≡ true) e
        valid in
    (ground arith, bytes_eq→eq raw (tools.marshal m) (ground arith))

take-all : (n : ℕ) (s : Bytes) → length (take (n + 1) s) ≡ n → take (n + 1) s ≡ s
take-all n [] h = refl
take-all zero (c ∷ s) h = ground arith
take-all (suc n) (c ∷ s) h = ground (arith, take-all n s)

check_artifact-ok :
    (tools : Tools) (m : Metadata) (r : Reader) (c : Context)
    → check_artifact tools m r c ≡ ok tt
    → (length r.content ≡ m.artifact_size)
      × (tools.digest r.content ≡ m.artifact_sha256)
      × (r.fails ≡ false)
unfolding check_artifact
check_artifact-ok tools m r c h =
    let (p, h1) = require-ok _ _ _ h in
    let size : length (take (m.artifact_size + 1) r.content) ≡ m.artifact_size = ground arith in
    let whole = take-all m.artifact_size r.content size in
    let sum : bytes_eq (tools.digest (take (m.artifact_size + 1) r.content)) m.artifact_sha256
        ≡ true =
      ground arith in
    let n : length r.content ≡ m.artifact_size = sym (ap (λ (s : Bytes). length s) whole) ∙ size in
    (n, sym (ap tools.digest whole) ∙ bytes_eq→eq _ _ sum, ground arith)

-- The pinned key that signed a receipt's metadata, in force at `now`.
pub record IsAuthorized (tools : Tools) (raw : Bytes) (p : Policy) (now : ℕ) (r : Receipt)
    : Type 0 where
  pub key : Key
  pub e : Envelope
  pub pinned : Memᴰ key p.keys
  pub named : key.id ≡ r.key_id
  pub begun : key.valid_from ≤ now
  pub in_force : now < key.valid_until
  pub covers : r.metadata.release_sequence ≤ key.max_sequence
  pub read : tools.read_envelope raw ≡ some e
  pub text : e.metadata ≡ tools.marshal r.metadata
  pub signed :
      tools.signed_by key.public_key
        (signing_bytes r.key_id (tools.marshal r.metadata))
        (tools.decode_hex e.signature)
      ≡ true

module _ (tools : Tools) (ctx : Option Context) (raw : Bytes) (artifact : Option Reader)
    (p : Policy) (previous : Option Receipt) (now : ℕ) (r : Receipt) where
  -- The metadata of an accepted artifact was signed, in its canonical text, by a key that the
  -- policy pins under the receipt's key name, and that is in force.
  pub verify-IsAuthorized :
      verify tools ctx raw artifact p previous now ≡ ok r → IsAuthorized tools raw p now r
  verify-IsAuthorized h =
      let a = verify-Accepted tools ctx raw artifact p previous now r h in
      let (mem, same) = find_key-Mem a.e.key_id a.keys a.key a.found in
      let name : r.key_id ≡ a.e.key_id = ap (λ (x : Receipt). x.key_id) a.receipt in
      let meta : r.metadata ≡ a.m = ap (λ (x : Receipt). x.metadata) a.receipt in
      let text : a.e.metadata ≡ tools.marshal r.metadata =
        (decode_metadata-marshal tools a.e.metadata a.m a.metadata_ok).1
        ∙ sym (ap tools.marshal meta) in
      let w : authorizes a.key r.metadata now ≡ true =
        subst (λ (m : Metadata). authorizes a.key m now ≡ true) (sym meta) a.authorized in
      record {
        key = a.key;
        e = a.e;
        pinned = validate_policy-Mem tools p a.keys a.key a.policy_ok mem;
        named = sym (name ∙ bytes_eq→eq a.e.key_id a.key.id same);
        begun = unfold authorizes in ground arith;
        in_force = unfold authorizes in ground arith;
        covers = unfold authorizes in ground arith;
        read = a.envelope_ok;
        text = text;
        signed = rw (name, sym text) a.signed;
      }

  -- The artifact that was read to its end, with no error, has the size and the hash that the signed
  -- metadata of the receipt declares.
  pub verify-artifact :
      (reader : Reader)
      → artifact ≡ some reader
      → verify tools ctx raw artifact p previous now ≡ ok r
      → (length reader.content ≡ r.metadata.artifact_size)
        × (tools.digest reader.content ≡ r.metadata.artifact_sha256)
        × (reader.fails ≡ false)
  verify-artifact reader e h =
      let a = verify-Accepted tools ctx raw artifact p previous now r h in
      let meta : r.metadata ≡ a.m = ap (λ (x : Receipt). x.metadata) a.receipt in
      let one : reader ≡ a.reader = some-inj (sym e ∙ a.reader_ok) in
      check_artifact-ok tools r.metadata reader a.c (rw (meta, one) a.intact)
