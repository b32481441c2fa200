-- ===== src/Update/Staging/History.antt =====
-- Receipts in a row: what is staged never goes back.
use daxiang_vpn.Prelude.{
  ℕ, ◌≤◌, ◌<◌, ◌≡◌, refl, sym, ap, subst, ◌∙◌, ◌==◌, Bool, true, false, Option, none, some, List,
  [], ◌∷◌, ◌⊎◌, inl, inr, arith, Ordering, Bool-cases,
}
use daxiang_vpn.Update.Text.{Bytes, bytes_eq}
use daxiang_vpn.Update.Version.{Version, parse_version, compare_version}
use daxiang_vpn.Update.Version.Order.{
  bytes_eq→eq, swap, compare_version-swap, compare_version-eq_iff,
}
use daxiang_vpn.Update.Version.Transitive.{compare_version_trans}
use daxiang_vpn.Update.Staging.State.{
  Result, ok, err, Metadata, Policy, Receipt, Tools, schema_version, staging_status,
}
use daxiang_vpn.Update.Staging.Rules.{exact_hex, valid_key_id, validate_metadata, validate_previous}
use daxiang_vpn.Update.Staging.Verify.{
  Reader, Context, in_policy, not_less, parsed_ge, version_ge, against_previous, verify,
}
use daxiang_vpn.Update.Staging.Accept.{require-ok, verify-Accepted}
use daxiang_vpn.Update.Staging.Authority.{decode_metadata-marshal}

-- `new` is not older than `old` in sequence, version, security version or floor.
pub record IsNewer (old new : Receipt) : Type 0 where
  pub sequence : old.metadata.release_sequence ≤ new.metadata.release_sequence
  pub security : old.metadata.security_version ≤ new.metadata.security_version
  pub floor : old.metadata.security_floor ≤ new.metadata.security_floor
  pub version : version_ge new.metadata.version old.metadata.version ≡ true

against_previous-ok :
    (m : Metadata) (hash id : Bytes) (r : Receipt) (same : Bool)
    → against_previous m hash id (some r) ≡ ok same
    → (r.metadata.release_sequence ≤ m.release_sequence)
      × (version_ge m.version r.metadata.version ≡ true)
      × (r.metadata.security_version ≤ m.security_version)
      × (r.metadata.security_floor ≤ m.security_floor)
      × ((r.metadata.release_sequence < m.release_sequence)
          ⊎ ((hash ≡ r.metadata_sha256) × (id ≡ r.key_id)))
unfolding against_previous
against_previous-ok m hash id r same h =
    let (p, h1) = require-ok _ _ _ h in
    let (q, h2) = require-ok _ _ _ h1 in
    let (s, h3) = require-ok _ _ _ h2 in
    (
      ground arith,
      ground arith,
      ground arith,
      ground arith,
      elim (Bool-cases (m.release_sequence == r.metadata.release_sequence)) [
        | inl e ↦ inr (
          bytes_eq→eq hash r.metadata_sha256 (ground arith),
          bytes_eq→eq id r.key_id (ground arith),
        )
        | inr e ↦ inl (ground arith)
      ],
    )

not_less→lt : (o : Ordering) → not_less o ≡ false → o ≡ Ordering.lt
not_less→lt Ordering.lt h = refl
not_less→lt Ordering.eq h = cc
not_less→lt Ordering.gt h = cc

not_less-swap : (o : Ordering) → not_less o ≡ true → (o ≡ Ordering.eq) ⊎ (swap o ≡ Ordering.lt)
not_less-swap Ordering.lt h = cc
not_less-swap Ordering.eq h = inl refl
not_less-swap Ordering.gt h = inr refl

compare_version-not_less :
    (u v w : Version)
    → not_less (compare_version u v) ≡ true
    → not_less (compare_version v w) ≡ true
    → not_less (compare_version u w) ≡ true
compare_version-not_less u v w p q = elim (Bool-cases (not_less (compare_version u w))) [
  | inl e ↦ e
  | inr e ↦
      let below = not_less→lt (compare_version u w) e in
      elim (not_less-swap (compare_version v w) q) [
        | inl same ↦
            let one : v ≡ w = (compare_version-eq_iff v w).0 same in
            subst (λ (x : Version). not_less (compare_version u x) ≡ true) one p
        | inr above ↦
            let up : compare_version w v ≡ Ordering.lt = compare_version-swap v w ∙ above in
            let less : compare_version u v ≡ Ordering.lt = compare_version_trans u w v below up in
            let none_less : false ≡ true = subst (λ (o : Ordering). not_less o ≡ true) less p in cc
      ]
]

parsed_ge_trans :
    (x y z : Option Version) → parsed_ge x y ≡ true → parsed_ge y z ≡ true → parsed_ge x z ≡ true
unfolding parsed_ge
parsed_ge_trans none y z p q = cc
parsed_ge_trans (some u) none z p q = cc
parsed_ge_trans (some u) (some v) none p q = cc
parsed_ge_trans (some u) (some v) (some w) p q = compare_version-not_less u v w p q

parsed_ge_refl : (x y : Option Version) → parsed_ge x y ≡ true → parsed_ge x x ≡ true
unfolding parsed_ge
parsed_ge_refl none y p = cc
parsed_ge_refl (some u) y p =
    subst (λ (o : Ordering). not_less o ≡ true) (sym ((compare_version-eq_iff u u).1 refl)) refl

version_ge_trans :
    (a b c : Bytes) → version_ge a b ≡ true → version_ge b c ≡ true → version_ge a c ≡ true
unfolding version_ge
version_ge_trans a b c p q =
    parsed_ge_trans (parse_version a) (parse_version b) (parse_version c) p q

version_ge_refl : (a b : Bytes) → version_ge a b ≡ true → version_ge a a ≡ true
unfolding version_ge
version_ge_refl a b p = parsed_ge_refl (parse_version a) (parse_version b) p

IsNewer-trans : {a b c : Receipt} → IsNewer a b → IsNewer b c → IsNewer a c
IsNewer-trans {a = a} {b = b} {c = c} p q = record {
  sequence = omega (arith, p.sequence, q.sequence);
  security = omega (arith, p.security, q.security);
  floor = omega (arith, p.floor, q.floor);
  version =
      version_ge_trans c.metadata.version b.metadata.version a.metadata.version q.version p.version;
}

bytes_eq_refl : (s : Bytes) → bytes_eq s s ≡ true
bytes_eq_refl [] = refl
bytes_eq_refl (c ∷ s) = ground (arith, bytes_eq_refl s)

validate_previous-fresh :
    (tools : Tools) (p : Policy) (r : Receipt) (now later : ℕ)
    → validate_metadata r.metadata ≡ true
    → r.schema_version ≡ schema_version
    → r.status ≡ staging_status
    → valid_key_id r.key_id ≡ true
    → exact_hex r.metadata_sha256 32 ≡ true
    → tools.digest (tools.marshal r.metadata) ≡ r.metadata_sha256
    → in_policy p r.metadata now ≡ true
    → r.verified_at ≡ now
    → now ≤ later
    → validate_previous tools (some r) p later ≡ true
unfolding validate_previous in_policy
validate_previous-fresh tools p r now later v n s i x d w t l =
    let one = bytes_eq_refl (tools.digest (tools.marshal r.metadata)) in
    let two : bytes_eq (tools.digest (tools.marshal r.metadata)) r.metadata_sha256 ≡ true =
      subst (λ (y : Bytes). bytes_eq (tools.digest (tools.marshal r.metadata)) y ≡ true) d one in
    let three : bytes_eq r.status staging_status ≡ true =
      subst (λ (y : Bytes). bytes_eq y staging_status ≡ true) (sym s) refl in
    ground arith

module _ (tools : Tools) (ctx : Option Context) (raw : Bytes) (artifact : Option Reader)
    (p : Policy) (now : ℕ) (r : Receipt) where
  -- An artifact accepted after an earlier receipt is not older in sequence, version, security
  -- version and floor, and at the same sequence it has the same metadata hash and key name.
  pub verify-IsNewer :
      (old : Receipt)
      → verify tools ctx raw artifact p (some old) now ≡ ok r
      → IsNewer old r
        × ((old.metadata.release_sequence < r.metadata.release_sequence)
            ⊎ ((r.metadata_sha256 ≡ old.metadata_sha256) × (r.key_id ≡ old.key_id)))
  verify-IsNewer old h =
      let a = verify-Accepted tools ctx raw artifact p (some old) now r h in
      let (s, v, x, f, o) =
        against_previous-ok r.metadata r.metadata_sha256 r.key_id old a.same
          (rw a.receipt a.newer) in
      (record { sequence = s; security = x; floor = f; version = v }, o)

  -- A receipt that `Verify` returned is accepted by `ValidatePrevious` for the same policy at any
  -- later time, when the hash of a text is 64 lower hexadecimal digits.
  pub validate_previous-verify :
      (previous : Option Receipt) (later : ℕ)
      → ((s : Bytes) → exact_hex (tools.digest s) 32 ≡ true)
      → now ≤ later
      → verify tools ctx raw artifact p previous now ≡ ok r
      → validate_previous tools (some r) p later ≡ true
  validate_previous-verify previous later hex l h =
      let a = verify-Accepted tools ctx raw artifact p previous now r h in
      let (valid, text) = decode_metadata-marshal tools a.e.metadata a.m a.metadata_ok in
      let f = a.receipt in
      let meta : r.metadata ≡ a.m = ap (λ (x : Receipt). x.metadata) f in
      validate_previous-fresh tools p r now later (rw meta valid)
        (ap (λ (x : Receipt). x.schema_version) f) (ap (λ (x : Receipt). x.status) f)
        (rw (ap (λ (x : Receipt). x.key_id) f) (ground arith))
        (rw (ap (λ (x : Receipt). x.metadata_sha256) f) (hex a.e.metadata))
        (rw (meta, ap (λ (x : Receipt). x.metadata_sha256) f) (ap tools.digest (sym text)))
        (rw meta a.within) (ap (λ (x : Receipt). x.verified_at) f) l

-- One call of `Verify`: everything but the receipt before.
pub record Attempt : Type 0 where
  pub ctx : Option Context
  pub raw : Bytes
  pub artifact : Option Reader
  pub policy : Policy
  pub now : ℕ

-- A caller that keeps the last receipt, and keeps it when a call fails.
abbrev pub keep_receipt : Receipt → Result Receipt → Receipt
keep_receipt old (ok r) = r
keep_receipt old (err e) = old

unfoldable pub stage : Tools → List Attempt → Receipt → Receipt
unfolding verify
stage tools [] old = old
stage tools (a ∷ calls) old =
    stage tools calls
      (keep_receipt old (verify tools a.ctx a.raw a.artifact a.policy (some old) a.now))

keep_receipt-IsNewer :
    (old : Receipt) (x : Result Receipt)
    → version_ge old.metadata.version old.metadata.version ≡ true
    → ((r : Receipt) → x ≡ ok r → IsNewer old r)
    → IsNewer old (keep_receipt old x)
keep_receipt-IsNewer old (ok r) v h = h r refl
keep_receipt-IsNewer old (err e) v h = record {
  sequence = omega arith;
  security = omega arith;
  floor = omega arith;
  version = v;
}

-- Through any sequence of calls, each with the last receipt as the one before, and whatever
-- envelopes, artifacts, policies and times they have, the receipt that is kept is not older than
-- the first one, whose version is a version.
pub stage-IsNewer :
    (tools : Tools) (calls : List Attempt) (old : Receipt)
    → version_ge old.metadata.version old.metadata.version ≡ true
    → IsNewer old (stage tools calls old)
unfolding stage
stage-IsNewer tools [] old v = record {
  sequence = omega arith;
  security = omega arith;
  floor = omega arith;
  version = v;
}
stage-IsNewer tools (a ∷ calls) old v =
    let x = verify tools a.ctx a.raw a.artifact a.policy (some old) a.now in
    let first =
      keep_receipt-IsNewer old x v
        (λ r h. (verify-IsNewer tools a.ctx a.raw a.artifact a.policy a.now r old h).0) in
    IsNewer-trans first (
      stage-IsNewer tools calls (keep_receipt old x)
        (version_ge_refl (keep_receipt old x).metadata.version old.metadata.version first.version))
