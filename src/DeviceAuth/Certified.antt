-- ===== src/DeviceAuth/Certified.antt =====
-- What a run of `Process` that reports success has seen.
use daxiang_vpn.Prelude.{
  ℕ, ◌≡◌, refl, subst, ◌&&◌, ◌==◌, true, false, Option, none, some, List, if◌then◌else◌,
  find_row-update_where, key-find_row, apply_some, arith, Option-cases, inl, inr, Result, ok, err,
  ◌>>=◌, branch, Result-cases, require-ok, bind-ok, ok-inj,
}
use daxiang_vpn.DeviceAuth.State.{
  Error, err_execution_unknown, err_verification, Device, Operation, Outbox, OutboxState, done,
  Database,
}
use daxiang_vpn.DeviceAuth.Access.{find_outbox}
use daxiang_vpn.DeviceAuth.Submit.{submit}
use daxiang_vpn.DeviceAuth.Plan.{Peer, Entry, runtime_map, verify}
use daxiang_vpn.DeviceAuth.Claim.{Surroundings, Claim, is_expired}
use daxiang_vpn.DeviceAuth.Process.{
  expiry_command, expire_locked, mark_expired, certify, fail, commit, conclude, read_map,
}

abbrev pub state_at : ℕ → List Outbox → Option OutboxState
state_at id outbox = apply_some (λ o. o.state) (find_outbox id outbox)

mark_expired-none :
    (s : Surroundings) (r : Database × Result Error Operation)
    → (mark_expired s r).1 ≡ none
    → false ≡ true
unfolding mark_expired
mark_expired-none s (db, err e) h = cc
mark_expired-none s (db, ok o) h = ground arith

-- Neither an expiry nor a failure is reported as success.
pub expire_locked-none :
    (s : Surroundings) (d : Device) (db : Database) → (expire_locked s d db).1 ≡ none → false ≡ true
expire_locked-none s d db h = mark_expired-none s (submit s.expiry_env (expiry_command s d) db) h

pub fail-none :
    (s : Surroundings) (id : ℕ) (e : Error) (db : Database)
    → (fail s id e db).1 ≡ none
    → false ≡ true
fail-none s id e db h = cc

certify-state_at :
    (c : Claim) (now : ℕ) (db db' : Database)
    → certify c now db ≡ ok db'
    → state_at c.op.id db'.outbox ≡ some done
unfolding certify
certify-state_at c now db db' h =
    let (fresh, h1) = require-ok _ _ _ h in
    let (fenced, h2) = require-ok _ _ _ h1 in
    subst (λ (x : Database). state_at c.op.id x.outbox ≡ some done) (ok-inj h2)
      (elim (Option-cases (find_outbox c.op.id db.outbox)) [
        | inl e ↦ ground (arith, fenced, e)
        | inr (o, e) ↦
            let own : o.operation_id ≡ c.op.id =
              key-find_row (λ x. x.operation_id) c.op.id db.outbox e in
            ground (
              arith,
              fenced,
              e,
              own,
              find_row-update_where (λ x. x.operation_id)
                  (λ o. o.operation_id == c.op.id && o.fence == c.fence)
                  (λ o. record o { state = done; verified_at = some now; last_error = none })
                  c.op.id db.outbox (λ x. refl),
            )
      ])

-- The last snapshot was read, it passed `verify`, the grant had not ended, and the operation is done.
pub record Verified (s : Surroundings) (c : Claim) (before : List Entry) (db' : Database)
    : Type 0 where
  pub peers : List Peer
  pub after : List Entry
  pub answered : s.after ≡ some peers
  pub read : runtime_map s.env.valid_key peers ≡ ok after
  pub verified : verify c.d c.history before after ≡ ok tt
  pub in_time : is_expired c.d s.now_certified ≡ false
  pub recorded : state_at c.op.id db'.outbox ≡ some done

read_map-ok :
    (s : Surroundings) (e : Error) (peers : List Peer) (es : List Entry)
    → read_map s e peers ≡ ok es
    → runtime_map s.env.valid_key peers ≡ ok es
read_map-ok s e peers es h = elim (Result-cases (runtime_map s.env.valid_key peers)) [
  | inl (x, q) ↦ ground (arith, q, h)
  | inr (x, q) ↦ ground (arith, q, h)
]

module _ (s : Surroundings) (c : Claim) (before : List Entry) (db : Database) where
  abbrev Ends : Database × Option Error → Type 0
  Ends r = r.1 ≡ none → Verified s c before r.0

  expire_locked-Ends : Ends (expire_locked s c.d db)
  expire_locked-Ends h = let no_end = expire_locked-none s c.d db h in cc

  fail-Ends : (e : Error) → Ends (fail s c.op.id e db)
  fail-Ends e h = cc

  module _ (peers : List Peer) (after : List Entry) (answered : s.after ≡ some peers)
      (read : runtime_map s.env.valid_key peers ≡ ok after)
      (verified : verify c.d c.history before after ≡ ok tt)
      (in_time : is_expired c.d s.now_certified ≡ false) where
    commit-Ends : (r : Result Error Database) → certify c s.now_done db ≡ r → Ends (commit s c db r)
    commit-Ends (err e) h = fail-Ends err_execution_unknown
    commit-Ends (ok db') h =
        branch Ends s.result_written {x = (db', none)} {y = fail s c.op.id err_execution_unknown db}
          (λ _ _. record {
            peers = peers;
            after = after;
            answered = answered;
            read = read;
            verified = verified;
            in_time = in_time;
            recorded = certify-state_at c s.now_done db db' h;
          })
          (λ _. fail-Ends err_execution_unknown)

  checked-Ends :
      (peers : List Peer)
      → s.after ≡ some peers
      → (r : Result Error (Unit {0}))
      → (read_map s err_verification peers >>= λ after. verify c.d c.history before after) ≡ r
      → Ends (elim r [
        | err e ↦ fail s c.op.id e db
        | ok u ↦
            if is_expired c.d s.now_certified
            then expire_locked s c.d db
            else commit s c db (certify c s.now_done db)
      ])
  checked-Ends peers answered (err e) q = fail-Ends e
  checked-Ends peers answered (ok u) q =
      let (after, read, verified) = bind-ok _ _ q in
      branch Ends (is_expired c.d s.now_certified) {x = expire_locked s c.d db}
        {y = commit s c db (certify c s.now_done db)} (λ _. expire_locked-Ends)
        (λ t.
          commit-Ends peers after answered (read_map-ok s err_verification peers after read)
            verified t (certify c s.now_done db) refl)

  after-Ends :
      (o : Option (List Peer))
      → s.after ≡ o
      → Ends (elim o [
        | none ↦ fail s c.op.id err_execution_unknown db
        | some peers ↦
            elim (read_map s err_verification peers >>= λ after.
            verify c.d c.history before after) [
              | err e ↦ fail s c.op.id e db
              | ok u ↦
                  if is_expired c.d s.now_certified
                  then expire_locked s c.d db
                  else commit s c db (certify c s.now_done db)
            ]
      ])
  after-Ends none q = fail-Ends err_execution_unknown
  after-Ends (some peers) q = checked-Ends peers q _ refl

  pub conclude-Ends : Ends (conclude s c before db)
  unfolding conclude
  conclude-Ends =
      branch Ends (is_expired c.d s.now_verified) {x = expire_locked s c.d db}
        (λ _. expire_locked-Ends) (λ _. after-Ends s.after refl)
