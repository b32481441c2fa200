-- ===== src/DeviceAuth/Views.antt =====
-- What the tables say of a device and of a key, and what a recorded change makes of it.
use daxiang_vpn.Prelude.{
  ℕ, ◌+◌, ◌≡◌, refl, ap, subst, ◌∙◌, ◌&&◌, ◌||◌, ltb, ◌==◌, Bool, true, false, Option, none, some,
  List, [], ◌∷◌, ◌++◌, if◌then◌else◌, any, apply_some, find_row, find_row-update_where,
  key-find_row, arith, Bool-cases, inl, inr, ==→eq, Option-cases,
}
use daxiang_vpn.DeviceAuth.State.{DeviceState, Net, Device, Binding, Database, Command}
use daxiang_vpn.DeviceAuth.Admission.{Env}
use daxiang_vpn.DeviceAuth.Access.{find_device, find_binding}
use daxiang_vpn.DeviceAuth.Change.{
  is_current, next_state, bury, revoke_bindings, bind_key, first_of, second_of, record_change,
}

abbrev pub key_in : Option Device → Option ℕ
key_in none = none
key_in (some d) = d.public_key

-- The current key of a device.
abbrev pub key_of : ℕ → Database → Option ℕ
key_of i db = key_in (find_device i db.devices)

abbrev pub state_in : Option Device → Option DeviceState
state_in none = none
state_in (some d) = some d.state

abbrev pub state_of : ℕ → Database → Option DeviceState
state_of i db = state_in (find_device i db.devices)

abbrev pub live_in : Option Binding → Option ℕ
live_in none = none
live_in (some b) = if b.revoked_generation == 0 then some b.device_id else none

-- The device that a key is bound to and not revoked for.
abbrev pub live : ℕ → Database → Option ℕ
live k db = live_in (find_binding k db.bindings)

abbrev pub spent_in : Option Binding → Bool
spent_in none = false
spent_in (some b) = ltb 0 b.revoked_generation

abbrev pub only : ℕ → Option ℕ → Bool
only i none = false
only i (some j) = j == i

-- The key was bound and is revoked.
abbrev pub is_spent : ℕ → Database → Bool
is_spent k db = spent_in (find_binding k db.bindings)

abbrev pub is_buried : ℕ → Database → Bool
is_buried k db = any (λ t. t.public_key == k) db.tombstones

any-append {ℓ} :
    {A : Type ℓ} (p : A → Bool) (xs ys : List A) → any p (xs ++ ys) ≡ (any p xs || any p ys)
any-append p [] ys = refl
any-append p (x ∷ xs) ys = ground (arith, any-append p xs ys)

find_binding-revoke :
    (k i g : ℕ) (bs : List Binding)
    → find_binding k (revoke_bindings i g bs)
      ≡ apply_some
          (λ b. if is_current i b then record b { revoked_generation = g } else b)
          (find_binding k bs)
unfolding revoke_bindings
find_binding-revoke k i g bs =
    find_row-update_where (λ b. b.public_key) (is_current i)
      (λ b. record b { revoked_generation = g }) k bs (λ x. refl)

any-bury :
    (k i g reason now : ℕ) (bs : List Binding) (b : Binding)
    → find_binding k bs ≡ some b
    → is_current i b ≡ true
    → any (λ t. t.public_key == k) (bury i g reason now bs) ≡ true
unfolding bury find_row
any-bury k i g reason now [] b f c = cc
any-bury k i g reason now (x ∷ xs) b f c = ground (arith, any-bury k i g reason now xs b)

live_in-revoke :
    (i g : ℕ) (o : Option Binding)
    → live_in
        (apply_some (λ b. if is_current i b then record b { revoked_generation = g + 1 } else b) o)
      ≡ (if only i (live_in o) then none else live_in o)
live_in-revoke i g none = refl
live_in-revoke i g (some b) = ground arith

spent_in-revoke :
    (i g : ℕ) (o : Option Binding)
    → spent_in
        (apply_some (λ b. if is_current i b then record b { revoked_generation = g + 1 } else b) o)
      ≡ (spent_in o || only i (live_in o))
spent_in-revoke i g none = refl
spent_in-revoke i g (some b) = ground arith

-- The row of a key after the revocation of a device's key and a new binding.
live-bind_key :
    (managed_by k : ℕ) (d : Device) (bound : Option (ℕ × Net)) (bs : List Binding)
    → live_in (
        find_binding k (
          bind_key managed_by d
            (d.generation + 1)
            bound
            (revoke_bindings d.id (d.generation + 1) bs)))
      ≡ (if only k (first_of bound)
          then some d.id
          else if only d.id (live_in (find_binding k bs))
          then none
          else live_in (find_binding k bs))
unfolding find_row
live-bind_key managed_by k d none bs =
    ap live_in (find_binding-revoke k d.id (d.generation + 1) bs)
    ∙ live_in-revoke d.id d.generation (find_binding k bs)
live-bind_key managed_by k d (some (key, n)) bs =
    let old =
      ap live_in (find_binding-revoke k d.id (d.generation + 1) bs)
      ∙ live_in-revoke d.id d.generation (find_binding k bs) in
    ground (arith, old)

spent-bind_key :
    (managed_by k : ℕ) (d : Device) (bound : Option (ℕ × Net)) (bs : List Binding)
    → spent_in (
        find_binding k (
          bind_key managed_by d
            (d.generation + 1)
            bound
            (revoke_bindings d.id (d.generation + 1) bs)))
      ≡ (if only k (first_of bound)
          then false
          else spent_in (find_binding k bs) || only d.id (live_in (find_binding k bs)))
unfolding find_row
spent-bind_key managed_by k d none bs =
    ap spent_in (find_binding-revoke k d.id (d.generation + 1) bs)
    ∙ spent_in-revoke d.id d.generation (find_binding k bs)
spent-bind_key managed_by k d (some (key, n)) bs =
    let old =
      ap spent_in (find_binding-revoke k d.id (d.generation + 1) bs)
      ∙ spent_in-revoke d.id d.generation (find_binding k bs) in
    ground (arith, old)

any-bury_live :
    (k i g reason now : ℕ) (bs : List Binding)
    → only i (live_in (find_binding k bs)) ≡ true
    → any (λ t. t.public_key == k) (bury i g reason now bs) ≡ true
any-bury_live k i g reason now bs h = elim (Option-cases (find_binding k bs)) [
  | inl e ↦
      let no_key : only i (live_in none) ≡ true =
        subst (λ (o : Option Binding). only i (live_in o) ≡ true) e h in
      cc
  | inr (b, e) ↦
      let own : only i (live_in (some b)) ≡ true =
        subst (λ (o : Option Binding). only i (live_in o) ≡ true) e h in
      any-bury k i g reason now bs b e (ground arith)
]

module _ (env : Env) (c : Command) (digest : ℕ) (d : Device) (db : Database)
    (here : find_device d.id db.devices ≡ some d) where
  devices-record_change :
      (bound : Option (ℕ × Net)) (j : ℕ)
      → find_device j (record_change env c digest d bound db).0.devices ≡ (
          if j == d.id
          then some (record d {
            state = next_state c.action d.state;
            generation = d.generation + 1;
            public_key = first_of bound;
            address = second_of bound;
          })
          else find_device j db.devices)
  unfolding record_change
  devices-record_change bound j =
      let f : Device → Device = λ x. record x {
        state = next_state c.action d.state;
        generation = d.generation + 1;
        public_key = first_of bound;
        address = second_of bound;
      } in
      let p : Device → Bool = λ x. x.id == d.id && x.generation == d.generation in
      let e = find_row-update_where (λ x. x.id) p f j db.devices (λ x. refl) in
      elim (Bool-cases (j == d.id)) [
        | inl same ↦
            let there : find_device j db.devices ≡ some d = rw (==→eq j d.id same) here in
            ground (arith, e, there)
        | inr other ↦ elim (Option-cases (find_device j db.devices)) [
          | inl gone ↦ ground (arith, e)
          | inr (x, there) ↦
              let own : x.id ≡ j = key-find_row (λ x. x.id) j db.devices there in
              ground (arith, e, own)
        ]
      ]

  -- The views of the database after the change.
  module _ (bound : Option (ℕ × Net)) where
    pub key_of-record_change :
        (j : ℕ)
        → key_of j (record_change env c digest d bound db).0
          ≡ (if j == d.id then first_of bound else key_of j db)
    key_of-record_change j = ground (arith, devices-record_change bound j)

    pub state_of-record_change :
        (j : ℕ)
        → state_of j (record_change env c digest d bound db).0
          ≡ (if j == d.id then some (next_state c.action d.state) else state_of j db)
    state_of-record_change j = ground (arith, devices-record_change bound j)

    pub live-record_change :
        (k : ℕ)
        → live k (record_change env c digest d bound db).0 ≡ (
            if only k (first_of bound)
            then some d.id
            else if only d.id (live k db)
            then none
            else live k db)
    live-record_change k =
        unfold record_change in live-bind_key env.policy.managed_by k d bound db.bindings

    pub is_spent-record_change :
        (k : ℕ)
        → is_spent k (record_change env c digest d bound db).0
          ≡ (if only k (first_of bound) then false else is_spent k db || only d.id (live k db))
    is_spent-record_change k =
        unfold record_change in spent-bind_key env.policy.managed_by k d bound db.bindings

    pub is_buried-record_change :
        (k : ℕ)
        → (is_buried k db || only d.id (live k db)) ≡ true
        → is_buried k (record_change env c digest d bound db).0 ≡ true
    unfolding record_change
    is_buried-record_change k h =
        let e =
          any-append (λ t. t.public_key == k)
            (bury d.id (d.generation + 1) c.reason env.now db.bindings) db.tombstones in
        ground (arith, e, any-bury_live k d.id (d.generation + 1) c.reason env.now db.bindings)
