-- ===== src/DeviceAuth/Plan.antt =====
-- hub/internal/deviceauth/executor.go: the peers of the running tunnel, `plan` and `verify`. The
-- prefixes of a peer are sorted as numbers and not as texts, which changes no comparison of lists.
use daxiang_vpn.Prelude.{
  ℕ, ◌*◌, ◌-◌, ◌/◌, ◌^◌, ◌&&◌, ◌||◌, not, ltb, leb, ◌==◌, min, Bool, true, false, Option, none,
  some, List, [], ◌∷◌, ◌++◌, length, if◌then◌else◌, any, is_some, find_row, Result, ok, err, ◌>>=◌,
  ◌>>◌, require, get,
}
use daxiang_vpn.DeviceAuth.State.{
  Error, err_protected, err_verification, Net, Policy, Device, Binding, Intent, is_active, net_eq,
  agree, width,
}
use daxiang_vpn.DeviceAuth.Admission.{address}
use daxiang_vpn.DeviceAuth.Access.{find_binding}

-- A peer as the executor gives it; `none` is a text that is no prefix.
pub record Peer : Type 0 where
  pub public_key : ℕ
  pub allowed_ips : List (Option Net)

-- An entry of the runtime map.
pub record Entry : Type 0 where
  pub key : ℕ
  pub ips : List Net

abbrev pub find_entry : ℕ → List Entry → Option Entry
find_entry = find_row (λ e. e.key)

abbrev pub masked : Net → Net
masked n = let block = 2 ^ (width n - n.bits) in record n { base = n.base / block * block }

abbrev pub net_le : Net → Net → Bool
net_le m n =
    if m.is6
    then n.is6 && (ltb m.base n.base || m.base == n.base && leb m.bits n.bits)
    else n.is6 || ltb m.base n.base || m.base == n.base && leb m.bits n.bits

abbrev pub insert_net : Net → List Net → List Net
insert_net n [] = n ∷ []
insert_net n (m ∷ ms) = let rest = insert_net n ms in if net_le n m then n ∷ m ∷ ms else m ∷ rest

abbrev pub repeats : List Net → Bool
repeats [] = false
repeats (n ∷ ns) = any (net_eq n) ns || repeats ns

-- The prefixes of one peer.
unfoldable pub read_ips : List (Option Net) → Result Error (List Net)
read_ips [] = ok []
read_ips (none ∷ ns) = err err_protected
read_ips (some n ∷ ns) = do
  require (not (n.is6 && n.base / 2 ^ 32 == 0xffff)) err_protected
  rest ← read_ips ns
  ok (insert_net (masked n) rest)

unfoldable pub read_peers : (ℕ → Bool) → List Peer → Result Error (List Entry)
unfolding read_ips find_row
read_peers valid_key [] = ok []
read_peers valid_key (p ∷ ps) = do
  rest ← read_peers valid_key ps
  require (valid_key p.public_key && leb (length p.allowed_ips) 64) err_protected
  require (not (is_some (find_entry p.public_key rest))) err_protected
  ips ← read_ips p.allowed_ips
  require (not (repeats ips)) err_protected
  ok (record { key = p.public_key; ips = ips } ∷ rest)

unfoldable pub runtime_map : (ℕ → Bool) → List Peer → Result Error (List Entry)
unfolding read_peers
runtime_map valid_key peers =
    require (leb (length peers) 16384) err_protected >> read_peers valid_key peers

pub data Step : Type 0 where
  remove : ℕ → Net → Step
  grant : ℕ → Net → Step

abbrev pub nets_eq : List Net → List Net → Bool
nets_eq [] [] = true
nets_eq (m ∷ ms) (n ∷ ns) = net_eq m n && nets_eq ms ns
nets_eq _ _ = false

abbrev pub has_intent : ℕ → ℕ → List Intent → Bool
has_intent epoch key = any (λ i. i.public_key == key && i.is_grant && i.epoch == epoch)

abbrev pub is_ok {ℓ} : {A : Type ℓ} → Result Error A → Bool
is_ok (ok a) = true
is_ok (err e) = false

-- A binding of the device is this authority's, and what runs under its key is its address, by an
-- action of this authority.
unfoldable pub is_owned : Policy → List Intent → Device → List Entry → Binding → Bool
unfolding address find_row
is_owned policy intents d runtime b =
    b.device_id == d.id
    && b.managed_by == policy.managed_by
    && is_ok (address policy b.public_key (some b.address))
    && elim (find_entry b.public_key runtime) [
      | none ↦ true
      | some e ↦
          (b.applied || has_intent policy.epoch b.public_key intents)
          && nets_eq e.ips (b.address ∷ [])
    ]

abbrev pub all {ℓ} : {A : Type ℓ} → (A → Bool) → List A → Bool
all p [] = true
all p (x ∷ xs) = p x && all p xs

-- The revoked keys that still run.
unfoldable pub removals : List Entry → List Binding → List Step
unfolding find_row
removals runtime [] = []
removals runtime (b ∷ bs) =
    let rest = removals runtime bs in
    if ltb 0 b.revoked_generation && is_some (find_entry b.public_key runtime)
    then remove b.public_key b.address ∷ rest
    else rest

abbrev pub is_revoked : List Binding → ℕ → Bool
is_revoked history k = elim (find_binding k history) [
  | none ↦ false
  | some b ↦ ltb 0 b.revoked_generation
]

abbrev pub overlaps : Net → Net → Bool
overlaps m n = agree (min m.bits n.bits) m n

-- No peer but the key's own and the revoked ones of the device overlaps the address.
unfoldable pub is_clear : List Binding → ℕ → Net → Entry → Bool
unfolding find_row
is_clear history key target e =
    e.key == key || is_revoked history e.key || not (any (λ p. overlaps p target) e.ips)

unfoldable pub plan_grant : List Binding → List Entry → ℕ → Net → Result Error (List Step)
unfolding find_row is_clear
plan_grant history runtime key target = do
  b ← get (find_binding key history) err_protected
  require (b.revoked_generation == 0 && net_eq b.address target) err_protected
  require (all (is_clear history key target) runtime) err_protected
  ok (if is_some (find_entry key runtime) then [] else grant key target ∷ [])

abbrev pub plan_active :
    List Binding → List Entry → Option ℕ → Option Net → Result Error (List Step)
plan_active history runtime none target = ok []
plan_active history runtime (some key) none = err err_protected
plan_active history runtime (some key) (some target) = plan_grant history runtime key target

unfoldable pub plan :
    Policy → List Intent → Device → List Binding → List Entry → Result Error (List Step)
unfolding is_owned removals plan_grant
plan policy intents d history runtime = do
  require (all (is_owned policy intents d runtime) history) err_protected
  grants ← (if is_active d.state then plan_active history runtime d.public_key d.address else ok [])
  ok (removals runtime history ++ grants)

abbrev pub runs_with : List Entry → ℕ → Net → Bool
runs_with after key n = elim (find_entry key after) [
  | none ↦ false
  | some e ↦ nets_eq e.ips (n ∷ [])
]

abbrev pub runs_active : List Entry → Option ℕ → Option Net → Bool
runs_active after none n = true
runs_active after (some key) none = false
runs_active after (some key) (some n) = runs_with after key n

-- A peer that is none of the device's keys is as it was.
abbrev pub is_kept : List Binding → List Entry → Entry → Bool
is_kept history after e =
    is_some (find_binding e.key history)
    || elim (find_entry e.key after) [ none ↦ false | some x ↦ nets_eq e.ips x.ips ]

abbrev pub is_known : List Binding → List Entry → Entry → Bool
is_known history before e =
    is_some (find_binding e.key history) || is_some (find_entry e.key before)

unfoldable pub verify : Device → List Binding → List Entry → List Entry → Result Error (Unit {0})
unfolding find_row
verify d history before after = do
  require
      (all (λ b. not (ltb 0 b.revoked_generation && is_some (find_entry b.public_key after)))
        history)
      err_verification
  require (not (is_active d.state) || runs_active after d.public_key d.address) err_verification
  require (all (is_kept history after) before) err_verification
  require (all (is_known history before) after) err_verification
