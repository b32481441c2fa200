-- ===== src/DeviceAuth/Performed.antt =====
-- What the tests of `perform` and `verify` say of the steps and of the peers of the last snapshot.
use daxiang_vpn.Prelude.{
  ℕ, ◌+◌, ◌<◌, ◌≡◌, ◌≢◌, refl, sym, subst, ==_refl, Bool, true, false, none, List, [], ◌∷◌, keep,
  find_row, arith, Bool-cases, ◌⊎◌, inl, inr, if◌then◌else◌, ok, require-ok, bind-ok, ok-inj,
}
use daxiang_vpn.DeviceAuth.State.{Error, Net, Device, net_eq, is_active}
use daxiang_vpn.DeviceAuth.Plan.{
  Peer, read_peers, runtime_map, Entry, Step, find_entry, all, nets_eq,
}
use daxiang_vpn.DeviceAuth.Claim.{Answer, is_expired}
use daxiang_vpn.DeviceAuth.Process.{finished, perform}

module _ {A : Type 0} where
  abbrev pub Each : (A → Type 0) → List A → Type 0
  Each P [] = Unit {0}
  Each P (x ∷ xs) = P x × Each P xs

  pub all-Each :
      (p : A → Bool) (P : A → Type 0) (xs : List A)
      → ((x : A) → p x ≡ true → P x)
      → all p xs ≡ true
      → Each P xs
  all-Each p P [] f h = tt
  all-Each p P (x ∷ xs) f h = (f x (ground arith), all-Each p P xs f (ground arith))

  pub Each-keep :
      (p : A → Bool) (P Q : A → Type 0) (xs : List A)
      → ((x : A) → p x ≡ false → Q x)
      → ((x : A) → P x → Q x)
      → Each P (keep p xs)
      → Each Q xs
  Each-keep p P Q [] f g h = tt
  Each-keep p P Q (x ∷ xs) f g h = elim (Bool-cases (p x)) [
    | inl e ↦
        let k : Each P (x ∷ keep p xs) =
          subst (λ b. Each P (if b then x ∷ keep p xs else keep p xs)) e h in
        (g x k.0, Each-keep p P Q xs f g k.1)
    | inr e ↦ (
      f x e,
      Each-keep p P Q xs f g (subst (λ b. Each P (if b then x ∷ keep p xs else keep p xs)) e h),
    )
  ]

-- A device that is not active, or a time before the end of its grant.
abbrev pub InTime : Device → ℕ → Type 0
InTime d now = (is_active d.state ≡ false) ⊎ (now < d.valid_until)

pub is_expired-InTime : (d : Device) (now : ℕ) → is_expired d now ≡ false → InTime d now
is_expired-InTime d now h = elim (Bool-cases (is_active d.state)) [
  | inl e ↦ inr (ground arith)
  | inr e ↦ inl e
]

-- The call of a step was made on the same file, within the context and the grant, and succeeded.
abbrev pub IsDone : Device → Answer → Type 0
IsDone d a =
    (a.same_file ≡ true) × (a.ended_before ≡ false) × InTime d a.now_after × (a.performed ≡ true)

-- So for each step, the first at that index.
abbrev pub AllDone : Device → (ℕ → Answer) → ℕ → List Step → Type 0
AllDone d answers i [] = Unit {0}
AllDone d answers i (s ∷ steps) = IsDone d (answers i) × AllDone d answers (i + 1) steps

pub perform-AllDone :
    (d : Device) (answers : ℕ → Answer) (i : ℕ) (steps : List Step)
    → perform d answers i steps ≡ finished
    → AllDone d answers i steps
unfolding perform
perform-AllDone d answers i [] h = tt
perform-AllDone d answers i (s ∷ steps) h = (
  (
    ground arith,
    ground arith,
    is_expired-InTime d (answers i).now_after (ground arith),
    ground arith,
  ),
  perform-AllDone d answers (i + 1) steps (ground arith),
)

net_eq→eq : (m n : Net) → net_eq m n ≡ true → m ≡ n
net_eq→eq m n h = ground arith

pub nets_eq→eq : (ms ns : List Net) → nets_eq ms ns ≡ true → ms ≡ ns
nets_eq→eq [] [] h = refl
nets_eq→eq [] (n ∷ ns) h = cc
nets_eq→eq (m ∷ ms) [] h = cc
nets_eq→eq (m ∷ ms) (n ∷ ns) h =
    let head = net_eq→eq m n (ground arith) in let rest = nets_eq→eq ms ns (ground arith) in cc

-- No peer of a snapshot has the key.
abbrev pub NoPeer : ℕ → List Peer → Type 0
NoPeer k peers = Each (λ p. p.public_key ≢ k) peers

read_peers-NoPeer :
    (valid_key : ℕ → Bool) (k : ℕ) (peers : List Peer) (es : List Entry)
    → read_peers valid_key peers ≡ ok es
    → find_entry k es ≡ none
    → NoPeer k peers
unfolding read_peers find_row
read_peers-NoPeer valid_key k [] es h f = tt
read_peers-NoPeer valid_key k (p ∷ ps) es h f =
    let (rest, r, h1) = bind-ok _ _ h in
    let (valid, h2) = require-ok _ _ _ h1 in
    let (fresh, h3) = require-ok _ _ _ h2 in
    let (ips, i, h4) = bind-ok _ _ h3 in
    let (single, h5) = require-ok _ _ _ h4 in
    let this : record { key = p.public_key; ips = ips } ∷ rest ≡ es = ok-inj {E = Error} h5 in
    let gone : find_entry k (record { key = p.public_key; ips = ips } ∷ rest) ≡ none =
      subst (λ (x : List Entry). find_entry k x ≡ none) (sym this) f in
    (λ same. ground (arith, ==_refl k), read_peers-NoPeer valid_key k ps rest r (ground arith))

pub runtime_map-NoPeer :
    (valid_key : ℕ → Bool) (k : ℕ) (peers : List Peer) (es : List Entry)
    → runtime_map valid_key peers ≡ ok es
    → find_entry k es ≡ none
    → NoPeer k peers
unfolding runtime_map
runtime_map-NoPeer valid_key k peers es h f =
    read_peers-NoPeer valid_key k peers es (require-ok _ _ _ h).1 f
