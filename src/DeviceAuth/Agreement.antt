-- ===== src/DeviceAuth/Agreement.antt =====
-- `plan` and `verify` agree: what the plan asks for, carried out, passes the last check.
use daxiang_vpn.Prelude.{
  ℕ, ◌≡◌, refl, sym, ap, subst, ◌∙◌, ◌&&◌, ◌||◌, not, ltb, ◌==◌, ==_refl, ==→eq, Bool, true, Option,
  none, some, List, [], ◌∷◌, if◌then◌else◌, is_some, find_row, key-find_row, arith, Bool-cases,
  Option-cases, inl, inr, ok, require, ◌>>◌, require-ok, bind-ok, ok-inj,
}
use daxiang_vpn.DeviceAuth.State.{Error, Net, Policy, Device, Binding, Intent, net_eq, is_active}
use daxiang_vpn.DeviceAuth.Access.{find_binding}
use daxiang_vpn.DeviceAuth.Plan.{
  Peer, read_peers, runtime_map, Entry, Step, grant, find_entry, removals, is_revoked, all, nets_eq,
  is_owned, plan, verify, runs_active, is_kept, is_known,
}
use daxiang_vpn.DeviceAuth.Carried.{
  carry, carry_all, carry_all-append, find-carry-grant, find-removals, are_distinct,
  all-are_distinct, find-all, all-carry-grant, all-carry_all-removals,
}
use daxiang_vpn.DeviceAuth.Grants.{Granting, idle, running, plan-Granting}

-- The prefix granted at the end, or what the removals leave.
abbrev left : List Binding → List Entry → ℕ → Option Entry
left history before j = if is_revoked history j then none else find_entry j before

nets_eq-one :
    (ms : List Net) (a n : Net)
    → nets_eq ms (a ∷ []) ≡ true
    → net_eq a n ≡ true
    → nets_eq ms (n ∷ []) ≡ true
nets_eq-one [] a n h k = cc
nets_eq-one (m ∷ []) a n h k = ground arith
nets_eq-one (m ∷ m' ∷ ms) a n h k = ground arith

net_eq_refl : (n : Net) → net_eq n n ≡ true
net_eq_refl n = ground (arith, ==_refl n.base, ==_refl n.bits)

nets_eq_refl : (ns : List Net) → nets_eq ns ns ≡ true
nets_eq_refl [] = refl
nets_eq_refl (n ∷ ns) = ground (arith, net_eq_refl n, nets_eq_refl ns)

-- What holds of the peers that run after the plan.
record Outcome (d : Device) (history : List Binding) (before after : List Entry) : Type 0 where
  gone : (j : ℕ) → is_revoked history j ≡ true → find_entry j after ≡ none
  kept : (j : ℕ) → find_binding j history ≡ none → find_entry j after ≡ find_entry j before
  runs : (not (is_active d.state) || runs_active after d.public_key d.address) ≡ true
  known : all (is_known history before) after ≡ true

all-is_known :
    (history : List Binding) (before es : List Entry)
    → ((j : ℕ) → is_some (find_entry j es) ≡ true → is_some (find_entry j before) ≡ true)
    → all (is_known history before) es ≡ true
unfolding find_row
all-is_known history before [] h = refl
all-is_known history before (e ∷ es) h =
    let head = h e.key (ground (arith, ==_refl e.key)) in
    let rest = all-is_known history before es (λ j g. h j (ground arith)) in ground arith

Outcome-verify :
    (d : Device) (history : List Binding) (before after : List Entry)
    → are_distinct (λ b. b.public_key) history ≡ true
    → are_distinct (λ e. e.key) before ≡ true
    → Outcome d history before after
    → verify d history before after ≡ ok tt
unfolding verify require ◌>>◌
Outcome-verify d history before after dh db o =
    let revoked : all
          (λ b. not (ltb 0 b.revoked_generation && is_some (find_entry b.public_key after))) history
        ≡ true =
      all-are_distinct (λ b. b.public_key) _ history dh
        (λ b f. ground (arith, f, o.gone b.public_key)) in
    let kept : all (is_kept history after) before ≡ true =
      all-are_distinct (λ e. e.key) _ before db
        (λ e f. ground (arith, f, o.kept e.key, nets_eq_refl e.ips)) in
    ground (arith, revoked, kept, o.runs, o.known)

module _ (policy : Policy) (intents : List Intent) (d : Device) (history : List Binding)
    (before : List Entry) (dh : are_distinct (λ b. b.public_key) history ≡ true)
    (owned : all (is_owned policy intents d before) history ≡ true) where
  abbrev cleared : List Entry
  cleared = carry_all (removals before history) before

  cleared-find : (j : ℕ) → find_entry j cleared ≡ left history before j
  cleared-find j = find-removals j before history dh

  cleared-known : all (is_known history before) cleared ≡ true
  cleared-known =
      all-carry_all-removals (is_known history before) before history before
        (all-is_known history before before (λ j h. h))

  cleared-Outcome :
      (not (is_active d.state) || runs_active cleared d.public_key d.address) ≡ true
      → Outcome d history before cleared
  cleared-Outcome runs = record {
    gone = λ j h. ground (arith, cleared-find j, h);
    kept = λ j h. ground (arith, cleared-find j, h);
    runs = runs;
    known = cleared-known;
  }

  -- The current key runs already.
  running-Outcome :
      (key : ℕ) (n : Net) (b : Binding)
      → d.public_key ≡ some key
      → d.address ≡ some n
      → find_binding key history ≡ some b
      → (b.revoked_generation == 0 && net_eq b.address n) ≡ true
      → is_some (find_entry key before) ≡ true
      → Outcome d history before cleared
  unfolding is_owned
  running-Outcome key n b k a f current present = elim (Option-cases (find_entry key before)) [
    | inl e ↦ cc
    | inr (x, e) ↦
        let own : b.public_key ≡ key = key-find_row (λ y. y.public_key) key history f in
        let ours =
          find-all (λ y. y.public_key) (is_owned policy intents d before) key history b owned f in
        let there : find_entry b.public_key before ≡ some x =
          subst (λ (j : ℕ). find_entry j before ≡ some x) (sym own) e in
        let exact : nets_eq x.ips (b.address ∷ []) ≡ true = ground (arith, ours, there) in
        let exact_n = nets_eq-one x.ips b.address n exact (ground arith) in
        cleared-Outcome (ground (arith, k, a, cleared-find key, f, e, exact_n))
  ]

  granted-Outcome :
      (key : ℕ) (n : Net) (b : Binding)
      → d.public_key ≡ some key
      → d.address ≡ some n
      → find_binding key history ≡ some b
      → (b.revoked_generation == 0 && net_eq b.address n) ≡ true
      → Outcome d history before (carry (grant key n) cleared)
  granted-Outcome key n b k a f current = record {
    gone =
        λ j h. ground (arith, find-carry-grant j key n cleared, cleared-find j, h, f, ==→eq j key);
    kept =
        λ j h. ground (arith, find-carry-grant j key n cleared, cleared-find j, h, f, ==→eq j key);
    runs = ground (arith, k, a, find-carry-grant key key n cleared, ==_refl key, net_eq_refl n);
    known =
        all-carry-grant (is_known history before) key n cleared (ground (arith, f)) cleared-known;
  }

read_peers-are_distinct :
    (valid_key : ℕ → Bool) (peers : List Peer) (es : List Entry)
    → read_peers valid_key peers ≡ ok es
    → are_distinct (λ e. e.key) es ≡ true
unfolding read_peers
read_peers-are_distinct valid_key [] es h =
    subst (λ (x : List Entry). are_distinct (λ e. e.key) x ≡ true) (ok-inj {E = Error} h) refl
read_peers-are_distinct valid_key (p ∷ ps) es h0 =
    let (rest, read, h1) = bind-ok _ _ h0 in
    let (valid, h2) = require-ok _ _ _ h1 in
    let (new, h3) = require-ok _ _ _ h2 in
    let (ips, parsed, h4) = bind-ok _ _ h3 in
    let (simple, h5) = require-ok _ _ _ h4 in
    let ih = read_peers-are_distinct valid_key ps rest read in
    subst (λ (x : List Entry). are_distinct (λ e. e.key) x ≡ true) (ok-inj {E = Error} h5)
      (ground (arith, ih, new))

Granting-Outcome :
    (policy : Policy) (intents : List Intent) (d : Device) (history : List Binding)
    (before : List Entry) (gs : List Step)
    → are_distinct (λ b. b.public_key) history ≡ true
    → all (is_owned policy intents d before) history ≡ true
    → Granting d history before gs
    → Outcome d history before (carry_all gs (carry_all (removals before history) before))
unfolding carry_all
Granting-Outcome policy intents d history before gs dh owned (idle i e) =
    subst
      (λ (x : List Step).
        Outcome d history before (carry_all x (carry_all (removals before history) before)))
      (sym e) (cleared-Outcome policy intents d history before dh owned (ground arith))
Granting-Outcome policy intents d history before gs dh owned (running key n b k a f current e) =
    subst
      (λ (x : List Step).
        Outcome d history before (carry_all x (carry_all (removals before history) before)))
      (sym e)
      (elim (Bool-cases (is_some (find_entry key before))) [
        | inl present ↦
            rw present (
              running-Outcome policy intents d history before dh owned key n b k a f current
                present)
        | inr absent ↦
            rw absent
              (granted-Outcome policy intents d history before dh owned key n b k a f current)
      ])

-- When the peers that run are well-formed, no two of the device's bindings have one key and
-- `plan` accepts the bindings: once its removals and its grant are carried out, in order and exactly,
-- the peers that run then pass `verify`.
pub plan-verify :
    (valid_key : ℕ → Bool) (peers : List Peer) (policy : Policy) (intents : List Intent)
    (d : Device) (history : List Binding) (before : List Entry) (steps : List Step)
    → runtime_map valid_key peers ≡ ok before
    → are_distinct (λ b. b.public_key) history ≡ true
    → plan policy intents d history before ≡ ok steps
    → verify d history before (carry_all steps before) ≡ ok tt
unfolding runtime_map
plan-verify valid_key peers policy intents d history before steps r dh h =
    let (few, read) = require-ok _ _ _ r in
    let (owned, (gs, e, granting)) = plan-Granting policy intents d history before steps h in
    Outcome-verify d history before (carry_all steps before) dh
      (read_peers-are_distinct valid_key peers before read)
      (subst (λ (x : List Entry). Outcome d history before x)
        (sym (
          ap (λ (x : List Step). carry_all x before) e
          ∙ carry_all-append (removals before history) gs before))
        (Granting-Outcome policy intents d history before gs dh owned granting))
