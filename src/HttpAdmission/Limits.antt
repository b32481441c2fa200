-- ===== src/HttpAdmission/Limits.antt =====
-- The concurrency limits after any history of requests and ends, and that denials change no count.
use daxiang_vpn.Prelude.{
  ℕ, ◌≤◌, ◌<◌, ◌≡◌, refl, not, ltb, leb, if◌then◌else◌, Bool, true, false, Option, none, some, List,
  [], ◌∷◌, length, arith, branch, subst,
}
use daxiang_vpn.HttpAdmission.Tokens.{refill, retry}
use daxiang_vpn.HttpAdmission.Defs.{
  Config, Admission, Entry, Outcome, lease, Context, find, refilled, sweep, charge, reserve,
  acquire_known, add_source, make_room, acquire_new, dispatch, acquire_locked, acquire,
  valid_config, fresh,
}
use daxiang_vpn.HttpAdmission.World.{
  World, Event, request, finish, Inv, count_slot, count_name, has_lease, settle, step, run,
}
use daxiang_vpn.HttpAdmission.Sweep.{find-sweep_loop-none}
use daxiang_vpn.HttpAdmission.Settings.{config-run-fresh}
use daxiang_vpn.HttpAdmission.Counts.{
  world, rate-Inv, refilled-Inv, make_room-Inv, charge-Inv, add_source-Inv, release-Inv,
}

find-make_room :
    (now name : ℕ) (a : Admission)
    → find name a.sources ≡ none
    → find name (make_room now a).sources ≡ none
unfolding make_room sweep
find-make_room now name a e =
    ground (arith, find-sweep_loop-none a.config now a.bucket a.sources name e)

make_room-frame :
    (now : ℕ) (a : Admission)
    → ((make_room now a).active ≡ a.active)
      × ((make_room now a).config ≡ a.config)
      × ((make_room now a).next_slot ≡ a.next_slot)
unfolding make_room sweep
make_room-frame now a = ground arith

make_room-room :
    (now : ℕ) (a : Admission)
    → a.active < a.config.max_concurrent
    → (make_room now a).active < (make_room now a).config.max_concurrent
make_room-room now a h = let f = make_room-frame now a in rw (f.0, f.1) h

make_room-small :
    (now : ℕ) (a : Admission)
    → leb a.config.max_sources (length (make_room now a).sources) ≡ false
    → length (make_room now a).sources < (make_room now a).config.max_sources
make_room-small now a p = let f = make_room-frame now a in rw f.1 (ground arith)

-- The invariant of the world that an outcome leaves.
abbrev InvOf : ℕ → List Entry → Admission × Outcome → Type 0
InvOf name held z = Inv (settle name held z)

module _ {a : Admission} {held : List Entry} (v : Inv (world a held))
    (room : a.active < a.config.max_concurrent) (now name : ℕ) where
  acquire_known-Inv :
      (late : Bool) (slot : ℕ)
      → find name a.sources ≡ some slot
      → InvOf name held (acquire_known late now slot a)
  unfolding acquire_known reserve
  acquire_known-Inv late slot e =
      let w = refilled-Inv v now slot in
      let s = refilled a.config now (a.bucket slot) in
      let wait = retry a.config.global a.global in
      let mine = retry a.config.per_source s.rate in
      branch (InvOf name held) (leb a.config.max_concurrent_per_source (a.bucket slot).active)
        (λ _. v)
        λ p.
          branch (InvOf name held) (ltb 0 (if ltb wait mine then mine else wait)) (λ _. w)
            λ _.
              branch (InvOf name held) late (λ _. w)
                (λ _. charge-Inv w now name slot room (ground arith) e)

  -- A new source is charged at once.
  add_charge-Inv :
      length (make_room now a).sources < (make_room now a).config.max_sources
      → find name a.sources ≡ none
      → InvOf name held (
        charge now (make_room now a).next_slot (add_source now name (make_room now a)),
        lease (make_room now a).next_slot,
      )
  unfolding add_source find
  add_charge-Inv p e =
      let a' = make_room now a in
      let w = add_source-Inv (make_room-Inv v now) now name (find-make_room now name a e) p in
      charge-Inv w now name a'.next_slot (make_room-room now a room) (ground (arith, w.room))
        (ground arith)

  acquire_new-Inv :
      (late : Bool) → find name a.sources ≡ none → InvOf name held (acquire_new late now name a)
  unfolding acquire_new reserve
  acquire_new-Inv late e =
      let a' = make_room now a in
      let w = make_room-Inv v now in
      let wait = retry a.config.global a.global in
      branch (InvOf name held) (ltb 0 wait) (λ _. v)
        λ _.
          branch (InvOf name held) (leb a.config.max_sources (length a'.sources)) (λ _. w)
            λ p.
              branch (InvOf name held) late (λ _. w)
                (λ _. add_charge-Inv (make_room-small now a p) e)

module _ {a : Admission} {held : List Entry} (v : Inv (world a held)) (now name : ℕ) where
  dispatch-Inv :
      (late : Bool) (o : Option ℕ)
      → a.active < a.config.max_concurrent
      → find name a.sources ≡ o
      → InvOf name held (dispatch late now name a o)
  dispatch-Inv late none room e = acquire_new-Inv v room now name late e
  dispatch-Inv late (some slot) room e = acquire_known-Inv v room now name late slot e

module _ {a : Admission} {held : List Entry} (v : Inv (world a held)) (now name : ℕ) where
  acquire_locked-Inv : (late : Bool) → InvOf name held (acquire_locked late now name a)
  unfolding acquire_locked
  acquire_locked-Inv late =
      let w = rate-Inv v (refill now a.config.global a.global) in
      branch (InvOf name held) (leb a.config.max_concurrent a.active) (λ _. w)
        λ p. dispatch-Inv w now name late (find name a.sources) (ground arith) refl

  acquire-Inv :
      (canonical : ℕ → Bool) (ctx : Context) → InvOf name held (acquire canonical ctx now name a)
  unfolding acquire
  acquire-Inv canonical ctx =
      branch (InvOf name held) ctx.at_entry (λ _. v)
        λ _.
          branch (InvOf name held) (not (canonical name)) (λ _. v)
            λ _.
              branch (InvOf name held) ctx.at_lock (λ _. v)
                (λ _. acquire_locked-Inv ctx.at_reservation)

module _ (canonical : ℕ → Bool) where
  step-Inv : (e : Event) {w : World} → Inv w → Inv (step canonical e w)
  unfolding step
  step-Inv (request ctx now name) v = acquire-Inv v now name canonical ctx
  step-Inv (finish e) {w} v = branch Inv (has_lease e w.held) (release-Inv v e) (λ _. v)

  pub run-Inv : (es : List Event) {w : World} → Inv w → Inv (run canonical es w)
  unfolding run
  run-Inv [] v = v
  run-Inv (e ∷ es) v = run-Inv es (step-Inv e v)

pub fresh-Inv : (c : Config) (now : ℕ) → valid_config c ≡ true → Inv (world (fresh c now) [])
unfolding valid_config find
fresh-Inv c now h = record {
  room = ground arith;
  total = omega arith;
  each = λ s. omega arith;
  cap = omega arith;
  per = λ s. omega arith;
  size = omega arith;
  slots = tt;
  fresh = λ s k. omega arith;
  mapped = λ e k. cc;
}

-- All leases of a name are on the bucket that the name finds.
count_name-le :
    (n s : ℕ) (sources held : List Entry)
    → ((e : Entry) → has_lease e held ≡ true → find e.name sources ≡ some e.slot)
    → find n sources ≡ some s
    → count_name n held ≤ count_slot s held
count_name-le n s sources [] mapped e = omega arith
count_name-le n s sources (f ∷ held) mapped e = ground (
  arith,
  mapped f (ground arith),
  count_name-le n s sources held (λ x h. mapped x (ground (arith, h))) e,
)

count_name_absent :
    (n : ℕ) (sources held : List Entry)
    → ((e : Entry) → has_lease e held ≡ true → find e.name sources ≡ some e.slot)
    → find n sources ≡ none
    → count_name n held ≡ 0
count_name_absent n sources [] mapped e = refl
count_name_absent n sources (f ∷ held) mapped e = ground (
  arith,
  mapped f (ground arith),
  count_name_absent n sources held (λ x h. mapped x (ground (arith, h))) e,
)

count_name_bound :
    (n : ℕ) (w : World) → Inv w → count_name n w.held ≤ w.adm.config.max_concurrent_per_source
count_name_bound n w v = go (find n w.adm.sources) refl
  where
    go :
        (o : Option ℕ)
        → find n w.adm.sources ≡ o
        → count_name n w.held ≤ w.adm.config.max_concurrent_per_source
    go none e = omega (arith, count_name_absent n w.adm.sources w.held v.mapped e)
    go (some s) e =
        omega (arith, count_name-le n s w.adm.sources w.held v.mapped e, v.each s, v.per s)

module _ (canonical : ℕ → Bool) (c : Config) (start : ℕ) (es : List Event) (name : ℕ) where
  -- After any history of requests and ends on a valid configuration: at most `max_concurrent`
  -- leases are held, at most `max_concurrent_per_source` of one source name, sweeps included, at
  -- most `max_sources` buckets are kept, and the counter of active requests is the number of leases.
  pub run_limits :
      valid_config c ≡ true
      → let w = run canonical es (record { adm = fresh c start; held = [] }) in
        (length w.held ≤ c.max_concurrent)
        × (count_name name w.held ≤ c.max_concurrent_per_source)
        × (length w.adm.sources ≤ c.max_sources)
        × (w.adm.active ≡ length w.held)
  run_limits h =
      let v = run-Inv canonical es (fresh-Inv c start h) in
      let w = run canonical es (world (fresh c start) []) in
      subst
        (λ (d : Config).
          (length w.held ≤ d.max_concurrent)
          × (count_name name w.held ≤ d.max_concurrent_per_source)
          × (length w.adm.sources ≤ d.max_sources)
          × (w.adm.active ≡ length w.held))
        (config-run-fresh canonical c start es)
        (omega (arith, v.total, v.cap), count_name_bound name _ v, v.size, v.total)
