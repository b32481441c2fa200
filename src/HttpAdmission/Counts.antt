-- ===== src/HttpAdmission/Counts.antt =====
-- Every request and every end of a lease keeps the counts and the limits.
use daxiang_vpn.Prelude.{
  ℕ, suc, ◌<◌, ◌≡◌, ◌∙◌, ltb, leb, ◌==◌, if◌then◌else◌, true, none, some, List, [], ◌∷◌, length,
  arith, branch, update,
}
use daxiang_vpn.HttpAdmission.Tokens.{Tokens}
use daxiang_vpn.HttpAdmission.Defs.{
  Admission, Source, Entry, find, refilled, sweep_loop, sweep, charge, add_source, make_room,
  release,
}
use daxiang_vpn.HttpAdmission.World.{World, Inv, count_slot, has_lease, drop_lease}
use daxiang_vpn.HttpAdmission.Sweep.{
  active-sweep_loop, length-sweep_loop, find-sweep_loop_active, Below-sweep_loop, find-Below,
  Below-mono,
}

-- A held lease is counted.
pub count_slot-pos : (e : Entry) (l : List Entry) → has_lease e l ≡ true → 0 < count_slot e.slot l
count_slot-pos e [] h = cc
count_slot-pos e (f ∷ l) h = ground (arith, count_slot-pos e l)

count_slot-drop_lease :
    (e : Entry) (s : ℕ) (l : List Entry)
    → has_lease e l ≡ true
    → count_slot s l
      ≡ (if e.slot == s then suc (count_slot s (drop_lease e l)) else count_slot s (drop_lease e l))
count_slot-drop_lease e s [] h = cc
count_slot-drop_lease e s (f ∷ l) h = ground (arith, count_slot-drop_lease e s l)

length-drop_lease :
    (e : Entry) (l : List Entry) → has_lease e l ≡ true → length l ≡ suc (length (drop_lease e l))
length-drop_lease e [] h = cc
length-drop_lease e (f ∷ l) h = ground (arith, length-drop_lease e l)

has_lease-drop_lease :
    (e f : Entry) (l : List Entry) → has_lease f (drop_lease e l) ≡ true → has_lease f l ≡ true
has_lease-drop_lease e f [] h = h
has_lease-drop_lease e f (x ∷ l) h = ground (arith, has_lease-drop_lease e f l)

abbrev pub world : Admission → List Entry → World
world a held = record { adm = a; held = held }

module _ {a : Admission} {held : List Entry} (v : Inv (world a held)) where
  -- New tokens are no part of it.
  pub rate-Inv : (t : Tokens) → Inv (world (record a { global = t }) held)
  rate-Inv t = record {
    room = v.room;
    total = v.total;
    each = v.each;
    cap = v.cap;
    per = v.per;
    size = v.size;
    slots = v.slots;
    fresh = v.fresh;
    mapped = v.mapped;
  }

  pub refilled-Inv :
      (now slot : ℕ)
      → Inv (
          world
            (record a { bucket = update a.bucket slot (refilled a.config now (a.bucket slot)) })
            held)
  refilled-Inv now slot = record {
    room = v.room;
    total = v.total;
    each = λ s. ground (arith, v.each s);
    cap = v.cap;
    per = λ s. ground (arith, v.per s);
    size = v.size;
    slots = v.slots;
    fresh = v.fresh;
    mapped = v.mapped;
  }

  swept_bucket : ℕ → ℕ → Source
  swept_bucket now = (sweep_loop a.config now a.bucket a.sources).0

  swept-mapped :
      (now : ℕ) (e : Entry)
      → has_lease e held ≡ true
      → find e.name (sweep_loop a.config now a.bucket a.sources).1 ≡ some e.slot
  swept-mapped now e h =
      find-sweep_loop_active a.config now a.bucket a.sources e.name e.slot (v.mapped e h)
        (omega (arith, v.each e.slot, count_slot-pos e held h))

  sweep-Inv : (now : ℕ) → Inv (world (sweep now a) held)
  unfolding sweep
  sweep-Inv now =
      branch (λ b. Inv (world b held)) (ltb now a.next_sweep) (λ _. v)
        λ _. record {
          room = v.room;
          total = v.total;
          each = λ s. active-sweep_loop a.config now a.bucket a.sources s ∙ v.each s;
          cap = v.cap;
          per = λ s. omega (arith, active-sweep_loop a.config now a.bucket a.sources s, v.per s);
          size = omega (arith, length-sweep_loop a.config now a.bucket a.sources, v.size);
          slots = Below-sweep_loop a.config now a.next_slot a.bucket a.sources v.slots;
          fresh = v.fresh;
          mapped = swept-mapped now;
        }

  pub make_room-Inv : (now : ℕ) → Inv (world (make_room now a) held)
  unfolding make_room
  make_room-Inv now =
      branch (λ b. Inv (world b held)) (leb a.config.max_sources (length a.sources))
        (λ _. sweep-Inv now) (λ _. v)

  pub charge-Inv :
      (now name slot : ℕ)
      → a.active < a.config.max_concurrent
      → (a.bucket slot).active < a.config.max_concurrent_per_source
      → find name a.sources ≡ some slot
      → Inv (world (charge now slot a) (record { name = name; slot = slot } ∷ held))
  unfolding charge
  charge-Inv now name slot p q e = record {
    room = v.room;
    total = omega (arith, v.total);
    each = λ s. ground (arith, v.each s);
    cap = omega arith;
    per = λ s. ground (arith, v.per s);
    size = v.size;
    slots = v.slots;
    fresh =
        λ s h. ground (arith, v.fresh s h, find-Below name a.next_slot slot a.sources e v.slots);
    mapped = λ f h. ground (arith, v.mapped f);
  }

  pub add_source-Inv :
      (now name : ℕ)
      → find name a.sources ≡ none
      → length a.sources < a.config.max_sources
      → Inv (world (add_source now name a) held)
  unfolding add_source find
  add_source-Inv now name e h = record {
    room = v.room;
    total = v.total;
    each = λ s. ground (arith, v.each s, v.fresh s);
    cap = v.cap;
    per = λ s. ground (arith, v.per s);
    size = omega arith;
    slots = (omega arith, Below-mono a.next_slot (suc a.next_slot) a.sources (omega arith) v.slots);
    fresh = λ s k. v.fresh s (omega arith);
    mapped = λ f k. ground (arith, v.mapped f k, e);
  }

  pub release-Inv :
      (e : Entry) → has_lease e held ≡ true → Inv (world (release e.slot a) (drop_lease e held))
  unfolding release
  release-Inv e h = record {
    room = v.room;
    total = omega (arith, v.total, length-drop_lease e held h);
    each = λ s. ground (arith, v.each s, count_slot-drop_lease e s held h);
    cap = omega (arith, v.cap);
    per = λ s. ground (arith, v.per s);
    size = v.size;
    slots = v.slots;
    fresh = λ s k. ground (arith, v.fresh s k, count_slot-drop_lease e s held h);
    mapped = λ f k. v.mapped f (has_lease-drop_lease e f held k);
  }
