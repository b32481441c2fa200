-- ===== src/HttpAdmission/World.antt =====
-- The admission with the leases that its handlers hold: a request may add one, its end takes it out.
use daxiang_vpn.Prelude.{
  ℕ, suc, ◌≤◌, ◌<◌, ◌≡◌, ◌&&◌, ◌||◌, ◌==◌, if◌then◌else◌, Bool, true, false, some, List, [], ◌∷◌,
  length,
}
use daxiang_vpn.HttpAdmission.Defs.{
  Admission, Entry, Context, Outcome, lease, denied, acquire, release, find,
}

abbrev pub count_slot : ℕ → List Entry → ℕ
count_slot s [] = 0
count_slot s (e ∷ l) = if e.slot == s then suc (count_slot s l) else count_slot s l

abbrev pub count_name : ℕ → List Entry → ℕ
count_name n [] = 0
count_name n (e ∷ l) = if e.name == n then suc (count_name n l) else count_name n l

abbrev pub same_lease : Entry → Entry → Bool
same_lease e f = e.name == f.name && e.slot == f.slot

abbrev pub has_lease : Entry → List Entry → Bool
has_lease e [] = false
has_lease e (f ∷ l) = same_lease e f || has_lease e l

-- `once`: the first of the equal leases goes.
abbrev pub drop_lease : Entry → List Entry → List Entry
drop_lease e [] = []
drop_lease e (f ∷ l) = if same_lease e f then l else f ∷ drop_lease e l

pub record World : Type 0 where
  pub adm : Admission
  pub held : List Entry

pub data Event : Type 0 where
  request : Context → ℕ → ℕ → Event
  finish : Entry → Event

abbrev pub hold : ℕ → List Entry → Outcome → List Entry
hold name held (lease slot) = record { name = name; slot = slot } ∷ held
hold name held (denied d) = held

abbrev pub settle : ℕ → List Entry → Admission × Outcome → World
settle name held (a, o) = record { adm = a; held = hold name held o }

module _ (canonical : ℕ → Bool) where
  unfoldable pub step : Event → World → World
  unfolding acquire release
  step (request ctx now name) w = settle name w.held (acquire canonical ctx now name w.adm)
  step (finish e) w =
      if has_lease e w.held
      then record { adm = release e.slot w.adm; held = drop_lease e w.held }
      else w

  unfoldable pub run : List Event → World → World
  run [] w = w
  run (e ∷ es) w = run es (step e w)

-- The slots of the entries lie below a bound.
abbrev pub Below : ℕ → List Entry → Type 0
Below n [] = Unit {0}
Below n (e ∷ l) = (e.slot < n) × Below n l

-- The counts agree, the limits hold, and the bucket of a lease is still found by its name.
pub record Inv (w : World) : Type 0 where
  pub room : 0 < w.adm.config.max_concurrent_per_source
  pub total : w.adm.active ≡ length w.held
  pub each : (s : ℕ) → (w.adm.bucket s).active ≡ count_slot s w.held
  pub cap : w.adm.active ≤ w.adm.config.max_concurrent
  pub per : (s : ℕ) → (w.adm.bucket s).active ≤ w.adm.config.max_concurrent_per_source
  pub size : length w.adm.sources ≤ w.adm.config.max_sources
  pub slots : Below w.adm.next_slot w.adm.sources
  pub fresh : (s : ℕ) → w.adm.next_slot ≤ s → count_slot s w.held ≡ 0
  pub mapped : (e : Entry) → has_lease e w.held ≡ true → find e.name w.adm.sources ≡ some e.slot
