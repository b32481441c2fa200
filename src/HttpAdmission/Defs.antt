-- ===== src/HttpAdmission/Defs.antt =====
-- admission.go: the state of `Admission`, `NewAdmission`, `sweep`, `acquire` and `release`. A source
-- name is only compared and is a number; a pointer to a bucket is a number into `bucket`.
use daxiang_vpn.Prelude.{
  ℕ, suc, ◌+◌, ◌-◌, ◌*◌, ◌/◌, ◌%◌, ◌&&◌, ◌||◌, not, ltb, leb, ◌==◌, if◌then◌else◌, Bool, false,
  Option, none, some, List, [], ◌∷◌, length, update,
}
use daxiang_vpn.HttpAdmission.Tokens.{
  TokenBudget, Tokens, full, full_tokens, is_full, refill, retry, spend,
}

abbrev pub millisecond : ℕ
millisecond = 1_000_000

abbrev pub second : ℕ
second = 1_000_000_000

abbrev pub minute : ℕ
minute = 60 * second

abbrev pub hour : ℕ
hour = 60 * minute

pub record Config : Type 0 where
  pub max_concurrent : ℕ
  pub max_concurrent_per_source : ℕ
  pub max_sources : ℕ
  pub global : TokenBudget
  pub per_source : TokenBudget
  pub source_idle_ttl : ℕ
  pub busy_retry_after : ℕ

-- `DefaultAdmissionConfig`
abbrev pub default_config : Config
default_config = record {
  max_concurrent = 8;
  max_concurrent_per_source = 2;
  max_sources = 1024;
  global = record { every = 50 * millisecond; burst = 40 };
  per_source = record { every = second; burst = 4 };
  source_idle_ttl = 10 * minute;
  busy_retry_after = second;
}

pub record Source : Type 0 where
  pub rate : Tokens
  pub active : ℕ
  pub last_seen : ℕ

pub record Entry : Type 0 where
  pub name : ℕ
  pub slot : ℕ

pub record Admission : Type 0 where
  pub config : Config
  pub active : ℕ
  pub global : Tokens
  pub sources : List Entry
  pub bucket : ℕ → Source
  pub next_slot : ℕ
  pub next_sweep : ℕ

-- The codes of `admissionDenial`; the last two carry the wait.
pub data Denial : Type 0 where
  request_cancelled bad_request : Denial
  resource_exhausted rate_limited : ℕ → Denial

pub data Outcome : Type 0 where
  lease : ℕ → Outcome
  denied : Denial → Outcome

unfoldable pub valid_rate : TokenBudget → ℕ → Bool
valid_rate b max_burst =
    leb millisecond b.every && leb b.every hour && leb 1 b.burst && leb b.burst max_burst

unfoldable pub valid_config : Config → Bool
unfolding valid_rate
valid_config c =
    leb 1 c.max_concurrent
    && leb c.max_concurrent 1024
    && leb 1 c.max_concurrent_per_source
    && leb c.max_concurrent_per_source c.max_concurrent
    && leb 1 c.max_sources
    && leb c.max_sources 4096
    && valid_rate c.global 65536
    && valid_rate c.per_source 1024
    && leb second c.source_idle_ttl
    && leb c.source_idle_ttl (24 * hour)
    && leb second c.busy_retry_after
    && leb c.busy_retry_after minute
    && c.busy_retry_after % second == 0
    && leb (full c.per_source) c.source_idle_ttl

abbrev pub blank_source : Source
blank_source = record {
  rate = record { tokens = record { units = 0 }; last = 0 };
  active = 0;
  last_seen = 0;
}

abbrev pub fresh : Config → ℕ → Admission
fresh c now = record {
  config = c;
  active = 0;
  global = full_tokens c.global now;
  sources = [];
  bucket = λ _. blank_source;
  next_slot = 0;
  next_sweep = 0;
}

unfoldable pub new_admission : Config → ℕ → Option Admission
unfolding valid_config
new_admission c now = if valid_config c then some (fresh c now) else none

unfoldable pub find : ℕ → List Entry → Option ℕ
find n [] = none
find n (e ∷ l) = if e.name == n then some e.slot else find n l

-- Whether a sweep leaves a bucket untouched: in use, or seen too recently.
abbrev pub is_recent : Config → ℕ → Source → Bool
is_recent c now s = not (s.active == 0) || ltb (now - s.last_seen) c.source_idle_ttl

abbrev pub refilled : Config → ℕ → Source → Source
refilled c now s = record s { rate = refill now c.per_source s.rate }

-- The loop of `sweep`: the entries that stay, and the buckets refilled on the way.
unfoldable pub sweep_loop : Config → ℕ → (ℕ → Source) → List Entry → (ℕ → Source) × List Entry
sweep_loop c now bucket [] = (bucket, [])
sweep_loop c now bucket (e ∷ l) =
    let s = bucket e.slot in
    let b = if is_recent c now s then bucket else update bucket e.slot (refilled c now s) in
    let (b', l') = sweep_loop c now b l in
    if not (is_recent c now s) && is_full c.per_source (refilled c now s).rate
    then (b', l')
    else (b', e ∷ l')

unfoldable pub sweep : ℕ → Admission → Admission
unfolding sweep_loop
sweep now a =
    if ltb now a.next_sweep
    then a
    else let (b, l) = sweep_loop a.config now a.bucket a.sources in
      record a { next_sweep = now + second; bucket = b; sources = l }

-- The charge of an admitted request, on the bucket in `slot`.
unfoldable pub charge : ℕ → ℕ → Admission → Admission
charge now slot a =
    let s = a.bucket slot in
    record a {
      global = spend a.global;
      active = suc a.active;
      bucket = update a.bucket slot (record s {
        rate = spend s.rate;
        active = suc s.active;
        last_seen = if ltb s.last_seen now then now else s.last_seen;
      });
    }

abbrev pub busy : Admission → Outcome
busy a = denied (resource_exhausted a.config.busy_retry_after)

-- The end of `acquire`; `late` is the last look at the request's context.
unfoldable pub reserve : Bool → ℕ → ℕ → Admission → Admission × Outcome
unfolding charge
reserve late now slot a =
    if late then (a, denied request_cancelled) else (charge now slot a, lease slot)

-- A request of a source that has a bucket.
unfoldable pub acquire_known : Bool → ℕ → ℕ → Admission → Admission × Outcome
unfolding reserve
acquire_known late now slot a =
    let s = refilled a.config now (a.bucket slot) in
    let a' = record a { bucket = update a.bucket slot s } in
    let wait = retry a.config.global a.global in
    let mine = retry a.config.per_source s.rate in
    let longest = if ltb wait mine then mine else wait in
    if leb a.config.max_concurrent_per_source (a.bucket slot).active
    then (a, busy a)
    else if ltb 0 longest
    then (a', denied (rate_limited longest))
    else reserve late now slot a'

-- A new bucket for a name; a request that is cancelled in time stores nothing.
unfoldable pub add_source : ℕ → ℕ → Admission → Admission
add_source now name a = record a {
  sources = record { name = name; slot = a.next_slot } ∷ a.sources;
  bucket =
      update a.bucket a.next_slot
        (record { rate = full_tokens a.config.per_source now; active = 0; last_seen = now });
  next_slot = suc a.next_slot;
}

unfoldable pub make_room : ℕ → Admission → Admission
unfolding sweep
make_room now a = if leb a.config.max_sources (length a.sources) then sweep now a else a

unfoldable pub acquire_new : Bool → ℕ → ℕ → Admission → Admission × Outcome
unfolding make_room add_source reserve
acquire_new late now name a =
    let wait = retry a.config.global a.global in
    let a' = make_room now a in
    if ltb 0 wait
    then (a, denied (rate_limited wait))
    else if leb a.config.max_sources (length a'.sources)
    then (a', busy a)
    else if late
    then (a', denied request_cancelled)
    else reserve false now a'.next_slot (add_source now name a')

abbrev pub dispatch : Bool → ℕ → ℕ → Admission → Option ℕ → Admission × Outcome
dispatch late now name a none = acquire_new late now name a
dispatch late now name a (some slot) = acquire_known late now slot a

unfoldable pub acquire_locked : Bool → ℕ → ℕ → Admission → Admission × Outcome
unfolding find acquire_known acquire_new
acquire_locked late now name a =
    let a' = record a { global = refill now a.config.global a.global } in
    if leb a.config.max_concurrent a.active
    then (a', busy a)
    else dispatch late now name a' (find name a.sources)

-- The three looks at `ctx.Err()`, in their order.
pub record Context : Type 0 where
  pub at_entry : Bool
  pub at_lock : Bool
  pub at_reservation : Bool

-- `canonical` tells whether the source parses and prints back as itself.
unfoldable pub acquire : (ℕ → Bool) → Context → ℕ → ℕ → Admission → Admission × Outcome
unfolding acquire_locked
acquire canonical ctx now name a =
    if ctx.at_entry
    then (a, denied request_cancelled)
    else if not (canonical name)
    then (a, denied bad_request)
    else if ctx.at_lock
    then (a, denied request_cancelled)
    else acquire_locked ctx.at_reservation now name a

-- The body of `release`, which `once` runs at most one time for a lease.
unfoldable pub release : ℕ → Admission → Admission
release slot a =
    let s = a.bucket slot in
    record a {
      active = a.active - 1;
      bucket = update a.bucket slot (record s { active = s.active - 1 });
    }

-- The seconds of `Retry-After`: the wait rounded up, and at least one.
unfoldable pub retry_after : ℕ → ℕ
retry_after wait =
    let seconds = wait / second + (if wait % second == 0 then 0 else 1) in
    if ltb seconds 1 then 1 else seconds
