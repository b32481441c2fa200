-- ===== src/ProcessBudget/Runner.antt =====
-- hub/internal/processbudget/runner.go: `Run` in its two halves, before and after the seat is taken,
-- and `capture`. A subprocess (`runOwned`) is what it reports and what its streams write.
use daxiang_vpn.Prelude.{
  ℕ, ◌+◌, ◌-◌, ◌*◌, ◌^◌, ◌&&◌, ◌||◌, not, ltb, leb, ◌==◌, min, Bool, true, false, Option, none,
  some, List, [], ◌∷◌, ◌++◌, length, if◌then◌else◌,
}

pub data Kind : Type 0 where
  cancelled busy invalid unavailable timed_out output_limit failed unknown : Kind

-- `executable` and each argument are the bytes of a string; `timeout` is in nanoseconds.
pub record Spec : Type 0 where
  pub executable : List ℕ
  pub args : List (List ℕ)
  pub timeout : ℕ
  pub output_limit : ℕ

pub record Result : Type 0 where
  pub stdout : List ℕ
  pub started : Bool
  pub kind : Option Kind

-- The buffered channel `slots`: its capacity, and how many seats are taken.
pub record Runner : Type 0 where
  pub capacity : ℕ
  pub taken : ℕ

pub record Capture : Type 0 where
  pub stdout : List ℕ
  pub count : ℕ
  pub limit : ℕ
  pub overflow : Bool

-- A piece that a stream writes.
pub record Piece : Type 0 where
  pub is_stdout : Bool
  pub bytes : List ℕ

abbrev pub new_capture : ℕ → Capture
new_capture limit = record { stdout = []; count = 0; limit = limit; overflow = false }

abbrev pub first : ℕ → List ℕ → List ℕ
first n [] = []
first n (x ∷ xs) = let rest = first (n - 1) xs in if n == 0 then [] else x ∷ rest

unfoldable pub write : Piece → Capture → Capture
write p c =
    let n = min (length p.bytes) (c.limit - c.count) in
    record c {
      count = c.count + n;
      stdout = if p.is_stdout then c.stdout ++ first n p.bytes else c.stdout;
      overflow = c.overflow || ltb n (length p.bytes);
    }

unfoldable pub write_all : List Piece → Capture → Capture
unfolding write
write_all [] c = c
write_all (p ∷ ps) c = write_all ps (write p c)

abbrev pub short_args : List (List ℕ) → Bool
short_args [] = true
short_args (a ∷ more) = leb (length a) (16 * 2 ^ 10) && short_args more

unfoldable pub valid_spec : Spec → Bool
valid_spec s =
    not (length s.executable == 0)
    && leb 1_000_000 s.timeout
    && leb s.timeout 30_000_000_000
    && leb 1 s.output_limit
    && leb s.output_limit (64 * 2 ^ 10)
    && leb (length s.args) 64
    && short_args s.args

-- The caller's context: none for nil, or whether it is cancelled. `none` of the answer is a seat.
unfoldable pub admit : Option Bool → Spec → Runner → Runner × Option Kind
unfolding valid_spec
admit none s r = (r, some invalid)
admit (some is_cancelled) s r =
    if not (valid_spec s)
    then (r, some invalid)
    else if is_cancelled
    then (r, some cancelled)
    else if leb r.capacity r.taken
    then (r, some busy)
    else (record r { taken = r.taken + 1 }, none)

-- What the environment shows to a run that has a seat: whether the bounded context ended before
-- the start, whether the executable is found, and, of the supervised process, its report, its
-- output, and the contexts at its end.
pub record Report : Type 0 where
  pub ended_early : Bool
  pub found : Bool
  pub started : Bool
  pub verified : Bool
  pub fails : Bool
  pub pieces : List Piece
  pub bounded_ended : Bool
  pub caller_cancelled : Bool

abbrev pub free : Runner → Runner
free r = record r { taken = r.taken - 1 }

-- The `switch` on the report, the first case that holds.
unfoldable pub classify : Report → Capture → Option Kind
classify p c =
    if not p.verified
    then some unknown
    else if c.overflow
    then some output_limit
    else if p.bounded_ended
    then (if p.caller_cancelled then some cancelled else some timed_out)
    else if p.fails
    then (if p.started then some failed else some unavailable)
    else none

abbrev pub output_of : Option Kind → Capture → List ℕ
output_of none c = c.stdout
output_of (some k) c = []

-- The rest of `Run`, its deferred release of the seat included.
unfoldable pub conclude : Spec → Report → Runner → Runner × Result
unfolding write_all classify
conclude s p r =
    let c = write_all p.pieces (new_capture s.output_limit) in
    let k = classify p c in
    if p.ended_early
    then (free r, record { stdout = []; started = false; kind = some cancelled })
    else if not p.found
    then (free r, record { stdout = []; started = false; kind = some unavailable })
    else (
      if p.verified then free r else r,
      record { stdout = output_of k c; started = p.started; kind = k },
    )
