-- ===== src/Gate/State.antt =====
-- shared/proxygate/gate.go and write_fence.go: the types. Pointers to admissions and registrations
-- are numbers into the tables `adm` and `reg`; an object stays in its table when it leaves a map.
use daxiang_vpn.Prelude.{
  ℕ, ◌*◌, Bool, true, false, ◌&&◌, not, Option, none, some, List, [], ◌∷◌, ltb, ◌==◌, update,
}

-- time.Second, in nanoseconds.
abbrev pub second : ℕ
second = 1_000_000_000

abbrev pub max_lease : ℕ
max_lease = 5 * second

abbrev pub max_admissions : ℕ
max_admissions = 4096

abbrev pub max_tracked_connections : ℕ
max_tracked_connections = 4

abbrev pub max_cleanup_connections : ℕ
max_cleanup_connections = max_admissions * max_tracked_connections

pub data Error : Type 0 where
  err_policy err_closed err_capacity err_protocol err_cleanup_unknown : Error

pub data Result {ℓ} (A : Type ℓ) : Type ℓ where
  ok : A → Result A
  err : Error → Result A

-- An address after `Unmap`, and a source prefix (an IPv4 one, by `Policy.Validate`).
pub data Addr : Type 0 where
  v4 : ℕ → Addr
  v6 : ℕ → Addr

pub record Prefix : Type 0 where
  pub base : ℕ
  pub bits : ℕ

-- A connection: one that the transport made, or the write fence of a registration.
pub data Conn : Type 0 where
  raw : ℕ → Conn
  fenced : ℕ → Conn

-- `writeFencedConn`. `operations` is the count of the wait group.
pub record Fence : Type 0 where
  pub inner : Conn
  pub closed : Bool
  pub completed : Bool
  pub write_active : Bool
  pub deadline_active : Bool
  pub revoker_active : Bool
  pub operations : ℕ

-- `ready` is true once the channel is closed.
pub record Registration : Type 0 where
  pub admission : ℕ
  pub ready : Bool
  pub conn : Option Conn
  pub attached : Bool
  pub aborted : Bool
  pub quarantined : Bool
  pub released : Bool
  pub fence : Option Fence

-- `cancelled` is `ctx.Err() != nil`.
pub record Admission : Type 0 where
  pub cancelled : Bool
  pub registrations : List ℕ
  pub client : ℕ
  pub released : Bool

-- A session name is only compared: it is a number, and 0 is the empty string. The zero time is 0.
-- `cleanup` holds the registrations of the running task that its workers have not released yet.
pub record Gate : Type 0 where
  pub initialized : Bool
  pub managed : List Prefix
  pub owner : ℕ
  pub expires : ℕ
  pub admissions : List ℕ
  pub cleanup : Option (List ℕ)
  pub adm : ℕ → Admission
  pub reg : ℕ → Registration
  pub next_admission : ℕ
  pub next_registration : ℕ

-- What `Acquire` and `Reserve` hand out: `outside` has no gate, and all its methods do nothing.
pub data Handle : Type 0 where
  outside : Handle
  inside : ℕ → Handle

abbrev pub conn_eq : Conn → Conn → Bool
conn_eq (raw a) (raw b) = a == b
conn_eq (fenced a) (fenced b) = a == b
conn_eq _ _ = false

abbrev pub conn_is : Option Conn → Conn → Bool
conn_is none c = false
conn_is (some d) c = conn_eq d c

abbrev pub is_some {ℓ} : {A : Type ℓ} → Option A → Bool
is_some none = false
is_some (some _) = true

abbrev pub is_nil {ℓ} : {A : Type ℓ} → List A → Bool
is_nil [] = true
is_nil (_ ∷ _) = false

-- `&Registration{admission: a, ready: make(chan struct{})}`
abbrev pub new_registration : ℕ → Registration
new_registration a = record {
  admission = a;
  ready = false;
  conn = none;
  attached = false;
  aborted = false;
  quarantined = false;
  released = false;
  fence = none;
}

abbrev pub blank_admission : Admission
blank_admission = record { cancelled = false; registrations = []; client = 0; released = false }

abbrev pub set_reg : Gate → ℕ → Registration → Gate
set_reg g r x = record g { reg = update g.reg r x }

abbrev pub set_adm : Gate → ℕ → Admission → Gate
set_adm g a x = record g { adm = update g.adm a x }

-- `g.owner != "" && time.Now().Before(g.expires)`
abbrev pub leased : ℕ → Gate → Bool
leased now g = not (g.owner == 0) && ltb now g.expires
