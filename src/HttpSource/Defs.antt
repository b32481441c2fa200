-- ===== src/HttpSource/Defs.antt =====
-- hub/internal/httpboundary/boundary.go: `ClientSource`, parseAddress and knownProxy. Go's parsers of
-- addresses and of host and port, its test of space and its text of an address are given to the model.
use daxiang_vpn.Prelude.{
  ℕ, ◌+◌, ◌*◌, ◌/◌, ◌%◌, ◌^◌, ◌&&◌, ◌||◌, not, ltb, leb, ◌==◌, Bool, true, false, Option, none,
  some, List, [], ◌∷◌, ◌++◌, length, if◌then◌else◌, Result, ok, err, ◌>>=◌, ◌>>◌, require, get,
}
use daxiang_vpn.Update.Text.{Bytes, split}

pub data SourceError : Type 0 where
  err_source : SourceError

-- `netip.Addr`; the zone of an address with none is empty.
pub record Addr : Type 0 where
  pub is6 : Bool
  pub bits : ℕ
  pub has_zone : Bool

pub data SourcePolicy : Type 0 where
  direct loopback_proxy other_policy : SourcePolicy

pub record Request : Type 0 where
  pub remote_addr : Bytes
  pub forwarded : List Bytes

pub record Tools : Type 0 where
  pub parse_addr : Bytes → Option Addr
  pub split_host_port : Bytes → Option Bytes
  pub trim_space : Bytes → Bytes
  pub text_of : Addr → Bytes

abbrev pub max_xff_bytes : ℕ
max_xff_bytes = 512

abbrev pub max_xff_hops : ℕ
max_xff_hops = 8

-- `Addr.Unmap`
abbrev pub unmap : Addr → Addr
unmap a =
    if a.is6 && a.bits / 2 ^ 32 == 0xffff
    then record { is6 = false; bits = a.bits % 2 ^ 32; has_zone = a.has_zone }
    else a

unfoldable pub parse_address : Tools → Bytes → Result SourceError Addr
parse_address t value = do
  ip ← get (t.parse_addr value) err_source
  require (not ip.has_zone) err_source
  ok (unmap ip)

-- 127.0.0.1 and ::1.
unfoldable pub known_proxy : Addr → Bool
known_proxy ip = not ip.has_zone && (if ip.is6 then ip.bits == 1 else ip.bits == 127 * 2 ^ 24 + 1)

-- The running size of the header's values, with a comma before each but the first.
unfoldable pub is_short : ℕ → List Bytes → Bool
is_short size [] = true
is_short size (v ∷ vs) =
    let rest = is_short (size + length v + 1) vs in
    not (ltb max_xff_bytes (size + length v)) && rest

abbrev pub comma : ℕ
comma = b','

-- `strings.Join(values, ",")`
unfoldable pub join : List Bytes → Bytes
join [] = []
join (v ∷ []) = v
join (v ∷ w ∷ vs) = v ++ (comma ∷ join (w ∷ vs))

unfoldable pub read_hops : Tools → List Bytes → Result SourceError (List Addr)
unfolding parse_address
read_hops t [] = ok []
read_hops t (p ∷ ps) = do
  hop ← parse_address t (t.trim_space p)
  rest ← read_hops t ps
  ok (hop ∷ rest)

abbrev pub reverse : List Addr → List Addr
reverse [] = []
reverse (a ∷ as_) = reverse as_ ++ a ∷ []

-- The loop from the last hop down: the first that is no proxy, or the one at the left end.
unfoldable pub pick : List Addr → Result SourceError Addr
unfolding known_proxy
pick [] = err err_source
pick (h ∷ []) = ok h
pick (h ∷ g ∷ hs) = let rest = pick (g ∷ hs) in if not (known_proxy h) then ok h else rest

unfoldable pub forwarded_source : Tools → List Bytes → Result SourceError Addr
unfolding is_short join read_hops pick split
forwarded_source t values = do
  require (is_short 0 values) err_source
  let parts = split comma (join values)
  require (leb (length parts) max_xff_hops) err_source
  hops ← read_hops t parts
  pick (reverse hops)

abbrev pub is_known : SourcePolicy → Bool
is_known other_policy = false
is_known _ = true

abbrev pub is_direct : SourcePolicy → Bool
is_direct direct = true
is_direct _ = false

abbrev pub is_empty : List Bytes → Bool
is_empty [] = true
is_empty _ = false

abbrev pub host_of : Tools → Bytes → Bytes
host_of t remote_addr = elim (t.split_host_port remote_addr) [
  | none ↦ remote_addr
  | some host ↦ host
]

unfoldable pub client_source : Tools → SourcePolicy → Request → Result SourceError Bytes
unfolding parse_address known_proxy forwarded_source
client_source t policy r = do
  require (is_known policy) err_source
  remote ← parse_address t (host_of t r.remote_addr)
  source ←
      (if is_direct policy || not (known_proxy remote) || is_empty r.forwarded
        then ok remote
        else forwarded_source t r.forwarded)
  ok (t.text_of source)
