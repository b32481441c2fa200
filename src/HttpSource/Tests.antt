-- ===== src/HttpSource/Tests.antt =====
-- An address of one letter, with L for the local proxy, and an instance of the theorem.
use daxiang_vpn.Prelude.{
  ℕ, ◌+◌, ◌*◌, ◌^◌, ◌≡◌, refl, ◌==◌, false, Option, none, some, [], ◌∷◌, if◌then◌else◌, ok, require,
  get, ◌>>=◌, ◌>>◌,
}
use daxiang_vpn.Update.Text.{Bytes, split}
use daxiang_vpn.HttpSource.Defs.{
  Addr, loopback_proxy, Tools, parse_address, known_proxy, is_short, comma, join, read_hops, pick,
  forwarded_source, client_source,
}
use daxiang_vpn.HttpSource.Spoof.{client_source-join}

abbrev letter : ℕ → Addr
letter c = record {
  is6 = false;
  bits = if c == b'L' then 127 * 2 ^ 24 + 1 else c;
  has_zone = false;
}

abbrev parse_letter : Bytes → Option Addr
parse_letter (c ∷ []) = some (letter c)
parse_letter _ = none

abbrev letters : Tools
letters = record {
  parse_addr = parse_letter;
  split_host_port = λ s. none;
  trim_space = λ s. s;
  text_of = λ a. a.bits ∷ [];
}

abbrev spoofed : Bytes
spoofed = b'e' ∷ comma ∷ b'c' ∷ comma ∷ b'L' ∷ []

abbrev honest : Bytes
honest = b'c' ∷ comma ∷ b'L' ∷ []

client_source-join_example :
    client_source letters loopback_proxy
      (record { remote_addr = b'L' ∷ []; forwarded = honest ∷ [] })
    ≡ ok (b'c' ∷ [])
unfolding client_source parse_address known_proxy is_short join split read_hops pick
    forwarded_source require get ◌>>=◌ ◌>>◌
client_source-join_example =
    client_source-join letters loopback_proxy (b'L' ∷ []) (spoofed ∷ []) (b'e' ∷ []) honest
      (letter b'c' ∷ letter b'L' ∷ []) (b'c' ∷ []) refl refl refl refl
