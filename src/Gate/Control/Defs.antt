-- ===== src/Gate/Control/Defs.antt =====
-- shared/proxygate/control.go: the messages, and the commands of a Controller. A frame that
-- decodeMessage refuses is a failed read.
use daxiang_vpn.Prelude.{
  ℕ, ◌+◌, ◌*◌, ◌%◌, ◌&&◌, ◌||◌, not, ltb, leb, ◌==◌, Bool, true, false, Option, none, some,
  if◌then◌else◌,
}
use daxiang_vpn.Gate.State.{Error, err_closed, err_protocol, max_lease}

pub data Verb : Type 0 where
  say_hello say_closed say_grant say_ack : Verb

pub record Message : Type 0 where
  pub version : ℕ
  pub binding : ℕ
  pub session : ℕ
  pub nonce : ℕ
  pub sequence : ℕ
  pub verb : Verb
  pub until_unix_nano : ℕ

abbrev pub max_sequence : ℕ
max_sequence = 9007199254740991

abbrev pub min_lease : ℕ
min_lease = 100 * 1_000_000

abbrev pub is_ack : Verb → Bool
is_ack say_ack = true
is_ack _ = false

-- `mu` is free between two commands: a command that finds it taken is one that breaks the connection.
pub record Controller : Type 0 where
  pub base : Message
  pub is_closed : Bool
  pub has_conn : Bool

-- What a command finds.
pub record Call : Type 0 where
  pub busy : Bool
  pub in_time : Bool
  pub written : Bool
  pub ended : Bool
  pub now : ℕ

abbrev pub next_message : Message → Verb → ℕ → Message
next_message base verb until = record base {
  sequence = base.sequence + 1;
  verb = verb;
  until_unix_nano = until;
}

-- The frame goes out.
abbrev pub sends : Controller → Call → Bool
sends c call =
    not call.busy
    && not c.is_closed
    && call.in_time
    && ltb c.base.sequence max_sequence
    && call.written
    && c.has_conn

unfoldable pub accepts : Message → ℕ → Call → Message → Bool
accepts m until call ack =
    ack.version == m.version
    && ack.binding == m.binding
    && ack.session == m.session
    && ack.nonce == m.nonce
    && ack.sequence == m.sequence
    && is_ack ack.verb
    && ack.until_unix_nano == until
    && not call.ended
    && (until == 0 || ltb call.now until)

abbrev pub broken : Controller → Controller
broken c = record c { is_closed = true; has_conn = false }

-- `reply` is what the connection gives back, if the frame went out.
unfoldable pub command : Controller → Verb → ℕ → Call → Option Message → Controller × Option Error
unfolding accepts
command c verb until call reply =
    if call.busy
    then (record c { has_conn = false }, some err_closed)
    else if c.is_closed
    then (c, some err_closed)
    else if not call.in_time
    then (broken c, some err_closed)
    else if leb max_sequence c.base.sequence
    then (broken c, some err_protocol)
    else elim reply [
      | none ↦ (broken c, some err_protocol)
      | some ack ↦
          if accepts (next_message c.base verb until) until call ack
          then (record c { base = next_message c.base verb until }, none)
          else (broken c, some err_protocol)
    ]

-- `GrantUntil` at that time, and `Grant` of a lease in nanoseconds.
unfoldable pub grant_until : ℕ → Controller → ℕ → Call → Option Message → Controller × Option Error
unfolding command
grant_until now c until call back =
    if ltb until (now + min_lease) || ltb (now + max_lease) until
    then (record c { has_conn = false }, some err_protocol)
    else command c say_grant until call back

unfoldable pub grant_lease :
    ℕ → ℕ → Controller → ℕ → Call → Option Message → Controller × Option Error
unfolding grant_until
grant_lease now now' c lease call back =
    if ltb lease min_lease || ltb max_lease lease || not (lease % 1_000_000 == 0)
    then (record c { has_conn = false }, some err_protocol)
    else grant_until now' c (now + lease) call back
