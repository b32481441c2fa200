-- ===== src/Gate/Control/Receiver.antt =====
-- shared/proxygate/control.go: ControlServer.session, its start and the rounds of its loop.
use daxiang_vpn.Prelude.{
  ℕ, ◌+◌, ◌&&◌, ◌||◌, not, ltb, leb, ◌==◌, Bool, true, false, Option, none, some, List,
  if◌then◌else◌,
}
use daxiang_vpn.Gate.State.{Gate, Error}
use daxiang_vpn.Gate.Invalidate.{close_for}
use daxiang_vpn.Gate.Owner.{own, grant, await_closed}
use daxiang_vpn.Gate.Step.{Action, run}
use daxiang_vpn.Gate.Control.Defs.{
  Verb, say_hello, say_closed, say_grant, say_ack, Message, max_sequence,
}

-- The receiver's side: `is_over` once the session has returned.
pub record Session : Type 0 where
  pub gate : Gate
  pub name : ℕ
  pub base : Message
  pub expires : ℕ
  pub closed_ack : Bool
  pub is_over : Bool

-- What the loop finds in one round: the sections of other goroutines that run before it, between
-- closeFor and AwaitClosed, and while it waits in AwaitClosed, and the clock at each read of it.
pub record Round : Type 0 where
  pub ended : Bool
  pub namespace_valid : Bool
  pub now : ℕ
  pub before : List Action
  pub between : List Action
  pub now_await : ℕ
  pub during : List Action
  pub completes : Bool
  pub now_done : ℕ
  pub now_grant : ℕ
  pub reply_written : Bool

-- The return of the session, with its deferred closeFor.
unfoldable pub stop : Session → Session × Option Message
unfolding close_for
stop s = (record s { gate = close_for s.name s.gate; is_over = true }, none)

unfoldable pub reply : Round → Message → Session → Session × Option Message
unfolding stop
reply r m s =
    if r.reply_written then (record s { base = m }, some (record m { verb = say_ack })) else stop s

unfoldable pub fits : Session → Round → Message → Bool
fits s r m =
    not r.ended
    && (s.expires == 0 || ltb r.now s.expires)
    && r.namespace_valid
    && m.binding == s.base.binding
    && m.session == s.base.session
    && m.nonce == s.base.nonce
    && m.sequence == s.base.sequence + 1
    && leb m.sequence max_sequence

abbrev pub owned : Round → Message → Session → Gate × Option Error → Session × Option Message
owned r m s (g, some e) = stop (record s { gate = g })
owned r m s (g, none) = reply r m (record s { gate = g; expires = 0; closed_ack = true })

-- The gate that AwaitClosed finds, and the gate after the sections that run until it has returned.
abbrev pub closing : Round → Session → Gate
closing r s = run r.between (close_for s.name s.gate)

abbrev pub settled : Round → Session → Gate
settled r s = run r.during (closing r s)

unfoldable pub on_closed : Round → Message → Session → Session × Option Message
unfolding close_for await_closed own stop reply run
on_closed r m s =
    if not (m.until_unix_nano == 0)
    then stop s
    else elim (await_closed r.now_await (closing r s) r.now_done
        (if r.completes then some (settled r s) else none)) [
          | some e ↦ stop (record s { gate = settled r s })
          | none ↦ owned r m s (own s.name (settled r s))
        ]

abbrev pub granted : Round → Message → Session → Gate × Option Error → Session × Option Message
granted r m s (g, some e) = stop (record s { gate = g })
granted r m s (g, none) = reply r m (record s { gate = g; expires = m.until_unix_nano })

unfoldable pub on_grant : Round → Message → Session → Session × Option Message
unfolding grant stop reply
on_grant r m s =
    if not s.closed_ack || m.until_unix_nano == 0
    then stop s
    else granted r m s (grant r.now_grant s.name m.until_unix_nano s.gate)

abbrev pub dispatch : Verb → Round → Message → Session → Session × Option Message
dispatch say_closed r m s = on_closed r m s
dispatch say_grant r m s = on_grant r m s
dispatch _ r m s = stop s

-- One round of the loop; `none` is a read that failed.
unfoldable pub handle : Round → Option Message → Session → Session × Option Message
unfolding fits stop on_closed on_grant run
handle r arrived s =
    let here = record s { gate = run r.before s.gate } in
    if s.is_over then (s, none) else elim arrived [
      | none ↦ stop here
      | some m ↦ if fits here r m then dispatch m.verb r m here else stop here
    ]

abbrev pub opened : Bool → Message → Gate × Option Error → Session × Option Message
opened written hello (g, some e) = (
  record {
    gate = g;
    name = hello.session;
    base = hello;
    expires = 0;
    closed_ack = false;
    is_over = true;
  },
  none,
)
opened written hello (g, none) =
    let s : Session = record {
      gate = g;
      name = hello.session;
      base = hello;
      expires = 0;
      closed_ack = false;
      is_over = false;
    } in
    if written then (s, some hello) else stop s

-- The start of a session: it owns the gate and says hello.
unfoldable pub open_session : ℕ → ℕ → ℕ → ℕ → Bool → Gate → Session × Option Message
unfolding own stop
open_session version binding name nonce written g =
    opened written
      (record {
        version = version;
        binding = binding;
        session = name;
        nonce = nonce;
        sequence = 0;
        verb = say_hello;
        until_unix_nano = 0;
      })
      (own name g)
