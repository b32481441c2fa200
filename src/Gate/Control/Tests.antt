-- ===== src/Gate/Control/Tests.antt =====
-- One exchange of `closed`, after a session with traffic, and the theorems at it.
use daxiang_vpn.Prelude.{◌≡◌, refl, sym, inl, inr, Option, true, false, none, some, [], arith}
use daxiang_vpn.Gate.Invalidate.{close_for, collect}
use daxiang_vpn.Gate.Admit.{acquire_source, any_contains}
use daxiang_vpn.Gate.Owner.{own, grant, await_begin, await_end, await_closed}
use daxiang_vpn.Gate.Fence.{begin}
use daxiang_vpn.Gate.Step.{step, run, new}
use daxiang_vpn.Gate.Tests.{sources, session}
use daxiang_vpn.Gate.Handover.{IsReaped}
use daxiang_vpn.Gate.Control.Defs.{
  say_hello, say_closed, say_ack, Message, Controller, Call, next_message, accepts, command,
}
use daxiang_vpn.Gate.Control.Receiver.{
  Session, Round, stop, reply, fits, on_closed, on_grant, handle,
}
use daxiang_vpn.Gate.Control.Closed.{handle-IsReaped}
use daxiang_vpn.Gate.Control.Lockstep.{Agreed, exchange, exchange-agrees}

abbrev hello : Message
hello = record {
  version = 1;
  binding = 5;
  session = 1;
  nonce = 6;
  sequence = 0;
  verb = say_hello;
  until_unix_nano = 0;
}

abbrev controller : Controller
controller = record { base = hello; is_closed = false; has_conn = true }

abbrev receiver : Session
receiver = record {
  gate = new sources;
  name = 1;
  base = hello;
  expires = 0;
  closed_ack = false;
  is_over = false;
}

-- The actions of a whole session with traffic come before the round.
abbrev round : Round
round = record {
  ended = false;
  namespace_valid = true;
  now = 3000;
  before = session;
  between = [];
  now_await = 3001;
  during = [];
  completes = true;
  now_done = 3002;
  now_grant = 3003;
  reply_written = true;
}

abbrev call : Call
call = record { busy = false; in_time = true; written = true; ended = false; now = 3004 }

program : Unit {0}
unfolding exchange command accepts handle fits on_closed on_grant reply stop run step new own grant
    close_for collect await_begin await_end await_closed begin any_contains acquire_source
program = tt

-- The answer of the receiver to `closed`.
abbrev answer : Option Message
answer = some (record (next_message hello say_closed 0) { verb = say_ack })

answer_example : (handle round (some (next_message hello say_closed 0)) receiver).1 ≡ answer
unfolding program
answer_example = refl

exchange_example : (exchange say_closed 0 call round controller receiver answer).0.1 ≡ none
unfolding program
exchange_example = refl

exchange-agrees_example :
    Agreed say_closed 0 round controller
      (exchange say_closed 0 call round controller receiver answer).0.0
      receiver
      (exchange say_closed 0 call round controller receiver answer).1
exchange-agrees_example =
    exchange-agrees say_closed 0 call round controller receiver answer
      (inr (inl (sym answer_example))) exchange_example

handle-IsReaped_example :
    IsReaped (handle round (some (next_message hello say_closed 0)) receiver).0.gate 1
unfolding program
handle-IsReaped_example =
    handle-IsReaped sources [] round (next_message hello say_closed 0) receiver
      (record (next_message hello say_closed 0) { verb = say_ack }) 1 refl refl refl (omega arith)
