-- ===== src/Gate/Control/Lockstep.antt =====
-- What the success of a command says of both sides.
use daxiang_vpn.Prelude.{
  ℕ, ◌<◌, ◌≡◌, ◌≢◌, ◌⊎◌, inl, inr, sym, ap, subst, ◌∙◌, ==→eq, true, false, branch, Option, none,
  some, if◌then◌else◌, arith,
}
use daxiang_vpn.Gate.State.{Error}
use daxiang_vpn.Gate.Control.Defs.{
  Verb, Message, Controller, Call, is_ack, next_message, sends, accepts, command,
}
use daxiang_vpn.Gate.Control.Receiver.{Session, Round, handle}
use daxiang_vpn.Gate.Control.Carried.{Effect, Answers, handle-Answers}

-- A command over a connection: the receiver takes its frame, if it goes out, and `delivered` is what
-- the controller reads.
unfoldable pub exchange :
    Verb
    → ℕ
    → Call
    → Round
    → Controller
    → Session
    → Option Message
    → (Controller × Option Error) × Session
unfolding command handle
exchange verb until call r c s delivered =
    if sends c call
    then (
      command c verb until call delivered,
      (handle r (some (next_message c.base verb until)) s).0,
    )
    else (command c verb until call none, s)

-- A frame that is no acknowledgement of `m`: of another version, policy, session, nonce or number, or
-- of another kind.
abbrev pub Foreign : Message → Message → Type 0
Foreign m ack =
    (ack.version ≢ m.version)
    ⊎ ((ack.binding ≢ m.binding)
        ⊎ ((ack.session ≢ m.session)
            ⊎ ((ack.nonce ≢ m.nonce) ⊎ ((ack.sequence ≢ m.sequence) ⊎ (is_ack ack.verb ≡ false)))))

-- The connection gives nothing, the receiver's answer, or a foreign frame.
abbrev pub Delivers : Message → Option Message → Option Message → Type 0
Delivers m answer delivered =
    (delivered ≡ none)
    ⊎ ((delivered ≡ answer) ⊎ ((ack : Message) × (delivered ≡ some ack) × Foreign m ack))

command-none :
    (c : Controller) (verb : Verb) (until : ℕ) (call : Call)
    → (command c verb until call none).1 ≡ none
    → false ≡ true
unfolding command
command-none c verb until call h = ground arith

command-some :
    (c : Controller) (verb : Verb) (until : ℕ) (call : Call) (back : Message)
    → (command c verb until call (some back)).1 ≡ none
    → ((command c verb until call (some back)).0
        ≡ record c { base = next_message c.base verb until })
      × (accepts (next_message c.base verb until) until call back ≡ true)
unfolding command
command-some c verb until call back h = ground arith

Foreign-accepts :
    (m ack : Message) (until : ℕ) (call : Call)
    → Foreign m ack
    → accepts m until call ack ≡ true
    → false ≡ true
unfolding accepts
Foreign-accepts m ack until call (inl d) h = absurd (d (==→eq _ _ (ground arith)))
Foreign-accepts m ack until call (inr (inl d)) h = absurd (d (==→eq _ _ (ground arith)))
Foreign-accepts m ack until call (inr (inr (inl d))) h = absurd (d (==→eq _ _ (ground arith)))
Foreign-accepts m ack until call (inr (inr (inr (inl d)))) h = absurd (d (==→eq _ _ (ground arith)))
Foreign-accepts m ack until call (inr (inr (inr (inr (inl d))))) h =
    absurd (d (==→eq _ _ (ground arith)))
Foreign-accepts m ack until call (inr (inr (inr (inr (inr d))))) h = ground arith

-- What a success says of both sides.
pub record Agreed (verb : Verb) (until : ℕ) (r : Round) (c c' : Controller) (s s' : Session)
    : Type 0 where
  pub was_going : s.is_over ≡ false
  pub was_in_time : (s.expires ≡ 0) ⊎ (r.now < s.expires)
  pub same_before :
      (c.base.binding ≡ s.base.binding)
      × (c.base.session ≡ s.base.session)
      × (c.base.nonce ≡ s.base.nonce)
      × (c.base.sequence ≡ s.base.sequence)
  pub same_after : c'.base ≡ s'.base
  pub going : s'.is_over ≡ false
  pub lease : s'.expires ≡ until
  pub effect : Effect verb until r s s'

accepted-Agreed :
    (verb : Verb) (until : ℕ) (call : Call) (r : Round) (c : Controller) (s : Session)
    (x : Session × Option Message) (o : Option Message)
    → Answers r (next_message c.base verb until) s x
    → x.1 ≡ o
    → (command c verb until call o).1 ≡ none
    → Agreed verb until r c (command c verb until call o).0 s x.0
accepted-Agreed verb until call r c s x none a e h =
    let no_reply = command-none c verb until call h in cc
accepted-Agreed verb until call r c s x (some back) a e h =
    let (fit, did) = a back e in
    record {
      was_going = fit.going;
      was_in_time = fit.in_time;
      same_before = (fit.binding, fit.session, fit.nonce, omega (arith, fit.sequence));
      same_after =
          ap (λ (k : Controller). k.base) (command-some c verb until call back h).0 ∙ sym did.base;
      going = did.going;
      lease = did.lease;
      effect = did.effect;
    }

delivered-Agreed :
    (verb : Verb) (until : ℕ) (call : Call) (r : Round) (c : Controller) (s : Session)
    (x : Session × Option Message) (o : Option Message)
    → Answers r (next_message c.base verb until) s x
    → Delivers (next_message c.base verb until) x.1 o
    → (command c verb until call o).1 ≡ none
    → Agreed verb until r c (command c verb until call o).0 s x.0
delivered-Agreed verb until call r c s x none a d h =
    let no_reply = command-none c verb until call h in cc
delivered-Agreed verb until call r c s x (some back) a (inl e) h = cc
delivered-Agreed verb until call r c s x (some back) a (inr (inl e)) h =
    accepted-Agreed verb until call r c s x (some back) a (sym e) h
delivered-Agreed verb until call r c s x (some back) a (inr (inr (ack, e, foreign))) h =
    let taken = (command-some c verb until call back h).1 in
    let it : back ≡ ack = cc in
    let wrong = Foreign-accepts (next_message c.base verb until) ack until call foreign (
      subst (λ (k : Message). accepts (next_message c.base verb until) until call k ≡ true) it
        taken) in
    cc

-- When a command succeeds, over a connection that delivers what is written one way, and the other way
-- the answer, nothing, or a frame that differs in version, policy, session, nonce or number or is no
-- acknowledgement: before it both sides had the same policy, session, nonce and number, and the
-- receiver's session was going on within its lease; after it both have the same last message, the
-- session goes on, and its lease is the one that the command named. After `closed` the gate is the
-- session's, with no lease, no admission and nothing to clean up; after `grant`, on a session that had
-- acknowledged a `closed`, the gate's lease is the one named, ahead of the receiver's clock by at most
-- the longest lease.
pub exchange-agrees :
    (verb : Verb) (until : ℕ) (call : Call) (r : Round) (c : Controller) (s : Session)
    (delivered : Option Message)
    → Delivers
        (next_message c.base verb until)
        (handle r (some (next_message c.base verb until)) s).1
        delivered
    → (exchange verb until call r c s delivered).0.1 ≡ none
    → Agreed verb until r c
        (exchange verb until call r c s delivered).0.0
        s
        (exchange verb until call r c s delivered).1
unfolding exchange
exchange-agrees verb until call r c s delivered d h0 =
    branch
      (λ (x : (Controller × Option Error) × Session).
        x.0.1 ≡ none → Agreed verb until r c x.0.0 s x.1)
      (sends c call)
      {x = (
        command c verb until call delivered,
        (handle r (some (next_message c.base verb until)) s).0,
      )}
      {y = (command c verb until call none, s)}
      (λ _.
        delivered-Agreed verb until call r c s (handle r (some (next_message c.base verb until)) s)
          delivered (handle-Answers r (next_message c.base verb until) s) d)
      (λ _ h. let no_reply = command-none c verb until call h in cc) h0
