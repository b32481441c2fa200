-- ===== src/Gate/Control/Carried.antt =====
-- What the receiver has done when it answers a frame.
use daxiang_vpn.Prelude.{
  ℕ, ◌+◌, ◌<◌, ◌≤◌, ◌≡◌, ◌⊎◌, inl, inr, [], refl, sym, ap, subst, ◌∙◌, ◌||◌, not, ◌==◌, ==→eq, true,
  false, branch, Bool-cases, Option, none, some, if◌then◌else◌, arith,
}
use daxiang_vpn.Gate.State.{Gate, Error, max_lease}
use daxiang_vpn.Gate.Owner.{own, grant}
use daxiang_vpn.Gate.Step.{run}
use daxiang_vpn.Gate.Control.Defs.{Verb, say_hello, say_closed, say_grant, say_ack, Message}
use daxiang_vpn.Gate.Control.Receiver.{
  Session, Round, stop, reply, fits, owned, settled, on_closed, granted, on_grant, dispatch, handle,
}

-- What a command leaves of the gate and the session: by `closed` the gate has ended its lease, has
-- nothing admitted and nothing to clean up, and is the session's; by `grant` the gate's lease is the
-- one named, within the longest lease from the receiver's clock, on a session that has closed before.
abbrev pub Effect : Verb → ℕ → Round → Session → Session → Type 0
Effect say_closed until r s s' =
    (until ≡ 0)
    × (s'.closed_ack ≡ true)
    × (s'.gate.owner ≡ s.name)
    × (s'.gate.expires ≡ 0)
    × (s'.gate.cleanup ≡ none)
    × (s'.gate.admissions ≡ [])
Effect say_grant until r s s' =
    (s.closed_ack ≡ true)
    × (s'.gate.owner ≡ s.name)
    × (s'.gate.expires ≡ until)
    × (s'.gate.cleanup ≡ none)
    × (r.now_grant < until)
    × (until ≤ r.now_grant + max_lease)
Effect _ until r s s' = false ≡ true

-- The receiver has carried the message out.
pub record Carried (v : Verb) (r : Round) (m : Message) (s s' : Session) : Type 0 where
  pub base : s'.base ≡ m
  pub going : s'.is_over ≡ false
  pub lease : s'.expires ≡ m.until_unix_nano
  pub effect : Effect v m.until_unix_nano r s s'

-- The frame was the next of the session, which had not ended.
pub record Fits (r : Round) (m : Message) (s : Session) : Type 0 where
  pub going : s.is_over ≡ false
  pub binding : m.binding ≡ s.base.binding
  pub session : m.session ≡ s.base.session
  pub nonce : m.nonce ≡ s.base.nonce
  pub sequence : m.sequence ≡ s.base.sequence + 1
  pub in_time : (s.expires ≡ 0) ⊎ (r.now < s.expires)
  pub namespace_valid : r.namespace_valid ≡ true

fits-Fits :
    (r : Round) (m : Message) (s : Session) → s.is_over ≡ false → fits s r m ≡ true → Fits r m s
unfolding fits
fits-Fits r m s going h = record {
  going = going;
  binding = ==→eq _ _ (ground arith);
  session = ==→eq _ _ (ground arith);
  nonce = ==→eq _ _ (ground arith);
  sequence = ==→eq _ _ (ground arith);
  in_time = elim (Bool-cases (s.expires == 0)) [
    | inl e ↦ inl (==→eq _ _ e)
    | inr e ↦ inr (ground arith)
  ];
  namespace_valid = ground arith;
}

own_inv :
    (n : ℕ) (g : Gate)
    → (own n g).1 ≡ none
    → ((own n g).0.owner ≡ n)
      × ((own n g).0.expires ≡ 0)
      × ((own n g).0.cleanup ≡ none)
      × ((own n g).0.admissions ≡ [])
unfolding own
own_inv n g h = ground arith

grant_inv :
    (now n until : ℕ) (g : Gate)
    → (grant now n until g).1 ≡ none
    → ((grant now n until g).0.owner ≡ n)
      × ((grant now n until g).0.expires ≡ until)
      × ((grant now n until g).0.cleanup ≡ none)
      × (now < until)
      × (until ≤ now + max_lease)
unfolding grant
grant_inv now n until g h = ground arith

Effect-base :
    (v : Verb) (until : ℕ) (r : Round) (s t : Session) (b : Message)
    → Effect v until r s t
    → Effect v until r s (record t { base = b })
Effect-base say_closed until r s t b e = e
Effect-base say_grant until r s t b e = e
Effect-base _ until r s t b e = cc

-- The gate before the round's first sections is not part of an effect.
Effect-here :
    (v : Verb) (until : ℕ) (r : Round) (s : Session) (t u : Session)
    → s.name ≡ t.name
    → s.closed_ack ≡ t.closed_ack
    → Effect v until r s u
    → Effect v until r t u
Effect-here say_closed until r s t u n a e = (e.0, e.1, e.2 ∙ n, e.3, e.4, e.5)
Effect-here say_grant until r s t u n a e = (sym a ∙ e.0, e.1 ∙ n, e.2, e.3, e.4, e.5)
Effect-here _ until r s t u n a e = cc

stop_silent : (s : Session) (back : Message) → (stop s).1 ≡ some back → false ≡ true
unfolding stop
stop_silent s back h = cc

abbrev Replies : Verb → Round → Message → Session → Session × Option Message → Type 0
Replies v r m s x = (back : Message) → x.1 ≡ some back → Carried v r m s x.0

stop-Replies : (v : Verb) (r : Round) (m : Message) (s t : Session) → Replies v r m s (stop t)
unfolding stop
stop-Replies v r m s t back h = cc

reply-Replies :
    (v : Verb) (r : Round) (m : Message) (s t : Session)
    → t.is_over ≡ false
    → t.expires ≡ m.until_unix_nano
    → Effect v m.until_unix_nano r s t
    → Replies v r m s (reply r m t)
unfolding reply
reply-Replies v r m s t going lease effect =
    branch (Replies v r m s) r.reply_written
      {x = (record t { base = m }, some (record m { verb = say_ack }))} {y = stop t}
      (λ _ back h. record {
        base = refl;
        going = going;
        lease = lease;
        effect = Effect-base v m.until_unix_nano r s t m effect;
      })
      (λ _. stop-Replies v r m s t)

owned-Replies :
    (r : Round) (m : Message) (s : Session) (g : Gate)
    → s.is_over ≡ false
    → m.until_unix_nano ≡ 0
    → (x : Gate × Option Error) → own s.name g ≡ x
    → Replies say_closed r m s (owned r m s x)
owned-Replies r m s g going z (g', some e) q =
    stop-Replies say_closed r m s (record s { gate = g' })
owned-Replies r m s g going z (g', none) q =
    let took = own_inv s.name g (ap (λ (x : Gate × Option Error). x.1) q) in
    let same : (own s.name g).0 ≡ g' = ap (λ (x : Gate × Option Error). x.0) q in
    let kept =
      subst
        (λ (x : Gate).
          (x.owner ≡ s.name) × (x.expires ≡ 0) × (x.cleanup ≡ none) × (x.admissions ≡ []))
        same took in
    reply-Replies say_closed r m s (record s { gate = g'; expires = 0; closed_ack = true }) going
      (sym z) (z, refl, kept.0, kept.1, kept.2, kept.3)

awaited-Replies :
    (r : Round) (m : Message) (s : Session) (o : Option Error)
    → s.is_over ≡ false
    → m.until_unix_nano ≡ 0
    → Replies say_closed r m s (elim o as (λ _. Session × Option Message) [
      | some e ↦ stop (record s { gate = settled r s })
      | none ↦ owned r m s (own s.name (settled r s))
    ])
awaited-Replies r m s (some e) going z =
    stop-Replies say_closed r m s (record s { gate = settled r s })
awaited-Replies r m s none going z = owned-Replies r m s (settled r s) going z _ refl

on_closed-Replies :
    (r : Round) (m : Message) (s : Session)
    → s.is_over ≡ false
    → Replies say_closed r m s (on_closed r m s)
unfolding on_closed
on_closed-Replies r m s going =
    branch (Replies say_closed r m s) (not (m.until_unix_nano == 0)) {x = stop s}
      (λ _. stop-Replies say_closed r m s s)
      (λ z. awaited-Replies r m s _ going (==→eq m.until_unix_nano 0 (ground arith)))

granted-Replies :
    (r : Round) (m : Message) (s : Session)
    → s.is_over ≡ false
    → s.closed_ack ≡ true
    → (x : Gate × Option Error) → grant r.now_grant s.name m.until_unix_nano s.gate ≡ x
    → Replies say_grant r m s (granted r m s x)
granted-Replies r m s going acked (g, some e) q =
    stop-Replies say_grant r m s (record s { gate = g })
granted-Replies r m s going acked (g, none) q =
    let gave =
      grant_inv r.now_grant s.name m.until_unix_nano s.gate
        (ap (λ (x : Gate × Option Error). x.1) q) in
    let same : (grant r.now_grant s.name m.until_unix_nano s.gate).0 ≡ g =
      ap (λ (x : Gate × Option Error). x.0) q in
    let kept =
      subst
        (λ (x : Gate). (x.owner ≡ s.name) × (x.expires ≡ m.until_unix_nano) × (x.cleanup ≡ none))
        same (gave.0, gave.1, gave.2) in
    reply-Replies say_grant r m s (record s { gate = g; expires = m.until_unix_nano }) going refl
      (acked, kept.0, kept.1, kept.2, gave.3, gave.4)

on_grant-Replies :
    (r : Round) (m : Message) (s : Session)
    → s.is_over ≡ false
    → Replies say_grant r m s (on_grant r m s)
unfolding on_grant
on_grant-Replies r m s going =
    branch (Replies say_grant r m s) (not s.closed_ack || m.until_unix_nano == 0) {x = stop s}
      {y = granted r m s (grant r.now_grant s.name m.until_unix_nano s.gate)}
      (λ _. stop-Replies say_grant r m s s) (λ z. granted-Replies r m s going (ground arith) _ refl)

dispatch-Replies :
    (v : Verb) (r : Round) (m : Message) (s : Session)
    → s.is_over ≡ false
    → Replies v r m s (dispatch v r m s)
dispatch-Replies say_hello r m s going = stop-Replies say_hello r m s s
dispatch-Replies say_closed r m s going = on_closed-Replies r m s going
dispatch-Replies say_grant r m s going = on_grant-Replies r m s going
dispatch-Replies say_ack r m s going = stop-Replies say_ack r m s s

-- An answer of the receiver to a frame.
abbrev pub Answers : Round → Message → Session → Session × Option Message → Type 0
Answers r m s x = (back : Message) → x.1 ≡ some back → Fits r m s × Carried m.verb r m s x.0

pub handle-Answers : (r : Round) (m : Message) (s : Session) → Answers r m s (handle r (some m) s)
unfolding handle
handle-Answers r m s =
    let here : Session = record s { gate = run r.before s.gate } in
    branch (Answers r m s) s.is_over {x = (s, none)}
      {y = if fits here r m then dispatch m.verb r m here else stop here} (λ _ back h. cc)
      (λ o.
        branch (Answers r m s) (fits here r m) {x = dispatch m.verb r m here} {y = stop here}
          (λ f back h.
            let fit = fits-Fits r m here o f in
            let did = dispatch-Replies m.verb r m here o back h in
            (
              record {
                going = o;
                binding = fit.binding;
                session = fit.session;
                nonce = fit.nonce;
                sequence = fit.sequence;
                in_time = fit.in_time;
                namespace_valid = fit.namespace_valid;
              },
              record {
                base = did.base;
                going = did.going;
                lease = did.lease;
                effect = Effect-here m.verb m.until_unix_nano r here s _ refl refl did.effect;
              },
            ))
          (λ _ back h. let silent = stop_silent here back h in cc))
