-- ===== src/Gate/Control/Closed.antt =====
-- What an acknowledged `closed` says of the gate.
use daxiang_vpn.Prelude.{
  ℕ, ◌<◌, ◌≡◌, refl, sym, ap, subst, ◌∙◌, not, ◌==◌, true, branch, Option, none, some, List, [],
  ◌∷◌, ◌++◌, if◌then◌else◌, arith,
}
use daxiang_vpn.Gate.State.{Gate, Error, Prefix}
use daxiang_vpn.Gate.Invalidate.{close_for}
use daxiang_vpn.Gate.Owner.{own}
use daxiang_vpn.Gate.Step.{Action, closes_for, step, run, new}
use daxiang_vpn.Gate.Handover.{IsReaped, own-IsReaped}
use daxiang_vpn.Gate.Control.Defs.{Verb, say_closed, say_ack, Message}
use daxiang_vpn.Gate.Control.Receiver.{
  Session, Round, stop, reply, fits, owned, settled, on_closed, dispatch, handle,
}

run-append : (a b : List Action) (g : Gate) → run (a ++ b) g ≡ run b (run a g)
unfolding run
run-append [] b g = refl
run-append (e ∷ a) b g = run-append a b (step e g)

run-close_for :
    (n : ℕ) (b : List Action) (g : Gate) → run (closes_for n ∷ b) g ≡ run b (close_for n g)
unfolding run step
run-close_for n b g = refl

-- Every registration that the gate ever issued is reaped.
abbrev pub AllReaped : Gate → Type 0
AllReaped g = (id : ℕ) → id < g.next_registration → IsReaped g id

own-accepted :
    (n : ℕ) (g : Gate) → (own n g).1 ≡ none → (own n g).0 ≡ record g { owner = n; expires = 0 }
unfolding own
own-accepted n g h = ground arith

own-AllReaped :
    (managed : List Prefix) (es : List Action) (n : ℕ) (g : Gate)
    → g ≡ run es (new managed)
    → (own n g).1 ≡ none
    → AllReaped (own n g).0
own-AllReaped managed es n g e h =
    let there : (own n (run es (new managed))).1 ≡ none =
      subst (λ (x : Gate). (own n x).1 ≡ none) e h in
    let reaped : (id : ℕ) → id < g.next_registration → IsReaped g id =
      subst (λ (x : Gate). (id : ℕ) → id < x.next_registration → IsReaped x id) (sym e)
        (λ id lt. own-IsReaped managed es n id there lt) in
    subst (λ (x : Gate). (id : ℕ) → id < x.next_registration → IsReaped x id)
      (sym (own-accepted n g h))
      (λ id lt.
        let p = reaped id lt in
        record { released = p.released; closed = p.closed; drained = p.drained })

abbrev Reaps : Session × Option Message → Type 0
Reaps x = (back : Message) → x.1 ≡ some back → AllReaped x.0.gate

stop-Reaps : (s : Session) → Reaps (stop s)
unfolding stop
stop-Reaps s back h = cc

reply-Reaps : (r : Round) (m : Message) (s : Session) → AllReaped s.gate → Reaps (reply r m s)
unfolding reply
reply-Reaps r m s p =
    branch Reaps r.reply_written {x = (record s { base = m }, some (record m { verb = say_ack }))}
      {y = stop s} (λ _ back h. p) (λ _. stop-Reaps s)

owned-Reaps :
    (r : Round) (m : Message) (s : Session) (x : Gate × Option Error)
    → (x.1 ≡ none → AllReaped x.0)
    → Reaps (owned r m s x)
owned-Reaps r m s (g, some e) p = stop-Reaps (record s { gate = g })
owned-Reaps r m s (g, none) p =
    reply-Reaps r m (record s { gate = g; expires = 0; closed_ack = true }) (p refl)

module _ (managed : List Prefix) (es : List Action) (r : Round) (m : Message) (s : Session)
    (reached : s.gate ≡ run es (new managed)) where
  -- The sections of the round, from the last `handle` to the return of AwaitClosed.
  abbrev sections : List Action
  sections = closes_for s.name ∷ (r.between ++ r.during)

  settled-run : settled r s ≡ run (es ++ sections) (new managed)
  settled-run =
      sym (run-append r.between r.during (close_for s.name s.gate))
      ∙ sym (run-close_for s.name (r.between ++ r.during) s.gate)
      ∙ ap (run sections) reached
      ∙ sym (run-append es sections (new managed))

  awaited-Reaps :
      (o : Option Error)
      → Reaps (elim o as (λ _. Session × Option Message) [
        | some e ↦ stop (record s { gate = settled r s })
        | none ↦ owned r m s (own s.name (settled r s))
      ])
  awaited-Reaps (some e) = stop-Reaps (record s { gate = settled r s })
  awaited-Reaps none =
      owned-Reaps r m s (own s.name (settled r s))
        (own-AllReaped managed (es ++ sections) s.name (settled r s) settled-run)

  on_closed-Reaps : Reaps (on_closed r m s)
  unfolding on_closed
  on_closed-Reaps =
      branch Reaps (not (m.until_unix_nano == 0)) {x = stop s} (λ _. stop-Reaps s)
        (λ _. awaited-Reaps _)

closed_if :
    (managed : List Prefix) (es : List Action) (v : Verb) (r : Round) (m : Message) (s : Session)
    → s.gate ≡ run es (new managed)
    → v ≡ say_closed
    → Reaps (dispatch v r m s)
closed_if managed es say_closed r m s reached c = on_closed-Reaps managed es r m s reached
closed_if managed es _ r m s reached c = cc

handle-AllReaped :
    (managed : List Prefix) (es : List Action) (r : Round) (m : Message) (s : Session)
    (back : Message)
    → s.gate ≡ run es (new managed)
    → m.verb ≡ say_closed
    → (handle r (some m) s).1 ≡ some back
    → AllReaped (handle r (some m) s).0.gate
unfolding handle
handle-AllReaped managed es r m s back reached c h0 =
    let here : Session = record s { gate = run r.before s.gate } in
    let there : run r.before s.gate ≡ run (es ++ r.before) (new managed) =
      ap (run r.before) reached ∙ sym (run-append es r.before (new managed)) in
    branch Reaps s.is_over {x = (s, none)}
      {y = if fits here r m then dispatch m.verb r m here else stop here} (λ _ b h. cc)
      (λ _.
        branch Reaps (fits here r m) {x = dispatch m.verb r m here} {y = stop here}
          (λ _. closed_if managed (es ++ r.before) m.verb r m here there c) (λ _. stop-Reaps here))
      back h0

-- When the receiver acknowledges `closed`, whatever sections other goroutines ran before and during
-- the round: every registration that the gate ever issued is released, and its write fence, if it
-- has one, is closed and completed with no operation in flight.
pub handle-IsReaped :
    (managed : List Prefix) (es : List Action) (r : Round) (m : Message) (s : Session)
    (back : Message) (id : ℕ)
    → s.gate ≡ run es (new managed)
    → m.verb ≡ say_closed
    → (handle r (some m) s).1 ≡ some back
    → id < (handle r (some m) s).0.gate.next_registration
    → IsReaped (handle r (some m) s).0.gate id
handle-IsReaped managed es r m s back id reached c h lt =
    handle-AllReaped managed es r m s back reached c h id lt
