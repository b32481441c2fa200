-- ===== src/HttpAdmission/Settings.antt =====
-- No request and no end of a lease changes the configuration.
use daxiang_vpn.Prelude.{
  ℕ, ◌≡◌, ◌∙◌, refl, not, ltb, leb, if◌then◌else◌, Bool, Option, none, some, List, [], ◌∷◌, length,
  arith, branch,
}
use daxiang_vpn.HttpAdmission.Tokens.{refill, retry}
use daxiang_vpn.HttpAdmission.Defs.{
  Config, Admission, Outcome, Context, find, refilled, sweep, charge, reserve, acquire_known,
  add_source, make_room, acquire_new, dispatch, acquire_locked, acquire, release, fresh,
}
use daxiang_vpn.HttpAdmission.World.{World, Event, request, finish, has_lease, step, run}

abbrev Keeps : Admission → Admission × Outcome → Type 0
Keeps a z = z.0.config ≡ a.config

config-make_room : (now : ℕ) (a : Admission) → (make_room now a).config ≡ a.config
unfolding make_room sweep
config-make_room now a = ground arith

module _ (a : Admission) (now name : ℕ) (late : Bool) where
  config-acquire_known : (slot : ℕ) → Keeps a (acquire_known late now slot a)
  unfolding acquire_known reserve charge
  config-acquire_known slot =
      let s = refilled a.config now (a.bucket slot) in
      let wait = retry a.config.global a.global in
      let mine = retry a.config.per_source s.rate in
      branch (Keeps a) (leb a.config.max_concurrent_per_source (a.bucket slot).active) (λ _. refl)
        λ _.
          branch (Keeps a) (ltb 0 (if ltb wait mine then mine else wait)) (λ _. refl)
            (λ _. branch (Keeps a) late (λ _. refl) (λ _. refl))

  config-acquire_new : Keeps a (acquire_new late now name a)
  unfolding acquire_new reserve charge add_source
  config-acquire_new =
      let wait = retry a.config.global a.global in
      branch (Keeps a) (ltb 0 wait) (λ _. refl)
        λ _.
          branch (Keeps a) (leb a.config.max_sources (length (make_room now a).sources))
            (λ _. config-make_room now a)
            (λ _. branch (Keeps a) late (λ _. config-make_room now a) (λ _. config-make_room now a))

  config-dispatch : (o : Option ℕ) → Keeps a (dispatch late now name a o)
  config-dispatch none = config-acquire_new
  config-dispatch (some slot) = config-acquire_known slot

config-acquire_locked :
    (a : Admission) (now name : ℕ) (late : Bool) → Keeps a (acquire_locked late now name a)
unfolding acquire_locked
config-acquire_locked a now name late =
    let b = record a { global = refill now a.config.global a.global } in
    branch (Keeps a) (leb a.config.max_concurrent a.active) (λ _. refl)
      (λ _. config-dispatch b now name late (find name a.sources))

config-acquire :
    (canonical : ℕ → Bool) (ctx : Context) (a : Admission) (now name : ℕ)
    → Keeps a (acquire canonical ctx now name a)
unfolding acquire
config-acquire canonical ctx a now name =
    branch (Keeps a) ctx.at_entry (λ _. refl)
      λ _.
        branch (Keeps a) (not (canonical name)) (λ _. refl)
          λ _.
            branch (Keeps a) ctx.at_lock (λ _. refl)
              (λ _. config-acquire_locked a now name ctx.at_reservation)

module _ (canonical : ℕ → Bool) where
  config-step : (e : Event) (w : World) → (step canonical e w).adm.config ≡ w.adm.config
  unfolding step release
  config-step (request ctx now name) w = config-acquire canonical ctx w.adm now name
  config-step (finish e) w =
      branch (λ (x : World). x.adm.config ≡ w.adm.config) (has_lease e w.held) (λ _. refl)
        (λ _. refl)

  config-run : (es : List Event) (w : World) → (run canonical es w).adm.config ≡ w.adm.config
  unfolding run
  config-run [] w = refl
  config-run (e ∷ es) w = config-run es (step canonical e w) ∙ config-step e w

  pub config-run-fresh :
      (c : Config) (start : ℕ) (es : List Event)
      → (run canonical es (record { adm = fresh c start; held = [] })).adm.config ≡ c
  config-run-fresh c start es = config-run es (record { adm = fresh c start; held = [] })
