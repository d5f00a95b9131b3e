-- ===== src/App/Closing/Runs.antt =====
-- RunHTTP and RunWorker of internal/app/app.go, at their return.
use native.Mathlib.Omega.{arith}
use pulse_data.Prelude.{
  Bool-cases, inl, inr, ◌⊎◌, ◌&&◌, ◌||◌, ◌≡◌, refl, Bool, true, false, Option, none, some, List, [],
  ◌∷◌, String,
}
use pulse_data.Prelude.Text.{Text}
use pulse_data.Prelude.History.{Run, ◌>>=◌}
use pulse_data.Errors.{Error}
use pulse_data.Platform.Config.{Config}
use pulse_data.App.{
  Resource, tracing, postgres, redis, click_house, consumer, metrics_server, Call, opened, closed,
  consumed, Env,
}
use pulse_data.App.Setup.{setup}
use pulse_data.App.Services.{
  traced, shutdown_tracing, run_http, after_run, takes_batches, after_store, run_worker,
  run_service, with_store, run_consumer, after_setup,
}
use pulse_data.App.Closing.{is_resource, is_open, has_failed_ping, setup-Held, after_setup-Left}

module _ (r : Resource) (left : List Call → Bool)
    (same : (h : List Call) → left (closed tracing ∷ h) ≡ left h) where
  shutdown_tracing-Left :
      (t : Option Error) (h : List Call)
      → (is_open r h ≡ true → (is_open r (opened tracing t ∷ []) || left h) ≡ true)
      → is_open r (shutdown_tracing t h).1 ≡ true
      → left (shutdown_tracing t h).1 ≡ true
  unfolding is_open
  shutdown_tracing-Left none h kept is_left = let after = same h in ground arith
  shutdown_tracing-Left (some e) h kept is_left = ground arith

  -- With the tracing around it, `body` leaves open what it may leave itself, which is `left`.
  traced-Left :
      (env : Env) (body : Run Call (Option Error))
      → ((h : List Call) → is_open r (body h).1 ≡ true → (is_open r h || left (body h).1) ≡ true)
      → is_open r (traced env body []).1 ≡ true
      → left (traced env body []).1 ≡ true
  traced-Left env body keeps is_left =
      let t = env.open_resource tracing [] in
      let h = opened tracing t ∷ [] in shutdown_tracing-Left t (body h).1 (keeps h) is_left

module _ (r : Resource) (env : Env) (cfg : Config) where
  run_http-Left :
      is_open r (run_http env cfg []).1 ≡ true
      → (is_resource r redis && has_failed_ping (run_http env cfg []).1) ≡ true
  unfolding run_http has_failed_ping
  run_http-Left is_left =
      traced-Left r (λ h. is_resource r redis && has_failed_ping h) (λ h. refl) env
        (setup env cfg >>= after_setup env cfg)
        (λ h. after_setup-Left r h env cfg (setup env cfg h) (setup-Held r h env cfg h refl))
        is_left

  run_http-either :
      is_open r (run_http env cfg []).1 ≡ false
      ⊎ (is_resource r redis && has_failed_ping (run_http env cfg []).1) ≡ true
  run_http-either = elim (Bool-cases (is_open r (run_http env cfg []).1)) [
    | inl e ↦ inr (run_http-Left e)
    | inr e ↦ inl e
  ]

  after_run_open :
      (e : Option Error) (h : List Call) → is_open r (after_run env cfg e h).1 ≡ is_open r h
  unfolding is_open
  after_run_open none h = refl
  after_run_open (some e) h = refl

  run_consumer-IsClosed :
      (h : List Call) → is_open r (run_consumer env cfg h).1 ≡ true → is_open r h ≡ true
  unfolding run_consumer is_open
  run_consumer-IsClosed h is_left =
      let h1 = opened metrics_server none ∷ opened consumer none ∷ h in
      let e = env.consume h1 in
      let same = after_run_open e (consumed (takes_batches env cfg) e ∷ h1) in ground arith

  after_store-IsClosed :
      (store : Resource) (e : Option Error) (h : List Call)
      → is_open r (after_store env cfg store e (opened store e ∷ h)).1 ≡ true
      → is_open r h ≡ true
  unfolding is_open
  after_store-IsClosed store (some e) h is_left = is_left
  after_store-IsClosed store none h is_left =
      let kept = run_consumer-IsClosed (opened store none ∷ h) in ground arith

  with_store-IsClosed :
      (store : Resource) (address : Text) (name : String) (h : List Call)
      → is_open r (with_store env cfg store address name h).1 ≡ true
      → is_open r h ≡ true
  unfolding with_store
  with_store-IsClosed store address name h is_left =
      let kept = after_store-IsClosed store (env.open_resource store h) h in ground arith

  run_service-IsClosed :
      (service : Text) (h : List Call)
      → is_open r (run_service env cfg service h).1 ≡ true
      → (is_open r h || false) ≡ true
  unfolding run_service
  run_service-IsClosed service h is_left =
      let persistence = with_store-IsClosed postgres cfg.postgres_dsn "PULSE_POSTGRES_DSN" h in
      let analytics =
        with_store-IsClosed click_house cfg.click_house_addr "PULSE_CLICKHOUSE_ADDR" h in
      ground arith

  run_worker-IsClosed : (service : Text) → is_open r (run_worker env cfg service []).1 ≡ false
  unfolding run_worker is_open
  run_worker-IsClosed service =
      let kept =
        traced-Left r (λ _. false) (λ _. refl) env (run_service env cfg service)
          (run_service-IsClosed service) in
      ground arith

  -- Started with no call made, RunHTTP returns with every resource it opened closed, but for the
  -- client of Redis when a ping of it in `setup` has failed; RunWorker returns with all of them
  -- closed. Either holds for every configuration and every answer of what they call.
  pub runs-CloseResources :
      (service : Text)
      → (is_open r (run_http env cfg []).1 ≡ false
          ⊎ (is_resource r redis && has_failed_ping (run_http env cfg []).1) ≡ true)
        × is_open r (run_worker env cfg service []).1 ≡ false
  runs-CloseResources service = (run_http-either, run_worker-IsClosed service)
