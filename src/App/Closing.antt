-- ===== src/App/Closing.antt =====
-- What RunHTTP and RunWorker of internal/app/app.go leave open: `is_open` reads it from the calls.
pub mod Runs
use native.Mathlib.Omega.{arith}
use pulse_data.Prelude.{
  ℕ, ◌==◌, if◌then◌else◌, ◌&&◌, ◌||◌, ◌≡◌, refl, not, Bool, true, false, Option, none, some, List,
  [], ◌∷◌, is_empty, String,
}
use pulse_data.Prelude.Text.{Text}
use pulse_data.Prelude.History.{Run, ◌>>=◌}
use pulse_data.Errors.{Error, Result, ok, err}
use pulse_data.Platform.Config.{Config}
use pulse_data.App.{
  Resource, tracing, postgres, producer, redis, click_house, consumer, metrics_server, Call, opened,
  pinged, closed, served, consumed, Env, open_with, close,
}
use pulse_data.App.Setup.{
  Dependencies, add, nothing, close_all, give_up, required, after_ping, after_parse,
  after_click_house, setup_store, setup_publisher, setup_limiter, setup_analytics, setup, and_then,
}
use pulse_data.App.Services.{
  traced, shutdown_tracing, run_http, after_run, takes_batches, after_store, run_worker,
  run_service, with_store, run_consumer, after_setup,
}

abbrev pub index : Resource → ℕ
index tracing = 0
index postgres = 1
index producer = 2
index redis = 3
index click_house = 4
index consumer = 5
index metrics_server = 6

abbrev pub is_resource : Resource → Resource → Bool
is_resource r s = index r == index s

-- A resource that is opened, and not closed after that.
unfoldable pub is_open : Resource → List Call → Bool
is_open r [] = false
is_open r (opened s none ∷ h) = let rest = is_open r h in is_resource r s || rest
is_open r (closed s ∷ h) = let rest = is_open r h in not (is_resource r s) && rest
is_open r (_ ∷ h) = is_open r h

-- A ping of Redis that has failed.
unfoldable pub has_failed_ping : List Call → Bool
has_failed_ping [] = false
has_failed_ping (pinged (some e) ∷ h) = true
has_failed_ping (_ ∷ h) = has_failed_ping h

unfoldable pub holds : Resource → List Resource → Bool
holds r [] = false
holds r (s ∷ rs) = let rest = holds r rs in is_resource r s || rest

pub is_open-close_all :
    (r : Resource) (rs : List Resource) (h : List Call)
    → is_open r (close_all rs h).1 ≡ (is_open r h && not (holds r rs))
unfolding is_open close_all holds
is_open-close_all r [] h = ground arith
is_open-close_all r (s ∷ rs) h = let ih = is_open-close_all r rs (closed s ∷ h) in ground arith

pub has_failed_ping-close_all :
    (rs : List Resource) (h : List Call) → has_failed_ping (close_all rs h).1 ≡ has_failed_ping h
unfolding has_failed_ping close_all
has_failed_ping-close_all [] h = refl
has_failed_ping-close_all (s ∷ rs) h = has_failed_ping-close_all rs (closed s ∷ h)

module _ (r : Resource) (base : List Call) where
  -- What setup has open beyond what was open before it.
  unfoldable pub Held : Result Dependencies × List Call → Type 0
  Held (ok d, h) = is_open r h ≡ true → (holds r d.closers || is_open r base) ≡ true
  Held (err e, h) =
      is_open r h ≡ true → (is_open r base || (is_resource r redis && has_failed_ping h)) ≡ true

  give_up-Held :
      (d : Dependencies) (e : Error) (h : List Call) → Held (ok d, h) → Held (give_up d e h)
  unfolding Held
  give_up-Held d e h held = let closed_all = is_open-close_all r d.closers h in ground arith

  module _ (env : Env) (cfg : Config) where
    setup_store-Held :
        (h : List Call) → (is_open r h ≡ is_open r base) → Held (setup_store env cfg nothing h)
    unfolding Held setup_store is_open holds
    setup_store-Held h same = ground arith

    setup_publisher-Held :
        (d : Dependencies) (h : List Call) → Held (ok d, h) → Held (setup_publisher env cfg d h)
    unfolding Held setup_publisher is_open holds
    setup_publisher-Held d h held =
        let gone = give_up-Held d (required "PULSE_KAFKA_BROKERS") h held in ground arith

    after_ping-Held :
        (d : Dependencies) (e : Option Error) (h : List Call)
        → Held (ok d, h)
        → Held (after_ping env cfg d e (pinged e ∷ opened redis none ∷ h))
    unfolding Held is_open has_failed_ping holds
    after_ping-Held d none h held = ground arith
    after_ping-Held d (some e) h held =
        let h' = pinged (some e) ∷ opened redis none ∷ h in
        let gone = is_open-close_all r d.closers h' in
        let failed = has_failed_ping-close_all d.closers h' in ground arith

    after_parse-Held :
        (d : Dependencies) (e : Option Error) (h : List Call)
        → Held (ok d, h)
        → Held (after_parse env cfg d e h)
    unfolding Held is_open holds
    after_parse-Held d none h held =
        after_ping-Held d (env.ping_redis (opened redis none ∷ h)) h held
    after_parse-Held d (some e) h held = give_up-Held d e h held

    setup_limiter-Held :
        (d : Dependencies) (h : List Call) → Held (ok d, h) → Held (setup_limiter env cfg d h)
    unfolding Held setup_limiter
    setup_limiter-Held d h held =
        let parsed = after_parse-Held d (env.parse_redis_url cfg.redis_url) h held in
        let gone = give_up-Held d (required "PULSE_REDIS_URL") h held in ground arith

    after_click_house-Held :
        (d : Dependencies) (e : Option Error) (h : List Call)
        → Held (ok d, h)
        → Held (after_click_house env cfg d e (opened click_house e ∷ h))
    unfolding Held is_open holds
    after_click_house-Held d none h held = ground arith
    after_click_house-Held d (some e) h held =
        give_up-Held d e (opened click_house (some e) ∷ h) held

    setup_analytics-Held :
        (d : Dependencies) (h : List Call) → Held (ok d, h) → Held (setup_analytics env cfg d h)
    unfolding Held setup_analytics
    setup_analytics-Held d h held =
        let added = after_click_house-Held d (env.open_resource click_house h) h held in
        ground arith

    and_then-Held :
        (next : Dependencies → Run Call (Result Dependencies))
        → ((d : Dependencies) (h : List Call) → Held (ok d, h) → Held (next d h))
        → (x : Result Dependencies × List Call) → Held x
        → Held (and_then next x.0 x.1)
    unfolding Held
    and_then-Held next keeps (ok d, h) held = keeps d h held
    and_then-Held next keeps (err e, h) held = held

    pub setup-Held : (h : List Call) → (is_open r h ≡ is_open r base) → Held (setup env cfg h)
    unfolding setup
    setup-Held h same = and_then-Held (setup_analytics env cfg) setup_analytics-Held _ (
        and_then-Held (setup_limiter env cfg) setup_limiter-Held _ (
          and_then-Held (setup_publisher env cfg) setup_publisher-Held _ (setup_store-Held h same)))

    pub after_setup-Left :
        (x : Result Dependencies × List Call)
        → Held x
        → is_open r (after_setup env cfg x.0 x.1).1 ≡ true
        → (is_open r base
            || (is_resource r redis && has_failed_ping (after_setup env cfg x.0 x.1).1))
          ≡ true
    unfolding Held is_open has_failed_ping
    after_setup-Left (err e, h) held = held
    after_setup-Left (ok d, h) held =
        let h' = served (env.serve h) ∷ h in
        let gone = is_open-close_all r d.closers h' in
        let failed = has_failed_ping-close_all d.closers h' in ground arith
