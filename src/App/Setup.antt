-- ===== src/App/Setup.antt =====
-- setup of internal/app/app.go. `closers` are what its `close` closes, in that order, and `checks`
-- what its `ready` asks.
use pulse_data.Prelude.{
  ltb, if◌then◌else◌, not, Option, none, some, List, [], ◌∷◌, ◌++◌, is_empty, String,
}
use pulse_data.Prelude.Text.{codes}
use pulse_data.Prelude.History.{Run, pure, call, ◌>>=◌, ◌>>◌}
use pulse_data.Errors.{Error, plain, Result, ok, err, in_context}
use pulse_data.Platform.Config.{Config}
use pulse_data.App.{
  Resource, postgres, producer, redis, click_house, Call, pinged, Env, open_with, close,
}

-- Which of its kinds each dependency is: a store of tenants with or without a cache in front.
pub data StoreKind : Type 0 where
  no_store cached_postgres plain_postgres memory_store : StoreKind

pub data Kind : Type 0 where
  absent remote in_memory : Kind

pub record Dependencies : Type 0 where
  pub store : StoreKind
  pub publisher : Kind
  pub limiter : Kind
  pub analytics : Kind
  pub closers : List Resource
  pub checks : List Resource

abbrev pub nothing : Dependencies
nothing = record {
  store = no_store;
  publisher = absent;
  limiter = absent;
  analytics = absent;
  closers = [];
  checks = [];
}

-- One more resource that is closed first and checked last.
abbrev pub add : Resource → Dependencies → Dependencies
add r d = record d { closers = r ∷ d.closers; checks = d.checks ++ (r ∷ []) }

-- d.close()
unfoldable pub close_all : List Resource → Run Call (Unit {0})
close_all [] = pure tt
close_all (r ∷ rs) = close r >> close_all rs

-- A return with an error after d.close().
abbrev pub give_up : Dependencies → Error → Run Call (Result Dependencies)
give_up d e = close_all d.closers >> pure (err e)

abbrev pub required : String → Error
required name =
    plain (codes name ++ codes " is required; set PULSE_LOCAL_FALLBACK=true only for local tests")

-- The next part of setup, unless a part has failed.
abbrev pub and_then :
    (Dependencies → Run Call (Result Dependencies))
    → Result Dependencies
    → Run Call (Result Dependencies)
and_then next (err e) = pure (err e)
and_then next (ok d) = next d

module _ (env : Env) (cfg : Config) where
  -- auth.NewCachedStore
  abbrev pub store_kind : StoreKind
  store_kind = if ltb 0 cfg.auth_cache_ttl then cached_postgres else plain_postgres

  abbrev pub after_postgres : Dependencies → Option Error → Run Call (Result Dependencies)
  after_postgres d (some e) = pure (err (in_context (codes "postgres") e))
  after_postgres d none = pure (ok (add postgres (record d { store = store_kind })))

  unfoldable pub setup_store : Dependencies → Run Call (Result Dependencies)
  setup_store d =
      if not (is_empty cfg.postgres_dsn)
      then open_with (env.open_resource postgres) postgres >>= after_postgres d
      else if cfg.local_fallback
      then pure (ok (record d { store = memory_store }))
      else pure (err (required "PULSE_POSTGRES_DSN"))

  -- kafka.NewProducer connects to nothing.
  abbrev pub open_producer : Dependencies → Run Call (Result Dependencies)
  open_producer d = open_with (λ _. none) producer >>= λ _.
      pure (ok (add producer (record d { publisher = remote })))

  unfoldable pub setup_publisher : Dependencies → Run Call (Result Dependencies)
  unfolding close_all
  setup_publisher d =
      if not (is_empty cfg.kafka_brokers)
      then open_producer d
      else if cfg.local_fallback
      then pure (ok (record d { publisher = in_memory }))
      else give_up d (required "PULSE_KAFKA_BROKERS")

  abbrev pub after_ping : Dependencies → Option Error → Run Call (Result Dependencies)
  after_ping d (some e) = give_up d (in_context (codes "redis") e)
  after_ping d none = pure (ok (add redis (record d { limiter = remote })))

  -- redis.NewClient connects to nothing; the first Ping does.
  abbrev pub after_parse : Dependencies → Option Error → Run Call (Result Dependencies)
  after_parse d (some e) = give_up d e
  after_parse d none =
      open_with (λ _. none) redis >>= λ _. call env.ping_redis pinged >>= after_ping d

  unfoldable pub setup_limiter : Dependencies → Run Call (Result Dependencies)
  unfolding close_all
  setup_limiter d =
      if not (is_empty cfg.redis_url)
      then after_parse d (env.parse_redis_url cfg.redis_url)
      else if cfg.local_fallback
      then pure (ok (record d { limiter = in_memory }))
      else give_up d (required "PULSE_REDIS_URL")

  abbrev pub after_click_house : Dependencies → Option Error → Run Call (Result Dependencies)
  after_click_house d (some e) = give_up d e
  after_click_house d none = pure (ok (add click_house (record d { analytics = remote })))

  unfoldable pub setup_analytics : Dependencies → Run Call (Result Dependencies)
  unfolding close_all
  setup_analytics d =
      if not (is_empty cfg.click_house_addr)
      then open_with (env.open_resource click_house) click_house >>= after_click_house d
      else pure (ok d)

  unfoldable pub setup : Run Call (Result Dependencies)
  unfolding setup_store setup_publisher setup_limiter setup_analytics
  setup =
      setup_store nothing
      >>= and_then setup_publisher
      >>= and_then setup_limiter
      >>= and_then setup_analytics
