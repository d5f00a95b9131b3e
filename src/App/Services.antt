-- ===== src/App/Services.antt =====
-- RunHTTP and RunWorker of internal/app/app.go.
use pulse_data.Prelude.{
  ltb, if◌then◌else◌, ◌||◌, not, Bool, true, false, Option, none, some, ◌++◌, is_empty, String,
}
use pulse_data.Prelude.Text.{Text, codes}
use pulse_data.Prelude.History.{Run, pure, call, ◌>>=◌, ◌>>◌}
use pulse_data.Errors.{Error, plain, Result, ok, err, in_context}
use pulse_data.Auth.Tenants.{is_same}
use pulse_data.Platform.Config.{Config}
use pulse_data.Api.{Handler}
use pulse_data.App.{
  Resource, tracing, postgres, click_house, consumer, metrics_server, Call, served, consumed,
  probed, Env, open_with, close,
}
use pulse_data.App.Setup.{
  StoreKind, cached_postgres, plain_postgres, Kind, absent, Dependencies, close_all, setup,
}

abbrev pub has_postgres : StoreKind → Bool
has_postgres cached_postgres = true
has_postgres plain_postgres = true
has_postgres _ = false

abbrev pub is_present : Kind → Bool
is_present absent = false
is_present _ = true

abbrev pub durability : Config → Text
durability cfg =
    if not (is_empty cfg.kafka_brokers) then codes "kafka-ack" else codes "local-memory-test-only"

-- The handler that RunHTTP serves.
unfoldable pub handler_of : Config → Dependencies → Handler
handler_of cfg d = record {
  has_limiter = is_present d.limiter;
  has_analytics = is_present d.analytics;
  has_webhooks = has_postgres d.store || cfg.local_fallback;
  has_ready_check = true;
  max_payload = cfg.max_payload_bytes;
  max_batch_bytes = cfg.max_batch_bytes;
  max_batch_events = cfg.max_batch_events;
  durability = durability cfg;
  admin_token = cfg.admin_token;
}

-- A deferred call: what `body` returns is returned after it.
abbrev pub deferred : Run Call (Unit {0}) → Run Call (Option Error) → Run Call (Option Error)
deferred last body = body >>= λ e. last >> pure e

-- telemetry.SetupTracing: without an exporter its shutdown does nothing.
abbrev pub shutdown_tracing : Option Error → Run Call (Unit {0})
shutdown_tracing none = close tracing
shutdown_tracing (some e) = pure tt

abbrev pub traced : Env → Run Call (Option Error) → Run Call (Option Error)
traced env body =
    open_with (env.open_resource tracing) tracing >>= λ t. deferred (shutdown_tracing t) body

module _ (env : Env) (cfg : Config) where
  abbrev pub after_setup : Result Dependencies → Run Call (Option Error)
  after_setup (err e) = pure (some e)
  after_setup (ok d) = deferred (close_all d.closers) (call env.serve served)

  unfoldable pub run_http : Run Call (Option Error)
  unfolding setup close_all
  run_http = traced env (setup env cfg >>= after_setup)

  -- What the consumer's Run and the server of the metrics leave behind.
  abbrev pub after_metrics : Option Error → Option Error
  after_metrics none = none
  after_metrics (some e) = some (in_context (codes "metrics server") e)

  abbrev pub after_run : Option Error → Run Call (Option Error)
  after_run (some e) = pure (some e)
  after_run none = call env.metrics probed >>= λ m. pure (after_metrics m)

  abbrev pub takes_batches : Bool
  takes_batches = ltb 1 cfg.consumer_batch_size

  -- The loop of the consumer, between what opens and closes it and the server of its metrics.
  unfoldable pub run_consumer : Run Call (Option Error)
  run_consumer = open_with (λ _. none) consumer >>= λ _. deferred (close consumer) (
      open_with (λ _. none) metrics_server >>= λ _.
      deferred (close metrics_server) (call env.consume (consumed takes_batches) >>= after_run))

  abbrev pub after_store : Resource → Option Error → Run Call (Option Error)
  after_store store (some e) = pure (some e)
  after_store store none = deferred (close store) run_consumer

  unfoldable pub with_store : Resource → Text → String → Run Call (Option Error)
  unfolding run_consumer
  with_store store address name =
      if is_empty address
      then pure (some (plain (codes name ++ codes " is required")))
      else open_with (env.open_resource store) store >>= after_store store

  -- The switch over the services, and what follows it.
  unfoldable pub run_service : Text → Run Call (Option Error)
  unfolding with_store
  run_service service =
      if is_same service (codes "persistence-worker")
      then with_store postgres cfg.postgres_dsn "PULSE_POSTGRES_DSN"
      else if is_same service (codes "analytics-worker")
      then with_store click_house cfg.click_house_addr "PULSE_CLICKHOUSE_ADDR"
      else if is_same service (codes "webhook-worker")
      then with_store postgres cfg.postgres_dsn "PULSE_POSTGRES_DSN"
      else pure (some (plain (codes "unknown worker service")))

  unfoldable pub run_worker : Text → Run Call (Option Error)
  unfolding run_service
  run_worker service =
      if cfg.local_fallback
      then pure (some (plain (codes "workers require Kafka and their backing store")))
      else if is_empty cfg.kafka_brokers
      then pure (some (plain (codes "PULSE_KAFKA_BROKERS is required")))
      else traced env (run_service service)
