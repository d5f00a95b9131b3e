-- ===== src/Lib.antt =====
-- Pulse, a multi-tenant event platform in Go: a model of its core and the theorems that make it
-- correct.
--
-- Events come in over HTTP and go to Kafka; consumers take them from there and save them, count
-- them, or deliver them to the webhooks that are subscribed to them, at least once.
--
-- Prelude: numbers, tests, lists, maps (Map), Go's strings and parts of package strings (Text),
-- and the history of external calls (History). What the program calls and does not implement
-- (kafka-go, net/http, encoding/json, HMAC, clocks, contexts) is a record of functions that answer
-- from the history of all calls so far, so that a theorem ranges over every behaviour.
--
-- Events: internal/events/event.go. Event.Validate is `validate`, Decode is `decode`;
-- Events.Acceptance states what an event must be, Events.Origin where its parts come from. A time
-- is a number of nanoseconds from a day before the year 0; a string is the list of its code
-- points, and `byte_length` its length.
--
-- Errors: error values, errors.As, errors.Join and the dead-letter errors of
-- internal/kafka/producer.go.
--
-- Kafka: the producer and the consumer of internal/kafka/producer.go. Kafka.Single has
-- processMessage (`process_message`) and runSingle (`run_single`), Kafka.Batch has fetchBatch,
-- decodeBatch, deadLetterBatch, commitMessages and runBatch. The loops run until the context ends,
-- so the model gives the first n rounds for every n; the loops inside runBatch are phases of one
-- loop. Kafka.Settled says when a message is settled; Kafka.Single.Delivery and
-- Kafka.Batch.Delivery are about commits, Kafka.Batch.Fetched about messages that are fetched and
-- not committed yet, Kafka.Single.Loss about a failed handler in runSingle, Kafka.Backoff about
-- waits and Kafka.Screening about the events that reach a handler. Kafka.Producer is PublishBatch;
-- Kafka.Start has the constructors, SetBatchHandler and Run.
--
-- Webhook: internal/webhook. Breaker and Bulkhead are CircuitBreaker and Bulkhead of
-- resilience.go; Dispatcher is Deliver and send, with Schedule on its retries, Slots on the slots
-- that it takes and Probe on a probe that is never reported; Signature is hmac.go over Hex; Claims
-- are the delivery claims of MemoryStore in subscription.go, with Exclusion on who may deliver. A
-- method under a mutex is one step, and calls of several goroutines are a list of steps; what
-- other deliveries to an endpoint do to its breaker while one is under way is a list of such steps
-- before each use of the breaker, given by the environment. Its bulkhead is in one delivery's
-- hands at a time: what others take and give back meanwhile is not modelled. Subscriptions are
-- those of MemoryStore; Ssrf is ssrf.go, and Dialer is safeDialer of resilience.go.
--
-- Persistence: internal/persistence/postgres.go on the rows of its tables. ClaimRows are the claim
-- statements, with their errors and foreign keys and with Agreement on them and the memory store;
-- EventRows are SaveEvent, SaveEvents and saveEventsInsert, with Binding on the placeholders of
-- the INSERT and Retry on attempts that are made again; TenantRows are Create, RotateKey,
-- Authenticate and Get, with TenantAgreement on them and the memory store.
--
-- Worker: internal/worker/handlers.go. Worker.Webhooks is WebhookHandler with Handle (`handle`)
-- and deliver, Worker.Webhooks.Batch is its HandleBatch, Worker.Sinks are PersistenceHandler and
-- AnalyticsHandler. Their stores and the dispatcher are interfaces in the source and answer from
-- the history here; a dispatcher that panics is not modelled there.
--
-- Auth: internal/auth. Auth.Tenants is MemoryStore of tenant.go, with its keys in Keys; Auth.Cache
-- are the steps of CachedStore of cache.go, with Size on its bound and Rotation on what a change
-- of key takes out of it; System is the cache over the store, with Transparent on calls that do
-- not overlap; Auth.Bearer is Bearer.
--
-- Api: the handlers of internal/api/http.go. Access is authenticate, Ingest is ingestBatch,
-- Tenants are createTenant and rotateTenant, Summaries is summary, Webhooks is createWebhook and
-- Routes is Routes. A handler is one run over the calls that it makes; what it calls answers from
-- them. Lawful says which of these calls a handler may make, Durability when it answers 202.
--
-- Ratelimit: internal/ratelimit. Memory is AllowN of limiter.go; Redis is AllowN of redis.go with
-- the Lua script, on the hashes of a server whose clock counts microseconds. Quota is a reference
-- for both at one instant, in which nothing is refilled; Bounds is about any instants. A float is
-- of any type with the operations that the code uses.
--
-- Platform: Load of internal/platform/config.go (Config) and MemoryPublisher of memory.go.
--
-- App: internal/app/app.go. Setup is setup, Services are RunHTTP (`run_http`) and RunWorker
-- (`run_worker`), and Closing is about what they leave open. What opens, pings, serves or consumes
-- answers from the calls so far; deferred calls are in the order in which Go makes them. A server
-- that is shut down by a signal is an answer of `serve`; requests that it still serves then are
-- not in the model.
--
-- Analytics: NewClickHouse, RecordBatch and the rows of Summary of
-- internal/analytics/clickhouse.go; Whole is about what RecordBatch sends.
--
-- Telemetry: SetupTracing of internal/telemetry/tracing.go; Security is about the connection of
-- its exporter.
--
-- Tests: runs at concrete inputs.
--
-- Tracing spans and histograms are left out; other metrics are calls in the history. Integers that
-- count failures or attempts are unbounded. Durations and limits are not negative. Not modelled:
-- the instrumentation of requests (instrument and statusWriter), which only observes them; the
-- statements of Postgres about subscriptions, and Record and the query of Summary of ClickHouse,
-- which are one statement each; metrics and spans of internal/telemetry, which call libraries; the
-- commands, which call internal/app.
pub mod Prelude
pub mod Events
pub mod Errors
pub mod Kafka
pub mod Webhook
pub mod Persistence
pub mod Worker
pub mod Auth
pub mod Api
pub mod App
pub mod Analytics
pub mod Telemetry
pub mod Platform
pub mod Ratelimit
mod Tests
