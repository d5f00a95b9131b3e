-- ===== src/Kafka.antt =====
-- internal/kafka/producer.go: the messages of the topic, the consumer, and what it calls.
-- The reader and the writer of kafka-go, the handlers, the clock and the context are answers of an
-- environment that may depend on everything that was called before.
pub mod Loop
pub mod Single
pub mod Batch
pub mod Settled
pub mod Backoff
pub mod Screening
pub mod Producer
pub mod Start
use pulse_data.Prelude.{ℕ, Bool, Option, List, ◌∷◌, ◌++◌}
use pulse_data.Prelude.Text.{Text}
use pulse_data.Prelude.History.{Run, call}
use pulse_data.Events.{Event, Time}
use pulse_data.Events.Decode.{Json}
use pulse_data.Errors.{Error, Result}

pub record Header : Type 0 where
  pub key : Text
  pub value : List ℕ

-- A kafka.Message, with the place in its partition that a commit refers to.
pub record Message : Type 0 where
  pub key : List ℕ
  pub value : List ℕ
  pub headers : List Header
  pub partition : ℕ
  pub offset : ℕ

-- event.TenantID + "\x00" + event.EventID
abbrev pub batch_key : Event → Text
batch_key e = e.tenant_id ++ 0 ∷ e.event_id

-- What a consumer has called, each call with its answer.
pub data Call : Type 0 where
  clocked : Time → Call
  fetched : Result Message → Call
  handled : Event → Option Error → Call
  handled_batch : List Event → Option Error → Call
  wrote : List Message → Option Error → Call
  committed : List Message → Option Error → Call
  polled : Bool → Call
  waited : ℕ → Bool → Call
  recorded : Bool → Bool → Call

-- `fetch_within` is FetchMessage under a timeout, `cancelled` is ctx.Err() != nil, and `wait`
-- answers whether the timer fired before the context ended.
pub record Env : Type 0 where
  pub json : Json
  pub now : List Call → Time
  pub fetch : List Call → Result Message
  pub fetch_within : ℕ → List Call → Result Message
  pub handle : Event → List Call → Option Error
  pub handle_batch : List Event → List Call → Option Error
  pub write : List Message → List Call → Option Error
  pub commit : List Message → List Call → Option Error
  pub cancelled : List Call → Bool
  pub wait : ℕ → List Call → Bool

-- The fields of a Consumer that steer it. A pointer that may be nil is a Bool.
pub record Consumer : Type 0 where
  pub has_dlq : Bool
  pub has_metrics : Bool
  pub has_batch_handler : Bool
  pub batch_size : ℕ
  pub batch_timeout : ℕ

module _ (env : Env) where
  abbrev pub clock : Run Call Time
  clock = call env.now clocked

  abbrev pub fetch_message : Run Call (Result Message)
  fetch_message = call env.fetch fetched

  abbrev pub handle_event : Event → Run Call (Option Error)
  handle_event e = call (env.handle e) (handled e)

  abbrev pub write_messages : List Message → Run Call (Option Error)
  write_messages ms = call (env.write ms) (wrote ms)

  abbrev pub commit : List Message → Run Call (Option Error)
  commit ms = call (env.commit ms) (committed ms)

  abbrev pub context_done : Run Call Bool
  context_done = call env.cancelled polled

  abbrev pub wait : ℕ → Run Call Bool
  wait delay = call (env.wait delay) (waited delay)

-- time.Second and the delay of a Duration
abbrev pub second : ℕ
second = 1_000_000_000
