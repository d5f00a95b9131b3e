-- ===== src/Tests/Samples.antt =====
-- Sample events and messages, and a decoder that knows them.
use pulse_data.Prelude.{
  ℕ, ◌+◌, ◌*◌, ◌==◌, true, false, Option, none, some, List, [], ◌∷◌, length, if◌then◌else◌,
}
use pulse_data.Prelude.Text.{codes}
use pulse_data.Events.{Event, Time}
use pulse_data.Events.Validate.{second, zero_time}
use pulse_data.Events.Decode.{Json}
use pulse_data.Errors.{Error, plain, dead_letter_error, batch_dead_letter_error, Result, ok, err}
use pulse_data.Kafka.{Message, Env, Consumer}

-- Some day of the year 2026.
abbrev pub today : Time
today = zero_time + 2025 * 31_557_600 * second

abbrev pub order : Event
order = record {
  tenant_id = codes "ten_a";
  event_id = codes "e1";
  type = codes "order.created";
  timestamp = today;
  payload = codes "{}";
}

abbrev pub refund : Event
refund = record order { event_id = codes "e22" }

abbrev pub blank : Event
blank = record order { tenant_id = codes "  " }

abbrev pub failure_error : Error
failure_error = plain (codes "database is away")

-- The first byte of a value tells which sample it stands for.
abbrev pub sample : ℕ → Result Event
sample n =
    if n == 1
    then ok order
    else if n == 2
    then ok refund
    else if n == 3
    then ok blank
    else err (plain (codes "no JSON"))

abbrev pub unmarshal : List ℕ → Result Event
unmarshal [] = sample 0
unmarshal (b ∷ bs) = sample b

abbrev pub json : Json
json = record {
  valid = λ _. true;
  unmarshal = unmarshal;
  decode_input = λ bytes. ok (record {
    event_id = codes "e1";
    type = codes "order.created";
    timestamp = today;
    payload = bytes;
  });
  at_eof = λ _. true;
  marshal = λ e. ok e.payload;
}

abbrev pub message_of : ℕ → ℕ → Message
message_of value offset = record {
  key = codes "ten_a";
  value = value ∷ [];
  headers = [];
  partition = 0;
  offset = offset;
}

-- Fetches the messages of kinds 1 to 4 in turn, by the number of calls made; the handlers fail for
-- the second event, with a dead-letter error.
abbrev pub fails_for_refund : Event → Option Error
fails_for_refund e = if length e.event_id == 2 then none else some (dead_letter_error failure_error)

abbrev pub broker : Env
broker = record {
  json = json;
  now = λ _. today;
  fetch = λ h. ok (message_of (length h) (length h));
  fetch_within = λ _ h. ok (message_of (length h) (length h));
  handle = λ e _. fails_for_refund e;
  handle_batch = λ es _. some (batch_dead_letter_error es failure_error);
  write = λ _ _. none;
  commit = λ _ _. none;
  cancelled = λ _. false;
  wait = λ _ _. true;
}

abbrev pub consumer : Consumer
consumer = record {
  has_dlq = true;
  has_metrics = true;
  has_batch_handler = true;
  batch_size = 3;
  batch_timeout = second;
}
