-- ===== src/Events/Decode.antt =====
-- Decode of internal/events/event.go: an event from the bytes of one element of a batch. The
-- decoder of encoding/json is a parameter.
use pulse_data.Prelude.{ℕ, Bool, Option, none, some, List, ◌++◌, if◌then◌else◌, not}
use pulse_data.Prelude.Text.{Text, codes}
use pulse_data.Events.{Event, Time}
use pulse_data.Events.Validate.{validate, err_invalid_event, refusal}
use pulse_data.Errors.{Error, Result, ok, err, wrap, message}

-- The struct that the body of an event is read into: it has no tenant.
pub record Input : Type 0 where
  pub event_id : Text
  pub type : Text
  pub timestamp : Time
  pub payload : List ℕ

-- What the program uses of encoding/json: json.Valid; json.Unmarshal into an Event; the first
-- value of a stream read by a strict decoder into an Input; whether the stream then ends, that
-- is, the second Decode returns io.EOF; json.Marshal of an Event.
pub record Json : Type 0 where
  pub valid : List ℕ → Bool
  pub unmarshal : List ℕ → Result Event
  pub decode_input : List ℕ → Result Input
  pub at_eof : List ℕ → Bool
  pub marshal : Event → Result (List ℕ)

-- The two results of the function: the event, or the error of its validation.
abbrev pub with_error : Event → Option Error → Result Event
with_error e none = ok e
with_error e (some x) = err x

unfoldable pub decode : Json → Time → List ℕ → Text → ℕ → Result Event
decode json now bytes tenant_id max_payload_bytes = elim (json.decode_input bytes) [
  | err e ↦ err (wrap (message err_invalid_event ++ codes ": " ++ message e) err_invalid_event)
  | ok input ↦
      if not (json.at_eof bytes)
      then err (refusal err_invalid_event "multiple JSON values")
      else let e : Event = record {
        tenant_id = tenant_id;
        event_id = input.event_id;
        type = input.type;
        timestamp = input.timestamp;
        payload = input.payload;
      } in
        with_error e (validate json.valid now e max_payload_bytes)
]
