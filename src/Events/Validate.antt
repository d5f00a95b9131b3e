-- ===== src/Events/Validate.antt =====
-- Event.Validate of internal/events/event.go. json.Valid is a parameter; `now` is what time.Now
-- returns.
use pulse_data.Prelude.{
  ℕ, ◌+◌, ◌*◌, ◌==◌, ltb, if◌then◌else◌, ◌||◌, ◌&&◌, not, Bool, Option, none, some, List, ◌++◌, ite,
  length, is_empty, String, true, false,
}
use pulse_data.Prelude.Text.{codes, byte_length, trim_space, contains_any, Text-discrete, utf8}
use pulse_data.Events.{Event, Time}
use pulse_data.Errors.{Error, plain, wrap, message}

abbrev pub err_invalid_event : Error
err_invalid_event = plain (codes "invalid event")

abbrev pub err_missing_field : Error
err_missing_field = plain (codes "missing required field")

-- fmt.Errorf("%w: <what>", sentinel)
abbrev pub refusal : Error → String → Error
refusal sentinel what = wrap (message sentinel ++ codes ": " ++ codes what) sentinel

abbrev pub second : ℕ
second = 1_000_000_000

-- The zero time.Time, midnight of 1 January of the year 1: 367 days after the origin.
abbrev pub zero_time : Time
zero_time = 367 * 86400 * second

-- bytes.Equal
unfoldable pub bytes_equal : List ℕ → List ℕ → Bool
unfolding Text-discrete
bytes_equal a b = ite (Text-discrete a b) true false

unfoldable pub validate : (List ℕ → Bool) → Time → Event → ℕ → Option Error
unfolding bytes_equal
validate valid_json now e max_payload_bytes =
    if is_empty (trim_space e.tenant_id)
    then some (refusal err_missing_field "tenantId")
    else if ltb (byte_length e.event_id) 1 || ltb 200 (byte_length e.event_id)
    then some (refusal err_invalid_event "eventId")
    else if ltb (byte_length e.type) 1
        || ltb 200 (byte_length e.type)
        || contains_any e.type (codes " \t\r\n")
    then some (refusal err_invalid_event "type")
    else if e.timestamp == zero_time
    then some (refusal err_missing_field "timestamp")
    else if ltb (now + 300 * second) e.timestamp
    then some (refusal err_invalid_event "timestamp is too far in the future")
    else if length e.payload == 0
        || bytes_equal e.payload (utf8 (codes "null"))
        || not (valid_json e.payload)
    then some (refusal err_invalid_event "payload must be valid JSON")
    else if ltb 0 max_payload_bytes && ltb max_payload_bytes (length e.payload)
    then some (refusal err_invalid_event "payload exceeds limit")
    else none
