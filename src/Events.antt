-- ===== src/Events.antt =====
-- internal/events/event.go: the event that every component carries.
pub mod Validate
pub mod Decode
pub mod Acceptance
pub mod Origin
use pulse_data.Prelude.{ℕ, List}
use pulse_data.Prelude.Text.{Text}

-- A time is the number of nanoseconds since the last day before the year 0, which no RFC 3339
-- time precedes in any zone, so no time is negative.
abbrev pub Time : Type 0
Time = ℕ

-- The payload is a json.RawMessage, that is, bytes.
pub record Event : Type 0 where
  pub tenant_id : Text
  pub event_id : Text
  pub type : Text
  pub timestamp : Time
  pub payload : List ℕ
