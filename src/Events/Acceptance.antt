-- ===== src/Events/Acceptance.antt =====
-- What an event must be for the program to take it, and that Validate and Decode of
-- internal/events/event.go ask exactly that.
use pulse_data.Prelude.{
  ℕ, ◌+◌, ◌*◌, ◌≤◌, ◌≡◌, ◌≢◌, ◌↔◌, ◌⊎◌, Bool, true, false, none, List, arith, length, is_empty,
}
use pulse_data.Prelude.Text.{codes, byte_length, trim_space, contains_any, utf8}
use pulse_data.Events.{Event, Time}
use pulse_data.Events.Validate.{validate, bytes_equal, second, zero_time}

-- The tenant is not blank, the identifier and the type take 1 to 200 bytes and the type holds no
-- blank of the four, the time is set and at most five minutes ahead, and the payload is JSON, is
-- not null and keeps the limit, if there is one.
pub record IsAcceptable (valid_json : List ℕ → Bool) (now : Time) (e : Event) (limit : ℕ)
    : Type 0 where
  pub tenant_named : is_empty (trim_space e.tenant_id) ≡ false
  pub id_length : (1 ≤ byte_length e.event_id) × (byte_length e.event_id ≤ 200)
  pub type_length : (1 ≤ byte_length e.type) × (byte_length e.type ≤ 200)
  pub type_unbroken : contains_any e.type (codes " \t\r\n") ≡ false
  pub time_set : e.timestamp ≢ zero_time
  pub time_due : e.timestamp ≤ now + 300 * second
  pub payload_present : length e.payload ≢ 0
  pub payload_not_null : bytes_equal e.payload (utf8 (codes "null")) ≡ false
  pub payload_json : valid_json e.payload ≡ true
  pub payload_limited : (limit ≡ 0) ⊎ (length e.payload ≤ limit)

module _ (valid_json : List ℕ → Bool) (now : Time) (e : Event) (limit : ℕ) where
  validate_accepts : validate valid_json now e limit ≡ none → IsAcceptable valid_json now e limit
  unfolding validate
  validate_accepts h = ground arith

  validate_complete : IsAcceptable valid_json now e limit → validate valid_json now e limit ≡ none
  unfolding validate
  validate_complete h = ground arith

  -- Validate returns nil for exactly the acceptable events.
  pub validate-eq-none_iff :
      (validate valid_json now e limit ≡ none) ↔ IsAcceptable valid_json now e limit
  validate-eq-none_iff = (validate_accepts, validate_complete)
