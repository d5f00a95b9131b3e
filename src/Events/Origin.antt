-- ===== src/Events/Origin.antt =====
-- Where the parts of an event come from that Decode of internal/events/event.go returns.
use pulse_data.Prelude.{ℕ, ◌≡◌, true, none, List, arith}
use pulse_data.Prelude.Text.{Text}
use pulse_data.Events.{Event, Time}
use pulse_data.Events.Validate.{validate}
use pulse_data.Events.Decode.{Json, decode}
use pulse_data.Errors.{ok}

-- If Decode returns an event, then its tenant is the one that the caller gave, whatever the bytes
-- say, the event passes Validate at that time under the given limit, and the bytes hold nothing
-- after the first JSON value.
pub decode-ok :
    (json : Json) (now : Time) (bytes : List ℕ) (tenant_id : Text) (max_payload_bytes : ℕ)
    (e : Event)
    → decode json now bytes tenant_id max_payload_bytes ≡ ok e
    → (e.tenant_id ≡ tenant_id)
      × (validate json.valid now e max_payload_bytes ≡ none)
      × (json.at_eof bytes ≡ true)
unfolding decode
decode-ok json now bytes tenant_id max_payload_bytes e p = ground arith
