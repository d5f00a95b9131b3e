-- ===== src/Tests/EventRuns.antt =====
-- Runs of Validate of internal/events/event.go.
use pulse_data.Prelude.{◌≡◌, ◌↔◌, refl, none, some, true}
use pulse_data.Prelude.Text.{codes, trim_space, contains_any, utf8}
use pulse_data.Events.Validate.{validate, refusal, err_missing_field}
use pulse_data.Events.Decode.{decode}
use pulse_data.Events.Origin.{decode-ok}
use pulse_data.Events.Acceptance.{IsAcceptable, validate-eq-none_iff}
use pulse_data.Tests.Samples.{json, order, blank, today}

order_passes : validate (λ _. true) today order 0 ≡ none
unfolding validate trim_space contains_any utf8
order_passes = refl

blank_fails : validate (λ _. true) today blank 0 ≡ some (refusal err_missing_field "tenantId")
unfolding validate trim_space
blank_fails = refl

validate-eq-none_iff_example :
    (validate (λ _. true) today order 100 ≡ none) ↔ IsAcceptable (λ _. true) today order 100
validate-eq-none_iff_example = validate-eq-none_iff (λ _. true) today order 100

decode-ok_example :
    (order.tenant_id ≡ codes "ten_a")
    × (validate json.valid today order 0 ≡ none)
    × (json.at_eof order.payload ≡ true)
unfolding decode validate trim_space contains_any utf8
decode-ok_example = decode-ok json today order.payload (codes "ten_a") 0 order refl
