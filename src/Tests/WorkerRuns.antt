-- ===== src/Tests/WorkerRuns.antt =====
-- Runs of the handlers of internal/worker and of the endpoint check at concrete inputs.
use pulse_data.Prelude.{
  ◌≡◌, ◌↔◌, refl, arith, true, false, none, some, List, [], ◌∷◌, length, All, Any, ◌++◌, ◌==◌,
}
use pulse_data.Prelude.Text.{Text, Text-discrete, codes}
use mathlib.Core.List.{lookup}
use pulse_data.Prelude.Map.{insert}
use pulse_data.Errors.{Error, nil, cons, join, dead_letter_error, Result, ok, in_context}
use pulse_data.Webhook.Subscriptions.{Subscription, list_subscriptions}
use pulse_data.Webhook.Subscriptions.Listing.{IsWanted, list_subscriptions-Any_iff}
use pulse_data.Webhook.Ssrf.{Url, Ip, Net, validate_endpoint}
use pulse_data.Webhook.Ssrf.Policy.{IsPublicUrl, validate_endpoint-none_iff}
use pulse_data.Worker.Sinks
use pulse_data.Worker.Sinks.Saved.{Saves, persist_batch-Saves}
use pulse_data.Worker.Webhooks
use pulse_data.Worker.Webhooks.Served.{IsServed, handle-IsServed}
use pulse_data.Worker.Webhooks.Batch.{handle_batch, batch_loop, find_subscriptions}
use pulse_data.Worker.Webhooks.Batch.Accounts.{HasNoNull, IsEventServed, handle_batch-IsEventServed}
use pulse_data.Tests.Samples.{today, failure_error, order, refund, fails_for_refund}

abbrev sink : Sinks.Env
sink = record {
  save_event = λ e h. ok (length h == 0);
  save_events = λ es h. none;
  record_event = λ e h. none;
  record_batch = λ es h. none;
}

persist_batch-Saves_example :
    All
      (λ e. Any (Saves e) (Sinks.persist_batch sink true false (order ∷ refund ∷ []) []).1)
      (order ∷ refund ∷ [])
unfolding Sinks.persist_batch Sinks.persist Sinks.handle_each
persist_batch-Saves_example = persist_batch-Saves sink true false (order ∷ refund ∷ []) [] refl

abbrev hook : Subscription
hook = record {
  id = codes "wh_1";
  tenant_id = codes "ten_a";
  event_type = codes "order.created";
  endpoint = codes "https://example.com/hook";
  secret = codes "s";
  enabled = true;
  created_at = today;
  updated_at = today;
}

-- Two subscriptions, of which the first is claimed by another worker.
abbrev shop : Webhooks.Env
shop = record {
  list_subscriptions = λ t ty h. ok (hook ∷ record hook { id = codes "wh_22" } ∷ []);
  claim_delivery = λ k h. ok (length k.subscription_id == 5);
  deliver = λ d h. none;
  release_delivery = λ k h. none;
  complete_delivery = λ k h. none;
}

-- As `shop`, but deliveries of `order` fail.
abbrev broken_shop : Webhooks.Env
broken_shop = record shop { deliver = λ d h. fails_for_refund d.event }

handle-IsServed_example :
    All
      (IsServed order (Webhooks.handle shop true order []).1)
      (hook ∷ record hook { id = codes "wh_22" } ∷ [])
unfolding Webhooks.handle Webhooks.deliver Webhooks.deliver_loop Webhooks.deliver_one Webhooks.count
handle-IsServed_example = handle-IsServed shop true order [] _ refl refl

no_null : All (λ event. HasNoNull event.tenant_id) (order ∷ refund ∷ [])
no_null = ground arith

handle_batch-IsEventServed_example :
    All (IsEventServed (handle_batch shop true (order ∷ refund ∷ []) []).1) (order ∷ refund ∷ [])
unfolding handle_batch batch_loop find_subscriptions lookup Webhooks.deliver Webhooks.deliver_loop
    Webhooks.deliver_one insert Text-discrete
handle_batch-IsEventServed_example =
    handle_batch-IsEventServed shop true (order ∷ refund ∷ []) [] no_null refl

-- The error of the delivery of `refund` to the second subscription.
abbrev refund_error : Error
refund_error = dead_letter_error (
    join (
      cons (in_context (codes "subscription " ++ codes "wh_22") (dead_letter_error failure_error))
        nil))

abbrev web : Net
web = record {
  parse = λ raw.
      ok (record { scheme = codes "https"; hostname = codes "example.com"; has_user = false });
  to_lower = λ t. t;
  is_reserved = λ ip. false;
  to4 = λ ip. some (93, 184, 215, 14);
}

abbrev resolve : Text → Result (List Ip)
resolve host = ok ((93 ∷ 184 ∷ 215 ∷ 14 ∷ []) ∷ [])

validate_endpoint-none_iff_example :
    (validate_endpoint web false (codes "https://example.com/hook") (some resolve) ≡ none) ↔ (
      (u : Url) × (web.parse (codes "https://example.com/hook") ≡ ok u) × IsPublicUrl web resolve u)
validate_endpoint-none_iff_example =
    validate_endpoint-none_iff web (codes "https://example.com/hook") resolve

list_subscriptions-Any_iff_example :
    Any
      (λ s. s ≡ hook)
      (list_subscriptions (codes "ten_a") (codes "order.created") ((codes "wh_1", hook) ∷ []))
    ↔ (Any (λ (item : Text × Subscription). item.1 ≡ hook) ((codes "wh_1", hook) ∷ [])
        × IsWanted (codes "ten_a") (codes "order.created") hook)
list_subscriptions-Any_iff_example =
    list_subscriptions-Any_iff (codes "ten_a") (codes "order.created") hook
      ((codes "wh_1", hook) ∷ [])
