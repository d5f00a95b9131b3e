-- ===== src/Worker/Webhooks.antt =====
-- WebhookHandler of internal/worker/handlers.go: an event, or a batch of them, is delivered to
-- every enabled subscription of its tenant and type, under a claim in the store. The store and the
-- dispatcher are answers of an environment, as they are interfaces in the source; spans are left
-- out.
pub mod Served
pub mod Batch
use mathlib.Core.List.{lookup}
use pulse_data.Prelude.{
  ℕ, if◌then◌else◌, Bool, true, false, Option, none, some, List, [], ◌∷◌, ◌++◌, is_none,
}
use pulse_data.Prelude.Map.{Map, insert}
use pulse_data.Prelude.Text.{Text, Text-discrete, codes}
use pulse_data.Prelude.History.{Run, pure, call, ◌>>=◌, ◌>>◌}
use pulse_data.Events.{Event}
use pulse_data.Errors.{
  Error, Errors, nil, cons, join, dead_letter_error, batch_dead_letter_error, as_dead_letter,
  Result, ok, err, in_context,
}
use pulse_data.Webhook.Claims.{DeliveryClaim}
use pulse_data.Webhook.Dispatcher.{Delivery}
use pulse_data.Webhook.Subscriptions.{Subscription}

pub data Counter : Type 0 where
  delivery_success delivery_failure retry dlq : Counter

pub data Call : Type 0 where
  listed : Text → Text → Result (List Subscription) → Call
  claimed : DeliveryClaim → Result Bool → Call
  delivered : Delivery → Option Error → Call
  released : DeliveryClaim → Option Error → Call
  finished : DeliveryClaim → Option Error → Call
  counted : Counter → Call

pub record Env : Type 0 where
  pub list_subscriptions : Text → Text → List Call → Result (List Subscription)
  pub claim_delivery : DeliveryClaim → List Call → Result Bool
  pub deliver : Delivery → List Call → Option Error
  pub release_delivery : DeliveryClaim → List Call → Option Error
  pub complete_delivery : DeliveryClaim → List Call → Option Error

abbrev pub claim_of : Event → Subscription → DeliveryClaim
claim_of event sub = record {
  tenant_id = event.tenant_id;
  event_id = event.event_id;
  subscription_id = sub.id;
}

abbrev pub delivery_of : Event → Subscription → Delivery
delivery_of event sub = record { endpoint = sub.endpoint; secret = sub.secret; event = event }

-- How the loop of deliver leaves one subscription: with a return of an error, with one more
-- failure, or without one.
pub data Turn : Type 0 where
  aborted failed : Error → Turn
  passed : Turn

-- errors.Join(failures...)
abbrev pub to_errors : List Error → Errors
to_errors [] = nil
to_errors (e ∷ es) = cons e (to_errors es)

-- The error of deliver: its failures, if there are any.
abbrev pub failures_error : List Error → Option Error
failures_error [] = none
failures_error (e ∷ es) = some (dead_letter_error (join (to_errors (e ∷ es))))

module _ (env : Env) (has_metrics : Bool) where
  unfoldable pub count : Counter → Run Call (Unit {0})
  count x = if has_metrics then call (λ _. tt) (λ _. counted x) else pure tt

  abbrev pub after_release : Subscription → Error → Option Error → Run Call Turn
  after_release sub e (some x) =
      pure (failed (in_context (codes "release delivery claim for subscription " ++ sub.id) x))
  after_release sub e none = pure (failed (in_context (codes "subscription " ++ sub.id) e))

  abbrev pub after_complete : Subscription → Option Error → Run Call Turn
  after_complete sub (some x) =
      pure (failed (in_context (codes "complete delivery for subscription " ++ sub.id) x))
  after_complete sub none = pure passed

  -- The dispatcher has answered.
  abbrev pub after_deliver : Event → Subscription → Option Error → Run Call Turn
  after_deliver event sub (some e) = do
    _ ← count delivery_failure
    _ ← count retry
    _ ← count dlq
    x ← call (env.release_delivery (claim_of event sub)) (released (claim_of event sub))
    after_release sub e x
  after_deliver event sub none = do
    _ ← count delivery_success
    x ← call (env.complete_delivery (claim_of event sub)) (finished (claim_of event sub))
    after_complete sub x

  -- The store has answered to the claim.
  abbrev pub after_claim : Event → Subscription → Result Bool → Run Call Turn
  after_claim event sub (err e) = pure (aborted e)
  after_claim event sub (ok false) = pure passed
  after_claim event sub (ok true) =
      call (env.deliver (delivery_of event sub)) (delivered (delivery_of event sub))
      >>= after_deliver event sub

  -- The body of the loop of deliver.
  unfoldable pub deliver_one : Event → Subscription → Run Call Turn
  unfolding count
  deliver_one event sub =
      call (env.claim_delivery (claim_of event sub)) (claimed (claim_of event sub))
      >>= after_claim event sub

  abbrev pub after_one :
      (List Error → Run Call (Option Error)) → List Error → Turn → Run Call (Option Error)
  after_one rest failures (aborted e) = pure (some e)
  after_one rest failures (failed e) = rest (failures ++ (e ∷ []))
  after_one rest failures passed = rest failures

  -- The loop of deliver, with the failures so far.
  unfoldable pub deliver_loop : Event → List Subscription → List Error → Run Call (Option Error)
  deliver_loop event [] failures = pure (failures_error failures)
  deliver_loop event (sub ∷ subs) failures =
      deliver_one event sub >>= after_one (deliver_loop event subs) failures

  unfoldable pub deliver : Event → List Subscription → Run Call (Option Error)
  deliver event subs = deliver_loop event subs []

  abbrev pub after_list : Event → Result (List Subscription) → Run Call (Option Error)
  after_list event (err e) = pure (some e)
  after_list event (ok subs) = deliver event subs

  -- Handle
  unfoldable pub handle : Event → Run Call (Option Error)
  unfolding deliver
  handle event =
      call (env.list_subscriptions event.tenant_id event.type) (listed event.tenant_id event.type)
      >>= after_list event
