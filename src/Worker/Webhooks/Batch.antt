-- ===== src/Worker/Webhooks/Batch.antt =====
-- WebhookHandler.HandleBatch of internal/worker/handlers.go.
pub mod Accounts
use mathlib.Core.List.{lookup}
use pulse_data.Prelude.{Bool, Option, none, some, List, [], ◌∷◌, ◌++◌}
use pulse_data.Prelude.Map.{Map, insert}
use pulse_data.Prelude.Text.{Text, Text-discrete}
use pulse_data.Prelude.History.{Run, pure, call, ◌>>=◌}
use pulse_data.Events.{Event}
use pulse_data.Errors.{Error, join, batch_dead_letter_error, as_dead_letter, Result, ok, err}
use pulse_data.Webhook.Subscriptions.{Subscription}
use pulse_data.Worker.Webhooks.{Call, listed, Env, deliver, to_errors}

abbrev pub Cache : Type 0
Cache = Map Text (List Subscription)

-- The key of the cache of a batch: the tenant and the type around a null character.
abbrev pub cache_key : Text → Text → Text
cache_key tenant_id event_type = tenant_id ++ (0 ∷ event_type)

abbrev pub event_key : Event → Text
event_key event = cache_key event.tenant_id event.type

-- The error of a batch: the events that failed with the errors of their deliveries, if any did.
abbrev pub batch_error : List Event → List Error → Option Error
batch_error failed [] = none
batch_error failed (e ∷ es) = some (batch_dead_letter_error failed (join (to_errors (e ∷ es))))

module _ (env : Env) (has_metrics : Bool) where
  abbrev pub after_list :
      Event → Cache → Result (List Subscription) → Run Call (Result (Cache × List Subscription))
  after_list event cache (err e) = pure (err e)
  after_list event cache (ok subs) =
      pure (ok (insert Text-discrete (event_key event) subs cache, subs))

  abbrev pub after_lookup :
      Event → Cache → Option (List Subscription) → Run Call (Result (Cache × List Subscription))
  after_lookup event cache (some subs) = pure (ok (cache, subs))
  after_lookup event cache none =
      call (env.list_subscriptions event.tenant_id event.type) (listed event.tenant_id event.type)
      >>= after_list event cache

  -- The subscriptions for an event: the store is asked once for each key.
  unfoldable pub find_subscriptions : Event → Cache → Run Call (Result (Cache × List Subscription))
  find_subscriptions event cache =
      after_lookup event cache (lookup Text-discrete (event_key event) cache)

  -- errors.As has looked for a dead letter in the error of deliver.
  abbrev pub after_as :
      (List Event → List Error → Run Call (Result (List Event × List Error)))
      → Event
      → List Event
      → List Error
      → Error
      → Option Error
      → Run Call (Result (List Event × List Error))
  after_as rest event failed failures e none = pure (err e)
  after_as rest event failed failures e (some terminal) =
      rest (failed ++ (event ∷ [])) (failures ++ (e ∷ []))

  abbrev pub after_deliver :
      (List Event → List Error → Run Call (Result (List Event × List Error)))
      → Event
      → List Event
      → List Error
      → Option Error
      → Run Call (Result (List Event × List Error))
  after_deliver rest event failed failures none = rest failed failures
  after_deliver rest event failed failures (some e) =
      after_as rest event failed failures e (as_dead_letter e)

  abbrev pub after_find :
      (Cache → List Event → List Error → Run Call (Result (List Event × List Error)))
      → Event
      → List Event
      → List Error
      → Result (Cache × List Subscription)
      → Run Call (Result (List Event × List Error))
  after_find rest event failed failures (err e) = pure (err e)
  after_find rest event failed failures (ok (cache, subs)) =
      deliver env has_metrics event subs >>= after_deliver (rest cache) event failed failures

  -- The loop over the batch, with the cache, the failed events and their errors so far.
  unfoldable pub batch_loop :
      List Event → Cache → List Event → List Error → Run Call (Result (List Event × List Error))
  batch_loop [] cache failed failures = pure (ok (failed, failures))
  batch_loop (event ∷ batch) cache failed failures =
      find_subscriptions event cache >>= after_find (batch_loop batch) event failed failures

  abbrev pub after_batch : Result (List Event × List Error) → Run Call (Option Error)
  after_batch (err e) = pure (some e)
  after_batch (ok (failed, failures)) = pure (batch_error failed failures)

  unfoldable pub handle_batch : List Event → Run Call (Option Error)
  handle_batch batch = batch_loop batch [] [] [] >>= after_batch
