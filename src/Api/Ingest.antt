-- ===== src/Api/Ingest.antt =====
-- ingestBatch of internal/api/http.go.
use pulse_data.Prelude.{
  ℕ, ltb, ◌==◌, if◌then◌else◌, ◌||◌, not, Bool, true, false, Option, none, some, List, [], ◌∷◌,
  length,
}
use pulse_data.Prelude.History.{Run, pure, call, ◌>>=◌}
use pulse_data.Events.{Event}
use pulse_data.Events.Decode.{decode}
use pulse_data.Errors.{Error, Result, ok, err, message}
use pulse_data.Auth.Tenants.{Tenant}
use pulse_data.Api.{
  Handler, Request, Response, failure, accepted, invalid, unpublished, rate_limited,
  published_events, received_events, Call, limited, published, Env, clock, count, respond, fail,
}
use pulse_data.Api.Access.{authenticate}

abbrev pub cons_event : Event → Result (List Event) → Result (List Event)
cons_event event (err e) = err e
cons_event event (ok batch) = ok (event ∷ batch)

module _ (h : Handler) (env : Env) where
  abbrev pub after_event :
      Run Call (Result (List Event)) → Result Event → Run Call (Result (List Event))
  after_event rest (err e) = do _ ← count env invalid; pure (err e)
  after_event rest (ok event) = do r ← rest; pure (cons_event event r)

  -- The loop over the values of the batch, up to the first that events.Decode refuses.
  unfoldable pub decode_all : Tenant → List (List ℕ) → Run Call (Result (List Event))
  decode_all tenant [] = pure (ok [])
  decode_all tenant (value ∷ values) = do
    now ← clock env
    after_event (decode_all tenant values) (decode env.json now value tenant.id h.max_payload)

  -- The publisher has answered.
  abbrev pub after_publish : List Event → Option Error → Run Call Response
  after_publish batch (some e) = do
    _ ← count env (unpublished (length batch))
    fail 503 "events were not durable"
  after_publish batch none = do
    _ ← count env (published_events (length batch))
    _ ← count env (received_events (length batch))
    pure (record { status = 202; durability = some h.durability; body = accepted (length batch) })

  abbrev pub publish : List Event → Run Call Response
  publish batch = call (env.publish batch) (published batch) >>= after_publish batch

  abbrev pub after_allow : List Event → Result Bool → Run Call Response
  after_allow batch (err e) = fail 503 "rate limiter unavailable"
  after_allow batch (ok false) = do _ ← count env rate_limited; fail 429 "rate limit exceeded"
  after_allow batch (ok true) = publish batch

  abbrev pub limit : Bool → Tenant → List Event → Run Call Response
  limit false tenant batch = publish batch
  limit true tenant batch =
      call (env.allow tenant.id (length batch)) (limited tenant.id (length batch))
      >>= after_allow batch

  abbrev pub after_decode : Tenant → Result (List Event) → Run Call Response
  after_decode tenant (err e) = respond 400 (failure (message e))
  after_decode tenant (ok batch) = limit h.has_limiter tenant batch

  -- The body has been read as an array.
  abbrev pub after_read : Request → Tenant → Option (List (List ℕ)) → Run Call Response
  after_read r tenant none =
      fail 400 "batch must contain between 1 and the configured maximum number of events"
  after_read r tenant (some raw) =
      if length raw == 0 || ltb h.max_batch_events (length raw)
      then fail 400 "batch must contain between 1 and the configured maximum number of events"
      else if not (env.ends h.max_batch_bytes r.body)
      then fail 400 "invalid JSON"
      else decode_all tenant raw >>= after_decode tenant

  unfoldable pub ingest_batch : Request → Run Call Response
  unfolding authenticate
  ingest_batch r =
      authenticate env r (λ tenant. after_read r tenant (env.decode_batch h.max_batch_bytes r.body))
