-- ===== src/Api/Webhooks.antt =====
-- createWebhook of internal/api/http.go. The two calls of time.Now for a subscription are two
-- readings of the clock.
use pulse_data.Prelude.{if◌then◌else◌, not, true, Option, none, some, List, is_empty, ℕ}
use pulse_data.Prelude.Text.{Text, trim_space}
use pulse_data.Prelude.History.{Run, call, ◌>>=◌}
use pulse_data.Errors.{Error, Result, ok, err}
use pulse_data.Auth.Tenants.{Tenant}
use pulse_data.Webhook.Ssrf.{validate_endpoint}
use pulse_data.Webhook.Subscriptions.{Subscription}
use pulse_data.Api.{
  Handler, Request, Response, webhook_created, Call, checked, drew_id, drew_secret, subscribed, Env,
  clock, respond, fail,
}
use pulse_data.Api.Access.{authenticate}

module _ (h : Handler) (env : Env) where
  abbrev pub after_create : List ℕ → Result Subscription → Run Call Response
  after_create secret (err e) = fail 500 "could not create subscription"
  after_create secret (ok sub) =
      respond 201 (webhook_created sub.id sub.event_type sub.endpoint (env.base64 secret))

  abbrev pub after_secret : Tenant → Text × Text → Text → Result (List ℕ) → Run Call Response
  after_secret tenant wanted id (err e) = fail 500 "could not create subscription"
  after_secret tenant wanted id (ok secret) = do
    created_at ← clock env
    updated_at ← clock env
    let sub : Subscription = record {
      id = id;
      tenant_id = tenant.id;
      event_type = wanted.0;
      endpoint = wanted.1;
      secret = secret;
      enabled = true;
      created_at = created_at;
      updated_at = updated_at;
    }
    stored ← call (env.create_subscription sub) (subscribed sub)
    after_create secret stored

  abbrev pub after_id : Tenant → Text × Text → Result Text → Run Call Response
  after_id tenant wanted (err e) = fail 500 "could not create subscription"
  after_id tenant wanted (ok id) = call env.new_secret drew_secret >>= after_secret tenant wanted id

  abbrev pub after_check : Tenant → Text × Text → Option Error → Run Call Response
  after_check tenant wanted (some e) = fail 400 "endpoint rejected by SSRF policy"
  after_check tenant wanted none = call env.new_id drew_id >>= after_id tenant wanted

  -- webhook.ValidateEndpoint, with the resolver of the system at that moment.
  abbrev pub check : Text → List Call → Option Error
  check endpoint past =
      validate_endpoint env.net env.allow_private endpoint (some (λ host. env.resolve host past))

  abbrev pub after_read : Tenant → Option (Text × Text) → Run Call Response
  after_read tenant none = fail 400 "eventType and endpoint are required"
  after_read tenant (some wanted) =
      if is_empty (trim_space wanted.0)
      then fail 400 "eventType and endpoint are required"
      else call (check wanted.1) (checked wanted.1) >>= after_check tenant wanted

  unfoldable pub create_webhook : Request → Run Call Response
  unfolding authenticate
  create_webhook r =
      if not h.has_webhooks
      then fail 501 "webhooks are not configured"
      else authenticate env r (λ tenant. after_read tenant (env.decode_webhook r.body))
