-- ===== src/Api.antt =====
-- The handlers of internal/api/http.go: the requests, the responses and the calls they make. The
-- stores, the limiter, the publisher, the resolver, the clock and the decoders of encoding/json are
-- answers of an environment. Histograms of durations and spans are left out.
pub mod Access
pub mod Ingest
pub mod Tenants
pub mod Summaries
pub mod Webhooks
pub mod Routes
pub mod Lawful
pub mod Durability
use pulse_data.Prelude.{ℕ, Bool, Option, none, List, ◌∷◌}
use pulse_data.Prelude.Text.{Text, codes}
use pulse_data.Prelude.{String}
use pulse_data.Prelude.History.{Run, pure, call}
use pulse_data.Events.{Event, Time}
use pulse_data.Events.Decode.{Json}
use pulse_data.Errors.{Error, Result}
use pulse_data.Auth.Tenants.{Tenant}
use pulse_data.Webhook.Subscriptions.{Subscription}
use pulse_data.Webhook.Ssrf.{Ip, Net}

-- analytics.Summary
pub record Summary : Type 0 where
  pub type : Text
  pub count : ℕ

-- The settings of a Handler. A dependency that may be nil is a Bool.
pub record Handler : Type 0 where
  pub has_limiter : Bool
  pub has_analytics : Bool
  pub has_webhooks : Bool
  pub has_ready_check : Bool
  pub max_payload : ℕ
  pub max_batch_bytes : ℕ
  pub max_batch_events : ℕ
  pub durability : Text
  pub admin_token : Text

-- What the handlers read of a request; a header or a parameter that is absent is empty.
pub record Request : Type 0 where
  pub authorization : Text
  pub admin_token : Text
  pub path : Text
  pub from : Text
  pub to : Text
  pub type : Text
  pub body : List ℕ

pub data Body : Type 0 where
  failure : Text → Body
  health : Text → Body
  accepted : ℕ → Body
  tenant_created : Text → Text → Text → Body
  key_rotated : Text → Text → Body
  summary_rows : List Summary → Body
  webhook_created : Text → Text → Text → Text → Body

pub record Response : Type 0 where
  pub status : ℕ
  pub durability : Option Text
  pub body : Body

pub data Counter : Type 0 where
  invalid : Counter
  unpublished : ℕ → Counter
  rate_limited : Counter
  published_events : ℕ → Counter
  received_events : ℕ → Counter

pub data Call : Type 0 where
  clocked : Time → Call
  authenticated : Text → Result Tenant → Call
  created : Text → Result (Tenant × Text) → Call
  rotated : Text → Result Text → Call
  limited : Text → ℕ → Result Bool → Call
  published : List Event → Option Error → Call
  summarized : Text → Text → Time → Time → Result (List Summary) → Call
  checked : Text → Option Error → Call
  drew_id : Result Text → Call
  drew_secret : Result (List ℕ) → Call
  subscribed : Subscription → Result Subscription → Call
  pinged : Option Error → Call
  counted : Counter → Call

-- `decode_batch` reads the first JSON value of a body that is cut off at a number of bytes, as an
-- array, and `ends` tells whether the body ends after it; `decode_name` and `decode_webhook` read
-- the struct of a request, cut off at 4096 bytes; `parse_time` is time.Parse for RFC 3339.
pub record Env : Type 0 where
  pub json : Json
  pub net : Net
  pub allow_private : Bool
  pub decode_batch : ℕ → List ℕ → Option (List (List ℕ))
  pub ends : ℕ → List ℕ → Bool
  pub decode_name : List ℕ → Option Text
  pub decode_webhook : List ℕ → Option (Text × Text)
  pub parse_time : Text → Option Time
  pub base64 : List ℕ → Text
  pub now : List Call → Time
  pub authenticate : Text → List Call → Result Tenant
  pub create_tenant : Text → List Call → Result (Tenant × Text)
  pub rotate_key : Text → List Call → Result Text
  pub allow : Text → ℕ → List Call → Result Bool
  pub publish : List Event → List Call → Option Error
  pub summarize : Text → Text → Time → Time → List Call → Result (List Summary)
  pub resolve : Text → List Call → Result (List Ip)
  pub new_id : List Call → Result Text
  pub new_secret : List Call → Result (List ℕ)
  pub create_subscription : Subscription → List Call → Result Subscription
  pub ready : List Call → Option Error

-- A handler's last step: the response.
abbrev pub respond : ℕ → Body → Run Call Response
respond status body = pure (record { status = status; durability = none; body = body })

-- h.fail
abbrev pub fail : ℕ → String → Run Call Response
fail status text = respond status (failure (codes text))

module _ (env : Env) where
  abbrev pub clock : Run Call Time
  clock = call env.now clocked

  abbrev pub count : Counter → Run Call (Unit {0})
  count x = call (λ _. tt) (λ _. counted x)
