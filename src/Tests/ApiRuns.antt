-- ===== src/Tests/ApiRuns.antt =====
-- Runs of internal/api/http.go at concrete inputs.
use pulse_data.Prelude.{◌≡◌, refl, false, true, none, some, [], ◌∷◌}
use pulse_data.Prelude.Text.{codes, Text-discrete, trim_space, contains_any, utf8}
use pulse_data.Api.Ingest.{ingest_batch, decode_all}
use pulse_data.Api.Webhooks.{create_webhook}
use pulse_data.Auth.Bearer.{bearer}
use pulse_data.Events.Decode.{decode}
use pulse_data.Events.Validate.{validate}
use pulse_data.Webhook.Ssrf.{validate_endpoint}
use pulse_data.Errors.{ok}
use pulse_data.Auth.Tenants.{Tenant}
use pulse_data.Webhook.Ssrf.{Net}
use pulse_data.Api.{Handler, Request, accepted, Env}
use pulse_data.Api.Routes.{events_batch, webhooks, serve}
use pulse_data.Api.Lawful.{AreCallsAllowed, AreCallsChecked}
use pulse_data.Api.Lawful.Served.{serve-AreCallsAllowed, serve-AreCallsChecked}
use pulse_data.Api.Durability.{IsTruthful, serve-IsTruthful}
use pulse_data.Tests.Samples.{today, json}

abbrev shop : Tenant
shop = record {
  id = codes "ten_a";
  name = codes "Shop";
  api_key_hash = [];
  status = codes "active";
  created_at = today;
  updated_at = today;
}

-- Every URL is https://hooks.example, which has a public address.
abbrev net : Net
net = record {
  parse = λ raw. ok (record { scheme = codes "https"; hostname = codes "hooks"; has_user = false });
  to_lower = λ t. t;
  is_reserved = λ ip. false;
  to4 = λ ip. some (93, 184, 216, 34);
}

-- The key of the shop is `key`; two events are in every batch.
abbrev world : Env
world = record {
  json = json;
  net = net;
  allow_private = false;
  decode_batch = λ n bytes. some (bytes ∷ bytes ∷ []);
  ends = λ n bytes. true;
  decode_name = λ bytes. some bytes;
  decode_webhook = λ bytes. some (codes "https://hooks", codes "order.created");
  parse_time = λ t. some today;
  base64 = λ bytes. bytes;
  now = λ past. today;
  authenticate = λ key past. ok shop;
  create_tenant = λ name past. ok (shop, codes "key");
  rotate_key = λ id past. ok (codes "new");
  allow = λ tenant n past. ok true;
  publish = λ batch past. none;
  summarize = λ tenant type from to past. ok [];
  resolve = λ host past. ok ((93 ∷ 184 ∷ 216 ∷ 34 ∷ []) ∷ []);
  new_id = λ past. ok (codes "id");
  new_secret = λ past. ok (1 ∷ 2 ∷ []);
  create_subscription = λ sub past. ok sub;
  ready = λ past. none;
}

abbrev settings : Handler
settings = record {
  has_limiter = true;
  has_analytics = true;
  has_webhooks = true;
  has_ready_check = true;
  max_payload = 1000;
  max_batch_bytes = 4000;
  max_batch_events = 2;
  durability = codes "kafka-ack";
  admin_token = [];
}

abbrev posted : Request
posted = record {
  authorization = codes "Bearer key";
  admin_token = [];
  path = codes "/v1/events/batch";
  from = [];
  to = [];
  type = [];
  body = codes "{}";
}

ingests : (serve settings world events_batch posted []).0.body ≡ accepted 2
unfolding serve ingest_batch bearer Text-discrete decode_all decode validate trim_space contains_any
    utf8
ingests = refl

subscribes : (serve settings world webhooks posted []).0.status ≡ 201
unfolding serve create_webhook bearer Text-discrete trim_space validate_endpoint
subscribes = refl

one_too_many :
    (serve (record settings { max_batch_events = 1 }) world events_batch posted []).0.status ≡ 400
unfolding serve ingest_batch bearer Text-discrete
one_too_many = refl

serve-AreCallsAllowed_example :
    AreCallsAllowed settings world posted (serve settings world events_batch posted []).1
serve-AreCallsAllowed_example = serve-AreCallsAllowed settings world events_batch posted

serve-AreCallsChecked_example :
    AreCallsChecked settings world posted (serve settings world webhooks posted []).1
serve-AreCallsChecked_example = serve-AreCallsChecked settings world webhooks posted

serve-IsTruthful_example : IsTruthful (serve settings world events_batch posted [])
serve-IsTruthful_example = serve-IsTruthful settings world events_batch posted
