-- ===== src/Telemetry.antt =====
-- SetupTracing of internal/telemetry/tracing.go: which exporter an endpoint gives, and with which
-- options. url.Parse and the constructors of the exporters are parameters.
pub mod Security
use pulse_data.Prelude.{
  ℕ, ◌==◌, if◌then◌else◌, ◌&&◌, ◌||◌, not, Bool, true, false, Option, none, some, List, [], ◌∷◌,
  ◌++◌, is_empty,
}
use pulse_data.Prelude.Text.{Text, codes, trim_space}
use pulse_data.Errors.{Error, plain, Result, ok, err}
use pulse_data.Auth.Tenants.{is_same}

-- What is read of a url.URL.
pub record Url : Type 0 where
  pub scheme : Text
  pub host : Text
  pub path : Text

-- The options of an exporter.
pub record Options : Type 0 where
  pub endpoint : Text
  pub is_insecure : Bool
  pub url_path : Option Text

pub data Transport : Type 0 where
  http grpc : Transport

-- `new_exporter` is the error of the constructor.
pub record Env : Type 0 where
  pub parse : Text → Result Url
  pub new_exporter : Transport → Options → Option Error

-- strings.HasPrefix(s, prefix), with the prefix first.
unfoldable pub has_prefix : Text → Text → Bool
has_prefix [] s = true
has_prefix (c ∷ cs) [] = false
has_prefix (c ∷ cs) (d ∷ ds) = c == d && has_prefix cs ds

-- strings.Contains(s, part), with the part first.
unfoldable pub contains : Text → Text → Bool
unfolding has_prefix
contains part [] = is_empty part
contains part (d ∷ ds) = has_prefix part (d ∷ ds) || contains part ds

-- parsed.Path != "" && parsed.Path != "/"
abbrev pub has_path : Url → Bool
has_path u = not (is_empty u.path) && not (is_same u.path (codes "/"))

abbrev pub no_host : Text → Error
no_host endpoint = plain (codes "OTLP endpoint " ++ endpoint ++ codes " has no host")

abbrev pub unsupported_scheme : Text → Error
unsupported_scheme scheme = plain (codes "unsupported OTLP endpoint scheme " ++ scheme)

abbrev pub http_options_of : Text → Result Url → Result Options
http_options_of endpoint (err e) = err e
http_options_of endpoint (ok u) =
    if is_empty u.host
    then err (no_host endpoint)
    else if not (is_same u.scheme (codes "http")) && not (is_same u.scheme (codes "https"))
    then err (unsupported_scheme u.scheme)
    else ok (record {
      endpoint = u.host;
      is_insecure = is_same u.scheme (codes "http");
      url_path = if has_path u then some u.path else none;
    })

abbrev pub grpc_options_of : Text → Result Url → Result Options
grpc_options_of endpoint (err e) = err e
grpc_options_of endpoint (ok u) =
    if is_empty u.host
    then err (no_host endpoint)
    else if has_path u
    then err (plain (codes "OTLP/gRPC endpoint " ++ endpoint ++ codes " must not contain a path"))
    else ok (record {
      endpoint = u.host;
      is_insecure = is_same u.scheme (codes "grpc");
      url_path = none;
    })

-- SetupTracing gives no exporter, or one with options.
pub data Setup : Type 0 where
  disabled : Setup
  exporting : Transport → Options → Setup

module _ (env : Env) where
  unfoldable pub http_exporter_options : Text → Result Options
  unfolding contains
  http_exporter_options endpoint =
      if not (contains (codes "://") endpoint)
      then ok (record { endpoint = endpoint; is_insecure = true; url_path = none })
      else http_options_of endpoint (env.parse endpoint)

  unfoldable pub grpc_exporter_options : Text → Result Options
  grpc_exporter_options endpoint = grpc_options_of endpoint (env.parse endpoint)

  abbrev pub after_new : Transport → Options → Option Error → Setup
  after_new transport options none = exporting transport options
  after_new transport options (some e) = disabled

  abbrev pub after_options : Transport → Result Options → Setup
  after_options transport (err e) = disabled
  after_options transport (ok options) =
      after_new transport options (env.new_exporter transport options)

  abbrev pub setup_for : Text → Setup
  setup_for endpoint =
      if is_empty endpoint
      then disabled
      else if has_prefix (codes "grpc://") endpoint || has_prefix (codes "grpcs://") endpoint
      then after_options grpc (grpc_exporter_options endpoint)
      else after_options http (http_exporter_options endpoint)

  -- `variable` is the value of PULSE_OTEL_ENDPOINT.
  unfoldable pub setup_tracing : Text → Setup
  unfolding has_prefix http_exporter_options grpc_exporter_options
  setup_tracing variable = setup_for (trim_space variable)
