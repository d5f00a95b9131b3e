-- ===== src/Telemetry/Security.antt =====
-- How SetupTracing of internal/telemetry/tracing.go secures its connection.
use native.Mathlib.Omega.{arith}
use pulse_data.Prelude.{
  ◌≡◌, refl, ◌⊎◌, inl, inr, if◌then◌else◌, ◌||◌, not, Bool, true, false, Option, none, some,
  is_empty, if_either,
}
use pulse_data.Prelude.Text.{Text, codes, trim_space}
use pulse_data.Errors.{Error, Result, ok, err}
use pulse_data.Auth.Tenants.{is_same}
use pulse_data.Telemetry.{
  Url, Options, Transport, http, grpc, Env, has_prefix, contains, http_options_of, grpc_options_of,
  Setup, disabled, exporting, http_exporter_options, grpc_exporter_options, after_new,
  after_options, setup_tracing,
}

module _ (env : Env) where
  -- The options are those of a URL that names a host, with TLS but for the scheme without it; an
  -- endpoint that is no URL is a host without TLS.
  abbrev pub IsSecured : Text → Setup → Type 0
  IsSecured endpoint disabled = Unit
  IsSecured endpoint (exporting grpc options) =
      (u : Url) × (env.parse endpoint ≡ ok u)
      × (options.endpoint ≡ u.host)
      × (is_empty u.host ≡ false)
      × (options.is_insecure ≡ is_same u.scheme (codes "grpc"))
  IsSecured endpoint (exporting http options) =
      ((contains (codes "://") endpoint ≡ false)
        × (options.endpoint ≡ endpoint)
        × (options.is_insecure ≡ true))
      ⊎ ((u : Url) × (env.parse endpoint ≡ ok u)
          × (options.endpoint ≡ u.host)
          × (is_empty u.host ≡ false)
          × (((is_same u.scheme (codes "http") ≡ true) × (options.is_insecure ≡ true))
              ⊎ ((is_same u.scheme (codes "https") ≡ true) × (options.is_insecure ≡ false))))

  after_new-IsSecured :
      (endpoint : Text) (t : Transport) (o : Options)
      → IsSecured endpoint (exporting t o)
      → (e : Option Error) → IsSecured endpoint (after_new env t o e)
  after_new-IsSecured endpoint t o s none = s
  after_new-IsSecured endpoint t o s (some e) = tt

  after_options-IsSecured :
      (endpoint : Text) (t : Transport) (r : Result Options)
      → ((o : Options) → r ≡ ok o → IsSecured endpoint (exporting t o))
      → IsSecured endpoint (after_options env t r)
  after_options-IsSecured endpoint t (err e) s = tt
  after_options-IsSecured endpoint t (ok o) s =
      after_new-IsSecured endpoint t o (s o refl) (env.new_exporter t o)

  grpc_options-IsSecured :
      (endpoint : Text) (r : Result Url)
      → env.parse endpoint ≡ r
      → (o : Options) → grpc_options_of endpoint r ≡ ok o
      → IsSecured endpoint (exporting grpc o)
  grpc_options-IsSecured endpoint (err e) q o is_ok = ground arith
  grpc_options-IsSecured endpoint (ok u) q o is_ok =
      (u, q, ground arith, ground arith, ground arith)

  http_options-IsSecured :
      (endpoint : Text) (r : Result Url)
      → env.parse endpoint ≡ r
      → (o : Options) → http_options_of endpoint r ≡ ok o
      → IsSecured endpoint (exporting http o)
  http_options-IsSecured endpoint (err e) q o is_ok = ground arith
  http_options-IsSecured endpoint (ok u) q o is_ok =
      inr (u, q, ground arith, ground arith, ground arith)

  http_exporter_options-IsSecured :
      (endpoint : Text) (o : Options)
      → http_exporter_options env endpoint ≡ ok o
      → IsSecured endpoint (exporting http o)
  unfolding http_exporter_options
  http_exporter_options-IsSecured endpoint o = by_scheme (contains (codes "://") endpoint) refl
    where
      by_scheme :
          (b : Bool)
          → contains (codes "://") endpoint ≡ b
          → (if not b
              then ok (record { endpoint = endpoint; is_insecure = true; url_path = none })
              else http_options_of endpoint (env.parse endpoint))
            ≡ ok o
          → IsSecured endpoint (exporting http o)
      by_scheme true q is_ok = http_options-IsSecured endpoint (env.parse endpoint) refl o is_ok
      by_scheme false q is_ok = inl (q, ground arith, ground arith)

  -- Whatever endpoint is configured, an exporter that SetupTracing installs speaks to the host that
  -- the endpoint names, and gives up TLS only for the schemes http and grpc and for an endpoint
  -- without a scheme.
  pub setup_tracing-IsSecured :
      (variable : Text) → IsSecured (trim_space variable) (setup_tracing env variable)
  unfolding setup_tracing grpc_exporter_options
  setup_tracing-IsSecured variable =
      let e = trim_space variable in
      if_either (λ (s : Setup). IsSecured e s) (is_empty e) tt
        (if_either (λ (s : Setup). IsSecured e s)
          (has_prefix (codes "grpc://") e || has_prefix (codes "grpcs://") e)
          (after_options-IsSecured e grpc (grpc_exporter_options env e)
            (grpc_options-IsSecured e (env.parse e) refl))
          (after_options-IsSecured e http (http_exporter_options env e)
            (http_exporter_options-IsSecured e)))
