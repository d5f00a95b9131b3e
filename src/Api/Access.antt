-- ===== src/Api/Access.antt =====
-- authenticate of internal/api/http.go: the tenant whose key the request carries.
use pulse_data.Prelude.{Option, none, some}
use pulse_data.Prelude.Text.{Text}
use pulse_data.Prelude.History.{Run, call, ◌>>=◌}
use pulse_data.Errors.{Result, ok, err}
use pulse_data.Auth.Tenants.{Tenant}
use pulse_data.Auth.Bearer.{bearer}
use pulse_data.Api.{Request, Response, Call, authenticated, Env, fail}

module _ (env : Env) where
  abbrev pub after_authenticate : (Tenant → Run Call Response) → Result Tenant → Run Call Response
  after_authenticate rest (err e) = fail 401 "invalid credentials"
  after_authenticate rest (ok tenant) = rest tenant

  abbrev pub after_bearer : (Tenant → Run Call Response) → Option Text → Run Call Response
  after_bearer rest none = fail 401 "missing bearer token"
  after_bearer rest (some key) =
      call (env.authenticate key) (authenticated key) >>= after_authenticate rest

  -- `rest` is what the handler does for the tenant.
  unfoldable pub authenticate : Request → (Tenant → Run Call Response) → Run Call Response
  authenticate r rest = after_bearer rest (bearer r.authorization)
