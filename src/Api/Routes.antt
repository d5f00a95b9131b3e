-- ===== src/Api/Routes.antt =====
-- Routes of internal/api/http.go: which handler serves which pattern of http.ServeMux. The page of
-- metrics is the library's.
use pulse_data.Prelude.{Option, none, some, if◌then◌else◌}
use pulse_data.Prelude.Text.{codes}
use pulse_data.Prelude.History.{Run, call, ◌>>=◌}
use pulse_data.Errors.{Error}
use pulse_data.Api.{Handler, Request, Response, health, Call, pinged, Env, respond, fail}
use pulse_data.Api.Ingest.{ingest_batch}
use pulse_data.Api.Tenants.{create_tenant, rotate_tenant}
use pulse_data.Api.Summaries.{summary}
use pulse_data.Api.Webhooks.{create_webhook}

pub data Route : Type 0 where
  live ready events_batch tenants tenants_below webhooks analytics_summary : Route

module _ (h : Handler) (env : Env) where
  abbrev pub after_ready : Option Error → Run Call Response
  after_ready (some e) = fail 503 "dependencies are not ready"
  after_ready none = respond 200 (health (codes "ready"))

  unfoldable pub serve : Route → Request → Run Call Response
  serve live r = respond 200 (health (codes "ok"))
  serve ready r =
      if h.has_ready_check then call env.ready pinged >>= after_ready else after_ready none
  serve events_batch r = ingest_batch h env r
  serve tenants r = create_tenant h env r
  serve tenants_below r = rotate_tenant env r
  serve webhooks r = create_webhook h env r
  serve analytics_summary r = summary h env r
