-- ===== src/Api/Lawful/Served.antt =====
-- Every handler of internal/api/http.go makes lawful calls.
use pulse_data.Prelude.{[], arith}
use pulse_data.Api.{Handler, Request, Env}
use pulse_data.Api.Routes.{
  Route, live, ready, events_batch, tenants, tenants_below, webhooks, analytics_summary, serve,
}
use pulse_data.Api.Lawful.{AreCallsLawful, AreCallsAllowed, AreCallsChecked}
use pulse_data.Api.Lawful.Handlers.{
  create_tenant-IsLawful, rotate_tenant-IsLawful, summary-IsLawful,
}
use pulse_data.Api.Lawful.Webhooks.{create_webhook-IsLawful}
use pulse_data.Api.Lawful.Batches.{ingest_batch-IsLawful}

module _ (h : Handler) (env : Env) where
  serve-AreCallsLawful :
      (route : Route) (r : Request) → AreCallsLawful h env r (serve h env route r []).1
  unfolding serve
  serve-AreCallsLawful live r = (tt, tt)
  serve-AreCallsLawful ready r = ground arith
  serve-AreCallsLawful events_batch r = ingest_batch-IsLawful h env r [] (tt, tt)
  serve-AreCallsLawful tenants r = create_tenant-IsLawful h env r [] (tt, tt)
  serve-AreCallsLawful tenants_below r = rotate_tenant-IsLawful h env r [] (tt, tt)
  serve-AreCallsLawful webhooks r = create_webhook-IsLawful h env r [] (tt, tt)
  serve-AreCallsLawful analytics_summary r = summary-IsLawful h env r [] (tt, tt)

  -- Whatever a request asks of any route, what the handler asks of the limiter, the publisher, the
  -- analytics and the store of webhooks concerns only the tenant that the store of tenants found
  -- by the bearer key of the request; a key is rotated only for that tenant, and only if the path
  -- names it; a tenant is created only if an admin token is set and the request carries it.
  pub serve-AreCallsAllowed :
      (route : Route) (r : Request) → AreCallsAllowed h env r (serve h env route r []).1
  serve-AreCallsAllowed route r = (serve-AreCallsLawful route r).0

  -- Whatever a request asks of any route, the publisher is handed only batches of 1 to the
  -- configured number of events each of which passes Validate at a time that the handler read from
  -- the clock before, after the limiter, if there is one, has let this number pass; the analytics are asked only for a range that is not empty and at most
  -- 31 days long; a subscription is stored only enabled and after ValidateEndpoint has let its
  -- endpoint pass; a tenant's name has 1 to 200 bytes.
  pub serve-AreCallsChecked :
      (route : Route) (r : Request) → AreCallsChecked h env r (serve h env route r []).1
  serve-AreCallsChecked route r = (serve-AreCallsLawful route r).1
