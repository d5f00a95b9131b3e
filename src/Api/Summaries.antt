-- ===== src/Api/Summaries.antt =====
-- summary of internal/api/http.go. A time before the origin of times would be the origin.
use pulse_data.Prelude.{ℕ, ◌-◌, ◌*◌, ltb, if◌then◌else◌, not, Option, none, some, List, is_empty}
use pulse_data.Prelude.Text.{Text}
use pulse_data.Prelude.History.{Run, call, ◌>>=◌}
use pulse_data.Events.{Time}
use pulse_data.Events.Validate.{second}
use pulse_data.Errors.{Result, ok, err}
use pulse_data.Auth.Tenants.{Tenant}
use pulse_data.Api.{
  Handler, Request, Response, Summary, summary_rows, Call, summarized, Env, clock, respond, fail,
}
use pulse_data.Api.Access.{authenticate}

abbrev pub day : ℕ
day = 24 * 3600 * second

-- A bound of the range: the one of the request, where it gives one; `none` if it cannot be parsed.
abbrev pub bound : (Text → Option Time) → Text → Time → Option Time
bound parse text fallback = if is_empty text then some fallback else parse text

module _ (h : Handler) (env : Env) where
  abbrev pub after_summary : Result (List Summary) → Run Call Response
  after_summary (err e) = fail 503 "analytics unavailable"
  after_summary (ok rows) = respond 200 (summary_rows rows)

  abbrev pub with_range : Request → Tenant → Time → Time → Run Call Response
  with_range r tenant from to =
      if not (ltb from to)
      then fail 400 "from must be before to"
      else if ltb (31 * day) (to - from)
      then fail 400 "analytics range cannot exceed 31 days"
      else call (env.summarize tenant.id r.type from to) (summarized tenant.id r.type from to)
        >>= after_summary

  abbrev pub after_to : Request → Tenant → Time → Option Time → Run Call Response
  after_to r tenant from none = fail 400 "invalid to"
  after_to r tenant from (some to) = with_range r tenant from to

  abbrev pub after_from : Request → Tenant → Time → Option Time → Run Call Response
  after_from r tenant now none = fail 400 "invalid from"
  after_from r tenant now (some from) = after_to r tenant from (bound env.parse_time r.to now)

  abbrev pub summarize_for : Request → Tenant → Run Call Response
  summarize_for r tenant = do
    now ← clock env
    after_from r tenant now (bound env.parse_time r.from (now - day))

  unfoldable pub summary : Request → Run Call Response
  unfolding authenticate
  summary r =
      if not h.has_analytics
      then fail 501 "analytics is not configured"
      else authenticate env r (summarize_for r)
