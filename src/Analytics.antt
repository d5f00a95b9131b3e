-- ===== src/Analytics.antt =====
-- internal/analytics/clickhouse.go: NewClickHouse, RecordBatch and the rows of Summary. What the
-- driver does is answers of an environment to the calls so far; the query of Summary is left out.
pub mod Whole
use pulse_data.Prelude.{Option, none, some, List, [], ◌∷◌}
use pulse_data.Prelude.History.{Run, pure, call, ◌>>=◌, ◌>>◌}
use pulse_data.Events.{Event}
use pulse_data.Errors.{Error, Result, ok, err}
use pulse_data.Api.{Summary}

pub data Call : Type 0 where
  opened : Option Error → Call
  pinged : Option Error → Call
  closed : Call
  prepared : Option Error → Call
  appended : Event → Option Error → Call
  sent : Option Error → Call

pub record Env : Type 0 where
  pub open_connection : List Call → Option Error
  pub ping : List Call → Option Error
  pub prepare : List Call → Option Error
  pub append : Event → List Call → Option Error
  pub send : List Call → Option Error

module _ (env : Env) where
  abbrev pub after_ping : Option Error → Run Call (Option Error)
  after_ping none = pure none
  after_ping (some e) = call (λ _. tt) (λ _. closed) >> pure (some e)

  abbrev pub after_open : Option Error → Run Call (Option Error)
  after_open (some e) = pure (some e)
  after_open none = call env.ping pinged >>= after_ping

  unfoldable pub new_click_house : Run Call (Option Error)
  new_click_house = call env.open_connection opened >>= after_open

  -- The loop of RecordBatch: an event was appended, or was not.
  abbrev pub after_append : Run Call (Option Error) → Option Error → Run Call (Option Error)
  after_append rest (some e) = pure (some e)
  after_append rest none = rest

  unfoldable pub append_all : List Event → Run Call (Option Error)
  append_all [] = call env.send sent
  append_all (e ∷ es) = call (env.append e) (appended e) >>= after_append (append_all es)

  abbrev pub after_prepare : List Event → Option Error → Run Call (Option Error)
  after_prepare batch (some e) = pure (some e)
  after_prepare batch none = append_all batch

  unfoldable pub record_batch : List Event → Run Call (Option Error)
  unfolding append_all
  record_batch [] = pure none
  record_batch (e ∷ es) = call env.prepare prepared >>= after_prepare (e ∷ es)

abbrev pub cons_row : Result Summary → Result (List Summary) → Result (List Summary)
cons_row (err e) rest = err e
cons_row (ok row) (err e) = err e
cons_row (ok row) (ok rows) = ok (row ∷ rows)

-- The loop of Summary: the rows as Scan reads them, with the error of the rows at their end.
unfoldable pub scan_rows : Option Error → List (Result Summary) → Result (List Summary)
scan_rows none [] = ok []
scan_rows (some e) [] = err e
scan_rows last (row ∷ rows) = cons_row row (scan_rows last rows)
