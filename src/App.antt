-- ===== src/App.antt =====
-- internal/app/app.go: how the services are put together, run and taken apart. What opens a
-- resource, serves or consumes is an answer of an environment.
pub mod Setup
pub mod Services
pub mod Closing
use pulse_data.Prelude.{Bool, Option, List}
use pulse_data.Prelude.Text.{Text}
use pulse_data.Prelude.History.{Run, call}
use pulse_data.Errors.{Error}

pub data Resource : Type 0 where
  tracing postgres producer redis click_house consumer metrics_server : Resource

-- `opened` has the error of the opening, after which nothing is open; `consumed` says whether the
-- consumer has a handler for batches.
pub data Call : Type 0 where
  opened : Resource → Option Error → Call
  pinged : Option Error → Call
  closed : Resource → Call
  served : Option Error → Call
  consumed : Bool → Option Error → Call
  probed : Option Error → Call

-- `serve` is the error of ListenAndServe, but for ErrServerClosed, and `consume` that of the
-- consumer's Run; `metrics` is what the server of the metrics has failed with by then.
pub record Env : Type 0 where
  pub open_resource : Resource → List Call → Option Error
  pub parse_redis_url : Text → Option Error
  pub ping_redis : List Call → Option Error
  pub serve : List Call → Option Error
  pub consume : List Call → Option Error
  pub metrics : List Call → Option Error

abbrev pub open_with : (List Call → Option Error) → Resource → Run Call (Option Error)
open_with answer r = call answer (opened r)

abbrev pub close : Resource → Run Call (Unit {0})
close r = call (λ _. tt) (λ _. closed r)
