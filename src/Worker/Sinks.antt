-- ===== src/Worker/Sinks.antt =====
-- PersistenceHandler and AnalyticsHandler of internal/worker/handlers.go: an event, or a batch of
-- them, is written to a store. A store may have a method for a batch; the stores are answers of an
-- environment.
pub mod Saved
use pulse_data.Prelude.{
  if◌then◌else◌, ◌&&◌, not, Bool, true, false, Option, none, some, List, [], ◌∷◌,
}
use pulse_data.Prelude.History.{Run, pure, call, ◌>>=◌}
use pulse_data.Events.{Event}
use pulse_data.Errors.{Error, Result, ok, err}

-- SaveEvent tells whether the event was inserted; SaveEvents, Record and RecordBatch only fail or
-- not.
pub data Call : Type 0 where
  saved : Event → Result Bool → Call
  saved_batch : List Event → Option Error → Call
  duplicate_counted : Call
  recorded : Event → Option Error → Call
  recorded_batch : List Event → Option Error → Call

pub record Env : Type 0 where
  pub save_event : Event → List Call → Result Bool
  pub save_events : List Event → List Call → Option Error
  pub record_event : Event → List Call → Option Error
  pub record_batch : List Event → List Call → Option Error

-- The loop of both HandleBatch methods over a store without a method for a batch: it stops at the
-- first error.
abbrev pub after_handle : Run Call (Option Error) → Option Error → Run Call (Option Error)
after_handle rest none = rest
after_handle rest (some e) = pure (some e)

unfoldable pub handle_each :
    (Event → Run Call (Option Error)) → List Event → Run Call (Option Error)
handle_each handle [] = pure none
handle_each handle (event ∷ batch) = handle event >>= after_handle (handle_each handle batch)

module _ (env : Env) (has_metrics : Bool) where
  abbrev pub after_save : Result Bool → Run Call (Option Error)
  after_save (err e) = pure (some e)
  after_save (ok inserted) =
      if not inserted && has_metrics then call (λ _. none) (λ _. duplicate_counted) else pure none

  -- PersistenceHandler.Handle
  unfoldable pub persist : Event → Run Call (Option Error)
  persist event = call (env.save_event event) (saved event) >>= after_save

  -- PersistenceHandler.HandleBatch
  unfoldable pub persist_batch : Bool → List Event → Run Call (Option Error)
  persist_batch has_batch batch =
      if has_batch
      then call (env.save_events batch) (saved_batch batch)
      else handle_each persist batch

module _ (env : Env) where
  -- AnalyticsHandler.Handle
  unfoldable pub analyze : Event → Run Call (Option Error)
  analyze event = call (env.record_event event) (recorded event)

  -- AnalyticsHandler.HandleBatch
  unfoldable pub analyze_batch : Bool → List Event → Run Call (Option Error)
  analyze_batch has_batch batch =
      if has_batch
      then call (env.record_batch batch) (recorded_batch batch)
      else handle_each analyze batch
