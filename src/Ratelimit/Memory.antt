-- ===== src/Ratelimit/Memory.antt =====
-- Memory of internal/ratelimit/limiter.go. AllowN holds the mutex from its reading of the clock on,
-- so it is one step.
use mathlib.Core.List.{lookup}
use pulse_data.Prelude.{ℕ, ◌-◌, ◌==◌, ltb, if◌then◌else◌, Bool, true, false, Option, none, some, []}
use pulse_data.Prelude.Map.{Map, insert}
use pulse_data.Prelude.Text.{Text, Text-discrete}
use pulse_data.Events.{Time}
use pulse_data.Events.Validate.{refusal}
use pulse_data.Errors.{Result, ok, err}
use pulse_data.Ratelimit.{Float, err_unavailable}

pub record Bucket (F : Type 0) : Type 0 where
  pub tokens : F
  pub timestamp : Time

pub record Memory (F : Type 0) : Type 0 where
  pub limit : ℕ
  pub rate : F
  pub items : Map Text (Bucket F)

module _ {F : Type 0} (f : Float F) where
  unfoldable pub new_memory : ℕ → ℕ → Memory F
  new_memory limit window = record {
    limit = limit;
    rate = if ltb 0 window then f.div (f.of_nat limit) (f.seconds window) else f.of_nat 0;
    items = [];
  }

  abbrev pub min : F → F → F
  min a b = if f.lt a b then a else b

  -- The bucket of a tenant at a time.
  abbrev pub refill : Memory F → Time → Option (Bucket F) → Bucket F
  refill m now none = record { tokens = f.of_nat m.limit; timestamp = now }
  refill m now (some b) =
      if ltb b.timestamp now
      then record {
        tokens =
            min (f.of_nat m.limit) (f.add b.tokens (f.mul (f.seconds (now - b.timestamp)) m.rate));
        timestamp = now;
      }
      else b

  abbrev pub set_bucket : Text → Bucket F → Memory F → Memory F
  set_bucket tenant_id b m = record m { items = insert Text-discrete tenant_id b m.items }

  abbrev pub take : Memory F → Text → ℕ → Bucket F → Result Bool × Memory F
  take m tenant_id amount b =
      if f.lt b.tokens (f.of_nat amount) then (ok false, set_bucket tenant_id b m) else (
        ok true,
        set_bucket tenant_id (record b { tokens = f.sub b.tokens (f.of_nat amount) }) m,
      )

  unfoldable pub allow_n : Time → Text → ℕ → Memory F → Result Bool × Memory F
  allow_n now tenant_id amount m =
      if amount == 0
      then (ok true, m)
      else if m.limit == 0
      then (ok true, m)
      else if f.le m.rate (f.of_nat 0)
      then (err (refusal err_unavailable "rate limit window must be positive"), m)
      else take m tenant_id amount (refill m now (lookup Text-discrete tenant_id m.items))
