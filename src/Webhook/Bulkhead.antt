-- ===== src/Webhook/Bulkhead.antt =====
-- Bulkhead of internal/webhook/resilience.go: a channel with a slot for each delivery to one
-- endpoint. A send on a full channel and a receive on an empty one wait.
use pulse_data.Prelude.{ℕ, ◌+◌, ◌-◌, ltb, if◌then◌else◌, Option, none, some}

pub record Bulkhead : Type 0 where
  pub limit : ℕ
  pub used : ℕ

unfoldable pub new_bulkhead : ℕ → Bulkhead
new_bulkhead limit = record { limit = if ltb limit 1 then 1 else limit; used = 0 }

-- The send of Acquire, which waits if the answer is `none`.
unfoldable pub acquire : Bulkhead → Option Bulkhead
acquire b = if ltb b.used b.limit then some (record b { used = b.used + 1 }) else none

unfoldable pub release : Bulkhead → Option Bulkhead
release b = if ltb 0 b.used then some (record b { used = b.used - 1 }) else none

-- What is left of a bulkhead whose call waits is what it was.
abbrev pub or_wait : Bulkhead → Option Bulkhead → Bulkhead
or_wait b none = b
or_wait b (some b') = b'
