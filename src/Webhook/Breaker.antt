-- ===== src/Webhook/Breaker.antt =====
-- CircuitBreaker of internal/webhook/resilience.go. Each method holds the breaker's mutex, so calls
-- of several goroutines are a sequence of calls.
pub mod Laws
use pulse_data.Prelude.{
  ℕ, suc, ◌+◌, leb, ltb, if◌then◌else◌, ◌&&◌, not, Bool, true, false, List, [], ◌∷◌,
}
use pulse_data.Events.{Time}
use pulse_data.Events.Validate.{zero_time}

pub data CircuitState : Type 0 where
  closed open_circuit half_open : CircuitState

pub record CircuitBreaker : Type 0 where
  pub state : CircuitState
  pub failures : ℕ
  pub threshold : ℕ
  pub opened_at : Time
  pub cooldown : ℕ
  pub probe_in_flight : Bool

abbrev pub is_open : CircuitState → Bool
is_open open_circuit = true
is_open _ = false

abbrev pub is_half_open : CircuitState → Bool
is_half_open half_open = true
is_half_open _ = false

-- The time at which a breaker was opened is the zero time until it is.
unfoldable pub new_circuit_breaker : ℕ → ℕ → CircuitBreaker
new_circuit_breaker threshold cooldown = record {
  state = closed;
  failures = 0;
  threshold = if ltb threshold 1 then 3 else threshold;
  opened_at = zero_time;
  cooldown = cooldown;
  probe_in_flight = false;
}

-- The first test of Allow: an open breaker turns half open once the cooldown is over.
abbrev pub cool_down : Time → CircuitBreaker → CircuitBreaker
cool_down now b =
    if is_open b.state && leb (b.opened_at + b.cooldown) now
    then record b { state = half_open }
    else b

-- The rest of Allow: a half-open breaker lets one probe through.
abbrev pub admit : CircuitBreaker → Bool × CircuitBreaker
admit b =
    if is_half_open b.state
    then if b.probe_in_flight then (false, b) else (true, record b { probe_in_flight = true })
    else (not (is_open b.state), b)

unfoldable pub allow : Time → CircuitBreaker → Bool × CircuitBreaker
allow now b = admit (cool_down now b)

unfoldable pub success : CircuitBreaker → CircuitBreaker
success b = record b { state = closed; failures = 0; probe_in_flight = false }

unfoldable pub failure : Time → CircuitBreaker → CircuitBreaker
failure now b =
    let failures = b.failures + 1 in
    if leb b.threshold failures
    then record b {
      state = open_circuit;
      failures = failures;
      opened_at = now;
      probe_in_flight = false;
    }
    else record b { failures = failures; probe_in_flight = false }

-- A call of one of the methods.
pub data Op : Type 0 where
  allow_at : Time → Op
  succeed : Op
  fail_at : Time → Op

unfoldable pub apply : Op → CircuitBreaker → CircuitBreaker
unfolding allow success failure
apply (allow_at now) b = (allow now b).1
apply succeed b = success b
apply (fail_at now) b = failure now b

-- A sequence of calls, the oldest first.
unfoldable pub run : List Op → CircuitBreaker → CircuitBreaker
run [] b = b
run (op ∷ ops) b = run ops (apply op b)
