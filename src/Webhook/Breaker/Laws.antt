-- ===== src/Webhook/Breaker/Laws.antt =====
-- What the circuit breaker of internal/webhook/resilience.go promises, for every interleaving of
-- its methods.
use pulse_data.Prelude.{
  ℕ, ◌+◌, ◌≤◌, ◌<◌, ◌≡◌, ◌≢◌, ◌↔◌, refl, Bool, true, false, List, [], ◌∷◌, arith, All, ltb,
  if◌then◌else◌,
}
use pulse_data.Events.{Time}
use pulse_data.Webhook.Breaker.{
  closed, open_circuit, half_open, CircuitBreaker, new_circuit_breaker, allow, success, failure, Op,
  allow_at, succeed, fail_at, apply, run,
}

-- The threshold is positive; the breaker is closed exactly below it; a probe flies only when it is
-- half open.
pub record IsValid (b : CircuitBreaker) : Type 0 where
  pub threshold_positive : 1 ≤ b.threshold
  pub closed_below : b.state ≡ closed → b.failures < b.threshold
  pub tripped_at : b.state ≢ closed → b.threshold ≤ b.failures
  pub probe_half_open : b.probe_in_flight ≡ true → b.state ≡ half_open

pub new-IsValid : (threshold cooldown : ℕ) → IsValid (new_circuit_breaker threshold cooldown)
unfolding new_circuit_breaker
new-IsValid threshold cooldown = ground arith

pub apply-IsValid : (op : Op) (b : CircuitBreaker) → IsValid b → IsValid (apply op b)
unfolding apply
apply-IsValid (allow_at now) b v = ground arith
apply-IsValid succeed b v = ground arith
apply-IsValid (fail_at now) b v = ground arith

pub run-IsValid : (ops : List Op) (b : CircuitBreaker) → IsValid b → IsValid (run ops b)
unfolding run
run-IsValid [] b v = v
run-IsValid (op ∷ ops) b v = run-IsValid ops (apply op b) (apply-IsValid op b v)

-- The failures since the last success, of `n` before the calls.
abbrev pub failures_since_success : ℕ → List Op → ℕ
failures_since_success n [] = n
failures_since_success n (allow_at now ∷ ops) = failures_since_success n ops
failures_since_success n (succeed ∷ ops) = failures_since_success 0 ops
failures_since_success n (fail_at now ∷ ops) = failures_since_success (n + 1) ops

run_counts :
    (ops : List Op) (b : CircuitBreaker)
    → ((run ops b).failures ≡ failures_since_success b.failures ops)
      × ((run ops b).threshold ≡ b.threshold)
unfolding run apply
run_counts [] b = (refl, refl)
run_counts (allow_at now ∷ ops) b = ground (arith, run_counts ops (allow now b).1)
run_counts (succeed ∷ ops) b = run_counts ops (success b)
run_counts (fail_at now ∷ ops) b = ground (arith, run_counts ops (failure now b))

-- After any calls on a new breaker it is closed exactly if fewer failures than the threshold came
-- after the last success; a threshold below 1 stands for 3.
pub run-closed_iff :
    (threshold cooldown : ℕ) (ops : List Op)
    → ((run ops (new_circuit_breaker threshold cooldown)).state ≡ closed)
      ↔ (failures_since_success 0 ops < (if ltb threshold 1 then 3 else threshold))
unfolding new_circuit_breaker
run-closed_iff threshold cooldown ops = ground (
  arith,
  run-IsValid ops (new_circuit_breaker threshold cooldown) (new-IsValid threshold cooldown),
  run_counts ops (new_circuit_breaker threshold cooldown),
)

-- Before the cooldown is over an open breaker refuses and stays as it is.
pub allow_open :
    (now : Time) (b : CircuitBreaker)
    → b.state ≡ open_circuit
    → now < b.opened_at + b.cooldown
    → allow now b ≡ (false, b)
unfolding allow
allow_open now b o h = ground arith

-- The answers of a sequence of calls of Allow.
abbrev pub answers : List Time → CircuitBreaker → List Bool
answers [] b = []
answers (now ∷ ts) b = (allow now b).0 ∷ answers ts (allow now b).1

abbrev pub IsProbing : CircuitBreaker → Type 0
IsProbing b = (b.state ≡ half_open) × (b.probe_in_flight ≡ true)

pub allow-IsProbing : (now : Time) (b : CircuitBreaker) → IsProbing b → allow now b ≡ (false, b)
unfolding allow
allow-IsProbing now b p = ground arith

pub opened_probe :
    (now : Time) (b : CircuitBreaker)
    → IsValid b
    → b.state ≡ open_circuit
    → b.opened_at + b.cooldown ≤ now
    → ((allow now b).0 ≡ true) × IsProbing (allow now b).1
unfolding allow
opened_probe now b v o h = ground arith

pub refusals :
    (ts : List Time) (b : CircuitBreaker) → IsProbing b → All (λ r. r ≡ false) (answers ts b)
refusals [] b p = tt
refusals (now ∷ ts) b p = rw (allow-IsProbing now b p) (refl, refusals ts b p)

-- Once the cooldown is over an open breaker lets one call through and refuses all that follow it,
-- at any time, until a success or a failure is reported.
pub allow_one_probe :
    (now : Time) (ts : List Time) (b : CircuitBreaker)
    → IsValid b
    → b.state ≡ open_circuit
    → b.opened_at + b.cooldown ≤ now
    → ((allow now b).0 ≡ true) × All (λ r. r ≡ false) (answers ts (allow now b).1)
allow_one_probe now ts b v o h =
    let (first, probing) = opened_probe now b v o h in (first, refusals ts (allow now b).1 probing)

-- A failed probe opens the breaker again, from the time of the failure.
pub failure_reopens :
    (now : Time) (b : CircuitBreaker)
    → IsValid b
    → b.state ≡ half_open
    → let b' = failure now b in
      (b'.state ≡ open_circuit) × (b'.opened_at ≡ now) × (b'.probe_in_flight ≡ false)
unfolding failure
failure_reopens now b v h = ground arith
