-- ===== src/Webhook/Dispatcher.antt =====
-- Dispatcher of internal/webhook/resilience.go: the delivery of one event to one endpoint, with its
-- circuit breaker, its bulkhead and its retries. The endpoint check, the clock, the HTTP client, the
-- random jitter, the timers and the context are answers of an environment. Other deliveries to the
-- endpoint use its breaker too: what they do to it comes before each use that this one makes.
pub mod Schedule
pub mod Probe
pub mod Slots
use pulse_data.Prelude.{
  ℕ, zero, suc, ◌+◌, ◌-◌, ◌*◌, ◌/◌, ◌%◌, ltb, leb, if◌then◌else◌, ◌||◌, Bool, true, false, Option,
  none, some, List, [], ◌∷◌, ◌++◌, get_elem?,
}
use mathlib.Core.List.{lookup}
use pulse_data.Prelude.Map.{Map, insert}
use pulse_data.Prelude.Text.{Text, Text-discrete, codes, decimal}
use pulse_data.Prelude.History.{Run, pure, call, ◌>>=◌, ◌>>◌}
use pulse_data.Events.{Event, Time}
use pulse_data.Events.Validate.{second}
use pulse_data.Errors.{Error, plain, Result, ok, err}
use pulse_data.Webhook.Breaker
use pulse_data.Webhook.Breaker.{CircuitBreaker, new_circuit_breaker, allow, success, failure}
use pulse_data.Webhook.Bulkhead.{Bulkhead, new_bulkhead, acquire, release, or_wait}
use pulse_data.Webhook.Signature.{Hmac, signature, unix_text}

pub record Delivery : Type 0 where
  pub endpoint : Text
  pub secret : List ℕ
  pub event : Event

-- The HTTP request of a delivery: a POST with a JSON body and the headers X-Pulse-Timestamp,
-- X-Pulse-Event-Id and X-Pulse-Signature.
pub record Request : Type 0 where
  pub url : Text
  pub timestamp : Text
  pub event_id : Text
  pub signature : Text
  pub body : List ℕ

pub data Call : Type 0 where
  checked : Text → Option Error → Call
  clocked : Time → Call
  acquired : Option Error → Call
  posted : Request → Result ℕ → Call
  jittered : ℕ → Call
  slept : ℕ → Bool → Call

-- `make_request` is the error of http.NewRequestWithContext; `post` answers with the status code;
-- `acquire` answers that a slot was taken, or with the error of the context that ended first;
-- `jitter` is a number that is cut down below its bound, as rand.Int64N answers; `sleep` answers
-- whether the timer fired before the context ended, whose error is `context_error`; `meanwhile` is
-- what other deliveries have done to the breaker since this one used it last.
pub record Env : Type 0 where
  pub hmac : Hmac
  pub marshal : Event → Result (List ℕ)
  pub make_request : Text → Option Error
  pub check_endpoint : Text → List Call → Option Error
  pub now : List Call → Time
  pub acquire : List Call → Option Error
  pub post : Request → List Call → Result ℕ
  pub jitter : ℕ → List Call → ℕ
  pub sleep : ℕ → List Call → Bool
  pub meanwhile : List Call → List Breaker.Op
  pub context_error : Error

pub record Dispatcher : Type 0 where
  pub max_retries : ℕ
  pub bulkhead_limit : ℕ
  pub breakers : Map Text CircuitBreaker
  pub bulkheads : Map Text Bulkhead

-- An index out of range panics.
pub data Delivered : Type 0 where
  returned : Option Error → Delivered
  panicked : Delivered

unfoldable pub new_dispatcher : ℕ → ℕ → Dispatcher
new_dispatcher concurrency max_retries = record {
  max_retries = max_retries;
  bulkhead_limit = if ltb concurrency 1 then 1 else concurrency;
  breakers = [];
  bulkheads = [];
}

abbrev pub backoff : List ℕ
backoff = (1 * second) ∷ (5 * second) ∷ (30 * second) ∷ (300 * second) ∷ (1800 * second) ∷ []

abbrev pub or_new : {A : Type 0} → Option A → A → A
or_new (some a) b = a
or_new none b = b

-- send takes a status below 200 or from 300 on for an error.
abbrev pub status_error : Result ℕ → Option Error
status_error (err e) = some e
status_error (ok status) =
    if ltb status 200 || leb 300 status
    then some (plain (codes "webhook returned status " ++ decimal status))
    else none

-- The wait between two attempts is over, or the context ended, or there is no backoff left.
pub data Pause : Type 0 where
  elapsed cancelled out_of_range : Pause

abbrev pub err_circuit_open : Error
err_circuit_open = plain (codes "circuit breaker is open")

abbrev pub set_breaker : Text → CircuitBreaker → Dispatcher → Dispatcher
set_breaker endpoint b d = record d { breakers = insert Text-discrete endpoint b d.breakers }

abbrev pub set_bulkhead : Text → Bulkhead → Dispatcher → Dispatcher
set_bulkhead endpoint k d = record d { bulkheads = insert Text-discrete endpoint k d.bulkheads }

-- endpointCircuitBreaker
unfoldable pub endpoint_circuit_breaker : Text → Dispatcher → CircuitBreaker
unfolding new_circuit_breaker
endpoint_circuit_breaker endpoint d =
    or_new (lookup Text-discrete endpoint d.breakers) (new_circuit_breaker 3 (60 * second))

module _ (env : Env) where
  abbrev pub clock : Run Call Time
  clock = call env.now clocked

  -- The breaker as this delivery finds it.
  abbrev pub shared : CircuitBreaker → Run Call CircuitBreaker
  shared b h = (Breaker.run (env.meanwhile h) b, h)

  -- The request is made, or http.NewRequestWithContext has refused.
  abbrev pub after_request : Delivery → List ℕ → Option Error → Run Call (Option Error)
  after_request x body (some e) = pure (some e)
  after_request x body none = do
    now ← clock
    let request : Request = record {
      url = x.endpoint;
      timestamp = unix_text now;
      event_id = x.event.event_id;
      signature = signature env.hmac x.secret x.event now body;
      body = body;
    }
    status ← call (env.post request) (posted request)
    pure (status_error status)

  unfoldable pub send : Delivery → List ℕ → Run Call (Option Error)
  send x body = after_request x body (env.make_request x.endpoint)

  abbrev pub after_backoff : Option ℕ → Run Call Pause
  after_backoff none = pure out_of_range
  after_backoff (some wait) = do
    r ← call (env.jitter (wait / 5)) jittered
    let delay = wait + r % (wait / 5)
    fired ← call (env.sleep delay) (slept delay)
    pure (if fired then elapsed else cancelled)

  -- The wait after a failed attempt, up to a fifth longer than its backoff.
  unfoldable pub pause : ℕ → Run Call Pause
  pause attempt = after_backoff (get_elem? backoff attempt)

  -- What follows a send: a success is reported, or a failure, after which `rest` goes on.
  abbrev pub after_send :
      (Error → CircuitBreaker → Run Call (Delivered × CircuitBreaker))
      → CircuitBreaker
      → Option Error
      → Run Call (Delivered × CircuitBreaker)
  after_send rest b none = do b' ← shared b; pure (returned none, success b')
  after_send rest b (some e) = do now ← clock; b' ← shared b; rest e (failure now b')

  abbrev pub after_pause :
      Run Call (Delivered × CircuitBreaker)
      → CircuitBreaker
      → Pause
      → Run Call (Delivered × CircuitBreaker)
  after_pause rest b elapsed = rest
  after_pause rest b cancelled = pure (returned (some env.context_error), b)
  after_pause rest b out_of_range = pure (panicked, b)

  -- The loop of Deliver from an attempt on, with the number of retries that are left.
  unfoldable pub attempts :
      Delivery → List ℕ → ℕ → ℕ → CircuitBreaker → Run Call (Delivered × CircuitBreaker)
  unfolding send pause
  attempts x body zero attempt b =
      send x body >>= after_send (λ e b'. pure (returned (some e), b')) b
  attempts x body (suc left) attempt b =
      send x body
      >>= after_send
          (λ e b'. pause attempt >>= after_pause (attempts x body left (suc attempt) b') b') b

  -- Deliver once the slot is taken: it is given back on every way out.
  unfoldable pub deliver_body :
      Delivery
      → CircuitBreaker
      → Bulkhead
      → Dispatcher
      → Result (List ℕ)
      → Run Call (Delivered × Dispatcher)
  unfolding attempts release insert
  deliver_body x b k d (err e) =
      pure (returned (some e), set_bulkhead x.endpoint (or_wait k (release k)) d)
  deliver_body x b k d (ok body) = do
    (r, b') ← attempts x body d.max_retries 0 b
    pure (r, set_bulkhead x.endpoint (or_wait k (release k)) (set_breaker x.endpoint b' d))

  -- Acquire has answered.
  abbrev pub after_acquire :
      Delivery
      → CircuitBreaker
      → Bulkhead
      → Dispatcher
      → Option Error
      → Run Call (Delivered × Dispatcher)
  after_acquire x b k d (some e) = pure (returned (some e), set_bulkhead x.endpoint k d)
  after_acquire x b k d none =
      let k' = or_wait k (acquire k) in
      deliver_body x b k' (set_bulkhead x.endpoint k' d) (env.marshal x.event)

  -- Allow has answered.
  abbrev pub after_allow :
      Delivery → Dispatcher → Bool × CircuitBreaker → Run Call (Delivered × Dispatcher)
  after_allow x d (false, b) = pure (returned (some err_circuit_open), set_breaker x.endpoint b d)
  after_allow x d (true, b) =
      let d' = set_breaker x.endpoint b d in
      let k =
        or_new (lookup Text-discrete x.endpoint d.bulkheads) (new_bulkhead d.bulkhead_limit) in
      call env.acquire acquired >>= after_acquire x b k d'

  -- ValidateEndpoint has answered.
  abbrev pub after_check : Delivery → Dispatcher → Option Error → Run Call (Delivered × Dispatcher)
  after_check x d (some e) = pure (returned (some e), d)
  after_check x d none = do
    now ← clock
    b ← shared (endpoint_circuit_breaker x.endpoint d)
    after_allow x d (allow now b)

  unfoldable pub deliver : Delivery → Dispatcher → Run Call (Delivered × Dispatcher)
  deliver x d = call (env.check_endpoint x.endpoint) (checked x.endpoint) >>= after_check x d
