-- ===== src/Webhook/Dispatcher/Schedule.antt =====
-- The attempts of a delivery of internal/webhook/resilience.go: how many, how far apart, and what a
-- delivery that returns nil has seen.
use pulse_data.Prelude.{
  ℕ, zero, suc, ◌+◌, ◌*◌, ◌/◌, ◌≤◌, ◌<◌, ◌≡◌, ◌≢◌, refl, Bool, true, false, Option, none, some,
  List, [], ◌∷◌, get_elem?, arith,
}
use native.Mathlib.Nat.{mod-lt}
use pulse_data.Prelude.History.{Run, pure, ◌>>=◌}
use pulse_data.Webhook.Claims.{delivery_lease}
use pulse_data.Webhook.Bulkhead.{Bulkhead, acquire, or_wait, new_bulkhead}
use mathlib.Core.List.{lookup}
use pulse_data.Prelude.Text.{Text-discrete}
use pulse_data.Events.Validate.{second}
use pulse_data.Errors.{Error, Result, ok, err}
use pulse_data.Webhook.Breaker
use pulse_data.Webhook.Breaker.{CircuitBreaker, failure, allow}
use pulse_data.Webhook.Dispatcher.{
  Delivery, Call, checked, clocked, acquired, posted, slept, Env, Dispatcher, Delivered, returned,
  panicked, backoff, Pause, elapsed, cancelled, out_of_range, send, after_backoff, pause,
  after_send, after_pause, attempts, deliver_body, deliver, after_acquire, after_allow, after_check,
  or_new, set_breaker, set_bulkhead, endpoint_circuit_breaker,
}

-- The time that was spent in timers.
abbrev pub total_slept : List Call → ℕ
total_slept [] = 0
total_slept (slept delay fired ∷ h) = delay + total_slept h
total_slept (_ ∷ h) = total_slept h

-- The requests that were posted.
abbrev pub posts : List Call → ℕ
posts [] = 0
posts (posted q r ∷ h) = suc (posts h)
posts (_ ∷ h) = posts h

abbrev pub longest_pause : Option ℕ → ℕ
longest_pause none = 0
longest_pause (some wait) = wait + wait / 5

-- The longest pauses from an attempt on, of which there are five.
abbrev pub longest_rest : ℕ → ℕ
longest_rest zero = 2_563_200_000_000
longest_rest (suc zero) = 2_562_000_000_000
longest_rest (suc (suc zero)) = 2_556_000_000_000
longest_rest (suc (suc (suc zero))) = 2_520_000_000_000
longest_rest (suc (suc (suc (suc zero)))) = 2_160_000_000_000
longest_rest _ = 0

longest_rest-suc :
    (attempt : ℕ)
    → longest_pause (get_elem? backoff attempt) + longest_rest (suc attempt) ≡ longest_rest attempt
longest_rest-suc zero = refl
longest_rest-suc (suc zero) = refl
longest_rest-suc (suc (suc zero)) = refl
longest_rest-suc (suc (suc (suc zero))) = refl
longest_rest-suc (suc (suc (suc (suc zero)))) = refl
longest_rest-suc (suc (suc (suc (suc (suc n))))) = refl

module _ (env : Env) where
  send-counts :
      (x : Delivery) (body : List ℕ) (h : List Call)
      → (total_slept (send env x body h).1 ≡ total_slept h)
        × (posts (send env x body h).1 ≤ suc (posts h))
  unfolding send
  send-counts x body h = ground arith

  abbrev IsPaused : ℕ → List Call → Pause × List Call → Type 0
  IsPaused longest h (p, h') = (total_slept h' ≤ total_slept h + longest) × (posts h' ≡ posts h)

  after_backoff-IsPaused :
      (wait : ℕ) (h : List Call)
      → 0 < wait / 5
      → IsPaused (longest_pause (some wait)) h (after_backoff env (some wait) h)
  after_backoff-IsPaused wait h p = let r = env.jitter (wait / 5) h in omega (arith, mod-lt r p)

  pause-IsPaused :
      (attempt : ℕ) (h : List Call)
      → IsPaused (longest_pause (get_elem? backoff attempt)) h (pause env attempt h)
  unfolding pause
  pause-IsPaused zero h = after_backoff-IsPaused (1 * second) h (omega arith)
  pause-IsPaused (suc zero) h = after_backoff-IsPaused (5 * second) h (omega arith)
  pause-IsPaused (suc (suc zero)) h = after_backoff-IsPaused (30 * second) h (omega arith)
  pause-IsPaused (suc (suc (suc zero))) h = after_backoff-IsPaused (300 * second) h (omega arith)
  pause-IsPaused (suc (suc (suc (suc zero)))) h =
      after_backoff-IsPaused (1800 * second) h (omega arith)
  pause-IsPaused (suc (suc (suc (suc (suc n))))) h = (omega arith, refl)

  pause_in_range :
      (attempt : ℕ) (h : List Call) → attempt < 5 → (pause env attempt h).0 ≢ out_of_range
  unfolding pause
  pause_in_range zero h l = ground arith
  pause_in_range (suc zero) h l = ground arith
  pause_in_range (suc (suc zero)) h l = ground arith
  pause_in_range (suc (suc (suc zero))) h l = ground arith
  pause_in_range (suc (suc (suc (suc zero)))) h l = ground arith
  pause_in_range (suc (suc (suc (suc (suc n))))) h l = absurd (omega arith)

  -- What the attempts from one on have done since `h`, with `left` retries.
  record IsScheduled (left attempt : ℕ) (h : List Call)
      (r : (Delivered × CircuitBreaker) × List Call) : Type 0 where
    slept_bound : total_slept r.1 ≤ total_slept h + longest_rest attempt
    posts_bound : posts r.1 ≤ posts h + suc left
    no_panic : r.0.0 ≢ panicked

  after_pause-IsScheduled :
      (left attempt : ℕ) (rest : Run Call (Delivered × CircuitBreaker)) (b : CircuitBreaker)
      (h h1 : List Call) (p : Pause)
      → total_slept h1 ≤ total_slept h + longest_pause (get_elem? backoff attempt)
      → posts h1 ≤ suc (posts h)
      → p ≢ out_of_range
      → IsScheduled left (suc attempt) h1 (rest h1)
      → IsScheduled (suc left) attempt h (after_pause env rest b p h1)
  after_pause-IsScheduled left attempt rest b h h1 elapsed s c r ih = record {
    slept_bound = omega (arith, longest_rest-suc attempt, ih.slept_bound);
    posts_bound = omega (arith, ih.posts_bound);
    no_panic = ih.no_panic;
  }
  after_pause-IsScheduled left attempt rest b h h1 cancelled s c r ih = record {
    slept_bound = omega (arith, longest_rest-suc attempt);
    posts_bound = omega arith;
    no_panic = λ e. cc;
  }
  after_pause-IsScheduled left attempt rest b h h1 out_of_range s c r ih = absurd (r refl)

  last_send-IsScheduled :
      (attempt : ℕ) (b : CircuitBreaker) (h h1 : List Call) (o : Option Error)
      → total_slept h1 ≡ total_slept h
      → posts h1 ≤ suc (posts h)
      → IsScheduled 0 attempt h (after_send env (λ e b'. pure (returned (some e), b')) b o h1)
  last_send-IsScheduled attempt b h h1 o s c = ground arith

  send-IsScheduled :
      (left attempt : ℕ) (rest : CircuitBreaker → Run Call (Delivered × CircuitBreaker))
      (b : CircuitBreaker) (h h1 : List Call) (o : Option Error)
      → total_slept h1 ≡ total_slept h
      → posts h1 ≤ suc (posts h)
      → attempt < 5
      → ((b' : CircuitBreaker) (h' : List Call) → IsScheduled left (suc attempt) h' (rest b' h'))
      → IsScheduled
          (suc left)
          attempt
          h
          (after_send env (λ e b'. pause env attempt >>= after_pause env (rest b') b') b o h1)
  send-IsScheduled left attempt rest b h h1 none s c l ih = record {
    slept_bound = omega arith;
    posts_bound = omega arith;
    no_panic = λ e. cc;
  }
  send-IsScheduled left attempt rest b h h1 (some e) s c l ih =
      let now = env.now h1 in
      let h2 = clocked now ∷ h1 in
      let b' = failure now (Breaker.run (env.meanwhile h2) b) in
      let (bound, same) = pause-IsPaused attempt h2 in
      let (p, h3) = pause env attempt h2 in
      after_pause-IsScheduled left attempt (rest b') b' h h3 p (omega (arith, bound))
        (omega (arith, same)) (pause_in_range attempt h2 l) (ih b' h3)

  attempts-IsScheduled :
      (x : Delivery) (body : List ℕ) (left attempt : ℕ) (b : CircuitBreaker) (h : List Call)
      → left + attempt ≤ 5
      → IsScheduled left attempt h (attempts env x body left attempt b h)
  unfolding attempts
  attempts-IsScheduled x body zero attempt b h l =
      let (o, h1) = send env x body h in
      let (s, c) = send-counts x body h in last_send-IsScheduled attempt b h h1 o s c
  attempts-IsScheduled x body (suc left) attempt b h l =
      let (o, h1) = send env x body h in
      let (s, c) = send-counts x body h in
      send-IsScheduled left attempt (attempts env x body left (suc attempt)) b h h1 o s c
        (omega arith) (λ b' h'. attempts-IsScheduled x body left (suc attempt) b' h' (omega arith))

  -- What a whole delivery has done since `h`.
  abbrev pub IsTimely : ℕ → List Call → (Delivered × Dispatcher) × List Call → Type 0
  IsTimely retries h ((r, d), h') =
      (total_slept h' ≤ total_slept h + longest_rest 0)
      × (posts h' ≤ posts h + suc retries)
      × (r ≢ panicked)

  deliver_body-IsTimely :
      (x : Delivery) (b : CircuitBreaker) (k : Bulkhead) (d : Dispatcher) (body : Result (List ℕ))
      (h : List Call)
      → d.max_retries ≤ 5
      → IsTimely d.max_retries h (deliver_body env x b k d body h)
  unfolding deliver_body
  deliver_body-IsTimely x b k d (err e) h l = (omega arith, omega arith, λ q. cc)
  deliver_body-IsTimely x b k d (ok body) h l =
      let s = attempts-IsScheduled x body d.max_retries 0 b h (omega arith) in
      (s.slept_bound, s.posts_bound, s.no_panic)

  after_acquire-IsTimely :
      (x : Delivery) (b : CircuitBreaker) (k : Bulkhead) (d : Dispatcher) (o : Option Error)
      (h : List Call)
      → d.max_retries ≤ 5
      → IsTimely d.max_retries h (after_acquire env x b k d o h)
  after_acquire-IsTimely x b k d (some e) h l = (omega arith, omega arith, λ q. cc)
  after_acquire-IsTimely x b k d none h l =
      let k' = or_wait k (acquire k) in
      deliver_body-IsTimely x b k' (set_bulkhead x.endpoint k' d) (env.marshal x.event) h l

  after_allow-IsTimely :
      (x : Delivery) (d : Dispatcher) (a : Bool × CircuitBreaker) (h : List Call)
      → d.max_retries ≤ 5
      → IsTimely d.max_retries h (after_allow env x d a h)
  after_allow-IsTimely x d (false, b) h l = (omega arith, omega arith, λ q. cc)
  after_allow-IsTimely x d (true, b) h l =
      let k =
        or_new (lookup Text-discrete x.endpoint d.bulkheads) (new_bulkhead d.bulkhead_limit) in
      after_acquire-IsTimely x b k (set_breaker x.endpoint b d) (env.acquire h)
        (acquired (env.acquire h) ∷ h) l

  after_check-IsTimely :
      (x : Delivery) (d : Dispatcher) (o : Option Error) (h : List Call)
      → d.max_retries ≤ 5
      → IsTimely d.max_retries h (after_check env x d o h)
  after_check-IsTimely x d (some e) h l = (omega arith, omega arith, λ q. cc)
  after_check-IsTimely x d none h l =
      let h' = clocked (env.now h) ∷ h in
      after_allow-IsTimely x d
        (allow (env.now h) (Breaker.run (env.meanwhile h') (endpoint_circuit_breaker x.endpoint d)))
        h' l

  deliver-IsTimely :
      (x : Delivery) (d : Dispatcher)
      → d.max_retries ≤ 5
      → IsTimely d.max_retries [] (deliver env x d [])
  unfolding deliver
  deliver-IsTimely x d l =
      let o = env.check_endpoint x.endpoint [] in
      after_check-IsTimely x d o (checked x.endpoint o ∷ []) l

  -- With at most five retries a delivery does not panic, posts at most one request more than it has
  -- retries, and its waits together with fifteen seconds for each request are shorter than the
  -- lease of a claim.
  pub deliver_within_lease :
      (x : Delivery) (d : Dispatcher)
      → d.max_retries ≤ 5
      → let ((r, d'), h) = deliver env x d [] in
        (r ≢ panicked)
        × (posts h ≤ suc d.max_retries)
        × (total_slept h + posts h * (15 * second) < delivery_lease)
  deliver_within_lease x d l =
      let (s, c, p) = deliver-IsTimely x d l in (p, omega (arith, c), omega (arith, s, c))
