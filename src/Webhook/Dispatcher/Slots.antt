-- ===== src/Webhook/Dispatcher/Slots.antt =====
-- The slots of the bulkheads in Deliver of internal/webhook/resilience.go.
use mathlib.Core.List.{lookup}
use pulse_data.Prelude.{
  ◌<◌, ◌≡◌, refl, sym, ap, ◌∙◌, ite, arith, ℕ, Bool, true, false, Option, none, some, List, ◌∷◌,
}
use pulse_data.Prelude.Map.{lookup-insert}
use pulse_data.Prelude.Text.{Text, Text-discrete}
use pulse_data.Errors.{Error, Result, ok, err}
use pulse_data.Webhook.Breaker
use pulse_data.Webhook.Breaker.{CircuitBreaker, allow}
use pulse_data.Webhook.Bulkhead.{Bulkhead, new_bulkhead, acquire, release, or_wait}
use pulse_data.Webhook.Dispatcher.{
  Delivery, Call, checked, clocked, acquired, Env, Dispatcher, or_new, set_breaker, set_bulkhead,
  endpoint_circuit_breaker, deliver_body, after_acquire, after_allow, after_check, deliver,
}

-- endpointBulkhead: the bulkhead of an endpoint, or a new one.
abbrev pub bulkhead_of : Text → Dispatcher → Bulkhead
bulkhead_of endpoint d =
    or_new (lookup Text-discrete endpoint d.bulkheads) (new_bulkhead d.bulkhead_limit)

bulkhead_of-set_bulkhead :
    (e y : Text) (k : Bulkhead) (d : Dispatcher)
    → bulkhead_of e (set_bulkhead y k d) ≡ ite (Text-discrete e y) k (bulkhead_of e d)
bulkhead_of-set_bulkhead e y k d = grind (arith, lookup-insert)

-- A slot that was free is given back.
release-acquire_eq :
    (k : Bulkhead)
    → k.used < k.limit
    → or_wait (or_wait k (acquire k)) (release (or_wait k (acquire k))) ≡ k
unfolding acquire release
release-acquire_eq k free = ground arith

-- To set a bulkhead to what it was changes none, whatever it was set to in between.
ite_same :
    (e y : Text) (d : Dispatcher) (k : Bulkhead)
    → k ≡ bulkhead_of y d
    → (decided : Dec (e ≡ y)) → ite decided k (bulkhead_of e d) ≡ bulkhead_of e d
ite_same e y d k same (yes p) = same ∙ ap (λ (z : Text). bulkhead_of z d) (sym p)
ite_same e y d k same (no p) = refl

ite_again :
    {A : Type 0} {P : Type 0} (decided : Dec P) (a b c : A)
    → ite decided a (ite decided b c) ≡ ite decided a c
ite_again (yes p) a b c = refl
ite_again (no p) a b c = refl

module _ (env : Env) (x : Delivery) (e : Text) where
  bulkhead_of-set_back :
      (k : Bulkhead) (d : Dispatcher)
      → k ≡ bulkhead_of x.endpoint d
      → bulkhead_of e (set_bulkhead x.endpoint k d) ≡ bulkhead_of e d
  bulkhead_of-set_back k d same =
      bulkhead_of-set_bulkhead e x.endpoint k d
      ∙ ite_same e x.endpoint d k same (Text-discrete e x.endpoint)

  bulkhead_of-set_again :
      (k k' : Bulkhead) (d : Dispatcher)
      → k ≡ bulkhead_of x.endpoint d
      → bulkhead_of e (set_bulkhead x.endpoint k (set_bulkhead x.endpoint k' d)) ≡ bulkhead_of e d
  bulkhead_of-set_again k k' d same =
      let decided = Text-discrete e x.endpoint in
      bulkhead_of-set_bulkhead e x.endpoint k (set_bulkhead x.endpoint k' d)
      ∙ (ap (ite decided k) (bulkhead_of-set_bulkhead e x.endpoint k' d)
          ∙ (ite_again decided k k' (bulkhead_of e d) ∙ ite_same e x.endpoint d k same decided))

  module _ (b : CircuitBreaker) (d : Dispatcher)
      (free : (bulkhead_of x.endpoint d).used < (bulkhead_of x.endpoint d).limit) where
    abbrev taken : Bulkhead
    taken = or_wait (bulkhead_of x.endpoint d) (acquire (bulkhead_of x.endpoint d))

    deliver_body-bulkhead_of :
        (r : Result (List ℕ)) (h : List Call)
        → bulkhead_of e (deliver_body env x b taken (set_bulkhead x.endpoint taken d) r h).0.1
          ≡ bulkhead_of e d
    unfolding deliver_body
    deliver_body-bulkhead_of (err z) h =
        bulkhead_of-set_again _ taken d (release-acquire_eq (bulkhead_of x.endpoint d) free)
    deliver_body-bulkhead_of (ok body) h =
        bulkhead_of-set_again _ taken d (release-acquire_eq (bulkhead_of x.endpoint d) free)

    after_acquire-bulkhead_of :
        (a : Option Error) (h : List Call)
        → bulkhead_of e (after_acquire env x b (bulkhead_of x.endpoint d) d a h).0.1
          ≡ bulkhead_of e d
    after_acquire-bulkhead_of (some z) h = bulkhead_of-set_back (bulkhead_of x.endpoint d) d refl
    after_acquire-bulkhead_of none h = deliver_body-bulkhead_of (env.marshal x.event) h

  module _ (d : Dispatcher)
      (free : (bulkhead_of x.endpoint d).used < (bulkhead_of x.endpoint d).limit) where
    after_allow-bulkhead_of :
        (r : Bool × CircuitBreaker) (h : List Call)
        → bulkhead_of e (after_allow env x d r h).0.1 ≡ bulkhead_of e d
    after_allow-bulkhead_of (false, b) h = refl
    after_allow-bulkhead_of (true, b) h =
        let a = env.acquire h in
        after_acquire-bulkhead_of b (set_breaker x.endpoint b d) free a (acquired a ∷ h)

    after_check-bulkhead_of :
        (a : Option Error) (h : List Call)
        → bulkhead_of e (after_check env x d a h).0.1 ≡ bulkhead_of e d
    after_check-bulkhead_of (some z) h = refl
    after_check-bulkhead_of none h =
        let now = env.now h in
        after_allow-bulkhead_of
          (allow now
            (Breaker.run (env.meanwhile (clocked now ∷ h)) (endpoint_circuit_breaker x.endpoint d)))
          (clocked now ∷ h)

    -- If the bulkhead of the endpoint has a free slot when Deliver is called, and no other delivery
    -- takes or gives back slots meanwhile, then however Deliver ends, with an error of the endpoint
    -- check, of the breaker, of the bulkhead, of the serialization, of the last attempt or of the
    -- context, with a panic or without an error, the bulkhead of every endpoint has as many slots
    -- taken and the same limit as before.
    pub deliver-bulkhead_of :
        (h : List Call) → bulkhead_of e (deliver env x d h).0.1 ≡ bulkhead_of e d
    unfolding deliver
    deliver-bulkhead_of h =
        let a = env.check_endpoint x.endpoint h in
        after_check-bulkhead_of a (checked x.endpoint a ∷ h)
