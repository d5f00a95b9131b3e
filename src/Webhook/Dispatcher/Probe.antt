-- ===== src/Webhook/Dispatcher/Probe.antt =====
-- The probe of a half-open breaker in Deliver of internal/webhook/resilience.go. Allow marks it as
-- under way; the returns between Allow and the first attempt report neither a success nor a failure.
use pulse_data.Prelude.{◌+◌, ◌≤◌, ◌≡◌, sym, All, Bool, true, none, some, List, [], ◌∷◌}
use mathlib.Core.Path.{subst}
use mathlib.Core.List.{lookup}
use pulse_data.Prelude.Map.{lookup-insert_self}
use pulse_data.Prelude.Text.{Text, Text-discrete}
use pulse_data.Errors.{Error}
use pulse_data.Webhook.Breaker
use pulse_data.Webhook.Breaker.{CircuitBreaker, open_circuit, allow, allow_at, succeed, fail_at}
use pulse_data.Webhook.Breaker.Laws.{IsValid, IsProbing, opened_probe, allow-IsProbing}
use pulse_data.Webhook.Dispatcher.{
  Delivery, Call, checked, clocked, Env, Dispatcher, Delivered, returned, err_circuit_open,
  endpoint_circuit_breaker, deliver,
}

-- The breaker of the endpoint waits for the outcome of a probe.
abbrev pub IsStuck : Text → Dispatcher → Type 0
IsStuck endpoint d =
    (b : CircuitBreaker) × (lookup Text-discrete endpoint d.breakers ≡ some b) × IsProbing b

-- The call of another delivery reports no outcome.
abbrev pub IsAllow : Breaker.Op → Type 0
IsAllow (allow_at now) = Unit
IsAllow succeed = ⊥
IsAllow (fail_at now) = ⊥

allows-IsProbing :
    (ops : List Breaker.Op) (b : CircuitBreaker)
    → All IsAllow ops
    → IsProbing b
    → IsProbing (Breaker.run ops b)
unfolding Breaker.run Breaker.apply allow
allows-IsProbing [] b quiet p = p
allows-IsProbing (allow_at now ∷ ops) b (q, quiet) p =
    subst (λ (r : Bool × CircuitBreaker). IsProbing (Breaker.run ops r.1))
      (sym (allow-IsProbing now b p)) (allows-IsProbing ops b quiet p)
allows-IsProbing (succeed ∷ ops) b (q, quiet) p = absurd q
allows-IsProbing (fail_at now ∷ ops) b (q, quiet) p = absurd q

-- The histories when the clock is read, and when the breaker is asked.
abbrev pub at_clock : Delivery → List Call → List Call
at_clock x h = checked x.endpoint none ∷ h

abbrev pub at_allow : Env → Delivery → List Call → List Call
at_allow env x h = clocked (env.now (at_clock x h)) ∷ at_clock x h

-- The breaker as a delivery finds it.
abbrev pub found_breaker : Env → Delivery → Dispatcher → List Call → CircuitBreaker
found_breaker env x d h =
    Breaker.run (env.meanwhile (at_allow env x h)) (endpoint_circuit_breaker x.endpoint d)

-- A delivery that meets a stuck breaker is refused, and leaves it stuck.
IsStuck-refuses :
    (env : Env) (x : Delivery) (d : Dispatcher) (h : List Call)
    → env.check_endpoint x.endpoint h ≡ none
    → All IsAllow (env.meanwhile (at_allow env x h))
    → IsStuck x.endpoint d
    → ((deliver env x d h).0.0 ≡ returned (some err_circuit_open))
      × IsStuck x.endpoint (deliver env x d h).0.1
unfolding deliver endpoint_circuit_breaker
IsStuck-refuses env x d h checks quiet (b, found, p) =
    let now = env.now (at_clock x h) in
    let b' = Breaker.run (env.meanwhile (at_allow env x h)) b in
    let p' = allows-IsProbing (env.meanwhile (at_allow env x h)) b quiet p in
    let blocked = allow-IsProbing now b' p' in
    (
      rw (checks, found, blocked),
      (
        b',
        rw (checks, found, blocked) (lookup-insert_self Text-discrete x.endpoint b' d.breakers),
        p',
      ),
    )

-- Deliveries one after another, each in an environment and with a history of its own.
abbrev pub outcomes : Delivery → List (Env × List Call) → Dispatcher → List Delivered
outcomes x [] d = []
outcomes x ((env, h) ∷ later) d = let ((r, d'), h') = deliver env x d h in r ∷ outcomes x later d'

-- The endpoint passes its check, and no other delivery to it reports an outcome meanwhile.
abbrev pub IsUndisturbed : Delivery → Env × List Call → Type 0
IsUndisturbed x (env, h) =
    (env.check_endpoint x.endpoint h ≡ none) × All IsAllow (env.meanwhile (at_allow env x h))

stuck_forever :
    (x : Delivery) (later : List (Env × List Call)) (d : Dispatcher)
    → All (IsUndisturbed x) later
    → IsStuck x.endpoint d
    → All (λ r. r ≡ returned (some err_circuit_open)) (outcomes x later d)
stuck_forever x [] d c s = tt
stuck_forever x ((env, h) ∷ later) d ((checks, quiet), cs) s =
    let (refused, stuck) = IsStuck-refuses env x d h checks quiet s in
    (refused, stuck_forever x later (deliver env x d h).0.1 cs stuck)

granted_pair : (r : Bool × CircuitBreaker) → r.0 ≡ true → r ≡ (true, r.1)
granted_pair r q = λ i. (q i, r.1)

module _ (env : Env) (x : Delivery) (d : Dispatcher) (e : Error) where
  cancelled_probe :
      IsValid (found_breaker env x d [])
      → (found_breaker env x d []).state ≡ open_circuit
      → env.check_endpoint x.endpoint [] ≡ none
      → (found_breaker env x d []).opened_at + (found_breaker env x d []).cooldown
        ≤ env.now (at_clock x [])
      → env.acquire (at_allow env x []) ≡ some e
      → IsStuck x.endpoint (deliver env x d []).0.1
  unfolding deliver
  cancelled_probe v o checks due full =
      let now = env.now (at_clock x []) in
      let b = found_breaker env x d [] in
      let (granted, probing) = opened_probe now b v o due in
      let b' = (allow now b).1 in
      (
        b',
        rw (checks, granted_pair (allow now b) granted, full)
            (lookup-insert_self Text-discrete x.endpoint b' d.breakers),
        probing,
      )

  -- If a delivery finds the breaker of its endpoint open and cooled down, and its context ends
  -- while it acquires a slot of the bulkhead, then later deliveries to the endpoint are refused at
  -- whatever time, one after another, as long as no other delivery to the endpoint, let through
  -- before, reports a success or a failure: the delivery that is the probe reports neither.
  pub cancelled_probe_blocks :
      (later : List (Env × List Call))
      → IsValid (found_breaker env x d [])
      → (found_breaker env x d []).state ≡ open_circuit
      → env.check_endpoint x.endpoint [] ≡ none
      → (found_breaker env x d []).opened_at + (found_breaker env x d []).cooldown
        ≤ env.now (at_clock x [])
      → env.acquire (at_allow env x []) ≡ some e
      → All (IsUndisturbed x) later
      → All (λ r. r ≡ returned (some err_circuit_open)) (outcomes x later (deliver env x d []).0.1)
  cancelled_probe_blocks later v o checks due full quiet =
      stuck_forever x later (deliver env x d []).0.1 quiet (cancelled_probe v o checks due full)
