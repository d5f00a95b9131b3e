-- ===== src/Ratelimit/RedisQuota.antt =====
-- At one instant of the server Redis of internal/ratelimit/redis.go answers as the quota does.
use mathlib.Core.List.{lookup}
use mathlib.Core.Path.{subst, ap₂}
use pulse_data.Prelude.{
  ℕ, ◌+◌, ◌-◌, ◌*◌, ◌/◌, ◌^◌, ◌<◌, ◌≤◌, ◌≡◌, refl, sym, ap, ◌∙◌, arith, ltb, leb, ◌==◌, Bool, true,
  false, Option, none, some, List, [], ◌∷◌, map, All, Bool-cases, inl, inr,
}
use pulse_data.Prelude.Map.{insert}
use pulse_data.Prelude.Text.{Text, Text-discrete}
use pulse_data.Errors.{Result, ok}
use pulse_data.Ratelimit.{Float, IsExact}
use pulse_data.Ratelimit.Redis.{
  Hash, Keys, Redis, key_of, live, refill, script, at_least_one, ttl_of, result, run_script,
  allow_n,
}
use pulse_data.Ratelimit.Quota.{Granted, granted, request, answers}
use pulse_data.Ratelimit.Simulation.{Stands, Stands-insert, Stands-store, Stands-same}

pub key_of_injective : (s t : Text) → key_of s ≡ key_of t → s ≡ t
key_of_injective s t e = cc

module _ {F : Type 0} (f : Float F) (now : ℕ) (r : Redis) where
  -- The answers to requests at one microsecond of the server, while it can be reached.
  abbrev pub redis_answers : List (Text × ℕ) → Keys F → List (Result Bool)
  redis_answers [] keys = []
  redis_answers ((tenant_id, amount) ∷ requests) keys =
      let (a, keys') = allow_n f none now tenant_id amount r keys in
      a ∷ redis_answers requests keys'

  module _ (exact : IsExact f) (some_limit : 0 < r.limit) (small : r.limit ≤ 2 ^ 53)
      (some_window : 0 < r.window) (early : now ≤ 2 ^ 53) where
    abbrev Fits : ℕ → Option (Hash F) → Type 0
    Fits k none = k ≡ 0
    Fits k (some s) =
        (s.tokens ≡ f.of_nat (r.limit - k)) × (s.timestamp ≡ f.of_nat now) × (now < s.expires)

    abbrev Holds : Keys F → Granted → Type 0
    Holds = Stands key_of key_of_injective r.limit Fits

    abbrev IsAgreed : Result Bool × Keys F → Bool × Granted → Type 0
    IsAgreed (a, keys) (b, g) = (a ≡ ok b) × Holds keys g

    -- No time has passed, and nothing has expired.
    refill_lem :
        (k : ℕ) (rate : F) (o : Option (Hash F))
        → Fits k o
        → refill f (f.of_nat r.limit) rate (f.of_nat now) (live now o)
          ≡ (f.of_nat (r.limit - k), f.of_nat now)
    refill_lem k rate none e = ground (arith, e)
    refill_lem k rate (some s) (e, same, alive) =
        let elapsed = exact.sub_nat now now (omega arith) early in
        let test = exact.lt_nat 0 (now - now) (omega arith) (omega arith) in
        ground (arith, e, same, elapsed, test)

    left_over :
        (k amount : ℕ)
        → leb amount (r.limit - k) ≡ true
        → f.sub (f.of_nat (r.limit - k)) (f.of_nat amount) ≡ f.of_nat (r.limit - (k + amount))
    left_over k amount within =
        exact.sub_nat (r.limit - k) amount (ground (arith, within)) (omega (arith, small))
        ∙ ap (λ (n : ℕ). f.of_nat n) (omega arith)

    -- The hash that the script writes, with its tokens.
    abbrev written : F → Hash F
    written tokens = record {
      tokens = tokens;
      timestamp = f.of_nat now;
      expires = now + ttl_of r.window * 1000;
    }

    lives : now < now + ttl_of r.window * 1000
    lives = ground arith

    script-IsAgreed :
        (t : Text) (amount : ℕ) (rate : F) (keys : Keys F) (g : Granted)
        → amount ≤ 2 ^ 53
        → Holds keys g
        → (let (n, keys') = script f now (key_of t) r.limit rate (ttl_of r.window) amount keys in
            IsAgreed (result n, keys') (request r.limit t amount g))
    unfolding script request
    script-IsAgreed t amount rate keys g small_amount st =
        let k = granted t g in
        let refilled = refill_lem k rate (lookup Text-discrete (key_of t) keys) (st t).1 in
        let test = exact.le_nat amount (r.limit - k) small_amount (omega (arith, small)) in
        elim (Bool-cases (leb amount (r.limit - k))) [
          | inl within ↦
              let q : ltb r.limit (k + amount) ≡ false = ground (arith, within, (st t).0) in
              rw (refilled, test, within, q)
                (
                  refl,
                  Stands-insert key_of key_of_injective r.limit Fits t (k + amount)
                      (written (f.sub (f.of_nat (r.limit - k)) (f.of_nat amount))) keys g
                      (ground (arith, q)) (left_over k amount within, refl, lives) st,
                )
          | inr over ↦
              let q : ltb r.limit (k + amount) ≡ true = ground (arith, over, (st t).0) in
              rw (refilled, test, over, q)
                (
                  refl,
                  Stands-store key_of key_of_injective r.limit Fits t
                      (written (f.of_nat (r.limit - k))) keys g (refl, refl, lives) st,
                )
        ]

    allow_n-IsAgreed :
        (t : Text) (amount : ℕ) (keys : Keys F) (g : Granted)
        → amount ≤ 2 ^ 53
        → Holds keys g
        → IsAgreed (allow_n f none now t amount r keys) (request r.limit t amount g)
    unfolding allow_n run_script request
    allow_n-IsAgreed t amount keys g small_amount st = elim (Bool-cases (amount == 0)) [
      | inl nothing ↦
          let none_asked : amount ≡ 0 = ground (arith, nothing) in
          let test : ltb r.limit (granted t g + amount) ≡ false =
            ground (arith, (st t).0, nothing) in
          rw (nothing, test)
            (
              refl,
              subst (λ n. Holds keys (insert Text-discrete t (granted t g + n) g)) (sym none_asked)
                  (Stands-same key_of key_of_injective r.limit Fits t keys g st),
            )
      | inr something ↦
          let limited : (r.limit == 0) ≡ false = ground arith in
          let windowed : (r.window == 0) ≡ false = ground arith in
          rw (something, limited, windowed)
            (script-IsAgreed t amount
              (f.div (f.of_nat r.limit) (f.of_nat (at_least_one (r.window / 1000)))) keys g
              small_amount st)
    ]

    pub redis_answers-eq-answers :
        (requests : List (Text × ℕ)) (keys : Keys F) (g : Granted)
        → All (λ q. q.1 ≤ 2 ^ 53) requests
        → Holds keys g
        → redis_answers requests keys ≡ map (λ b. ok b) (answers r.limit requests g)
    unfolding answers
    redis_answers-eq-answers [] keys g small_amounts st = refl
    redis_answers-eq-answers ((t, amount) ∷ requests) keys g (small_amount, rest) st =
        let (p, st') = allow_n-IsAgreed t amount keys g small_amount st in
        ap₂ ◌∷◌ p (
          redis_answers-eq-answers requests (allow_n f none now t amount r keys).1
            (request r.limit t amount g).1 rest st')
