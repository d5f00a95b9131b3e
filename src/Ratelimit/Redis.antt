-- ===== src/Ratelimit/Redis.antt =====
-- Redis of internal/ratelimit/redis.go with its script, which the server runs as one step. The
-- server's clock counts microseconds. A number that Lua hands to HSET is read back as it was, and
-- so is a float that go-redis sends.
use mathlib.Core.List.{lookup}
use pulse_data.Prelude.{
  ℕ, ◌+◌, ◌*◌, ◌/◌, ◌%◌, ◌==◌, ltb, if◌then◌else◌, Bool, true, false, Option, none, some, ◌++◌,
}
use pulse_data.Prelude.Map.{Map, insert}
use pulse_data.Prelude.Text.{Text, Text-discrete, codes, decimal}
use pulse_data.Events.Validate.{refusal}
use pulse_data.Errors.{Error, nil, cons, wrap, wraps, message, Result, ok, err}
use pulse_data.Ratelimit.{Float, err_unavailable}

-- The hash under a key, with the microsecond at which it expires.
pub record Hash (F : Type 0) : Type 0 where
  pub tokens : F
  pub timestamp : F
  pub expires : ℕ

abbrev pub Keys : Type 0 → Type 0
Keys F = Map Text (Hash F)

-- The limit and the window, in nanoseconds.
pub record Redis : Type 0 where
  pub limit : ℕ
  pub window : ℕ

-- The key of a tenant, after `prefix`.
abbrev pub key_of : Text → Text
key_of tenant_id = codes "pulse:rate:" ++ tenant_id

abbrev pub live : {F : Type 0} → ℕ → Option (Hash F) → Option (Hash F)
live now none = none
live now (some s) = if ltb now s.expires then some s else none

abbrev pub at_least_one : ℕ → ℕ
at_least_one n = if ltb n 1 then 1 else n

-- The window in milliseconds, rounded up.
abbrev pub ttl_of : ℕ → ℕ
ttl_of window = at_least_one (window / 1_000_000 + (if window % 1_000_000 == 0 then 0 else 1))

-- The script has answered.
abbrev pub result : ℕ → Result Bool
result n =
    if n == 0
    then ok false
    else if n == 1
    then ok true
    else err (
        wrap (message err_unavailable ++ (codes ": unexpected token bucket result " ++ decimal n))
          err_unavailable)

module _ {F : Type 0} (f : Float F) where
  -- math.min
  abbrev pub min : F → F → F
  min a b = if f.lt b a then b else a

  -- The tokens and the timestamp that the script goes on with.
  abbrev pub refill : F → F → F → Option (Hash F) → F × F
  refill capacity refill_rate now none = (capacity, now)
  refill capacity refill_rate now (some s) =
      let elapsed = f.sub now s.timestamp in
      if f.lt (f.of_nat 0) elapsed
      then (min capacity (f.add s.tokens (f.mul elapsed refill_rate)), now)
      else (s.tokens, s.timestamp)

  abbrev pub store : ℕ → Text → F → F → ℕ → Keys F → Keys F
  store now key tokens timestamp ttl keys =
      insert Text-discrete key
        (record { tokens = tokens; timestamp = timestamp; expires = now + ttl * 1000 }) keys

  abbrev pub take : ℕ → Text → ℕ → ℕ → F × F → Keys F → ℕ × Keys F
  take now key ttl amount (tokens, timestamp) keys =
      if f.le (f.of_nat amount) tokens
      then (1, store now key (f.sub tokens (f.of_nat amount)) timestamp ttl keys)
      else (0, store now key tokens timestamp ttl keys)

  -- tokenBucketLua, at a microsecond of the server.
  unfoldable pub script : ℕ → Text → ℕ → F → ℕ → ℕ → Keys F → ℕ × Keys F
  script now key capacity refill_rate ttl amount keys =
      take now key ttl amount
        (refill (f.of_nat capacity) refill_rate (f.of_nat now)
          (live now (lookup Text-discrete key keys)))
        keys

  -- AllowN: `failure` is the error of the call, after which the script has not run.
  unfoldable pub run_script : Option Error → ℕ → Text → ℕ → Redis → Keys F → Result Bool × Keys F
  unfolding script
  run_script (some e) now tenant_id amount r keys = (
    err (
        wraps (message err_unavailable ++ (codes ": " ++ message e))
          (cons err_unavailable (cons e nil))),
    keys,
  )
  run_script none now tenant_id amount r keys =
      let (n, keys') =
        script now (key_of tenant_id) r.limit
          (f.div (f.of_nat r.limit) (f.of_nat (at_least_one (r.window / 1000)))) (ttl_of r.window)
          amount keys in
      (result n, keys')

  unfoldable pub allow_n : Option Error → ℕ → Text → ℕ → Redis → Keys F → Result Bool × Keys F
  unfolding run_script
  allow_n failure now tenant_id amount r keys =
      if amount == 0
      then (ok true, keys)
      else if r.limit == 0
      then (ok true, keys)
      else if r.window == 0
      then (err (refusal err_unavailable "rate limit window must be positive"), keys)
      else run_script failure now tenant_id amount r keys
