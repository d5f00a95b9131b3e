-- ===== src/Platform/Config/Usable.antt =====
-- What internal/platform/config.go makes of any environment.
use pulse_data.Prelude.{
  ℕ, ◌*◌, ◌^◌, ◌<◌, ◌≡◌, refl, arith, false, Option, none, some, List, [], ◌∷◌, is_empty, All,
  String,
}
use pulse_data.Prelude.Text.{Text, codes, split}
use pulse_data.Events.Validate.{second}
use pulse_data.Platform.Config.{
  Config, ℤ, pos, negsuc, atoi, or_fallback, positive_or_fallback, keep_parts, split_list, env,
  int_env, duration_env, load,
}

-- A number that Go's int holds.
abbrev pub IsInt : ℕ → Type 0
IsInt n = n < 2 ^ 63

abbrev IsIntResult : Option ℤ → Type 0
IsIntResult none = Unit
IsIntResult (some (pos n)) = IsInt n
IsIntResult (some (negsuc n)) = Unit

atoi-IsInt : (s : Text) → IsIntResult (atoi s)
unfolding atoi
atoi-IsInt [] = tt
atoi-IsInt (c ∷ s) = ground arith

or_fallback-IsInt :
    (fallback : ℕ) (a : Option ℤ) → IsInt fallback → IsIntResult a → IsInt (or_fallback fallback a)
or_fallback-IsInt fallback none f r = f
or_fallback-IsInt fallback (some (pos n)) f r = r
or_fallback-IsInt fallback (some (negsuc n)) f r = f

positive_or_fallback_pos :
    (fallback : ℕ) (a : Option ℤ) → 0 < fallback → 0 < positive_or_fallback fallback a
positive_or_fallback_pos fallback none p = p
positive_or_fallback_pos fallback (some (pos n)) p = ground arith
positive_or_fallback_pos fallback (some (negsuc n)) p = p

keep_parts-All : (ps : List Text) → All (λ p. is_empty p ≡ false) (keep_parts ps)
unfolding keep_parts
keep_parts-All [] = tt
keep_parts-All (p ∷ ps) = ground (arith, keep_parts-All ps)

-- What holds of a configuration that Load returns. The list of brokers may be empty.
pub record IsUsable (c : Config) : Type 0 where
  pub addresses : (is_empty c.http_addr ≡ false) × (is_empty c.metrics_addr ≡ false)
  pub topic : is_empty c.kafka_topic ≡ false
  pub brokers : All (λ b. is_empty b ≡ false) c.kafka_brokers
  pub window : 0 < c.rate_window
  pub timeout : 0 < c.consumer_batch_timeout
  pub limits :
      IsInt c.rate_limit
      × IsInt c.max_payload_bytes
      × IsInt c.max_batch_bytes
      × IsInt c.max_batch_events
      × IsInt c.consumer_batch_size

module _ (getenv : Text → Text) (parse_duration : Text → Option ℤ) where
  env-is_empty :
      (k fallback : String)
      → is_empty (codes fallback) ≡ false
      → is_empty (env getenv parse_duration k fallback) ≡ false
  unfolding env
  env-is_empty k fallback f = ground (arith, f)

  int_env-IsInt :
      (k : String) (fallback : ℕ)
      → IsInt fallback
      → IsInt (int_env getenv parse_duration k fallback)
  unfolding int_env
  int_env-IsInt k fallback f =
      or_fallback-IsInt fallback (atoi (getenv (codes k))) f (atoi-IsInt (getenv (codes k)))

  duration_env_pos :
      (k : String) (fallback : ℕ) → 0 < fallback → 0 < duration_env getenv parse_duration k fallback
  unfolding duration_env
  duration_env_pos k fallback =
      positive_or_fallback_pos fallback (parse_duration (getenv (codes k)))

  -- Whatever the environment holds, Load returns a configuration whose HTTP address, metrics address
  -- and topic are not empty, in whose list of brokers, which may be empty, no broker is empty, whose
  -- rate window and batch timeout are positive, and whose rate limit, payload, batch and consumer
  -- batch sizes are integers of 64 bits that are not negative.
  pub load-IsUsable : (service : Text) → IsUsable (load getenv parse_duration service)
  unfolding load split_list
  load-IsUsable service = record {
    addresses = (
      env-is_empty "PULSE_HTTP_ADDR" ":8080" refl,
      env-is_empty "PULSE_METRICS_ADDR" ":9091" refl,
    );
    topic = env-is_empty "PULSE_KAFKA_TOPIC" "events.raw" refl;
    brokers = keep_parts-All (split b',' (getenv (codes "PULSE_KAFKA_BROKERS")));
    window = duration_env_pos "PULSE_RATE_WINDOW" (60 * second) (omega arith);
    timeout = duration_env_pos "PULSE_CONSUMER_BATCH_TIMEOUT" 10_000_000 (omega arith);
    limits = (
      int_env-IsInt "PULSE_RATE_LIMIT" 1000 (omega arith),
      int_env-IsInt "PULSE_MAX_PAYLOAD_BYTES" (2 ^ 20) (omega arith),
      int_env-IsInt "PULSE_MAX_BATCH_BYTES" (16 * 2 ^ 20) (omega arith),
      int_env-IsInt "PULSE_MAX_BATCH_EVENTS" 500 (omega arith),
      int_env-IsInt "PULSE_CONSUMER_BATCH_SIZE" 1 (omega arith),
    );
  }
