-- ===== src/Platform/Config.antt =====
-- internal/platform/config.go. `getenv` is os.Getenv, and time.ParseDuration is a parameter that
-- answers with nanoseconds.
pub mod Usable
pub mod Numbers
use pulse_data.Prelude.{
  ℕ, suc, ◌+◌, ◌-◌, ◌*◌, ◌^◌, ◌==◌, ltb, leb, if◌then◌else◌, ◌&&◌, Bool, true, false, Option, none,
  some, List, [], ◌∷◌, is_empty, String,
}
use pulse_data.Prelude.Text.{Text, codes, split, trim_space}
use pulse_data.Events.Validate.{second}
use pulse_data.Auth.Tenants.{is_same}

pub record Config : Type 0 where
  pub service : Text
  pub http_addr : Text
  pub metrics_addr : Text
  pub postgres_dsn : Text
  pub redis_url : Text
  pub kafka_brokers : List Text
  pub kafka_topic : Text
  pub click_house_addr : Text
  pub click_house_database : Text
  pub admin_token : Text
  pub rate_limit : ℕ
  pub rate_window : ℕ
  pub max_payload_bytes : ℕ
  pub max_batch_bytes : ℕ
  pub max_batch_events : ℕ
  pub consumer_batch_size : ℕ
  pub consumer_batch_timeout : ℕ
  pub auth_cache_ttl : ℕ
  pub local_fallback : Bool

-- `negsuc n` is -(n + 1).
pub data ℤ : Type 0 where
  pos : ℕ → ℤ
  negsuc : ℕ → ℤ

-- The number that decimal digits write after one that was read.
unfoldable pub digits : ℕ → Text → Option ℕ
digits n [] = some n
digits n (c ∷ s) =
    let rest = digits (n * 10 + (c - b'0')) s in if leb b'0' c && leb c b'9' then rest else none

-- A number without its sign; it has a digit.
abbrev magnitude : Text → Option ℕ
magnitude [] = none
magnitude (c ∷ s) = digits 0 (c ∷ s)

abbrev positive : Option ℕ → Option ℤ
positive none = none
positive (some n) = if ltb n (2 ^ 63) then some (pos n) else none

abbrev negated : ℕ → ℤ
negated n = if n == 0 then pos 0 else negsuc (n - 1)

abbrev negative : Option ℕ → Option ℤ
negative none = none
negative (some n) = if leb n (2 ^ 63) then some (negated n) else none

-- strconv.Atoi; `none` is an error.
unfoldable pub atoi : Text → Option ℤ
unfolding digits
atoi [] = none
atoi (c ∷ s) =
    if c == b'+'
    then positive (magnitude s)
    else if c == b'-'
    then negative (magnitude s)
    else positive (magnitude (c ∷ s))

-- A number that is not negative, or else the fallback.
abbrev pub or_fallback : ℕ → Option ℤ → ℕ
or_fallback fallback none = fallback
or_fallback fallback (some (pos n)) = n
or_fallback fallback (some (negsuc n)) = fallback

-- A number that is positive, or else the fallback.
abbrev pub positive_or_fallback : ℕ → Option ℤ → ℕ
positive_or_fallback fallback none = fallback
positive_or_fallback fallback (some (pos n)) = if n == 0 then fallback else n
positive_or_fallback fallback (some (negsuc n)) = fallback

-- The parts that are not blank, trimmed.
unfoldable pub keep_parts : List Text → List Text
keep_parts [] = []
keep_parts (p ∷ ps) =
    let rest = keep_parts ps in if is_empty (trim_space p) then rest else trim_space p ∷ rest

-- split
unfoldable pub split_list : Text → List Text
unfolding keep_parts split
split_list v = keep_parts (split b',' v)

module _ (getenv : Text → Text) (parse_duration : Text → Option ℤ) where
  unfoldable pub env : String → String → Text
  env k fallback = if is_empty (getenv (codes k)) then codes fallback else getenv (codes k)

  unfoldable pub int_env : String → ℕ → ℕ
  unfolding atoi
  int_env k fallback = or_fallback fallback (atoi (getenv (codes k)))

  unfoldable pub duration_env : String → ℕ → ℕ
  duration_env k fallback = positive_or_fallback fallback (parse_duration (getenv (codes k)))

  unfoldable pub duration_env_allow_zero : String → ℕ → ℕ
  duration_env_allow_zero k fallback = or_fallback fallback (parse_duration (getenv (codes k)))

  unfoldable pub load : Text → Config
  unfolding env int_env duration_env duration_env_allow_zero split_list
  load service = record {
    service = service;
    http_addr = env "PULSE_HTTP_ADDR" ":8080";
    metrics_addr = env "PULSE_METRICS_ADDR" ":9091";
    postgres_dsn = getenv (codes "PULSE_POSTGRES_DSN");
    redis_url = getenv (codes "PULSE_REDIS_URL");
    kafka_brokers = split_list (getenv (codes "PULSE_KAFKA_BROKERS"));
    kafka_topic = env "PULSE_KAFKA_TOPIC" "events.raw";
    click_house_addr = getenv (codes "PULSE_CLICKHOUSE_ADDR");
    click_house_database = env "PULSE_CLICKHOUSE_DATABASE" "default";
    admin_token = getenv (codes "PULSE_ADMIN_TOKEN");
    rate_limit = int_env "PULSE_RATE_LIMIT" 1000;
    rate_window = duration_env "PULSE_RATE_WINDOW" (60 * second);
    max_payload_bytes = int_env "PULSE_MAX_PAYLOAD_BYTES" (2 ^ 20);
    max_batch_bytes = int_env "PULSE_MAX_BATCH_BYTES" (16 * 2 ^ 20);
    max_batch_events = int_env "PULSE_MAX_BATCH_EVENTS" 500;
    consumer_batch_size = int_env "PULSE_CONSUMER_BATCH_SIZE" 1;
    consumer_batch_timeout = duration_env "PULSE_CONSUMER_BATCH_TIMEOUT" 10_000_000;
    auth_cache_ttl = duration_env_allow_zero "PULSE_AUTH_CACHE_TTL" 0;
    local_fallback = is_same (getenv (codes "PULSE_LOCAL_FALLBACK")) (codes "true");
  }
