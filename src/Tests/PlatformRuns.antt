-- ===== src/Tests/PlatformRuns.antt =====
-- Runs of internal/platform, internal/ratelimit, internal/app and the events of
-- internal/persistence at concrete inputs.
use pulse_data.Prelude.{
  ℕ, ◌+◌, ◌-◌, ◌*◌, ◌/◌, ◌≡◌, refl, arith, ltb, leb, ◌&&◌, if◌then◌else◌, true, false, Option, none,
  some, List, [], ◌∷◌, map, ◌⊎◌,
}
use pulse_data.Prelude.Text.{Text, Text-discrete, codes, trim_space}
use pulse_data.Events.{Time}
use pulse_data.Events.Validate.{second}
use pulse_data.Auth.Tenants.{is_same}
use pulse_data.Errors.{ok}
use pulse_data.Ratelimit.{Float, IsExact, IsOrdered}
use pulse_data.Ratelimit.Memory.{new_memory}
use pulse_data.Ratelimit.Quota.{answers}
use pulse_data.Ratelimit.MemoryQuota.{memory_answers}
use pulse_data.Ratelimit.RedisQuota.{redis_answers}
use pulse_data.Ratelimit.Agreement.{limiters-eq-quota}
use pulse_data.Ratelimit.Bounds.{AreBucketsBounded, run, run-AreBucketsBounded}
use pulse_data.Platform.Config.{ℤ, load}
use pulse_data.Platform.Config.Usable.{IsUsable, load-IsUsable}
use pulse_data.Persistence.EventRows.{answered, unanswered, save_events}
use pulse_data.Persistence.EventRows.Retry.{save_each, attempts, save_events-eq-save_each}
use pulse_data.App.{redis, Env}
use pulse_data.App.Services.{run_http, run_worker}
use pulse_data.App.Closing.{is_open, is_resource, has_failed_ping}
use pulse_data.App.Closing.Runs.{runs-CloseResources}
use pulse_data.Telemetry
use pulse_data.Telemetry.{exporting, http, setup_tracing}
use pulse_data.Tests.Samples.{today, order, refund, failure_error}

-- Integers in place of floats.
abbrev whole : Float ℕ
whole = record {
  of_nat = λ n. n;
  add = λ a b. a + b;
  sub = λ a b. a - b;
  mul = λ a b. a * b;
  div = λ a b. a / b;
  lt = ltb;
  le = leb;
  seconds = λ n. n / second;
}

whole-IsExact : IsExact whole
whole-IsExact = record {
  lt_nat = λ a b _ _. refl;
  le_nat = λ a b _ _. refl;
  sub_nat = λ a b _ _. refl;
}

whole-IsOrdered : IsOrdered whole
whole-IsOrdered = record { lt_irrefl = λ x. ground arith; sub_mono = λ x y n l. ground arith }

-- Two requests of one tenant, of which the second asks for too much, and one of another tenant.
abbrev requests : List (Text × ℕ)
requests = (codes "ten_a", 2) ∷ (codes "ten_a", 2) ∷ (codes "ten_bb", 3) ∷ []

limiters-eq-quota_example :
    (memory_answers whole today requests (new_memory whole 3 second)
      ≡ map (λ b. ok b) (answers 3 requests []))
    × (redis_answers whole 7_000_000 (record { limit = 3; window = second }) requests []
        ≡ map (λ b. ok b) (answers 3 requests []))
limiters-eq-quota_example =
    limiters-eq-quota whole whole-IsExact 3 second today 7_000_000 requests (omega arith)
      (omega arith) (omega arith) refl (omega arith) (omega arith, (omega arith, (omega arith, tt)))

abbrev timed : List (Time × Text × ℕ)
timed =
    (today, codes "ten_a", 2) ∷ (today + second, codes "ten_a", 3) ∷ (today, codes "ten_a", 1) ∷ []

run-AreBucketsBounded_example :
    AreBucketsBounded whole whole-IsOrdered
      (run whole whole-IsOrdered timed (new_memory whole 3 second))
run-AreBucketsBounded_example = run-AreBucketsBounded whole whole-IsOrdered 3 second timed

-- An environment with one variable, and one that has the text of a number everywhere.
abbrev brokers_only : Text → Text
brokers_only k = if is_same k (codes "PULSE_KAFKA_BROKERS") then codes " kafka:9092, ," else []

abbrev no_duration : Text → Option ℤ
no_duration _ = none

load-IsUsable_example : IsUsable (load brokers_only no_duration (codes "ingestion"))
load-IsUsable_example = load-IsUsable brokers_only no_duration (codes "ingestion")

-- The first attempt is unanswered but took effect; the COPY of the second meets the rows.
save_events-eq-save_each_example :
    (save_events answered answered
      (order ∷ refund ∷ order ∷ [])
      (attempts ((unanswered failure_error, answered) ∷ []) (order ∷ refund ∷ order ∷ []) [])).1
    ≡ save_each (order ∷ refund ∷ order ∷ []) []
unfolding save_events Text-discrete
save_events-eq-save_each_example =
    save_events-eq-save_each ((unanswered failure_error, answered) ∷ []) answered answered
      (order ∷ refund ∷ order ∷ []) [] refl

-- Everything opens but Redis does not answer.
abbrev machine : Env
machine = record {
  open_resource = λ r h. none;
  parse_redis_url = λ u. none;
  ping_redis = λ h. some failure_error;
  serve = λ h. none;
  consume = λ h. none;
  metrics = λ h. none;
}

runs-CloseResources_example :
    let cfg = load (λ k. codes "7") no_duration (codes "persistence-worker") in
    (is_open redis (run_http machine cfg []).1 ≡ false
      ⊎ (is_resource redis redis && has_failed_ping (run_http machine cfg []).1) ≡ true)
    × is_open redis (run_worker machine cfg (codes "persistence-worker") []).1 ≡ false
runs-CloseResources_example =
    runs-CloseResources redis machine
      (load (λ k. codes "7") no_duration (codes "persistence-worker")) (codes "persistence-worker")

-- A collector behind TLS.
abbrev collector : Telemetry.Env
collector = record {
  parse = λ raw. ok (record { scheme = codes "https"; host = codes "otel:4318"; path = codes "/" });
  new_exporter = λ transport options. none;
}

exports_with_tls :
    setup_tracing collector (codes " https://otel:4318/")
    ≡ exporting http (record { endpoint = codes "otel:4318"; is_insecure = false; url_path = none })
unfolding setup_tracing trim_space Text-discrete
exports_with_tls = refl
