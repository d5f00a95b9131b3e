-- ===== src/Ratelimit/Agreement.antt =====
-- The two limiters of internal/ratelimit against one reference.
use mathlib.Core.List.{lookup}
use pulse_data.Prelude.{ℕ, ◌^◌, ◌<◌, ◌≤◌, ◌≡◌, refl, arith, ltb, true, false, List, [], map, All}
use pulse_data.Prelude.Text.{Text}
use pulse_data.Events.{Time}
use pulse_data.Errors.{ok}
use pulse_data.Ratelimit.{Float, IsExact}
use pulse_data.Ratelimit.Memory.{new_memory}
use pulse_data.Ratelimit.Quota.{answers}
use pulse_data.Ratelimit.MemoryQuota.{memory_answers, memory_answers-eq-answers}
use pulse_data.Ratelimit.RedisQuota.{redis_answers, redis_answers-eq-answers}

-- If floats are exact on integers up to 2^53, the limit is not 0, the window is not 0, the limit,
-- the amounts and the server's microsecond are at most 2^53, and the rate is positive, then fresh
-- limiters answer any requests of any tenants at one instant alike: a request gets through if and
-- only if what its tenant has got so far and the amount are together at most the limit.
pub limiters-eq-quota :
    {F : Type 0} (f : Float F) (exact : IsExact f) (limit window : ℕ) (now : Time) (server_now : ℕ)
    (requests : List (Text × ℕ))
    → 0 < limit
    → limit ≤ 2 ^ 53
    → 0 < window
    → f.le (f.div (f.of_nat limit) (f.seconds window)) (f.of_nat 0) ≡ false
    → server_now ≤ 2 ^ 53
    → All (λ q. q.1 ≤ 2 ^ 53) requests
    → (memory_answers f now requests (new_memory f limit window)
        ≡ map (λ b. ok b) (answers limit requests []))
      × (redis_answers f server_now (record { limit = limit; window = window }) requests []
          ≡ map (λ b. ok b) (answers limit requests []))
unfolding new_memory lookup
limiters-eq-quota f exact limit window now server_now requests some_limit small some_window positive
      early small_amounts =
    let windowed : ltb 0 window ≡ true = ground arith in
    (
      rw windowed (
          memory_answers-eq-answers f now exact limit (f.div (f.of_nat limit) (f.seconds window))
            some_limit small positive requests [] [] small_amounts (λ t. (omega arith, refl))),
      redis_answers-eq-answers f server_now (record { limit = limit; window = window }) exact
          some_limit small some_window early requests [] [] small_amounts
          (λ t. (omega arith, refl)),
    )
