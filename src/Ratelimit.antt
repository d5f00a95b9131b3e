-- ===== src/Ratelimit.antt =====
-- internal/ratelimit: token buckets in the memory of a process and in Redis. Both compute with
-- 64-bit floats, which are a parameter here. Limits and amounts are not negative.
pub mod Memory
pub mod Redis
pub mod Quota
pub mod Simulation
pub mod MemoryQuota
pub mod RedisQuota
pub mod Agreement
pub mod Bounds
use pulse_data.Prelude.{ℕ, ◌+◌, ◌-◌, ◌≡◌, ◌≤◌, ltb, leb, Bool, true, false, arith, ◌^◌}
use pulse_data.Prelude.Text.{codes}
use pulse_data.Errors.{Error, plain}

-- What the code does with floats. `seconds` is Duration.Seconds of a number of nanoseconds.
pub record Float (F : Type 0) : Type 0 where
  pub of_nat : ℕ → F
  pub add : F → F → F
  pub sub : F → F → F
  pub mul : F → F → F
  pub div : F → F → F
  pub lt : F → F → Bool
  pub le : F → F → Bool
  pub seconds : ℕ → F

-- Integers up to 2^53 are floats, and are compared and subtracted without rounding.
pub record IsExact {F : Type 0} (f : Float F) : Type 0 where
  pub lt_nat : (a b : ℕ) → a ≤ 2 ^ 53 → b ≤ 2 ^ 53 → f.lt (f.of_nat a) (f.of_nat b) ≡ ltb a b
  pub le_nat : (a b : ℕ) → a ≤ 2 ^ 53 → b ≤ 2 ^ 53 → f.le (f.of_nat a) (f.of_nat b) ≡ leb a b
  pub sub_nat : (a b : ℕ) → b ≤ a → a ≤ 2 ^ 53 → f.sub (f.of_nat a) (f.of_nat b) ≡ f.of_nat (a - b)

-- No float is less than itself, and taking away an integer, rounded, makes no float greater.
pub record IsOrdered {F : Type 0} (f : Float F) : Type 0 where
  pub lt_irrefl : (x : F) → f.lt x x ≡ false
  pub sub_mono : (x y : F) (n : ℕ) → f.lt x y ≡ false → f.lt x (f.sub y (f.of_nat n)) ≡ false

abbrev pub err_unavailable : Error
err_unavailable = plain (codes "rate limiter unavailable")
