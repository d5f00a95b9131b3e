-- ===== src/Ratelimit/Bounds.antt =====
-- Buckets of internal/ratelimit/limiter.go are never fuller than the limit.
use mathlib.Core.List.{lookup}
use pulse_data.Prelude.{
  ℕ, ◌-◌, ◌≡◌, refl, ltb, ◌==◌, Bool, false, Option, none, some, List, [], ◌∷◌, if_either, ite,
  Bool-cases, inl, inr,
}
use pulse_data.Prelude.Map.{lookup-insert}
use pulse_data.Prelude.Text.{Text, Text-discrete}
use pulse_data.Events.{Time}
use pulse_data.Errors.{Result}
use pulse_data.Ratelimit.{Float, IsOrdered}
use pulse_data.Ratelimit.Memory.{Bucket, Memory, new_memory, min, refill, take, set_bucket, allow_n}

module _ {F : Type 0} (f : Float F) (laws : IsOrdered f) where
  abbrev IsBounded : F → Option (Bucket F) → Type 0
  IsBounded capacity none = Unit
  IsBounded capacity (some b) = f.lt capacity b.tokens ≡ false

  -- No bucket holds more tokens than the limit.
  abbrev pub AreBucketsBounded : Memory F → Type 0
  AreBucketsBounded m = (t : Text) → IsBounded (f.of_nat m.limit) (lookup Text-discrete t m.items)

  min-le : (a b : F) → f.lt a (min f a b) ≡ false
  min-le a b = elim (Bool-cases (f.lt a b)) [
    | inl less ↦ rw less (laws.lt_irrefl a)
    | inr not_less ↦ rw (not_less, not_less) refl
  ]

  refill-IsBounded :
      (m : Memory F) (now : Time) (o : Option (Bucket F))
      → IsBounded (f.of_nat m.limit) o
      → f.lt (f.of_nat m.limit) (refill f m now o).tokens ≡ false
  refill-IsBounded m now none b = laws.lt_irrefl (f.of_nat m.limit)
  refill-IsBounded m now (some o) b =
      if_either (λ (x : Bucket F). f.lt (f.of_nat m.limit) x.tokens ≡ false) (ltb o.timestamp now)
        (min-le (f.of_nat m.limit) (f.add o.tokens (f.mul (f.seconds (now - o.timestamp)) m.rate)))
        b

  set_bucket-AreBucketsBounded :
      (t : Text) (b : Bucket F) (m : Memory F)
      → f.lt (f.of_nat m.limit) b.tokens ≡ false
      → AreBucketsBounded m
      → AreBucketsBounded (set_bucket f t b m)
  set_bucket-AreBucketsBounded t b m l all s =
      rw (lookup-insert Text-discrete s t b m.items) (by_tenant (Text-discrete s t))
    where
      by_tenant :
          (d : Dec (s ≡ t))
          → IsBounded (f.of_nat m.limit) (ite d (some b) (lookup Text-discrete s m.items))
      by_tenant (yes p) = l
      by_tenant (no p) = all s

  take-AreBucketsBounded :
      (m : Memory F) (t : Text) (amount : ℕ) (b : Bucket F)
      → f.lt (f.of_nat m.limit) b.tokens ≡ false
      → AreBucketsBounded m
      → AreBucketsBounded (take f m t amount b).1
  take-AreBucketsBounded m t amount b l all =
      if_either (λ (r : Result Bool × Memory F). AreBucketsBounded r.1)
        (f.lt b.tokens (f.of_nat amount)) (set_bucket-AreBucketsBounded t b m l all)
        (set_bucket-AreBucketsBounded t (record b { tokens = f.sub b.tokens (f.of_nat amount) }) m
          (laws.sub_mono (f.of_nat m.limit) b.tokens amount l) all)

  allow_n-AreBucketsBounded :
      (now : Time) (t : Text) (amount : ℕ) (m : Memory F)
      → AreBucketsBounded m
      → AreBucketsBounded (allow_n f now t amount m).1
  unfolding allow_n
  allow_n-AreBucketsBounded now t amount m all =
      if_either (λ (r : Result Bool × Memory F). AreBucketsBounded r.1) (amount == 0) all
        (if_either (λ (r : Result Bool × Memory F). AreBucketsBounded r.1) (m.limit == 0) all
          (if_either (λ (r : Result Bool × Memory F). AreBucketsBounded r.1)
            (f.le m.rate (f.of_nat 0)) all
            (take-AreBucketsBounded m t amount (refill f m now (lookup Text-discrete t m.items))
              (refill-IsBounded m now (lookup Text-discrete t m.items) (all t)) all)))

  -- Requests with the times at which they come.
  abbrev pub run : List (Time × Text × ℕ) → Memory F → Memory F
  run [] m = m
  run ((now, t, amount) ∷ requests) m = run requests (allow_n f now t amount m).1

  run_keeps :
      (requests : List (Time × Text × ℕ)) (m : Memory F)
      → AreBucketsBounded m
      → AreBucketsBounded (run requests m)
  run_keeps [] m all = all
  run_keeps ((now, t, amount) ∷ requests) m all =
      run_keeps requests (allow_n f now t amount m).1 (allow_n-AreBucketsBounded now t amount m all)

  -- If no float is less than itself and subtraction of an integer makes no float greater, then
  -- after any requests of any tenants at any times, in any order, no bucket of a limiter that
  -- started empty holds more tokens than the limit.
  pub run-AreBucketsBounded :
      (limit window : ℕ) (requests : List (Time × Text × ℕ))
      → AreBucketsBounded (run requests (new_memory f limit window))
  unfolding new_memory lookup
  run-AreBucketsBounded limit window requests =
      run_keeps requests (new_memory f limit window) (λ t. tt)
