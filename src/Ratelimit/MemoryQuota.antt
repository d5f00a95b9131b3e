-- ===== src/Ratelimit/MemoryQuota.antt =====
-- At one instant Memory of internal/ratelimit/limiter.go answers as the quota does.
use mathlib.Core.List.{lookup}
use mathlib.Core.Path.{subst, ap₂}
use pulse_data.Prelude.{
  ℕ, ◌+◌, ◌-◌, ◌^◌, ◌<◌, ◌≤◌, ◌≡◌, refl, sym, ap, ◌∙◌, arith, ltb, ◌==◌, Bool, false, Option, none,
  some, List, [], ◌∷◌, map, All, Bool-cases, inl, inr,
}
use pulse_data.Prelude.Map.{Map, insert}
use pulse_data.Prelude.Text.{Text, Text-discrete}
use pulse_data.Events.{Time}
use pulse_data.Errors.{Result, ok}
use pulse_data.Ratelimit.{Float, IsExact}
use pulse_data.Ratelimit.Memory.{Bucket, Memory, refill, take, allow_n}
use pulse_data.Ratelimit.Quota.{Granted, granted, request, answers}
use pulse_data.Ratelimit.Simulation.{Stands, Stands-insert, Stands-store, Stands-same}

module _ {F : Type 0} (f : Float F) (now : Time) where
  -- The answers to requests at one instant.
  abbrev pub memory_answers : List (Text × ℕ) → Memory F → List (Result Bool)
  memory_answers [] m = []
  memory_answers ((tenant_id, amount) ∷ requests) m =
      let (a, m') = allow_n f now tenant_id amount m in a ∷ memory_answers requests m'

  module _ (exact : IsExact f) (limit : ℕ) (rate : F) (some_limit : 0 < limit)
      (small : limit ≤ 2 ^ 53) (positive : f.le rate (f.of_nat 0) ≡ false) where
    abbrev memory : Map Text (Bucket F) → Memory F
    memory items = record { limit = limit; rate = rate; items = items }

    abbrev Fits : ℕ → Option (Bucket F) → Type 0
    Fits k none = k ≡ 0
    Fits k (some b) = (b.tokens ≡ f.of_nat (limit - k)) × (b.timestamp ≡ now)

    abbrev IsAgreed : Result Bool × Memory F → Bool × Granted → Type 0
    IsAgreed (a, m) (b, g) =
        (items : Map Text (Bucket F)) × (a ≡ ok b)
        × (m ≡ memory items)
        × Stands (λ t. t) (λ s t e. e) limit Fits items g

    refill-Fits :
        (k : ℕ) (items : Map Text (Bucket F)) (o : Option (Bucket F))
        → Fits k o
        → Fits k (some (refill f (memory items) now o))
    refill-Fits k items none e = (ap (λ (n : ℕ). f.of_nat n) (omega (arith, e)), refl)
    refill-Fits k items (some b) (e, s) = ground (arith, e, s)

    take_test :
        (k amount : ℕ) (b : Bucket F)
        → k ≤ limit
        → amount ≤ 2 ^ 53
        → b.tokens ≡ f.of_nat (limit - k)
        → f.lt b.tokens (f.of_nat amount) ≡ ltb limit (k + amount)
    take_test k amount b l small_amount e =
        ap (λ (x : F). f.lt x (f.of_nat amount)) e
        ∙ exact.lt_nat (limit - k) amount (omega (arith, small)) small_amount
        ∙ ground arith

    left_over :
        (k amount : ℕ) (b : Bucket F)
        → k ≤ limit
        → ltb limit (k + amount) ≡ false
        → b.tokens ≡ f.of_nat (limit - k)
        → f.sub b.tokens (f.of_nat amount) ≡ f.of_nat (limit - (k + amount))
    left_over k amount b l within e =
        ap (λ (x : F). f.sub x (f.of_nat amount)) e
        ∙ exact.sub_nat (limit - k) amount (ground (arith, within)) (omega (arith, small))
        ∙ ap (λ (n : ℕ). f.of_nat n) (omega arith)

    take-IsAgreed :
        (t : Text) (amount : ℕ) (items : Map Text (Bucket F)) (g : Granted) (b : Bucket F)
        → amount ≤ 2 ^ 53
        → Fits (granted t g) (some b)
        → Stands (λ s. s) (λ s u e. e) limit Fits items g
        → IsAgreed (take f (memory items) t amount b) (request limit t amount g)
    unfolding request
    take-IsAgreed t amount items g b small_amount (e, s) st =
        let k = granted t g in
        let test = take_test k amount b (st t).0 small_amount e in
        elim (Bool-cases (ltb limit (k + amount))) [
          | inl over ↦
              rw (test, over)
                (
                  insert Text-discrete t b items,
                  refl,
                  refl,
                  Stands-store (λ s. s) (λ s u p. p) limit Fits t b items g (e, s) st,
                )
          | inr within ↦
              rw (test, within)
                (
                  insert Text-discrete t (record b { tokens = f.sub b.tokens (f.of_nat amount) })
                      items,
                  refl,
                  refl,
                  Stands-insert (λ s. s) (λ s u p. p) limit Fits t (k + amount)
                      (record b { tokens = f.sub b.tokens (f.of_nat amount) }) items g
                      (ground (arith, within)) (left_over k amount b (st t).0 within e, s) st,
                )
        ]

    allow_n-IsAgreed :
        (t : Text) (amount : ℕ) (items : Map Text (Bucket F)) (g : Granted)
        → amount ≤ 2 ^ 53
        → Stands (λ s. s) (λ s u e. e) limit Fits items g
        → IsAgreed (allow_n f now t amount (memory items)) (request limit t amount g)
    unfolding allow_n request
    allow_n-IsAgreed t amount items g small_amount st = elim (Bool-cases (amount == 0)) [
      | inl nothing ↦
          let none_asked : amount ≡ 0 = ground (arith, nothing) in
          let test : ltb limit (granted t g + amount) ≡ false = ground (arith, (st t).0, nothing) in
          rw (nothing, test)
            (
              items,
              refl,
              refl,
              subst
                  (λ n.
                    Stands (λ s. s) (λ s u e. e) limit Fits items
                      (insert Text-discrete t (granted t g + n) g))
                  (sym none_asked) (Stands-same (λ s. s) (λ s u e. e) limit Fits t items g st),
            )
      | inr something ↦
          let limited : (limit == 0) ≡ false = ground arith in
          rw (something, limited, positive)
            (take-IsAgreed t amount items g
              (refill f (memory items) now (lookup Text-discrete t items)) small_amount
              (refill-Fits (granted t g) items (lookup Text-discrete t items) (st t).1) st)
    ]

    -- At one instant, with a limit and amounts up to 2^53.
    pub memory_answers-eq-answers :
        (requests : List (Text × ℕ)) (items : Map Text (Bucket F)) (g : Granted)
        → All (λ q. q.1 ≤ 2 ^ 53) requests
        → Stands (λ s. s) (λ s u e. e) limit Fits items g
        → memory_answers requests (memory items) ≡ map (λ b. ok b) (answers limit requests g)
    unfolding answers
    memory_answers-eq-answers [] items g small_amounts st = refl
    memory_answers-eq-answers ((t, amount) ∷ requests) items g (small_amount, rest) st =
        let (items', p, q, st') = allow_n-IsAgreed t amount items g small_amount st in
        ap₂ ◌∷◌ p (
          ap (λ (m : Memory F). memory_answers requests m) q
          ∙ memory_answers-eq-answers requests items' (request limit t amount g).1 rest st')
