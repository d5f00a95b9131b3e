-- ===== src/Kafka/Loop.antt =====
-- The endless loops of internal/kafka/producer.go, with the backoff that both carry along.
use pulse_data.Prelude.{ℕ, zero, suc, ◌+◌, ◌≡◌, refl, arith, ◌*◌, ltb, if◌then◌else◌, List}
use pulse_data.Prelude.History.{Run, pure, ◌>>=◌}
use pulse_data.Kafka.{Call, Env, wait, second}

-- A round ends the loop, or goes on in a state.
pub data Outcome (S : Type 0) : Type 0 where
  returned : Outcome S
  running : S → Outcome S

-- The backoff of both loops, doubled below thirty seconds.
unfoldable pub next_backoff : ℕ → ℕ
next_backoff backoff = if ltb backoff (30 * second) then backoff * 2 else backoff

-- wait(ctx, backoff), and the rest of the round: the loop ends if the context does.
unfoldable pub back_off : {S : Type 0} → Env → (ℕ → S) → ℕ → Run Call (Outcome S)
unfolding next_backoff
back_off env state backoff = do
  fired ← wait env backoff
  pure (if fired then running (state (next_backoff backoff)) else returned)

module _ {S : Type 0} where
  -- The rounds that follow one.
  abbrev pub go_on : (S → Run Call (Outcome S)) → Outcome S → Run Call (Outcome S)
  go_on rest returned = pure returned
  go_on rest (running s) = rest s

  -- `P` holds in the state of a loop that goes on, `Q` when it has ended.
  abbrev pub Holds :
      (S → List Call → Type 0) → (List Call → Type 0) → Outcome S × List Call → Type 0
  Holds P Q (returned, h) = Q h
  Holds P Q (running s, h) = P s h

  module _ (body : S → Run Call (Outcome S)) where
    -- The first `n` rounds of a loop.
    unfoldable pub rounds : ℕ → S → Run Call (Outcome S)
    rounds zero s = pure (running s)
    rounds (suc n) s = body s >>= go_on (λ s'. rounds n s')

  pub rounds-add :
      (body : S → Run Call (Outcome S)) (n k : ℕ) (s : S) (h : List Call)
      → rounds body (n + k) s h ≡ (rounds body n s >>= go_on (rounds body k)) h
  unfolding rounds
  rounds-add body zero k s h = let e : 0 + k ≡ k = omega arith in rw e refl
  rounds-add body (suc n) k s h =
      let e : suc n + k ≡ suc (n + k) = omega arith in
      rw e (after (λ s' h'. rounds-add body n k s' h') (body s h))
    where
      after :
          ((s' : S) (h' : List Call)
            → rounds body (n + k) s' h' ≡ (rounds body n s' >>= go_on (rounds body k)) h')
          → (r : Outcome S × List Call)
          → go_on (λ s'. rounds body (n + k) s') r.0 r.1
            ≡ (go_on (λ s'. rounds body n s') r.0 >>= go_on (rounds body k)) r.1
      after ih (returned, h') = refl
      after ih (running s', h') = ih s' h'

  module _ (P : S → List Call → Type 0) (Q : List Call → Type 0) where
    go_on-Holds :
        (rest : S → Run Call (Outcome S))
        → ((s : S) (h : List Call) → P s h → Holds P Q (rest s h))
        → (r : Outcome S × List Call) → Holds P Q r
        → Holds P Q (go_on rest r.0 r.1)
    go_on-Holds rest keep (returned, h) q = q
    go_on-Holds rest keep (running s, h) p = keep s h p

    -- What each round keeps, any number of rounds keeps.
    pub rounds-Holds :
        (body : S → Run Call (Outcome S))
        → ((s : S) (h : List Call) → P s h → Holds P Q (body s h))
        → (n : ℕ) (s : S) (h : List Call) → P s h
        → Holds P Q (rounds body n s h)
    unfolding rounds
    rounds-Holds body keep zero s h p = p
    rounds-Holds body keep (suc n) s h p =
        go_on-Holds (λ s'. rounds body n s') (rounds-Holds body keep n) (body s h) (keep s h p)

  module _ (P : List Call → Type 0) where
    Holds-of_history : (r : Outcome S × List Call) → P r.1 → Holds (λ _. P) P r
    Holds-of_history (returned, h) p = p
    Holds-of_history (running s, h) p = p

    history_of_Holds : (r : Outcome S × List Call) → Holds (λ _. P) P r → P r.1
    history_of_Holds (returned, h) p = p
    history_of_Holds (running s, h) p = p

    -- An invariant of the history alone.
    pub rounds_invariant :
        (body : S → Run Call (Outcome S))
        → ((s : S) (h : List Call) → P h → P (body s h).1)
        → (n : ℕ) (s : S) (h : List Call) → P h
        → P (rounds body n s h).1
    rounds_invariant body keep n s h p = history_of_Holds (rounds body n s h) (
        rounds-Holds (λ _. P) P body (λ s' h' p'. Holds-of_history (body s' h') (keep s' h' p')) n s
          h p)
