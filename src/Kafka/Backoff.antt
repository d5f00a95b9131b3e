-- ===== src/Kafka/Backoff.antt =====
-- The waits of the loops of internal/kafka/producer.go.
use pulse_data.Prelude.{ℕ, ◌*◌, ◌≤◌, ◌≡◌, ◌⊎◌, refl, inl, List, [], ◌∷◌, arith}
use pulse_data.Kafka.{Message, Call, waited, Env, Consumer, second}
use pulse_data.Kafka.Loop.{Outcome, returned, running, next_backoff, Holds, rounds-Holds}
use pulse_data.Kafka.Single.{process_message, single_round, run_single}

-- A second, doubled up to five times.
abbrev pub IsBackoff : ℕ → Type 0
IsBackoff b =
    (b ≡ second)
    ⊎ (b ≡ 2 * second)
    ⊎ (b ≡ 4 * second)
    ⊎ (b ≡ 8 * second)
    ⊎ (b ≡ 16 * second)
    ⊎ (b ≡ 32 * second)

abbrev pub WaitIsBounded : Call → Type 0
WaitIsBounded (waited delay fired) = (second ≤ delay) × (delay ≤ 32 * second)
WaitIsBounded _ = Unit

-- Every wait of the history lasts from 1 to 32 seconds.
abbrev pub AreWaitsBounded : List Call → Type 0
AreWaitsBounded [] = Unit
AreWaitsBounded (call ∷ h) = WaitIsBounded call × AreWaitsBounded h

next_backoff-IsBackoff : (b : ℕ) → IsBackoff b → IsBackoff (next_backoff b)
unfolding next_backoff
next_backoff-IsBackoff b h = ground arith

module _ (c : Consumer) (env : Env) where
  process_message-AreWaitsBounded :
      (msg : Message) (h : List Call)
      → AreWaitsBounded h
      → AreWaitsBounded (process_message c env msg h).1
  unfolding process_message
  process_message-AreWaitsBounded msg h w = ground arith

  abbrev IsPaced : ℕ → List Call → Type 0
  IsPaced b h = IsBackoff b × AreWaitsBounded h

  single_round-IsPaced :
      (b : ℕ) (h : List Call) → IsPaced b h → Holds IsPaced AreWaitsBounded (single_round c env b h)
  unfolding single_round
  single_round-IsPaced b h (p, w) =
      grind (arith, process_message-AreWaitsBounded, next_backoff-IsBackoff)

  AreWaitsBounded-of_Holds :
      (r : Outcome ℕ × List Call) → Holds IsPaced AreWaitsBounded r → AreWaitsBounded r.1
  AreWaitsBounded-of_Holds (returned, h) w = w
  AreWaitsBounded-of_Holds (running b, h) (p, w) = w

  -- Every wait of runSingle lasts from 1 to 32 seconds.
  pub run_single-AreWaitsBounded : (n : ℕ) → AreWaitsBounded (run_single c env n []).1
  unfolding run_single
  run_single-AreWaitsBounded n = AreWaitsBounded-of_Holds (run_single c env n []) (
      rounds-Holds IsPaced AreWaitsBounded (single_round c env) single_round-IsPaced n second []
        (inl refl, tt))
