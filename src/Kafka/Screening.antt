-- ===== src/Kafka/Screening.antt =====
-- What the handlers of internal/kafka/producer.go are called with: events that Validate has passed.
use pulse_data.Prelude.{ℕ, ◌≡◌, none, List, [], ◌∷◌, arith}
use pulse_data.Events.{Event}
use pulse_data.Events.Validate.{validate}
use pulse_data.Kafka.{Message, Call, clocked, handled, Env, Consumer, second}
use pulse_data.Kafka.Loop.{back_off, rounds_invariant}
use pulse_data.Kafka.Single.{process_message, single_round, run_single}

module _ (env : Env) where
  -- The clock was read last, and the event passes Validate at that time.
  abbrev pub WasScreened : Event → List Call → Type 0
  WasScreened e (clocked now ∷ h) = validate env.json.valid now e 0 ≡ none
  WasScreened e _ = ⊥

  abbrev pub CallIsScreened : List Call → Call → Type 0
  CallIsScreened h (handled e r) = WasScreened e h
  CallIsScreened h _ = Unit

  -- Each call of the handler is for an event that was screened just before.
  abbrev pub AreCallsScreened : List Call → Type 0
  AreCallsScreened [] = Unit
  AreCallsScreened (call ∷ h) = CallIsScreened h call × AreCallsScreened h

module _ (c : Consumer) (env : Env) where
  process_message-AreCallsScreened :
      (msg : Message) (h : List Call)
      → AreCallsScreened env h
      → AreCallsScreened env (process_message c env msg h).1
  unfolding process_message
  process_message-AreCallsScreened msg h s = ground arith

  single_round-AreCallsScreened :
      (backoff : ℕ) (h : List Call)
      → AreCallsScreened env h
      → AreCallsScreened env (single_round c env backoff h).1
  unfolding single_round back_off
  single_round-AreCallsScreened backoff h s = grind (arith, process_message-AreCallsScreened)

  -- After any number of rounds of runSingle, every call of the handler was for an event that
  -- Validate passed at the time read just before the call.
  pub run_single-AreCallsScreened : (n : ℕ) → AreCallsScreened env (run_single c env n []).1
  unfolding run_single
  run_single-AreCallsScreened n =
      rounds_invariant (AreCallsScreened env) (single_round c env) single_round-AreCallsScreened n
        second [] tt
