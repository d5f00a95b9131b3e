-- ===== src/Kafka/Single/Loss.antt =====
-- What the loop over single messages of internal/kafka/producer.go does with a message whose
-- handler fails for a passing reason, such as a database that is away. A commit of an offset stands
-- for all the offsets before it in the partition.
use pulse_data.Prelude.{
  ◌≤◌, ◌<◌, ◌≡◌, ◌≢◌, Bool, true, false, none, some, List, [], ◌∷◌, Any, arith,
}
use pulse_data.Events.{Event, Time}
use pulse_data.Events.Decode.{Json}
use pulse_data.Events.Validate.{validate}
use pulse_data.Errors.{Error, ok, as_dead_letter}
use pulse_data.Kafka.{Message, Call, handled, committed, Env, Consumer}
use pulse_data.Kafka.Settled.{IsSettled}
use pulse_data.Kafka.Single.{run_single, single_round, with_error_header}

-- The handler was called before.
abbrev pub was_handled : List Call → Bool
was_handled [] = false
was_handled (handled e r ∷ h) = true
was_handled (_ ∷ h) = was_handled h

abbrev pub first_or : {A : Type 0} → Bool → A → A → A
first_or false a b = a
first_or true a b = b

-- The partition yields `m` and then `n`. The handler fails once, with `x`; all else goes well.
abbrev pub outage : Json → Time → Error → Message → Message → Env
outage json now x m n = record {
  json = json;
  now = λ _. now;
  fetch = λ h. ok (first_or (was_handled h) m n);
  fetch_within = λ _ h. ok (first_or (was_handled h) m n);
  handle = λ _ h. first_or (was_handled h) (some x) none;
  handle_batch = λ _ h. first_or (was_handled h) (some x) none;
  write = λ _ _. none;
  commit = λ _ _. none;
  cancelled = λ _. false;
  wait = λ _ _. true;
}

-- This call commits an offset of the partition of `m` that is not before it.
abbrev pub Passes : Message → Call → Type 0
Passes m (committed ms none) = Any (λ n. (n.partition ≡ m.partition) × (m.offset ≤ n.offset)) ms
Passes m _ = ⊥

-- After an error that is no dead-letter error runSingle waits and fetches the next message, which
-- it handles and commits: the first message is passed by the commit and was never settled.
pub run_single-Passes :
    (c : Consumer) (json : Json) (now : Time) (x : Error) (m n : Message) (e f : Event)
    → json.unmarshal m.value ≡ ok e
    → json.unmarshal n.value ≡ ok f
    → validate json.valid now e 0 ≡ none
    → validate json.valid now f 0 ≡ none
    → e ≢ f
    → m.partition ≡ n.partition
    → m.offset < n.offset
    → as_dead_letter x ≡ none
    → let h = (run_single c (outage json now x m n) 2 []).1 in
      Any (Passes m) h × (¬ IsSettled json h m)
unfolding run_single single_round with_error_header
run_single-Passes c json now x m n e f de df ve vf ne same before plain = ground arith
