-- ===== src/Kafka/Single/Delivery.antt =====
-- At-least-once handling in the loop over single messages of internal/kafka/producer.go: its messages
-- are handled or copied to the dead-letter topic, never in a batch.
use pulse_data.Prelude.{[], ◌∷◌, ℕ, List, none, All, All-map, Any, Any-map, inl, arith}
use pulse_data.Events.Decode.{Json}
use pulse_data.Kafka.{Message, Call, handled, wrote, committed, Env, Consumer, second}
use pulse_data.Kafka.Loop.{rounds_invariant, back_off}
use pulse_data.Kafka.Settled
use pulse_data.Kafka.Settled.{IsCopy, Carries}
use pulse_data.Kafka.Single.{with_error_header, process_message, single_round, run_single}

module _ (json : Json) where
  -- This call handled the event of `m`, or wrote a copy of `m`.
  abbrev pub Finishes : Message → Call → Type 0
  Finishes m (handled e none) = Carries json m e
  Finishes m (wrote ms none) = Any (IsCopy json m) ms
  Finishes m _ = ⊥

  abbrev pub CommitIsDue : List Call → Call → Type 0
  CommitIsDue h (committed ms none) = All (λ m. Any (Finishes m) h) ms
  CommitIsDue h _ = Unit

  -- Every message was finished before a commit that names it.
  abbrev pub AreCommitsDue : List Call → Type 0
  AreCommitsDue [] = Unit
  AreCommitsDue (call ∷ h) = CommitIsDue h call × AreCommitsDue h

  Settles-of_Finishes : (m : Message) (x : Call) → Finishes m x → Settled.Settles json m x
  Settles-of_Finishes m (handled e none) f = f
  Settles-of_Finishes m (wrote ms none) f = Any-map (λ w s. inl s) ms f
  Settles-of_Finishes m x f = absurd f

  CommitIsOrdered-of_CommitIsDue :
      (h : List Call) (x : Call) → CommitIsDue h x → Settled.CommitIsOrdered json h x
  CommitIsOrdered-of_CommitIsDue h (committed ms none) d =
      All-map (λ m f. Any-map (Settles-of_Finishes m) h f) ms d
  CommitIsOrdered-of_CommitIsDue h x d = tt

  pub AreCommitsOrdered-of_AreCommitsDue :
      (h : List Call) → AreCommitsDue h → Settled.AreCommitsOrdered json h
  AreCommitsOrdered-of_AreCommitsDue [] d = tt
  AreCommitsOrdered-of_AreCommitsDue (x ∷ h) (d, ds) =
      (CommitIsOrdered-of_CommitIsDue h x d, AreCommitsOrdered-of_AreCommitsDue h ds)

module _ (c : Consumer) (env : Env) where
  abbrev IsDue : List Call → Type 0
  IsDue = AreCommitsDue env.json

  process_message-IsDue :
      (msg : Message) (h : List Call) → IsDue h → IsDue (process_message c env msg h).1
  unfolding process_message with_error_header
  process_message-IsDue msg h o = ground arith

  single_round-IsDue :
      (backoff : ℕ) (h : List Call) → IsDue h → IsDue (single_round c env backoff h).1
  unfolding single_round back_off
  single_round-IsDue backoff h o = grind (arith, process_message-IsDue)

  -- Whatever the environment answers, after any number of rounds of runSingle, for each message that
  -- a successful commit names, before that commit the event that the message carries was handled
  -- without an error, or a message with its key and its value was written to the dead-letter topic
  -- without an error.
  pub run_single-AreCommitsDue : (n : ℕ) → AreCommitsDue env.json (run_single c env n []).1
  unfolding run_single
  run_single-AreCommitsDue n =
      rounds_invariant IsDue (single_round c env) single_round-IsDue n second [] tt
