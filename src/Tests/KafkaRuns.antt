-- ===== src/Tests/KafkaRuns.antt =====
-- Runs of the loops of internal/kafka/producer.go.
use pulse_data.Prelude.{
  ℕ, ◌≤◌, ◌+◌, inl, inr, ◌⊎◌, Option, none, some, List, ◌∷◌, ◌≡◌, refl, [], Any, arith, ap, length,
  ◌≢◌,
}
use pulse_data.Events.{Event}
use pulse_data.Prelude.Text.{trim_space, contains_any, utf8}
use pulse_data.Errors.{Error, as_dead_letter}
use pulse_data.Kafka.{Message}
use pulse_data.Events.Validate.{validate}
use pulse_data.Kafka.Settled.{IsSettled, AreCommitsOrdered}
use pulse_data.Kafka.Single.{run_single}
use pulse_data.Kafka.Single.Delivery.{AreCommitsDue, run_single-AreCommitsDue}
use pulse_data.Kafka.Single.Loss.{Passes, outage, run_single-Passes}
use pulse_data.Kafka.{Env}
use pulse_data.Kafka.Loop.{rounds}
use pulse_data.Kafka.Batch.{run_batch, batch_round, fetch_batch, fill_batch, fetch_more}
use pulse_data.Kafka.Batch.Fetched.{owed_by, IsEnd, IsFetch, IsCommit}
use pulse_data.Kafka.Batch.Fetched.Kept.{run_batch-IsTraced}
use pulse_data.Kafka.Batch.Fetched.Progress.{IsServed, run_batch-commits}
use pulse_data.Kafka.Batch.Delivery.{run_batch-AreCommitsOrdered}
use pulse_data.Kafka.Producer.{encode, publish_batch, Carry, publish_batch-Carry}
use pulse_data.Kafka.Backoff.{AreWaitsBounded, run_single-AreWaitsBounded}
use pulse_data.Kafka.Screening.{AreCallsScreened, run_single-AreCallsScreened}
use pulse_data.Tests.Samples.{
  broker, consumer, json, today, failure_error, message_of, order, refund,
}

run_single-AreCommitsDue_example : AreCommitsDue broker.json (run_single consumer broker 3 []).1
run_single-AreCommitsDue_example = run_single-AreCommitsDue consumer broker 3

run_batch-AreCommitsOrdered_example :
    AreCommitsOrdered broker.json (run_batch consumer broker 4 []).1
run_batch-AreCommitsOrdered_example = run_batch-AreCommitsOrdered consumer broker 4

-- A broker to which all calls succeed.
abbrev healthy : Env
healthy = record broker { handle_batch = λ es h. none }

healthy-IsServed : IsServed consumer healthy
healthy-IsServed = record {
  has_dlq = refl;
  handled = λ batch h. refl;
  written = λ copies h. refl;
  committed = λ ms h. refl;
}

first_fetched : Any (IsFetch (message_of 0 0)) (run_batch consumer broker 1 []).1
unfolding run_batch batch_round fetch_batch fill_batch fetch_more rounds
first_fetched = inr (inr (inr (inr (inr (inl refl)))))

first_fetched_healthy : Any (IsFetch (message_of 0 0)) (run_batch consumer healthy 1 []).1
unfolding run_batch batch_round fetch_batch fill_batch fetch_more rounds
first_fetched_healthy = inr (inr (inr (inr (inr (inl refl)))))

run_batch-IsTraced_example :
    Any (λ x. x ≡ message_of 0 0) (owed_by (run_batch consumer broker 1 []).0)
    ⊎ (Any (IsCommit (message_of 0 0)) (run_batch consumer broker 1 []).1
        ⊎ Any IsEnd (run_batch consumer broker 1 []).1)
run_batch-IsTraced_example = run_batch-IsTraced (message_of 0 0) consumer broker 1 first_fetched

run_batch-commits_example :
    (k : ℕ) × (k ≤ 3)
    × (Any (IsCommit (message_of 0 0)) (run_batch consumer healthy (1 + k) []).1
        ⊎ Any IsEnd (run_batch consumer healthy (1 + k) []).1)
run_batch-commits_example =
    run_batch-commits consumer healthy healthy-IsServed (message_of 0 0) 1 first_fetched_healthy

run_single-AreWaitsBounded_example : AreWaitsBounded (run_single consumer broker 3 []).1
run_single-AreWaitsBounded_example = run_single-AreWaitsBounded consumer broker 3

run_single-AreCallsScreened_example : AreCallsScreened broker (run_single consumer broker 3 []).1
run_single-AreCallsScreened_example = run_single-AreCallsScreened consumer broker 3

order_not_refund : order ≢ refund
order_not_refund e = omega (arith, ap (λ (x : Event). length x.event_id) e)

run_single-Passes_example :
    let h =
      (run_single consumer
        (outage json today failure_error (message_of 1 7) (message_of 2 8))
        2
        []).1 in
    Any (Passes (message_of 1 7)) h × (¬ IsSettled json h (message_of 1 7))
unfolding validate trim_space contains_any utf8 as_dead_letter
run_single-Passes_example =
    run_single-Passes consumer json today failure_error (message_of 1 7) (message_of 2 8) order
      refund refl refl refl refl order_not_refund refl (omega arith) refl

-- Takes one message or two.
abbrev writer : List Message → Option Error
writer [] = some failure_error
writer (m ∷ []) = none
writer (m ∷ n ∷ []) = none
writer (m ∷ n ∷ o ∷ ms) = some failure_error

publish_batch-Carry_example :
    (ms : List Message) × Carry json [] (order ∷ refund ∷ []) ms × (writer ms ≡ none)
unfolding publish_batch encode
publish_batch-Carry_example = publish_batch-Carry json [] writer order (refund ∷ []) refl
