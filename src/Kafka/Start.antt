-- ===== src/Kafka/Start.antt =====
-- How a Consumer of internal/kafka/producer.go is made, and which of its loops Run runs.
use pulse_data.Prelude.{ℕ, ltb, ◌==◌, if◌then◌else◌, ◌&&◌, Bool, true, false, [], if_either}
use pulse_data.Prelude.History.{Run, pure, ◌>>=◌}
use pulse_data.Kafka.{Call, Env, Consumer}
use pulse_data.Kafka.Settled.{AreCommitsOrdered}
use pulse_data.Kafka.Loop.{Outcome, returned, running}
use pulse_data.Kafka.Single.{run_single}
use pulse_data.Kafka.Single.Delivery.{AreCommitsOrdered-of_AreCommitsDue, run_single-AreCommitsDue}
use pulse_data.Kafka.Batch.{run_batch}
use pulse_data.Kafka.Batch.Delivery.{run_batch-AreCommitsOrdered}

abbrev pub new_consumer : Consumer
new_consumer = record {
  has_dlq = false;
  has_metrics = false;
  has_batch_handler = false;
  batch_size = 0;
  batch_timeout = 0;
}

abbrev pub new_consumer_with_dlq : Consumer
new_consumer_with_dlq = record new_consumer { has_dlq = true }

abbrev pub set_metrics : Consumer → Consumer
set_metrics c = record c { has_metrics = true }

-- A size below 1 is 1, and a timeout that is not positive is ten milliseconds.
unfoldable pub set_batch_handler : ℕ → ℕ → Consumer → Consumer
set_batch_handler size timeout c = record c {
  has_batch_handler = true;
  batch_size = if ltb size 1 then 1 else size;
  batch_timeout = if timeout == 0 then 10_000_000 else timeout;
}

abbrev pub has_returned : {S : Type 0} → Outcome S → Bool
has_returned returned = true
has_returned (running s) = false

-- The first `n` rounds of Run, and whether it has returned.
unfoldable pub run : Consumer → Env → ℕ → Run Call Bool
unfolding run_batch run_single
run c env n =
    if c.has_batch_handler && ltb 1 c.batch_size
    then run_batch c env n >>= (λ o. pure (has_returned o))
    else run_single c env n >>= (λ o. pure (has_returned o))

-- Whichever loop Run runs, every successful commit names only messages that were settled before it.
pub run-AreCommitsOrdered :
    (c : Consumer) (env : Env) (n : ℕ) → AreCommitsOrdered env.json (run c env n []).1
unfolding run
run-AreCommitsOrdered c env n =
    if_either (λ (r : Run Call Bool). AreCommitsOrdered env.json (r []).1)
      (c.has_batch_handler && ltb 1 c.batch_size) (run_batch-AreCommitsOrdered c env n)
      (AreCommitsOrdered-of_AreCommitsDue env.json (run_single c env n []).1
        (run_single-AreCommitsDue c env n))
