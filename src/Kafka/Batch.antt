-- ===== src/Kafka/Batch.antt =====
-- The batch loop of internal/kafka/producer.go: fetchBatch, decodeBatch, deadLetterBatch,
-- commitMessages and runBatch. The loops inside runBatch are phases of one loop: a round is one
-- iteration of the innermost loop that runs.
pub mod Pending
pub mod DeadLetters
pub mod Delivery
pub mod Fetched
use pulse_data.Prelude.{
  ℕ, zero, suc, ◌+◌, ◌-◌, leb, ltb, if◌then◌else◌, not, ◌&&◌, Bool, true, false, Option, none, some,
  List, [], ◌∷◌, ◌++◌, is_none, is_empty, length, ite, map,
}
use pulse_data.Prelude.Text.{Text, codes, decimal, Text-discrete}
use pulse_data.Prelude.History.{Run, pure, call, ◌>>=◌, ◌>>◌}
use pulse_data.Events.{Event, Time}
use pulse_data.Events.Validate.{validate}
use pulse_data.Events.Decode.{Json}
use pulse_data.Errors.{
  Error, plain, Result, ok, err, BatchDeadLetter, as_batch_dead_letter, in_context, message,
}
use pulse_data.Kafka.{
  Message, Call, fetched, handled_batch, recorded, Env, Consumer, clock, fetch_message,
  write_messages, commit, context_done, wait, second, batch_key,
}
use pulse_data.Kafka.Loop.{Outcome, returned, running, back_off, rounds}
use pulse_data.Kafka.Single.{with_error_header, write_dead_letter, record_processing}

-- context.Canceled
abbrev pub err_canceled : Error
err_canceled = plain (codes "context canceled")

-- The set of keys of failed events, without repetitions.
unfoldable pub has_key : Text → List Text → Bool
has_key k [] = false
has_key k (j ∷ js) = let rest = has_key k js in ite (Text-discrete k j) true rest

unfoldable pub delete_key : Text → List Text → List Text
delete_key k [] = []
delete_key k (j ∷ js) = let rest = delete_key k js in ite (Text-discrete k j) rest (j ∷ rest)

unfoldable pub failed_keys : List Event → List Text
unfolding has_key
failed_keys [] = []
failed_keys (e ∷ es) =
    let rest = failed_keys es in if has_key (batch_key e) rest then rest else batch_key e ∷ rest

-- A round of the loop of deadLetterBatch, `rest` being the rounds after it: whether the key of the
-- message's event is among the failed ones, and before that the result of json.Unmarshal.
abbrev pub pick_event :
    Message
    → Error
    → Text
    → List Text
    → (List Text → List Message × List Text)
    → Bool
    → List Message × List Text
pick_event m cause key failed rest false = rest failed
pick_event m cause key failed rest true =
    let (copies, left) = rest (delete_key key failed) in (with_error_header m cause ∷ copies, left)

abbrev pub pick_message :
    Message
    → Error
    → List Text
    → (List Text → List Message × List Text)
    → Result Event
    → List Message × List Text
pick_message m cause failed rest (err _) = rest failed
pick_message m cause failed rest (ok e) =
    pick_event m cause (batch_key e) failed rest (has_key (batch_key e) failed)

-- The loop of deadLetterBatch: the copies for the dead-letter topic, and the keys that are left.
unfoldable pub pick_failed : Json → Error → List Message → List Text → List Message × List Text
unfolding has_key delete_key
pick_failed json cause [] failed = ([], failed)
pick_failed json cause (m ∷ ms) failed =
    pick_message m cause failed (pick_failed json cause ms) (json.unmarshal m.value)

-- Where runBatch stands: in its fetch, or in one of its three loops.
pub data Phase : Type 0 where
  fetching : Phase
  decoding : List Message → Phase
  handling : List Message → List Message → List Event → Phase
  committing : List Message → List Event → Phase

-- What decodeBatch returns is what one message adds to what the rest of them gives.
abbrev pub add_processed :
    Message → List Event → Result (List Message × List Event) → Result (List Message × List Event)
add_processed m es (ok (processed, batch)) = ok (m ∷ processed, es ++ batch)
add_processed m es (err e) = err e

abbrev pub after_discard :
    Message
    → Run Call (Result (List Message × List Event))
    → Option Error
    → Run Call (Result (List Message × List Event))
after_discard m rest (some e) = pure (err e)
after_discard m rest none = do r ← rest; pure (add_processed m [] r)

module _ (c : Consumer) (env : Env) where
  -- The fetch under a timeout, and the rest of the loop of fetchBatch.
  unfoldable pub fetch_more :
      (List Message → Run Call (Result (List Message)))
      → ℕ
      → List Message
      → Run Call (Result (List Message))
  fetch_more rest remaining ms = do
    r ← call (env.fetch_within remaining) fetched
    elim r [
      | ok m ↦ rest (ms ++ m ∷ [])
      | err e ↦ do done ← context_done env; pure (if done then err err_canceled else ok ms)
    ]

  -- The loop of fetchBatch, while `room` messages are missing.
  unfoldable pub fill_batch : ℕ → Time → List Message → Run Call (Result (List Message))
  unfolding fetch_more
  fill_batch zero deadline ms = pure (ok ms)
  fill_batch (suc room) deadline ms = do
    now ← clock env
    if leb deadline now
        then pure (ok ms)
        else fetch_more (λ ms'. fill_batch room deadline ms') (deadline - now) ms

  unfoldable pub fetch_batch : Run Call (Result (List Message))
  unfolding fill_batch
  fetch_batch = do
    first ← fetch_message env
    elim first [
      | err e ↦ pure (err e)
      | ok m ↦ do now ← clock env; fill_batch (c.batch_size - 1) (now + c.batch_timeout) (m ∷ [])
    ]

  -- A message that is no valid event goes to the dead-letter topic, and the loop goes on.
  unfoldable pub discard :
      Message
      → Error
      → Run Call (Result (List Message × List Event))
      → Run Call (Result (List Message × List Event))
  discard m cause rest = write_dead_letter c env m cause >>= after_discard m rest

  -- The event has passed or failed Validate.
  abbrev pub after_validate :
      Message
      → Event
      → Run Call (Result (List Message × List Event))
      → Option Error
      → Run Call (Result (List Message × List Event))
  after_validate m event rest (some e) =
      discard m (in_context (codes "validate kafka event") e) rest
  after_validate m event rest none = do r ← rest; pure (add_processed m (event ∷ []) r)

  -- The message has been read by json.Unmarshal.
  abbrev pub after_unmarshal :
      Message
      → Run Call (Result (List Message × List Event))
      → Result Event
      → Run Call (Result (List Message × List Event))
  after_unmarshal m rest (err e) = discard m (in_context (codes "decode kafka event") e) rest
  after_unmarshal m rest (ok event) = do
    now ← clock env
    after_validate m event rest (validate env.json.valid now event 0)

  -- One round of the loop of decodeBatch for each message.
  unfoldable pub decode_batch : List Message → Run Call (Result (List Message × List Event))
  unfolding discard
  decode_batch [] = pure (ok ([], []))
  decode_batch (m ∷ ms) = after_unmarshal m (decode_batch ms) (env.json.unmarshal m.value)

  unfoldable pub dead_letter_batch : List Message → BatchDeadLetter → Run Call (Option Error)
  unfolding pick_failed failed_keys
  dead_letter_batch ms terminal =
      let failed = failed_keys terminal.events in
      let (copies, left) = pick_failed env.json terminal.cause ms failed in
      if is_empty failed
      then pure (some (plain (codes "batch dead-letter error contains no events")))
      else if not (is_empty left)
      then pure (
          some (
            plain (
              codes "batch dead-letter events were not found in kafka batch: "
              ++ decimal (length left))))
      else write_messages env copies

  -- recordProcessing for every event of the batch, at the end of a round of runBatch.
  unfoldable pub record_batch : List Event → Run Call (Unit {0})
  unfolding record_processing
  record_batch [] = pure tt
  record_batch (e ∷ es) = record_processing c env true none >> record_batch es

  -- CommitMessages has answered; the backoff of commitMessages stays as it is.
  abbrev pub after_commit :
      List Message → List Event → ℕ → Option Error → Run Call (Outcome (Phase × ℕ))
  after_commit processed batch backoff none = do
    record_batch batch
    pure (running (fetching, second))
  after_commit processed batch backoff (some e) = do
    fired ← wait env backoff
    pure (if fired then running (committing processed batch, backoff) else returned)

  -- One iteration of the loop of commitMessages.
  unfoldable pub commit_round : List Message → List Event → ℕ → Run Call (Outcome (Phase × ℕ))
  unfolding record_batch
  commit_round processed batch backoff =
      commit env processed >>= after_commit processed batch backoff

  -- The handler is called again after a wait.
  unfoldable pub handle_again :
      List Message → List Message → List Event → ℕ → Run Call (Outcome (Phase × ℕ))
  unfolding back_off
  handle_again ms processed batch backoff =
      back_off env (λ b. (handling ms processed batch, b)) backoff

  -- deadLetterBatch has answered.
  abbrev pub after_dead_letter_batch :
      List Message → List Message → List Event → ℕ → Option Error → Run Call (Outcome (Phase × ℕ))
  after_dead_letter_batch ms processed batch backoff none =
      pure (running (committing processed batch, backoff))
  after_dead_letter_batch ms processed batch backoff (some _) =
      handle_again ms processed batch backoff

  -- The error of the handler is a batch dead-letter error, or is not.
  abbrev pub after_as :
      List Message
      → List Message
      → List Event
      → ℕ
      → Option BatchDeadLetter
      → Run Call (Outcome (Phase × ℕ))
  after_as ms processed batch backoff none = handle_again ms processed batch backoff
  after_as ms processed batch backoff (some terminal) =
      dead_letter_batch ms terminal >>= after_dead_letter_batch ms processed batch backoff

  -- The handler has answered.
  abbrev pub after_handle :
      List Message → List Message → List Event → ℕ → Option Error → Run Call (Outcome (Phase × ℕ))
  after_handle ms processed batch backoff none =
      pure (running (committing processed batch, backoff))
  after_handle ms processed batch backoff (some e) =
      if c.has_dlq
      then after_as ms processed batch backoff (as_batch_dead_letter e)
      else handle_again ms processed batch backoff

  -- One iteration of the loop that calls the handler.
  unfoldable pub handle_round :
      List Message → List Message → List Event → ℕ → Run Call (Outcome (Phase × ℕ))
  unfolding handle_again dead_letter_batch
  handle_round ms processed batch backoff =
      call (env.handle_batch batch) (handled_batch batch)
      >>= after_handle ms processed batch backoff

  -- The context is polled before the wait.
  unfoldable pub poll_and_back_off : Phase → ℕ → Run Call (Outcome (Phase × ℕ))
  unfolding back_off
  poll_and_back_off phase backoff = do
    done ← context_done env
    if done then pure returned else back_off env (λ b. (phase, b)) backoff

  abbrev pub after_fetch : ℕ → Result (List Message) → Run Call (Outcome (Phase × ℕ))
  after_fetch backoff (err e) = poll_and_back_off fetching backoff
  after_fetch backoff (ok ms) = pure (running (decoding ms, backoff))

  -- An empty batch is committed at once.
  abbrev pub after_decode :
      List Message → ℕ → Result (List Message × List Event) → Run Call (Outcome (Phase × ℕ))
  after_decode ms backoff (err e) = poll_and_back_off (decoding ms) backoff
  after_decode ms backoff (ok (processed, [])) = pure (running (committing processed [], backoff))
  after_decode ms backoff (ok (processed, e ∷ es)) =
      pure (running (handling ms processed (e ∷ es), backoff))

  unfoldable pub batch_round : Phase × ℕ → Run Call (Outcome (Phase × ℕ))
  unfolding fetch_batch decode_batch handle_round commit_round poll_and_back_off
  batch_round (fetching, backoff) = fetch_batch >>= after_fetch backoff
  batch_round (decoding ms, backoff) = decode_batch ms >>= after_decode ms backoff
  batch_round (handling ms processed batch, backoff) = handle_round ms processed batch backoff
  batch_round (committing processed batch, backoff) = commit_round processed batch backoff

  -- The first `n` rounds of runBatch.
  unfoldable pub run_batch : ℕ → Run Call (Outcome (Phase × ℕ))
  unfolding rounds
  run_batch n = rounds batch_round n (fetching, second)
