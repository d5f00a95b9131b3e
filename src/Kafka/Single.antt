-- ===== src/Kafka/Single.antt =====
-- The loop over single messages of internal/kafka/producer.go: processMessage, deadLetter,
-- writeDeadLetter, recordProcessing and runSingle.
pub mod Delivery
pub mod Loss
use pulse_data.Prelude.{
  ℕ, zero, suc, ◌*◌, ltb, if◌then◌else◌, not, ◌&&◌, Bool, true, false, Option, none, some, List, [],
  ◌∷◌, ◌++◌, is_none, ◌≡◌, refl, ◌⊎◌, inl, inr,
}
use pulse_data.Prelude.Text.{Text, codes, utf8}
use pulse_data.Prelude.History.{Run, pure, call, ◌>>=◌, ◌>>◌}
use pulse_data.Events.{Event}
use pulse_data.Events.Validate.{validate}
use pulse_data.Errors.{Error, Result, ok, err, message, as_dead_letter, in_context}
use pulse_data.Kafka.{
  Message, Header, Call, recorded, Env, Consumer, clock, fetch_message, handle_event,
  write_messages, commit, context_done, second,
}
use pulse_data.Kafka.Loop.{Outcome, returned, running, back_off, rounds}

-- The copy of a message that goes to the dead-letter topic, marked with the error.
unfoldable pub with_error_header : Message → Error → Message
with_error_header msg cause = record {
  key = msg.key;
  value = msg.value;
  headers = msg.headers ++ record { key = codes "pulse-error"; value = utf8 (message cause) } ∷ [];
  partition = 0;
  offset = 0;
}

module _ (c : Consumer) (env : Env) where
  unfoldable pub write_dead_letter : Message → Error → Run Call (Option Error)
  write_dead_letter msg cause =
      if not c.has_dlq
      then pure (some cause)
      else write_messages env (with_error_header msg cause ∷ [])

  unfoldable pub dead_letter : Message → Error → Run Call (Option Error)
  unfolding write_dead_letter
  dead_letter msg cause = do
    written ← write_dead_letter msg cause
    elim written [ some e ↦ pure (some e) | none ↦ commit env (msg ∷ []) ]

  -- A terminal failure of the handler goes to the dead-letter topic before the commit.
  unfoldable pub bury : Message → Error → Run Call (Bool × Option Error)
  bury msg e = do
    written ← write_messages env (with_error_header msg e ∷ [])
    elim written [
      | some dlq_err ↦ pure (false, some dlq_err)
      | none ↦ do commit_err ← commit env (msg ∷ []); pure (false, commit_err)
    ]

  -- What follows an error of the handler.
  unfoldable pub after_failure : Message → Error → Run Call (Bool × Option Error)
  unfolding bury
  after_failure msg e =
      if c.has_dlq && not (is_none (as_dead_letter e)) then bury msg e else pure (false, some e)

  -- Whether the event was processed, and the error.
  unfoldable pub process_message : Message → Run Call (Bool × Option Error)
  unfolding dead_letter after_failure
  process_message msg = elim (env.json.unmarshal msg.value) [
    | err e ↦ do r ← dead_letter msg (in_context (codes "decode kafka event") e); pure (false, r)
    | ok event ↦ do
      now ← clock env
      elim (validate env.json.valid now event 0) [
        | some e ↦ do
          r ← dead_letter msg (in_context (codes "validate kafka event") e)
          pure (false, r)
        | none ↦ do
          failed ← handle_event env event
          elim failed [
            | some e ↦ after_failure msg e
            | none ↦ do commit_err ← commit env (msg ∷ []); pure (is_none commit_err, commit_err)
          ]
      ]
  ]

  unfoldable pub record_processing : Bool → Option Error → Run Call (Unit {0})
  record_processing processed e =
      if c.has_metrics then call (λ _. tt) (λ _. recorded processed (not (is_none e))) else pure tt

  unfoldable pub single_round : ℕ → Run Call (Outcome ℕ)
  unfolding process_message record_processing back_off
  single_round backoff = do
    fetched ← fetch_message env
    elim fetched [
      | err e ↦ do
        done ← context_done env
        if done then pure returned else back_off env (λ b. b) backoff
      | ok msg ↦ do
        (processed, failed) ← process_message msg
        record_processing processed failed
        elim failed [ some e ↦ back_off env (λ b. b) backoff | none ↦ pure (running second) ]
    ]

  -- The first `n` rounds of runSingle, which starts with a backoff of a second.
  unfoldable pub run_single : ℕ → Run Call (Outcome ℕ)
  unfolding rounds
  run_single n = rounds single_round n second
