-- ===== src/Kafka/Batch/Fetched.antt =====
-- What becomes of a message that the batch loop of internal/kafka/producer.go has fetched.
pub mod Decoded
pub mod Kept
pub mod Progress
use native.Mathlib.Omega.{arith}
use pulse_data.Prelude.{
  not, is_empty, ℕ, zero, suc, ◌+◌, ◌-◌, leb, ◌≡◌, refl, inl, inr, ◌⊎◌, ap, true, false, Option,
  none, some, List, [], ◌∷◌, ◌++◌, All, Any, Any-append_left, Any-append_right, Bool-cases,
  if_either,
}
use pulse_data.Prelude.History.{Run, ◌>>◌}
use pulse_data.Prelude.Text.{codes}
use pulse_data.Events.{Event, Time}
use pulse_data.Events.Validate.{validate}
use pulse_data.Errors.{Error, Result, ok, err, BatchDeadLetter, as_batch_dead_letter, in_context}
use pulse_data.Kafka.{
  Message, Call, clocked, fetched, handled_batch, wrote, committed, polled, waited, recorded, Env,
  Consumer, second,
}
use pulse_data.Kafka.Loop.{Outcome, returned, running, back_off, Holds, rounds-Holds}
use pulse_data.Kafka.Single.{with_error_header, record_processing, write_dead_letter}
use pulse_data.Kafka.Batch.{
  Phase, fetching, decoding, handling, committing, add_processed, after_discard, discard,
  after_validate, after_unmarshal, fetch_more, fill_batch, fetch_batch, decode_batch, failed_keys,
  pick_failed, dead_letter_batch, record_batch, after_commit, handle_again, after_dead_letter_batch,
  after_as, after_handle, after_fetch, after_decode, handle_round, commit_round, poll_and_back_off,
  batch_round, run_batch,
}

-- The messages that a phase will commit.
abbrev pub owed : Phase → List Message
owed fetching = []
owed (decoding ms) = ms
owed (handling ms processed batch) = processed
owed (committing processed batch) = processed

abbrev pub owed_by : Outcome (Phase × ℕ) → List Message
owed_by returned = []
owed_by (running (phase, backoff)) = owed phase

-- This call has found that the context has ended.
abbrev pub IsEnd : Call → Type 0
IsEnd (polled true) = Unit
IsEnd (waited delay false) = Unit
IsEnd _ = ⊥

module _ (m : Message) where
  abbrev pub IsFetch : Call → Type 0
  IsFetch (fetched (ok n)) = n ≡ m
  IsFetch _ = ⊥

  abbrev pub IsCommit : Call → Type 0
  IsCommit (committed ms none) = Any (λ n. n ≡ m) ms
  IsCommit _ = ⊥

  -- If the message was fetched, then it is among those owed, or was committed, or the context has
  -- ended.
  abbrev pub IsTraced : List Message → List Call → Type 0
  IsTraced ms h = Any IsFetch h → Any (λ n. n ≡ m) ms ⊎ (Any IsCommit h ⊎ Any IsEnd h)

  IsTraced-append :
      (ms : List Message) (n : Message) (h : List Call)
      → IsTraced ms h
      → IsTraced (ms ++ n ∷ []) (fetched (ok n) ∷ h)
  IsTraced-append ms n h t (inl e) = inl (Any-append_right (λ x. x ≡ m) ms (n ∷ []) (inl e))
  IsTraced-append ms n h t (inr f) = elim (t f) [
    | inl e ↦ inl (Any-append_left (λ x. x ≡ m) ms (n ∷ []) e)
    | inr (inl e) ↦ inr (inl (inr e))
    | inr (inr e) ↦ inr (inr (inr e))
  ]

  -- What fetchBatch returns.
  abbrev pub IsFetched : Result (List Message) × List Call → Type 0
  IsFetched (ok ms, h) = IsTraced ms h
  IsFetched (err e, h) = IsTraced [] h

  -- A call that fetches nothing.
  pub IsTraced-cons :
      (ms : List Message) (call : Call) (h : List Call)
      → (¬ IsFetch call)
      → IsTraced ms h
      → IsTraced ms (call ∷ h)
  IsTraced-cons ms call h quiet t (inl f) = absurd (quiet f)
  IsTraced-cons ms call h quiet t (inr f) = elim (t f) [
    | inl e ↦ inl e
    | inr (inl e) ↦ inr (inl (inr e))
    | inr (inr e) ↦ inr (inr (inr e))
  ]

  module _ (c : Consumer) (env : Env) where
    fetch_more-IsFetched :
        (rest : List Message → Run Call (Result (List Message)))
        → ((ms : List Message) (h : List Call) → IsTraced ms h → IsFetched (rest ms h))
        → (remaining : ℕ) (ms : List Message) (h : List Call) → IsTraced ms h
        → IsFetched (fetch_more c env rest remaining ms h)
    unfolding fetch_more
    fetch_more-IsFetched rest keep remaining ms h t = by_answer (env.fetch_within remaining h) refl
      where
        by_answer :
            (r : Result Message)
            → env.fetch_within remaining h ≡ r
            → IsFetched (fetch_more c env rest remaining ms h)
        by_answer (ok n) q =
            rw q (keep (ms ++ n ∷ []) (fetched (ok n) ∷ h) (IsTraced-append ms n h t))
        by_answer (err e) q = rw q (elim (Bool-cases (env.cancelled (fetched (err e) ∷ h))) [
          | inl done ↦ rw (done) (λ _. inr (inr (inl tt)))
          | inr live ↦ rw (live) (
              IsTraced-cons ms (polled false) (fetched (err e) ∷ h) (λ b. b)
                (IsTraced-cons ms (fetched (err e)) h (λ b. b) t))
        ])

    fill_batch-IsFetched :
        (room : ℕ) (deadline : Time) (ms : List Message) (h : List Call)
        → IsTraced ms h
        → IsFetched (fill_batch c env room deadline ms h)
    unfolding fill_batch
    fill_batch-IsFetched zero deadline ms h t = t
    fill_batch-IsFetched (suc room) deadline ms h t =
        let now = env.now h in
        let t' = IsTraced-cons ms (clocked now) h (λ b. b) t in
        if_either (λ (run : Run Call (Result (List Message))). IsFetched (run (clocked now ∷ h)))
          (leb deadline now) t'
          (fetch_more-IsFetched (λ ms'. fill_batch c env room deadline ms')
            (fill_batch-IsFetched room deadline) (deadline - now) ms (clocked now ∷ h) t')

    pub fetch_batch-IsFetched : (h : List Call) → IsTraced [] h → IsFetched (fetch_batch c env h)
    unfolding fetch_batch
    fetch_batch-IsFetched h t = by_answer (env.fetch h) refl
      where
        by_answer : (r : Result Message) → env.fetch h ≡ r → IsFetched (fetch_batch c env h)
        by_answer (err e) q = rw q (IsTraced-cons [] (fetched (err e)) h (λ b. b) t)
        by_answer (ok n) q =
            let h1 = fetched (ok n) ∷ h in
            let now = env.now h1 in
            rw q (
              fill_batch-IsFetched (c.batch_size - 1) (now + c.batch_timeout) (n ∷ [])
                (clocked now ∷ h1)
                (IsTraced-cons (n ∷ []) (clocked now) h1 (λ b. b) (IsTraced-append [] n h t)))
