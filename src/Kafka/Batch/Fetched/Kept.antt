-- ===== src/Kafka/Batch/Fetched/Kept.antt =====
-- The batch loop of internal/kafka/producer.go leaves no message behind.
use pulse_data.Prelude.{
  ℕ, ◌≡◌, inl, inr, ◌⊎◌, true, false, Option, none, some, List, [], ◌∷◌, Any, Bool-cases, if_either,
}
use pulse_data.Prelude.History.{Run}
use pulse_data.Events.{Event}
use pulse_data.Errors.{Error, Result, ok, err, BatchDeadLetter, as_batch_dead_letter}
use pulse_data.Kafka.{
  Message, Call, handled_batch, committed, polled, waited, Env, Consumer, second,
}
use pulse_data.Kafka.Loop.{Outcome, returned, running, back_off, Holds, rounds-Holds}
use pulse_data.Kafka.Batch.{
  Phase, fetching, decoding, handling, committing, fetch_batch, decode_batch, dead_letter_batch,
  after_commit, handle_again, after_dead_letter_batch, after_as, after_handle, after_fetch,
  after_decode, handle_round, commit_round, poll_and_back_off, batch_round, run_batch,
}
use pulse_data.Kafka.Batch.Fetched.{
  owed, owed_by, IsEnd, IsFetch, IsCommit, IsTraced, IsTraced-cons, IsFetched,
  fetch_batch-IsFetched,
}
use pulse_data.Kafka.Batch.Fetched.Decoded.{
  IsDecoded, decode_batch-IsDecoded, record_batch-IsTraced, dead_letter_batch-IsTraced,
}

module _ (m : Message) (c : Consumer) (env : Env) where
  abbrev IsKept : Outcome (Phase × ℕ) × List Call → Type 0
  IsKept = Holds (λ s h. IsTraced m (owed s.0) h) (λ h. Any IsEnd h)

  back_off-IsKept :
      (phase : Phase) (backoff : ℕ) (h : List Call)
      → IsTraced m (owed phase) h
      → IsKept (back_off env (λ b. (phase, b)) backoff h)
  unfolding back_off
  back_off-IsKept phase backoff h t = elim (Bool-cases (env.wait backoff h)) [
    | inl fired ↦ rw fired (IsTraced-cons m (owed phase) (waited backoff true) h (λ b. b) t)
    | inr ended ↦ rw ended (inl tt)
  ]

  poll_and_back_off-IsKept :
      (phase : Phase) (backoff : ℕ) (h : List Call)
      → IsTraced m (owed phase) h
      → IsKept (poll_and_back_off c env phase backoff h)
  unfolding poll_and_back_off
  poll_and_back_off-IsKept phase backoff h t = elim (Bool-cases (env.cancelled h)) [
    | inl done ↦ rw done (inl tt)
    | inr live ↦ rw live (
        back_off-IsKept phase backoff (polled false ∷ h)
          (IsTraced-cons m (owed phase) (polled false) h (λ b. b) t))
  ]

  after_fetch-IsKept :
      (backoff : ℕ) (r : Result (List Message) × List Call)
      → IsFetched m r
      → IsKept (after_fetch c env backoff r.0 r.1)
  after_fetch-IsKept backoff (err e, h) t = poll_and_back_off-IsKept fetching backoff h t
  after_fetch-IsKept backoff (ok ms, h) t = t

  after_decode-IsKept :
      (ms : List Message) (backoff : ℕ) (r : Result (List Message × List Event) × List Call)
      → IsDecoded m c env ms ms r
      → IsKept (after_decode c env ms backoff r.0 r.1)
  after_decode-IsKept ms backoff (err e, h) t = poll_and_back_off-IsKept (decoding ms) backoff h t
  after_decode-IsKept ms backoff (ok (processed, []), h) (t, same) = rw same t
  after_decode-IsKept ms backoff (ok (processed, e ∷ es), h) (t, same) = rw same t

  after_as-IsKept :
      (ms processed : List Message) (batch : List Event) (backoff : ℕ) (h : List Call)
      → IsTraced m processed h
      → (r : Option BatchDeadLetter) → IsKept (after_as c env ms processed batch backoff r h)
  unfolding handle_again
  after_as-IsKept ms processed batch backoff h t none =
      back_off-IsKept (handling ms processed batch) backoff h t
  after_as-IsKept ms processed batch backoff h t (some terminal) =
      by_answer (dead_letter_batch c env ms terminal h)
        (dead_letter_batch-IsTraced m c env processed ms terminal h t)
    where
      by_answer :
          (a : Option Error × List Call)
          → IsTraced m processed a.1
          → IsKept (after_dead_letter_batch c env ms processed batch backoff a.0 a.1)
      by_answer (none, h') t' = t'
      by_answer (some e, h') t' = back_off-IsKept (handling ms processed batch) backoff h' t'

  after_handle-IsKept :
      (ms processed : List Message) (batch : List Event) (backoff : ℕ) (r : Option Error)
      (h : List Call)
      → IsTraced m processed h
      → IsKept (after_handle c env ms processed batch backoff r h)
  unfolding handle_again
  after_handle-IsKept ms processed batch backoff none h t = t
  after_handle-IsKept ms processed batch backoff (some x) h t =
      if_either (λ (run : Run Call (Outcome (Phase × ℕ))). IsKept (run h)) c.has_dlq
        (after_as-IsKept ms processed batch backoff h t (as_batch_dead_letter x))
        (back_off-IsKept (handling ms processed batch) backoff h t)

  -- A commit that is done leaves nothing owed, and names all that was.
  committed-IsTraced :
      (ms : List Message) (h : List Call) → IsTraced m ms h → IsTraced m [] (committed ms none ∷ h)
  committed-IsTraced ms h t (inl f) = absurd f
  committed-IsTraced ms h t (inr f) = elim (t f) [
    | inl e ↦ inr (inl (inl e))
    | inr (inl e) ↦ inr (inl (inr e))
    | inr (inr e) ↦ inr (inr (inr e))
  ]

  uncommitted-IsTraced :
      (ms : List Message) (e : Error) (h : List Call)
      → IsTraced m ms h
      → IsTraced m ms (committed ms (some e) ∷ h)
  uncommitted-IsTraced ms e h t = IsTraced-cons m ms (committed ms (some e)) h (λ b. b) t

  after_commit-IsKept :
      (processed : List Message) (batch : List Event) (backoff : ℕ) (h : List Call)
      → IsTraced m processed h
      → (r : Option Error)
      → IsKept (after_commit c env processed batch backoff r (committed processed r ∷ h))
  after_commit-IsKept processed batch backoff h t none =
      record_batch-IsTraced m c env [] batch (committed processed none ∷ h)
        (committed-IsTraced processed h t)
  after_commit-IsKept processed batch backoff h t (some e) =
      let h' = committed processed (some e) ∷ h in
      elim (Bool-cases (env.wait backoff h')) [
        | inl fired ↦ rw fired (
            IsTraced-cons m processed (waited backoff true) h' (λ b. b)
              (uncommitted-IsTraced processed e h t))
        | inr ended ↦ rw ended (inl tt)
      ]

  batch_round-IsKept :
      (s : Phase × ℕ) (h : List Call) → IsTraced m (owed s.0) h → IsKept (batch_round c env s h)
  unfolding batch_round handle_round commit_round
  batch_round-IsKept (fetching, backoff) h t =
      after_fetch-IsKept backoff (fetch_batch c env h) (fetch_batch-IsFetched m c env h t)
  batch_round-IsKept (decoding ms, backoff) h t =
      after_decode-IsKept ms backoff (decode_batch c env ms h)
        (decode_batch-IsDecoded m c env ms ms h t)
  batch_round-IsKept (handling ms processed batch, backoff) h t =
      let r = env.handle_batch batch h in
      after_handle-IsKept ms processed batch backoff r (handled_batch batch r ∷ h)
        (IsTraced-cons m processed (handled_batch batch r) h (λ b. b) t)
  batch_round-IsKept (committing processed batch, backoff) h t =
      after_commit-IsKept processed batch backoff h t (env.commit processed h)

  IsTraced-of_IsKept :
      (r : Outcome (Phase × ℕ) × List Call) → IsKept r → IsTraced m (owed_by r.0) r.1
  IsTraced-of_IsKept (returned, h) e f = inr (inr e)
  IsTraced-of_IsKept (running s, h) t f = t f

  -- Whatever the environment answers, after any number of rounds of runBatch each message that
  -- was fetched is in the batch under way, or was named by a successful commit, or a call has
  -- found that the context ended.
  pub run_batch-IsTraced :
      (n : ℕ)
      → Any (IsFetch m) (run_batch c env n []).1
      → Any (λ x. x ≡ m) (owed_by (run_batch c env n []).0)
        ⊎ (Any (IsCommit m) (run_batch c env n []).1 ⊎ Any IsEnd (run_batch c env n []).1)
  unfolding run_batch
  run_batch-IsTraced n = IsTraced-of_IsKept (run_batch c env n []) (
      rounds-Holds (λ s h. IsTraced m (owed s.0) h) (λ h. Any IsEnd h) (batch_round c env)
        batch_round-IsKept n (fetching, second) [] (λ f. absurd f))
