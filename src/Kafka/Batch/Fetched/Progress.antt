-- ===== src/Kafka/Batch/Fetched/Progress.antt =====
-- The batch loop of internal/kafka/producer.go commits what it has fetched once its calls succeed.
use native.Mathlib.Omega.{arith}
use pulse_data.Prelude.{
  ℕ, ◌+◌, ◌≡◌, ◌≤◌, refl, inl, inr, ◌⊎◌, ap, true, false, Option, none, some, List, [], ◌∷◌, Any,
  if_either,
}
use pulse_data.Prelude.History.{Run, ◌>>◌}
use pulse_data.Prelude.Text.{codes}
use pulse_data.Events.{Event}
use pulse_data.Events.Validate.{validate}
use pulse_data.Errors.{Error, Result, ok, err, in_context}
use pulse_data.Kafka.{
  Message, Call, clocked, handled_batch, wrote, committed, recorded, Env, Consumer, second,
}
use pulse_data.Kafka.Loop.{rounds, rounds-add, Outcome, returned, running}
use pulse_data.Kafka.Single.{with_error_header, record_processing, write_dead_letter}
use pulse_data.Kafka.Batch.{
  Phase, fetching, decoding, handling, committing, add_processed, discard, after_validate,
  after_unmarshal, decode_batch, record_batch, handle_round, commit_round, batch_round, run_batch,
}
use pulse_data.Kafka.Batch.Fetched.{owed, owed_by, IsEnd, IsFetch, IsCommit}
use pulse_data.Kafka.Batch.Fetched.Kept.{run_batch-IsTraced}

-- The handler, the dead-letter topic and the commits do not fail.
pub record IsServed (c : Consumer) (env : Env) : Type 0 where
  pub has_dlq : c.has_dlq ≡ true
  pub handled : (batch : List Event) (h : List Call) → env.handle_batch batch h ≡ none
  pub written : (copies : List Message) (h : List Call) → env.write copies h ≡ none
  pub committed : (ms : List Message) (h : List Call) → env.commit ms h ≡ none

module _ (c : Consumer) (env : Env) (served : IsServed c env) where
  abbrev IsRead : List Message → Result (List Message × List Event) → Type 0
  IsRead ns (ok (processed, batch)) = processed ≡ ns
  IsRead ns (err e) = ⊥

  cons-IsRead :
      (n : Message) (es : List Event) (ns : List Message) (r : Result (List Message × List Event))
      → IsRead ns r
      → IsRead (n ∷ ns) (add_processed n es r)
  cons-IsRead n es ns (ok (processed, batch)) same = ap (◌∷◌ n) same
  cons-IsRead n es ns (err e) b = absurd b

  abbrev Reads : List Message → Run Call (Result (List Message × List Event)) → Type 0
  Reads ns rest = (h : List Call) → IsRead ns (rest h).0

  discard-IsRead :
      (n : Message) (cause : Error) (ns : List Message)
      (rest : Run Call (Result (List Message × List Event)))
      → Reads ns rest
      → Reads (n ∷ ns) (discard c env n cause rest)
  unfolding discard write_dead_letter
  discard-IsRead n cause ns rest ih h =
      let copies = with_error_header n cause ∷ [] in
      rw (served.has_dlq, served.written copies h)
        (cons-IsRead n [] ns (rest (wrote copies none ∷ h)).0 (ih (wrote copies none ∷ h)))

  after_validate-IsRead :
      (n : Message) (event : Event) (ns : List Message)
      (rest : Run Call (Result (List Message × List Event)))
      → Reads ns rest
      → (refusal : Option Error) → Reads (n ∷ ns) (after_validate c env n event rest refusal)
  after_validate-IsRead n event ns rest ih (some e) h =
      discard-IsRead n (in_context (codes "validate kafka event") e) ns rest ih h
  after_validate-IsRead n event ns rest ih none h = cons-IsRead n (event ∷ []) ns (rest h).0 (ih h)

  after_unmarshal-IsRead :
      (n : Message) (ns : List Message) (rest : Run Call (Result (List Message × List Event)))
      → Reads ns rest
      → (r : Result Event) → Reads (n ∷ ns) (after_unmarshal c env n rest r)
  after_unmarshal-IsRead n ns rest ih (err e) h =
      discard-IsRead n (in_context (codes "decode kafka event") e) ns rest ih h
  after_unmarshal-IsRead n ns rest ih (ok event) h =
      after_validate-IsRead n event ns rest ih (validate env.json.valid (env.now h) event 0)
        (clocked (env.now h) ∷ h)

  decode_batch-IsRead : (ns : List Message) → Reads ns (decode_batch c env ns)
  unfolding decode_batch
  decode_batch-IsRead [] h = refl
  decode_batch-IsRead (n ∷ ns) h =
      after_unmarshal-IsRead n ns (decode_batch c env ns) (decode_batch-IsRead ns)
        (env.json.unmarshal n.value) h

  module _ (m : Message) where
    -- After `k` rounds from here the message has been committed.
    abbrev Commits : ℕ → Phase × ℕ → List Call → Type 0
    Commits k s h = Any (IsCommit m) (rounds (batch_round c env) k s h).1

    record_batch-Any :
        (batch : List Event) (h : List Call)
        → Any (IsCommit m) h
        → Any (IsCommit m) (record_batch c env batch h).1
    unfolding record_batch record_processing
    record_batch-Any [] h at = at
    record_batch-Any (e ∷ es) h at =
        if_either
          (λ (run : Run Call (Unit {0})). Any (IsCommit m) ((run >> record_batch c env es) h).1)
          c.has_metrics (record_batch-Any es (recorded true false ∷ h) (inr at))
          (record_batch-Any es h at)

    committing-Commits :
        (processed : List Message) (batch : List Event) (backoff : ℕ) (h : List Call)
        → Any (λ x. x ≡ m) processed
        → Commits 1 (committing processed batch, backoff) h
    unfolding rounds batch_round commit_round
    committing-Commits processed batch backoff h at =
        rw (served.committed processed h)
          (record_batch-Any batch (committed processed none ∷ h) (inl at))

    handling-Commits :
        (ms processed : List Message) (batch : List Event) (backoff : ℕ) (h : List Call)
        → Any (λ x. x ≡ m) processed
        → Commits 2 (handling ms processed batch, backoff) h
    unfolding rounds batch_round handle_round
    handling-Commits ms processed batch backoff h at =
        rw (served.handled batch h)
          (committing-Commits processed batch backoff (handled_batch batch none ∷ h) at)

    abbrev CommitsSoon : Phase × ℕ → List Call → Type 0
    CommitsSoon s h = (k : ℕ) × (k ≤ 3) × Commits k s h

    decoding-CommitsSoon :
        (ms : List Message) (backoff : ℕ) (h : List Call)
        → Any (λ x. x ≡ m) ms
        → CommitsSoon (decoding ms, backoff) h
    unfolding rounds batch_round
    decoding-CommitsSoon ms backoff h at =
        by_read (decode_batch c env ms h) refl (decode_batch-IsRead ms h)
      where
        by_read :
            (r : Result (List Message × List Event) × List Call)
            → decode_batch c env ms h ≡ r
            → IsRead ms r.0
            → CommitsSoon (decoding ms, backoff) h
        by_read (err e, h') q b = absurd b
        by_read (ok (processed, []), h') q same =
            (2, omega arith, rw q (committing-Commits processed [] backoff h' (rw same at)))
        by_read (ok (processed, e ∷ es), h') q same =
            (3, omega arith, rw q (handling-Commits ms processed (e ∷ es) backoff h' (rw same at)))

    owed-CommitsSoon :
        (s : Phase × ℕ) (h : List Call) → Any (λ x. x ≡ m) (owed s.0) → CommitsSoon s h
    owed-CommitsSoon (fetching, backoff) h at = absurd at
    owed-CommitsSoon (decoding ms, backoff) h at = decoding-CommitsSoon ms backoff h at
    owed-CommitsSoon (handling ms processed batch, backoff) h at =
        (2, omega arith, handling-Commits ms processed batch backoff h at)
    owed-CommitsSoon (committing processed batch, backoff) h at =
        (1, omega arith, committing-Commits processed batch backoff h at)

    -- What a round has left behind is committed soon.
    outcome-CommitsSoon :
        (n : ℕ) (r : Outcome (Phase × ℕ) × List Call)
        → run_batch c env n [] ≡ r
        → Any (λ x. x ≡ m) (owed_by r.0)
        → (k : ℕ) × (k ≤ 3) × Any (IsCommit m) (run_batch c env (n + k) []).1
    unfolding run_batch
    outcome-CommitsSoon n (returned, h) q at = absurd at
    outcome-CommitsSoon n (running s, h) q at =
        let (k, l, committed_then) = owed-CommitsSoon s h at in
        (k, l, rw (rounds-add (batch_round c env) n k (fetching, second) [], q) committed_then)

    -- If the handler, the dead-letter topic, which the consumer has, and the commits do not fail,
    -- then for a message that was fetched within any number of rounds of runBatch, at most three
    -- rounds more make a successful commit name it, or a call has found by then that the context
    -- ended.
    pub run_batch-commits :
        (n : ℕ)
        → Any (IsFetch m) (run_batch c env n []).1
        → (k : ℕ) × (k ≤ 3)
          × (Any (IsCommit m) (run_batch c env (n + k) []).1
              ⊎ Any IsEnd (run_batch c env (n + k) []).1)
    run_batch-commits n f = elim (run_batch-IsTraced m c env n f) [
      | inl at ↦
          let (k, l, committed_then) = outcome-CommitsSoon n (run_batch c env n []) refl at in
          (k, l, inl committed_then)
      | inr (inl done) ↦ (0, omega arith, inl (rw add_zero done))
      | inr (inr ended) ↦ (0, omega arith, inr (rw add_zero ended))
    ]
      where
        add_zero : n + 0 ≡ n
        add_zero = omega arith
