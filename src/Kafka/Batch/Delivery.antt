-- ===== src/Kafka/Batch/Delivery.antt =====
-- At-least-once handling in the batch loop of internal/kafka/producer.go.
use pulse_data.Prelude.{
  ℕ, ◌≡◌, refl, inl, inr, true, false, Option, none, some, List, [], ◌∷◌, arith, All, All-map,
  Any-map, Bool-cases, if_either,
}
use pulse_data.Prelude.History.{Run}
use pulse_data.Prelude.Text.{Text}
use pulse_data.Events.{Event}
use pulse_data.Errors.{Error, Result, ok, err, BatchDeadLetter, as_batch_dead_letter}
use pulse_data.Kafka.{
  Message, Call, handled_batch, wrote, committed, polled, waited, batch_key, Env, Consumer, second,
}
use pulse_data.Kafka.Settled.{Carries, IsSettled, AreCommitsOrdered}
use pulse_data.Kafka.Loop.{Outcome, returned, running, back_off, Holds, rounds-Holds}
use pulse_data.Kafka.Single.{record_processing}
use pulse_data.Kafka.Batch.{
  Phase, fetching, decoding, handling, committing, has_key, failed_keys, fetch_batch, decode_batch,
  dead_letter_batch, record_batch, after_commit, handle_again, after_dead_letter_batch, after_as,
  after_handle, after_fetch, after_decode, poll_and_back_off, batch_round, run_batch,
}
use pulse_data.Kafka.Batch.Pending.{
  IsPending, Accounts, fetch_batch-AreCommitsOrdered, decode_batch-IsDecoded,
}
use pulse_data.Kafka.Batch.DeadLetters.{
  IsFound, copies, failed_keys_complete, dead_letter_batch_writes,
  dead_letter_batch-AreCommitsOrdered, dead_letter_batch-IsSettled,
}

module _ (c : Consumer) (env : Env) where
  abbrev IsOrdered : List Call → Type 0
  IsOrdered = AreCommitsOrdered env.json

  -- What a phase knows of its messages.
  abbrev Owes : Phase → List Call → Type 0
  Owes fetching h = Unit
  Owes (decoding ms) h = Unit
  Owes (handling ms processed batch) h = All (IsPending c env h batch) processed
  Owes (committing processed batch) h = All (IsSettled env.json h) processed

  abbrev IsInvariant : Phase × ℕ → List Call → Type 0
  IsInvariant (phase, backoff) h = IsOrdered h × Owes phase h

  abbrev IsKept : Outcome (Phase × ℕ) × List Call → Type 0
  IsKept = Holds IsInvariant IsOrdered

  still-IsPending :
      (call : Call) (h : List Call) (batch : List Event) (m : Message)
      → IsPending c env h batch m
      → IsPending c env (call ∷ h) batch m
  still-IsPending call h batch m (inl s) = inl (inr s)
  still-IsPending call h batch m (inr p) = inr p

  handled_pending :
      (h : List Call) (batch : List Event) (m : Message)
      → IsPending c env h batch m
      → IsSettled env.json (handled_batch batch none ∷ h) m
  handled_pending h batch m (inl s) = inr s
  handled_pending h batch m (inr p) = inl p

  still_owed : (phase : Phase) (call : Call) (h : List Call) → Owes phase h → Owes phase (call ∷ h)
  still_owed fetching call h w = tt
  still_owed (decoding ms) call h w = tt
  still_owed (handling ms processed batch) call h w =
      All-map (still-IsPending call h batch) processed w
  still_owed (committing processed batch) call h w = All-map (λ m s. inr s) processed w

  module _ (ms : List Message) (batch : List Event) (x : Error) (terminal : BatchDeadLetter)
      (reported : as_batch_dead_letter x ≡ some terminal) (h : List Call) where
    abbrev buried : List Call
    buried = wrote (copies env ms terminal) none ∷ handled_batch batch (some x) ∷ h

    buried_pending :
        ((k : Text)
          → has_key k (failed_keys terminal.events) ≡ true
          → IsFound env.json terminal.cause k (copies env ms terminal))
        → (m : Message) → IsPending c env h batch m
        → IsSettled env.json buried m
    buried_pending found m (inl s) = inr (inr s)
    buried_pending found m (inr (e, carried, at)) =
        elim (Bool-cases (has_key (batch_key e) (failed_keys terminal.events))) [
          | inl known ↦ inl (
              Any-map
                (λ w (f : (e' : Event) × Carries env.json w e' × (batch_key e' ≡ batch_key e)).
                  inr (e, f.0, carried, f.1, f.2))
                (copies env ms terminal) (found (batch_key e) known))
          | inr other ↦ inr (
              inl (
                e,
                carried,
                at,
                (terminal, reported, failed_keys_complete (batch_key e) terminal.events other),
              ))
        ]

  back_off-IsKept :
      (phase : Phase) (backoff : ℕ) (h : List Call)
      → IsOrdered h
      → Owes phase h
      → IsKept (back_off env (λ b. (phase, b)) backoff h)
  unfolding back_off
  back_off-IsKept phase backoff h o w = elim (Bool-cases (env.wait backoff h)) [
    | inl fired ↦ rw fired ((tt, o), still_owed phase (waited backoff true) h w)
    | inr ended ↦ rw ended (tt, o)
  ]

  poll_and_back_off-IsKept :
      (phase : Phase) (backoff : ℕ) (h : List Call)
      → IsOrdered h
      → Owes phase h
      → IsKept (poll_and_back_off c env phase backoff h)
  unfolding poll_and_back_off
  poll_and_back_off-IsKept phase backoff h o w = elim (Bool-cases (env.cancelled h)) [
    | inl done ↦ rw done (tt, o)
    | inr live ↦ rw live (
        back_off-IsKept phase backoff (polled false ∷ h) (tt, o)
          (still_owed phase (polled false) h w))
  ]

  record_batch-keeps :
      (batch : List Event) (h : List Call) → IsOrdered h → IsOrdered (record_batch c env batch h).1
  unfolding record_batch record_processing
  record_batch-keeps [] h o = o
  record_batch-keeps (e ∷ es) h o = grind (arith, record_batch-keeps es)

  after_commit-IsKept :
      (processed : List Message) (batch : List Event) (backoff : ℕ) (h : List Call)
      → IsOrdered h
      → All (IsSettled env.json h) processed
      → (r : Option Error)
      → IsKept (after_commit c env processed batch backoff r (committed processed r ∷ h))
  after_commit-IsKept processed batch backoff h o w none =
      (record_batch-keeps batch (committed processed none ∷ h) (w, o), tt)
  after_commit-IsKept processed batch backoff h o w (some e) =
      elim (Bool-cases (env.wait backoff (committed processed (some e) ∷ h))) [
        | inl fired ↦ rw fired ((tt, (tt, o)), All-map (λ m s. inr (inr s)) processed w)
        | inr ended ↦ rw ended (tt, (tt, o))
      ]

  handle_again-IsKept :
      (ms processed : List Message) (batch : List Event) (backoff : ℕ) (h : List Call)
      → IsOrdered h
      → All (IsPending c env h batch) processed
      → IsKept (handle_again c env ms processed batch backoff h)
  unfolding handle_again
  handle_again-IsKept ms processed batch backoff h =
      back_off-IsKept (handling ms processed batch) backoff h

  after_dead_letter_batch-IsKept :
      (ms processed : List Message) (batch : List Event) (backoff : ℕ) (r : Option Error)
      (h : List Call)
      → IsOrdered h
      → All (IsPending c env h batch) processed
      → (r ≡ none → All (IsSettled env.json h) processed)
      → IsKept (after_dead_letter_batch c env ms processed batch backoff r h)
  after_dead_letter_batch-IsKept ms processed batch backoff none h o w s = (o, s refl)
  after_dead_letter_batch-IsKept ms processed batch backoff (some e) h o w s =
      handle_again-IsKept ms processed batch backoff h o w

  grown-IsPending :
      (h h' : List Call) (batch : List Event)
      → ((m : Message) → IsSettled env.json h m → IsSettled env.json h' m)
      → (m : Message) → IsPending c env h batch m
      → IsPending c env h' batch m
  grown-IsPending h h' batch more m (inl s) = inl (more m s)
  grown-IsPending h h' batch more m (inr p) = inr p

  after_as-IsKept :
      (ms processed : List Message) (batch : List Event) (backoff : ℕ) (x : Error) (h : List Call)
      → IsOrdered h
      → All (IsPending c env h batch) processed
      → (r : Option BatchDeadLetter) → as_batch_dead_letter x ≡ r
      → IsKept (after_as c env ms processed batch backoff r (handled_batch batch (some x) ∷ h))
  after_as-IsKept ms processed batch backoff x h o w none q =
      handle_again-IsKept ms processed batch backoff (handled_batch batch (some x) ∷ h) (tt, o)
        (All-map (still-IsPending (handled_batch batch (some x)) h batch) processed w)
  after_as-IsKept ms processed batch backoff x h o w (some t) q =
      let call = handled_batch batch (some x) in
      let (r, h') = dead_letter_batch c env ms t (call ∷ h) in
      after_dead_letter_batch-IsKept ms processed batch backoff r h'
        (dead_letter_batch-AreCommitsOrdered c env ms t (call ∷ h) (tt, o))
        (All-map
          (grown-IsPending (call ∷ h) h' batch (dead_letter_batch-IsSettled c env ms t (call ∷ h)))
          processed (All-map (still-IsPending call h batch) processed w))
        (λ e.
          let (written, found) = dead_letter_batch_writes c env ms t (call ∷ h) e in
          rw written (All-map (buried_pending ms batch x t q h found) processed w))

  handle_round-IsKept :
      (ms processed : List Message) (batch : List Event) (backoff : ℕ) (h : List Call)
      → IsOrdered h
      → All (IsPending c env h batch) processed
      → (r : Option Error)
      → IsKept (after_handle c env ms processed batch backoff r (handled_batch batch r ∷ h))
  handle_round-IsKept ms processed batch backoff h o w none =
      ((tt, o), All-map (handled_pending h batch) processed w)
  handle_round-IsKept ms processed batch backoff h o w (some x) =
      let h' = handled_batch batch (some x) ∷ h in
      if_either (λ (run : Run Call (Outcome (Phase × ℕ))). IsKept (run h')) c.has_dlq
        (after_as-IsKept ms processed batch backoff x h o w (as_batch_dead_letter x) refl)
        (handle_again-IsKept ms processed batch backoff h' (tt, o)
          (All-map (still-IsPending (handled_batch batch (some x)) h batch) processed w))

  IsSettled-of_empty :
      (h : List Call) (m : Message) → IsPending c env h [] m → IsSettled env.json h m
  IsSettled-of_empty h m (inl s) = s
  IsSettled-of_empty h m (inr (e, carried, at)) = absurd at

  after_fetch-IsKept :
      (backoff : ℕ) (r : Result (List Message)) (h : List Call)
      → IsOrdered h
      → IsKept (after_fetch c env backoff r h)
  after_fetch-IsKept backoff (err e) h o = poll_and_back_off-IsKept fetching backoff h o tt
  after_fetch-IsKept backoff (ok ms) h o = (o, tt)

  after_decode-IsKept :
      (ms : List Message) (backoff : ℕ) (r : Result (List Message × List Event)) (h : List Call)
      → IsOrdered h
      → Accounts c env h ms r
      → IsKept (after_decode c env ms backoff r h)
  after_decode-IsKept ms backoff (err e) h o a =
      poll_and_back_off-IsKept (decoding ms) backoff h o tt
  after_decode-IsKept ms backoff (ok (processed, [])) h o (same, a) =
      (o, rw same (All-map (IsSettled-of_empty h) ms a))
  after_decode-IsKept ms backoff (ok (processed, e ∷ es)) h o (same, a) = (o, rw same a)

  batch_round-IsKept :
      (s : Phase × ℕ) (h : List Call) → IsInvariant s h → IsKept (batch_round c env s h)
  unfolding batch_round
  batch_round-IsKept (fetching, backoff) h (o, w) =
      after_fetch-IsKept backoff (fetch_batch c env h).0 (fetch_batch c env h).1
        (fetch_batch-AreCommitsOrdered c env h o)
  batch_round-IsKept (decoding ms, backoff) h (o, w) =
      let (ordered, more, accounts) = decode_batch-IsDecoded c env ms h o in
      after_decode-IsKept ms backoff (decode_batch c env ms h).0 (decode_batch c env ms h).1 ordered
        accounts
  batch_round-IsKept (handling ms processed batch, backoff) h (o, w) =
      handle_round-IsKept ms processed batch backoff h o w (env.handle_batch batch h)
  batch_round-IsKept (committing processed batch, backoff) h (o, w) =
      after_commit-IsKept processed batch backoff h o w (env.commit processed h)

  IsOrdered-of_IsKept : (r : Outcome (Phase × ℕ) × List Call) → IsKept r → IsOrdered r.1
  IsOrdered-of_IsKept (returned, h) o = o
  IsOrdered-of_IsKept (running s, h) (o, w) = o

  -- Whatever the environment answers, after any number of rounds of runBatch every successful
  -- commit names only messages that were settled before it: the event was in a batch that the
  -- handler took without error, or that it took but for other events, or a copy of the message, or
  -- of one whose event has the same key, was written to the dead-letter topic.
  pub run_batch-AreCommitsOrdered : (n : ℕ) → AreCommitsOrdered env.json (run_batch c env n []).1
  unfolding run_batch
  run_batch-AreCommitsOrdered n = IsOrdered-of_IsKept (run_batch c env n []) (
      rounds-Holds IsInvariant IsOrdered (batch_round c env) batch_round-IsKept n (fetching, second)
        [] (tt, tt))
