-- ===== src/Kafka/Batch/DeadLetters.antt =====
-- What deadLetterBatch of internal/kafka/producer.go writes: for every failed event of the batch a
-- copy of a message that carries it.
use pulse_data.Prelude.{
  ◌≡◌, ◌≢◌, refl, sym, inl, inr, Bool, true, false, none, List, [], ◌∷◌, arith, All, Any,
}
use pulse_data.Prelude.Text.{Text, Text-discrete}
use pulse_data.Events.{Event}
use pulse_data.Events.Decode.{Json}
use pulse_data.Errors.{Error, Result, ok, err, BatchDeadLetter}
use pulse_data.Kafka.{Message, Call, wrote, batch_key, Env, Consumer}
use pulse_data.Kafka.Settled.{Carries, IsSettled, AreCommitsOrdered}
use pulse_data.Kafka.Single.{with_error_header}
use pulse_data.Kafka.Batch.{
  has_key, delete_key, failed_keys, pick_event, pick_message, pick_failed, dead_letter_batch,
}

has_key-delete_key :
    (k j : Text) (keys : List Text)
    → k ≢ j
    → has_key k keys ≡ true
    → has_key k (delete_key j keys) ≡ true
unfolding has_key delete_key
has_key-delete_key k j [] ne h = h
has_key-delete_key k j (i ∷ keys) ne h = ground (arith, has_key-delete_key k j keys ne)

has_key-ne-nil : (k : Text) (keys : List Text) → has_key k keys ≡ true → keys ≢ []
unfolding has_key
has_key-ne-nil k [] h e = cc
has_key-ne-nil k (j ∷ keys) h e = cc

failed_keys_mono :
    (k : Text) (e : Event) (es : List Event)
    → has_key k (failed_keys (e ∷ es)) ≡ false
    → (has_key k (failed_keys es) ≡ false) × (batch_key e ≢ k)
unfolding has_key failed_keys
failed_keys_mono k e es h = ground arith

-- A key that is not in the set belongs to none of the events.
pub failed_keys_complete :
    (k : Text) (es : List Event)
    → has_key k (failed_keys es) ≡ false
    → All (λ e. batch_key e ≢ k) es
failed_keys_complete k [] h = tt
failed_keys_complete k (e ∷ es) h =
    let (rest, ne) = failed_keys_mono k e es h in (ne, failed_keys_complete k es rest)

module _ (json : Json) (cause : Error) (k : Text) where
  -- Some message of the list carries an event with this key.
  abbrev pub IsFound : List Message → Type 0
  IsFound = Any (λ w. (e : Event) × Carries json w e × (batch_key e ≡ k))

  -- If no key is left, the copy of a message with the key was picked.
  abbrev Finds : (List Text → List Message × List Text) → Type 0
  Finds rest =
      (keys : List Text) → has_key k keys ≡ true → (rest keys).1 ≡ [] → IsFound (rest keys).0

  pick_event-Finds :
      (m : Message) (e : Event) (keys : List Text) (rest : List Text → List Message × List Text)
      → Carries json m e
      → Finds rest
      → has_key k keys ≡ true
      → (known : Bool) → (pick_event m cause (batch_key e) keys rest known).1 ≡ []
      → IsFound (pick_event m cause (batch_key e) keys rest known).0
  pick_event-Finds m e keys rest carried find h false done = find keys h done
  pick_event-Finds m e keys rest carried find h true done = elim (Text-discrete k (batch_key e)) [
    | yes same ↦ inl (e, unfold with_error_header in carried, sym same)
    | no ne ↦
        inr
          (find (delete_key (batch_key e) keys) (has_key-delete_key k (batch_key e) keys ne h) done)
  ]

  pick_message-Finds :
      (m : Message) (keys : List Text) (rest : List Text → List Message × List Text)
      → Finds rest
      → has_key k keys ≡ true
      → (r : Result Event) → json.unmarshal m.value ≡ r
      → (pick_message m cause keys rest r).1 ≡ []
      → IsFound (pick_message m cause keys rest r).0
  pick_message-Finds m keys rest find h (err _) q done = find keys h done
  pick_message-Finds m keys rest find h (ok e) q done =
      pick_event-Finds m e keys rest q find h (has_key (batch_key e) keys) done

  pub pick_failed-Finds : (ms : List Message) → Finds (pick_failed json cause ms)
  unfolding pick_failed
  pick_failed-Finds [] keys h done = absurd (has_key-ne-nil k keys h done)
  pick_failed-Finds (m ∷ ms) keys h done =
      pick_message-Finds m keys (pick_failed json cause ms) (pick_failed-Finds ms) h
        (json.unmarshal m.value) refl done

-- The copies that deadLetterBatch makes.
abbrev pub copies : Env → List Message → BatchDeadLetter → List Message
copies env ms terminal = (pick_failed env.json terminal.cause ms (failed_keys terminal.events)).0

module _ (c : Consumer) (env : Env) (ms : List Message) (terminal : BatchDeadLetter)
    (h : List Call) where
  -- A deadLetterBatch that returns nil has written copies that cover every failed event.
  pub dead_letter_batch_writes :
      (dead_letter_batch c env ms terminal h).0 ≡ none
      → ((dead_letter_batch c env ms terminal h).1 ≡ wrote (copies env ms terminal) none ∷ h)
        × ((k : Text)
            → has_key k (failed_keys terminal.events) ≡ true
            → IsFound env.json terminal.cause k (copies env ms terminal))
  unfolding dead_letter_batch
  dead_letter_batch_writes e = (
    ground arith,
    λ k known.
        pick_failed-Finds env.json terminal.cause k ms (failed_keys terminal.events) known
          (ground arith),
  )

  pub dead_letter_batch-AreCommitsOrdered :
      AreCommitsOrdered env.json h
      → AreCommitsOrdered env.json (dead_letter_batch c env ms terminal h).1
  unfolding dead_letter_batch
  dead_letter_batch-AreCommitsOrdered o = ground arith

  pub dead_letter_batch-IsSettled :
      (m : Message)
      → IsSettled env.json h m
      → IsSettled env.json (dead_letter_batch c env ms terminal h).1 m
  unfolding dead_letter_batch
  dead_letter_batch-IsSettled m s = ground arith
