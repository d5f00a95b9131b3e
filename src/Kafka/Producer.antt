-- ===== src/Kafka/Producer.antt =====
-- PublishBatch of internal/kafka/producer.go. The headers of the trace and the writer of kafka-go
-- are parameters; partition and offset of a new message are the writer's to choose.
use pulse_data.Prelude.{ℕ, ◌≡◌, refl, arith, Option, none, some, List, [], ◌∷◌, ◌++◌}
use pulse_data.Prelude.Text.{codes, utf8}
use pulse_data.Events.{Event}
use pulse_data.Events.Decode.{Json}
use pulse_data.Errors.{Error, Result, ok, err}
use pulse_data.Kafka.{Header, Message}

module _ (json : Json) (carrier : List Header) where
  abbrev pub message_of : Event → List ℕ → Message
  message_of event bytes = record {
    key = utf8 event.tenant_id;
    value = bytes;
    headers = carrier ++ (record { key = codes "event-id"; value = utf8 event.event_id } ∷ []);
    partition = 0;
    offset = 0;
  }

  abbrev pub after_rest : Message → Result (List Message) → Result (List Message)
  after_rest m (err e) = err e
  after_rest m (ok ms) = ok (m ∷ ms)

  abbrev pub after_marshal : Event → Result (List Message) → Result (List ℕ) → Result (List Message)
  after_marshal event rest (err e) = err e
  after_marshal event rest (ok bytes) = after_rest (message_of event bytes) rest

  -- The loop over the batch.
  unfoldable pub encode : List Event → Result (List Message)
  encode [] = ok []
  encode (event ∷ batch) = after_marshal event (encode batch) (json.marshal event)

  abbrev pub after_encode : (List Message → Option Error) → Result (List Message) → Option Error
  after_encode write (err e) = some e
  after_encode write (ok messages) = write messages

  unfoldable pub publish_batch : (List Message → Option Error) → List Event → Option Error
  publish_batch write [] = none
  publish_batch write (event ∷ batch) = after_encode write (encode (event ∷ batch))

  -- The messages carry the events in their order, each under the key of its tenant.
  abbrev pub Carry : List Event → List Message → Type 0
  Carry [] [] = Unit
  Carry [] (m ∷ ms) = ⊥
  Carry (event ∷ batch) [] = ⊥
  Carry (event ∷ batch) (m ∷ ms) =
      (json.marshal event ≡ ok m.value) × (m.key ≡ utf8 event.tenant_id) × Carry batch ms

  encode-Carry : (batch : List Event) (ms : List Message) → encode batch ≡ ok ms → Carry batch ms
  unfolding encode
  encode-Carry [] ms e = ground arith
  encode-Carry (event ∷ batch) [] e = ground arith
  encode-Carry (event ∷ batch) (m ∷ ms) e = ground (arith, encode-Carry batch ms)

  -- If PublishBatch returns without an error for a batch that is not empty, then the writer has
  -- taken, in one call, messages that carry the events of the batch in their order, each as its
  -- JSON and under the key of its tenant.
  pub publish_batch-Carry :
      (write : List Message → Option Error) (event : Event) (batch : List Event)
      → publish_batch write (event ∷ batch) ≡ none
      → (ms : List Message) × Carry (event ∷ batch) ms × (write ms ≡ none)
  unfolding publish_batch
  publish_batch-Carry write event batch e =
      by_result (encode (event ∷ batch)) (encode-Carry (event ∷ batch)) e
    where
      by_result :
          (r : Result (List Message))
          → ((ms : List Message) → r ≡ ok ms → Carry (event ∷ batch) ms)
          → after_encode write r ≡ none
          → (ms : List Message) × Carry (event ∷ batch) ms × (write ms ≡ none)
      by_result (err x) c e = ground arith
      by_result (ok ms) c e = (ms, c ms refl, e)
