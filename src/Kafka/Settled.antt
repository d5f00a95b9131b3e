-- ===== src/Kafka/Settled.antt =====
-- When a message is settled in the history of a consumer of internal/kafka/producer.go: its event
-- was handled, or a copy of it was written to the dead-letter topic. A commit is in order if every
-- message that it names was settled before.
use pulse_data.Prelude.{◌≡◌, ◌≢◌, ◌⊎◌, none, some, List, [], ◌∷◌, All, Any}
use pulse_data.Events.{Event}
use pulse_data.Errors.{Error, ok, BatchDeadLetter, as_batch_dead_letter}
use pulse_data.Events.Decode.{Json}
use pulse_data.Kafka.{Message, Call, handled, handled_batch, wrote, committed, batch_key}

module _ (json : Json) where
  -- A copy of `m` for the dead-letter topic.
  abbrev pub IsCopy : Message → Message → Type 0
  IsCopy m w = (w.key ≡ m.key) × (w.value ≡ m.value)

  -- `m` carries the event `e`.
  abbrev pub Carries : Message → Event → Type 0
  Carries m e = json.unmarshal m.value ≡ ok e

  -- `m` and `w` carry events with the same key of a batch.
  abbrev pub IsTwin : Message → Message → Type 0
  IsTwin m w =
      (e : Event) × (e' : Event) × Carries m e × Carries w e' × (batch_key e' ≡ batch_key e)

  -- The batch was handled but for the events that its error reports, and `e` is none of those.
  abbrev pub IsSpared : Error → Event → Type 0
  IsSpared x e =
      (t : BatchDeadLetter) × (as_batch_dead_letter x ≡ some t)
      × All (λ failed. batch_key failed ≢ batch_key e) t.events

  -- This call settles `m`.
  abbrev pub Settles : Message → Call → Type 0
  Settles m (handled e none) = Carries m e
  Settles m (handled_batch es none) = (e : Event) × Carries m e × Any (λ x. x ≡ e) es
  Settles m (handled_batch es (some x)) =
      (e : Event) × Carries m e × Any (λ y. y ≡ e) es × IsSpared x e
  Settles m (wrote ms none) = Any (λ w. IsCopy m w ⊎ IsTwin m w) ms
  Settles m _ = ⊥

  abbrev pub IsSettled : List Call → Message → Type 0
  IsSettled h m = Any (Settles m) h

  abbrev pub CommitIsOrdered : List Call → Call → Type 0
  CommitIsOrdered h (committed ms none) = All (IsSettled h) ms
  CommitIsOrdered h _ = Unit

  -- Every commit of the history is in order.
  abbrev pub AreCommitsOrdered : List Call → Type 0
  AreCommitsOrdered [] = Unit
  AreCommitsOrdered (call ∷ h) = CommitIsOrdered h call × AreCommitsOrdered h
