-- ===== src/Kafka/Batch/Fetched/Decoded.antt =====
-- decodeBatch and deadLetterBatch of internal/kafka/producer.go lose no message that was fetched.
use pulse_data.Prelude.{
  not, is_empty, ◌≡◌, refl, ap, true, false, Option, none, some, List, [], ◌∷◌, if_either,
}
use pulse_data.Prelude.History.{Run, ◌>>◌}
use pulse_data.Prelude.Text.{codes}
use pulse_data.Events.{Event}
use pulse_data.Events.Validate.{validate}
use pulse_data.Errors.{Error, Result, ok, err, BatchDeadLetter, in_context}
use pulse_data.Kafka.{Message, Call, clocked, wrote, recorded, Env, Consumer}
use pulse_data.Kafka.Single.{with_error_header, record_processing, write_dead_letter}
use pulse_data.Kafka.Batch.{
  add_processed, after_discard, discard, after_validate, after_unmarshal, decode_batch, failed_keys,
  pick_failed, dead_letter_batch, record_batch,
}
use pulse_data.Kafka.Batch.Fetched.{IsTraced, IsTraced-cons}

module _ (m : Message) (c : Consumer) (env : Env) where
  -- The history is no worse, and decodeBatch returns all of its messages.
  module _ (ms : List Message) where
    abbrev pub IsDecoded : List Message → Result (List Message × List Event) × List Call → Type 0
    IsDecoded ns (ok (processed, batch), h) = IsTraced m ms h × (processed ≡ ns)
    IsDecoded ns (err e, h) = IsTraced m ms h

    abbrev Decodes : List Message → Run Call (Result (List Message × List Event)) → Type 0
    Decodes ns rest = (h : List Call) → IsTraced m ms h → IsDecoded ns (rest h)

    cons-IsDecoded :
        (n : Message) (es : List Event) (ns : List Message)
        (r : Result (List Message × List Event) × List Call)
        → IsDecoded ns r
        → IsDecoded (n ∷ ns) (add_processed n es r.0, r.1)
    cons-IsDecoded n es ns (ok (processed, batch), h) (t, same) = (t, ap (◌∷◌ n) same)
    cons-IsDecoded n es ns (err e, h) t = t

    write_dead_letter-IsTraced :
        (n : Message) (cause : Error) (h : List Call)
        → IsTraced m ms h
        → IsTraced m ms (write_dead_letter c env n cause h).1
    unfolding write_dead_letter
    write_dead_letter-IsTraced n cause h t =
        if_either (λ (run : Run Call (Option Error)). IsTraced m ms (run h).1) (not c.has_dlq) t
          (IsTraced-cons m ms
            (wrote (with_error_header n cause ∷ []) (env.write (with_error_header n cause ∷ []) h))
            h (λ b. b) t)

    after_discard-IsDecoded :
        (n : Message) (ns : List Message) (rest : Run Call (Result (List Message × List Event)))
        → Decodes ns rest
        → (written : Option Error) → Decodes (n ∷ ns) (after_discard n rest written)
    after_discard-IsDecoded n ns rest ih (some e) h t = t
    after_discard-IsDecoded n ns rest ih none h t = cons-IsDecoded n [] ns (rest h) (ih h t)

    discard-IsDecoded :
        (n : Message) (cause : Error) (ns : List Message)
        (rest : Run Call (Result (List Message × List Event)))
        → Decodes ns rest
        → Decodes (n ∷ ns) (discard c env n cause rest)
    unfolding discard
    discard-IsDecoded n cause ns rest ih h t =
        let (written, h1) = write_dead_letter c env n cause h in
        after_discard-IsDecoded n ns rest ih written h1 (write_dead_letter-IsTraced n cause h t)

    after_validate-IsDecoded :
        (n : Message) (event : Event) (ns : List Message)
        (rest : Run Call (Result (List Message × List Event)))
        → Decodes ns rest
        → (refusal : Option Error) → Decodes (n ∷ ns) (after_validate c env n event rest refusal)
    after_validate-IsDecoded n event ns rest ih (some e) h t =
        discard-IsDecoded n (in_context (codes "validate kafka event") e) ns rest ih h t
    after_validate-IsDecoded n event ns rest ih none h t =
        cons-IsDecoded n (event ∷ []) ns (rest h) (ih h t)

    after_unmarshal-IsDecoded :
        (n : Message) (ns : List Message) (rest : Run Call (Result (List Message × List Event)))
        → Decodes ns rest
        → (r : Result Event) → Decodes (n ∷ ns) (after_unmarshal c env n rest r)
    after_unmarshal-IsDecoded n ns rest ih (err e) h t =
        discard-IsDecoded n (in_context (codes "decode kafka event") e) ns rest ih h t
    after_unmarshal-IsDecoded n ns rest ih (ok event) h t =
        let now = env.now h in
        after_validate-IsDecoded n event ns rest ih (validate env.json.valid now event 0)
          (clocked now ∷ h) (IsTraced-cons m ms (clocked now) h (λ b. b) t)

    pub decode_batch-IsDecoded : (ns : List Message) → Decodes ns (decode_batch c env ns)
    unfolding decode_batch
    decode_batch-IsDecoded [] h t = (t, refl)
    decode_batch-IsDecoded (n ∷ ns) h t =
        after_unmarshal-IsDecoded n ns (decode_batch c env ns) (decode_batch-IsDecoded ns)
          (env.json.unmarshal n.value) h t

    pub record_batch-IsTraced :
        (batch : List Event) (h : List Call)
        → IsTraced m ms h
        → IsTraced m ms (record_batch c env batch h).1
    unfolding record_batch record_processing
    record_batch-IsTraced [] h t = t
    record_batch-IsTraced (e ∷ es) h t =
        if_either
          (λ (run : Run Call (Unit {0})). IsTraced m ms ((run >> record_batch c env es) h).1)
          c.has_metrics
          (record_batch-IsTraced es (recorded true false ∷ h)
            (IsTraced-cons m ms (recorded true false) h (λ b. b) t))
          (record_batch-IsTraced es h t)

    pub dead_letter_batch-IsTraced :
        (ns : List Message) (terminal : BatchDeadLetter) (h : List Call)
        → IsTraced m ms h
        → IsTraced m ms (dead_letter_batch c env ns terminal h).1
    unfolding dead_letter_batch
    dead_letter_batch-IsTraced ns terminal h t =
        let failed = failed_keys terminal.events in
        let (copies, left) = pick_failed env.json terminal.cause ns failed in
        if_either (λ (run : Run Call (Option Error)). IsTraced m ms (run h).1) (is_empty failed) t
          (if_either (λ (run : Run Call (Option Error)). IsTraced m ms (run h).1)
            (not (is_empty left)) t
            (IsTraced-cons m ms (wrote copies (env.write copies h)) h (λ b. b) t))
