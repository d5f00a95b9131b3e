-- ===== src/Kafka/Batch/Pending.antt =====
-- What a batch of internal/kafka/producer.go still owes: the messages between decodeBatch and the
-- commit.
use pulse_data.Prelude.{
  ℕ, zero, suc, ◌≡◌, refl, ◌⊎◌, inl, inr, Option, none, some, List, [], ◌∷◌, ◌++◌, arith, All, Any,
  All-map, Any-append_left, Any-append_right, ap,
}
use pulse_data.Prelude.History.{Run}
use pulse_data.Events.{Event, Time}
use pulse_data.Events.Validate.{validate}
use pulse_data.Errors.{Error, Result, ok, err, in_context}
use pulse_data.Prelude.Text.{codes}
use pulse_data.Kafka.{Message, Call, clocked, Env, Consumer}
use pulse_data.Kafka.Settled.{Carries, IsSettled, AreCommitsOrdered}
use pulse_data.Kafka.Single.{with_error_header, write_dead_letter}
use pulse_data.Kafka.Batch.{
  add_processed, fill_batch, fetch_batch, after_discard, discard, after_validate, after_unmarshal,
  decode_batch,
}

module _ (c : Consumer) (env : Env) where
  -- The message is settled, or carries an event of the batch.
  abbrev pub IsPending : List Call → List Event → Message → Type 0
  IsPending h batch m =
      IsSettled env.json h m ⊎ ((e : Event) × Carries env.json m e × Any (λ x. x ≡ e) batch)

  -- What was settled before stays so.
  abbrev pub Extends : List Call → List Call → Type 0
  Extends h h' = (m : Message) → IsSettled env.json h m → IsSettled env.json h' m

  fill_batch-AreCommitsOrdered :
      (room : ℕ) (deadline : Time) (ms : List Message) (h : List Call)
      → AreCommitsOrdered env.json h
      → AreCommitsOrdered env.json (fill_batch c env room deadline ms h).1
  unfolding fill_batch
  fill_batch-AreCommitsOrdered zero deadline ms h o = o
  fill_batch-AreCommitsOrdered (suc room) deadline ms h o =
      grind (arith, fill_batch-AreCommitsOrdered room deadline)

  pub fetch_batch-AreCommitsOrdered :
      (h : List Call)
      → AreCommitsOrdered env.json h
      → AreCommitsOrdered env.json (fetch_batch c env h).1
  unfolding fetch_batch
  fetch_batch-AreCommitsOrdered h o = grind (arith, fill_batch-AreCommitsOrdered)

  -- What decodeBatch returns for `ms`: all of them, each settled or with its event in the batch.
  abbrev pub Accounts : List Call → List Message → Result (List Message × List Event) → Type 0
  Accounts h ms (ok (processed, batch)) = (processed ≡ ms) × All (IsPending h batch) ms
  Accounts h ms (err e) = Unit

  abbrev pub IsDecoded :
      List Message → List Call → Result (List Message × List Event) × List Call → Type 0
  IsDecoded ms h (r, h') = AreCommitsOrdered env.json h' × Extends h h' × Accounts h' ms r

  IsPending-append :
      (h : List Call) (es batch : List Event) (m : Message)
      → IsPending h batch m
      → IsPending h (es ++ batch) m
  IsPending-append h es batch m (inl s) = inl s
  IsPending-append h es batch m (inr (e, carried, at)) =
      inr (e, carried, Any-append_right (λ x. x ≡ e) es batch at)

  IsPending-append_left :
      (h : List Call) (es batch : List Event) (m : Message)
      → IsPending h es m
      → IsPending h (es ++ batch) m
  IsPending-append_left h es batch m (inl s) = inl s
  IsPending-append_left h es batch m (inr (e, carried, at)) =
      inr (e, carried, Any-append_left (λ x. x ≡ e) es batch at)

  -- One message more.
  Accounts-add_processed :
      (h : List Call) (m : Message) (es : List Event) (ms : List Message)
      (r : Result (List Message × List Event))
      → IsPending h es m
      → Accounts h ms r
      → Accounts h (m ∷ ms) (add_processed m es r)
  Accounts-add_processed h m es ms (ok (processed, batch)) p (same, rest) = (
    ap (◌∷◌ m) same,
    (IsPending-append_left h es batch m p, All-map (λ m'. IsPending-append h es batch m') ms rest),
  )
  Accounts-add_processed h m es ms (err e) p a = tt

  -- A message is put before the rest, where it is settled or joins the batch.
  cons-IsDecoded :
      (m : Message) (es : List Event) (ms : List Message) (h h1 : List Call)
      (r : Result (List Message × List Event) × List Call)
      → Extends h h1
      → IsPending r.1 es m
      → IsDecoded ms h1 r
      → IsDecoded (m ∷ ms) h (add_processed m es r.0, r.1)
  cons-IsDecoded m es ms h h1 (r, h') more p (o, grows, a) =
      (o, λ m' s. grows m' (more m' s), Accounts-add_processed h' m es ms r p a)

  written-IsSettled :
      (m : Message) (cause : Error) (h : List Call)
      → (write_dead_letter c env m cause h).0 ≡ none
      → IsSettled env.json (write_dead_letter c env m cause h).1 m
  unfolding write_dead_letter with_error_header
  written-IsSettled m cause h e = ground arith

  written-Extends :
      (m : Message) (cause : Error) (h : List Call)
      → Extends h (write_dead_letter c env m cause h).1
  unfolding write_dead_letter
  written-Extends m cause h m' s = ground arith

  written-AreCommitsOrdered :
      (m : Message) (cause : Error) (h : List Call)
      → AreCommitsOrdered env.json h
      → AreCommitsOrdered env.json (write_dead_letter c env m cause h).1
  unfolding write_dead_letter
  written-AreCommitsOrdered m cause h o = ground arith

  -- `rest` decodes `ms`.
  abbrev Decodes : List Message → Run Call (Result (List Message × List Event)) → Type 0
  Decodes ms rest = (h : List Call) → AreCommitsOrdered env.json h → IsDecoded ms h (rest h)

  after_discard-IsDecoded :
      (m : Message) (ms : List Message) (rest : Run Call (Result (List Message × List Event)))
      → Decodes ms rest
      → (h h1 : List Call) (written : Option Error) → Extends h h1
      → AreCommitsOrdered env.json h1
      → (written ≡ none → IsSettled env.json h1 m)
      → IsDecoded (m ∷ ms) h (after_discard m rest written h1)
  after_discard-IsDecoded m ms rest ih h h1 (some e) more o s = (o, more, tt)
  after_discard-IsDecoded m ms rest ih h h1 none more o s =
      let d = ih h1 o in cons-IsDecoded m [] ms h h1 (rest h1) more (inl (d.1 m (s refl))) d

  discard-IsDecoded :
      (m : Message) (cause : Error) (ms : List Message)
      (rest : Run Call (Result (List Message × List Event)))
      → Decodes ms rest
      → Decodes (m ∷ ms) (discard c env m cause rest)
  unfolding discard
  discard-IsDecoded m cause ms rest ih h o =
      let (written, h1) = write_dead_letter c env m cause h in
      after_discard-IsDecoded m ms rest ih h h1 written (written-Extends m cause h)
        (written-AreCommitsOrdered m cause h o) (written-IsSettled m cause h)

  after_validate-IsDecoded :
      (m : Message) (event : Event) (ms : List Message)
      (rest : Run Call (Result (List Message × List Event)))
      → Carries env.json m event
      → Decodes ms rest
      → (refusal : Option Error) → Decodes (m ∷ ms) (after_validate c env m event rest refusal)
  after_validate-IsDecoded m event ms rest carried ih (some e) h o =
      discard-IsDecoded m (in_context (codes "validate kafka event") e) ms rest ih h o
  after_validate-IsDecoded m event ms rest carried ih none h o =
      cons-IsDecoded m (event ∷ []) ms h h (rest h) (λ _ s. s) (inr (event, carried, inl refl))
        (ih h o)

  after_unmarshal-IsDecoded :
      (m : Message) (ms : List Message) (rest : Run Call (Result (List Message × List Event)))
      → Decodes ms rest
      → (r : Result Event) → env.json.unmarshal m.value ≡ r
      → Decodes (m ∷ ms) (after_unmarshal c env m rest r)
  after_unmarshal-IsDecoded m ms rest ih (err e) q h o =
      discard-IsDecoded m (in_context (codes "decode kafka event") e) ms rest ih h o
  after_unmarshal-IsDecoded m ms rest ih (ok event) q h o =
      let now = env.now h in
      let (o', more, a) =
        after_validate-IsDecoded m event ms rest q ih (validate env.json.valid now event 0)
          (clocked now ∷ h) (tt, o) in
      (o', λ m' s. more m' (inr s), a)

  -- decodeBatch settles each message or puts its event into the batch.
  pub decode_batch-IsDecoded : (ms : List Message) → Decodes ms (decode_batch c env ms)
  unfolding decode_batch
  decode_batch-IsDecoded [] h o = (o, λ m s. s, (refl, tt))
  decode_batch-IsDecoded (m ∷ ms) h o =
      after_unmarshal-IsDecoded m ms (decode_batch c env ms) (decode_batch-IsDecoded ms)
        (env.json.unmarshal m.value) refl h o
