-- ===== src/Worker/Sinks/Saved.antt =====
-- What the results of PersistenceHandler and AnalyticsHandler of internal/worker/handlers.go say
-- about the stores.
use pulse_data.Prelude.{
  ◌≡◌, inl, inr, refl, arith, Bool, true, false, Option, none, some, List, [], ◌∷◌, All, Any,
  All-map,
}
use pulse_data.Prelude.History.{Run}
use pulse_data.Events.{Event}
use pulse_data.Errors.{Error, ok}
use pulse_data.Worker.Sinks.{
  Call, saved, saved_batch, recorded, recorded_batch, Env, after_handle, handle_each, persist,
  persist_batch, analyze, analyze_batch,
}

-- The event is in the store by this call, alone or in a batch.
abbrev pub Saves : Event → Call → Type 0
Saves event (saved e (ok inserted)) = e ≡ event
Saves event (saved_batch es none) = Any (λ e. e ≡ event) es
Saves event _ = ⊥

abbrev pub Records : Event → Call → Type 0
Records event (recorded e none) = e ≡ event
Records event (recorded_batch es none) = Any (λ e. e ≡ event) es
Records event _ = ⊥

module _ (P : Event → Call → Type 0) (handle : Event → Run Call (Option Error))
    (grows : (e x : Event) (h : List Call) → Any (P x) h → Any (P x) (handle e h).1)
    (does : (e : Event) (h : List Call) → (handle e h).0 ≡ none → Any (P e) (handle e h).1) where
  after_handle_grows :
      (x : Event) (rest : Run Call (Option Error)) (r : Option Error) (h : List Call)
      → ((h' : List Call) → Any (P x) h' → Any (P x) (rest h').1)
      → Any (P x) h
      → Any (P x) (after_handle rest r h).1
  after_handle_grows x rest none h g p = g h p
  after_handle_grows x rest (some e) h g p = p

  handle_each_grows :
      (x : Event) (batch : List Event) (h : List Call)
      → Any (P x) h
      → Any (P x) (handle_each handle batch h).1
  unfolding handle_each
  handle_each_grows x [] h p = p
  handle_each_grows x (e ∷ batch) h p =
      after_handle_grows x (handle_each handle batch) (handle e h).0 (handle e h).1
        (handle_each_grows x batch) (grows e x h p)

  -- A loop that ends without an error has handled every event.
  handle_each-All :
      (batch : List Event) (h : List Call)
      → (handle_each handle batch h).0 ≡ none
      → All (λ e. Any (P e) (handle_each handle batch h).1) batch
  unfolding handle_each
  handle_each-All [] h e = tt
  handle_each-All (event ∷ batch) h e =
      by_answer (handle event h).0 (handle event h).1 (does event h) (handle_each-All batch) e
    where
      by_answer :
          (r : Option Error) (h' : List Call)
          → (r ≡ none → Any (P event) h')
          → ((h'' : List Call)
              → (handle_each handle batch h'').0 ≡ none
              → All (λ x. Any (P x) (handle_each handle batch h'').1) batch)
          → (after_handle (handle_each handle batch) r h').0 ≡ none
          → All (λ x. Any (P x) (after_handle (handle_each handle batch) r h').1) (event ∷ batch)
      by_answer none h' d ih e = (handle_each_grows event batch h' (d refl), ih h' e)
      by_answer (some x) h' d ih e = ground arith

All-member : {A : Type 0} (xs : List A) → All (λ x. Any (λ y. y ≡ x) xs) xs
All-member [] = tt
All-member (x ∷ xs) = (inl refl, All-map (λ y p. inr p) xs (All-member xs))

module _ (env : Env) (has_metrics : Bool) where
  persist_grows :
      (e x : Event) (h : List Call)
      → Any (Saves x) h
      → Any (Saves x) (persist env has_metrics e h).1
  unfolding persist
  persist_grows e x h p = ground arith

  persist-Saves :
      (e : Event) (h : List Call)
      → (persist env has_metrics e h).0 ≡ none
      → Any (Saves e) (persist env has_metrics e h).1
  unfolding persist
  persist-Saves e h p = ground arith

  -- If HandleBatch of the persistence worker returns without an error, then every event of the
  -- batch was saved without an error, alone or in a batch, whether the store saves batches or not
  -- and whether an event was new or a duplicate.
  pub persist_batch-Saves :
      (has_batch : Bool) (batch : List Event) (h : List Call)
      → (persist_batch env has_metrics has_batch batch h).0 ≡ none
      → All (λ e. Any (Saves e) (persist_batch env has_metrics has_batch batch h).1) batch
  unfolding persist_batch
  persist_batch-Saves true batch h e = by_answer (env.save_events batch h) e
    where
      by_answer :
          (r : Option Error) → r ≡ none → All (λ x. Any (Saves x) (saved_batch batch r ∷ h)) batch
      by_answer none e = All-map (λ x p. inl p) batch (All-member batch)
      by_answer (some x) e = ground arith
  persist_batch-Saves false batch h e =
      handle_each-All Saves (persist env has_metrics) persist_grows persist-Saves batch h e

module _ (env : Env) where
  analyze_grows :
      (e x : Event) (h : List Call) → Any (Records x) h → Any (Records x) (analyze env e h).1
  unfolding analyze
  analyze_grows e x h p = ground arith

  analyze-Records :
      (e : Event) (h : List Call) → (analyze env e h).0 ≡ none → Any (Records e) (analyze env e h).1
  unfolding analyze
  analyze-Records e h p = ground arith

  -- If HandleBatch of the analytics worker returns without an error, then every event of the batch
  -- was recorded without an error, alone or in a batch.
  pub analyze_batch-Records :
      (has_batch : Bool) (batch : List Event) (h : List Call)
      → (analyze_batch env has_batch batch h).0 ≡ none
      → All (λ e. Any (Records e) (analyze_batch env has_batch batch h).1) batch
  unfolding analyze_batch
  analyze_batch-Records true batch h e = by_answer (env.record_batch batch h) e
    where
      by_answer :
          (r : Option Error)
          → r ≡ none
          → All (λ x. Any (Records x) (recorded_batch batch r ∷ h)) batch
      by_answer none e = All-map (λ x p. inl p) batch (All-member batch)
      by_answer (some x) e = ground arith
  analyze_batch-Records false batch h e =
      handle_each-All Records (analyze env) analyze_grows analyze-Records batch h e
