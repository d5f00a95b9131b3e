-- ===== src/Worker/Webhooks/Batch/Accounts.antt =====
-- What WebhookHandler.HandleBatch of internal/worker/handlers.go says about the events of a batch.
use mathlib.Core.List.{lookup}
use pulse_data.Prelude.{
  ◌≡◌, ◌≢◌, ◌⊎◌, inl, inr, refl, arith, Bool, Option, none, some, List, [], ◌∷◌, ◌++◌, All, Any,
  All-map, Any-map, length, length-append, Any-append_left, Any-append_right,
}
use pulse_data.Prelude.Map.{insert, lookup-insert}
use pulse_data.Prelude.Text.{Text, Text-discrete}
use pulse_data.Events.{Event}
use pulse_data.Errors.{Error, Result, ok, err, as_dead_letter}
use pulse_data.Webhook.Subscriptions.{Subscription}
use pulse_data.Worker.Webhooks.{
  Call, listed, claimed, delivered, released, finished, counted, Env, deliver,
}
use pulse_data.Worker.Webhooks.Served.{IsServed, IsServed-grows, deliver-IsServed, deliver_grows}
use pulse_data.Worker.Webhooks.Batch.{
  Cache, cache_key, event_key, after_list, after_lookup, find_subscriptions, after_as,
  after_deliver, after_find, batch_loop, after_batch, handle_batch,
}

-- A tenant's name has no null character.
abbrev pub HasNoNull : Text → Type 0
HasNoNull t = All (λ c. c ≢ 0) t

cache_key_injective :
    (t t' ty ty' : Text)
    → HasNoNull t
    → HasNoNull t'
    → cache_key t ty ≡ cache_key t' ty'
    → (t ≡ t') × (ty ≡ ty')
cache_key_injective [] [] ty ty' p q e = ground arith
cache_key_injective [] (c ∷ t') ty ty' p q e = ground arith
cache_key_injective (c ∷ t) [] ty ty' p q e = ground arith
cache_key_injective (c ∷ t) (c' ∷ t') ty ty' p q e =
    ground (arith, cache_key_injective t t' ty ty' p.1 q.1)

-- The store listed `subs` under a key of the cache.
abbrev IsListing : Text → List Subscription → Call → Type 0
IsListing k subs (listed t ty (ok s)) = (cache_key t ty ≡ k) × HasNoNull t × (s ≡ subs)
IsListing k subs _ = ⊥

-- The store listed `subs` for the tenant and the type of the event.
abbrev pub IsListedFor : Event → List Subscription → Call → Type 0
IsListedFor event subs (listed t ty (ok s)) = (t ≡ event.tenant_id) × (ty ≡ event.type) × (s ≡ subs)
IsListedFor event subs _ = ⊥

-- The event is served for all subscriptions that the store listed for its tenant and type.
abbrev pub IsEventServed : List Call → Event → Type 0
IsEventServed h event =
    (subs : List Subscription) × Any (IsListedFor event subs) h × All (IsServed event h) subs

-- The event is served, or it is among the events that the error of the batch will name.
abbrev pub IsAccounted : List Event → List Call → Event → Type 0
IsAccounted failed h event = IsEventServed h event ⊎ Any (λ e. e ≡ event) failed

-- What the cache holds was listed.
abbrev IsBacked : Cache → List Call → Type 0
IsBacked cache h =
    (k : Text) (subs : List Subscription)
    → lookup Text-discrete k cache ≡ some subs
    → Any (IsListing k subs) h

IsListing-IsListedFor :
    (event : Event) (subs : List Subscription)
    → HasNoNull event.tenant_id
    → (c : Call) → IsListing (event_key event) subs c
    → IsListedFor event subs c
IsListing-IsListedFor event subs n (listed t ty (ok s)) (k, p, q) =
    let (a, b) = cache_key_injective t event.tenant_id ty event.type p n k in (a, b, q)
IsListing-IsListedFor event subs n (listed t ty (err _)) l = absurd l
IsListing-IsListedFor event subs n (claimed _ _) l = absurd l
IsListing-IsListedFor event subs n (delivered _ _) l = absurd l
IsListing-IsListedFor event subs n (released _ _) l = absurd l
IsListing-IsListedFor event subs n (finished _ _) l = absurd l
IsListing-IsListedFor event subs n (counted _) l = absurd l

IsBacked-empty : (h : List Call) → IsBacked [] h
unfolding lookup
IsBacked-empty h k subs e = ground arith

IsBacked-insert :
    (k : Text) (subs : List Subscription) (cache : Cache) (h : List Call)
    → Any (IsListing k subs) h
    → IsBacked cache h
    → IsBacked (insert Text-discrete k subs cache) h
IsBacked-insert k subs cache h l backed j subs' e =
    ground (arith, lookup-insert Text-discrete j k subs cache, backed j subs')

module _ (env : Env) (has_metrics : Bool) where
  find_grows :
      (P : Call → Type 0) (event : Event) (cache : Cache) (h : List Call)
      → Any P h
      → Any P (find_subscriptions env has_metrics event cache h).1
  unfolding find_subscriptions
  find_grows P event cache h p = ground arith

  batch_loop_grows :
      (P : Call → Type 0) (batch : List Event) (cache : Cache) (failed : List Event)
      (failures : List Error) (h : List Call)
      → Any P h
      → Any P (batch_loop env has_metrics batch cache failed failures h).1
  unfolding batch_loop
  batch_loop_grows P [] cache failed failures h p = p
  batch_loop_grows P (event ∷ batch) cache failed failures h p =
      grind (arith, find_grows, deliver_grows, batch_loop_grows P batch)

  -- What is found was listed, and the cache stays backed.
  abbrev Found : Event → Result (Cache × List Subscription) → List Call → Type 0
  Found event (ok (cache, subs)) h = IsBacked cache h × Any (IsListing (event_key event) subs) h
  Found event (err e) h = Unit

  after_list-Found :
      (event : Event) (cache : Cache) (r : Result (List Subscription)) (h : List Call)
      → HasNoNull event.tenant_id
      → IsBacked cache h
      → let (found, h') =
          after_list env has_metrics event cache r (listed event.tenant_id event.type r ∷ h) in
        Found event found h'
  after_list-Found event cache (err e) h n b = tt
  after_list-Found event cache (ok subs) h n b =
      let l = inl (refl, n, refl) in
      (
        IsBacked-insert (event_key event) subs cache
            (listed event.tenant_id event.type (ok subs) ∷ h) l (λ k s e. inr (b k s e)),
        l,
      )

  after_lookup-Found :
      (event : Event) (cache : Cache) (found : Option (List Subscription)) (h : List Call)
      → HasNoNull event.tenant_id
      → IsBacked cache h
      → lookup Text-discrete (event_key event) cache ≡ found
      → let (r, h') = after_lookup env has_metrics event cache found h in Found event r h'
  after_lookup-Found event cache (some subs) h n b e = (b, b (event_key event) subs e)
  after_lookup-Found event cache none h n b e =
      after_list-Found event cache (env.list_subscriptions event.tenant_id event.type h) h n b

  IsEventServed-grows :
      (batch : List Event) (cache : Cache) (failed : List Event) (failures : List Error)
      (h : List Call) (event : Event)
      → IsEventServed h event
      → IsEventServed (batch_loop env has_metrics batch cache failed failures h).1 event
  IsEventServed-grows batch cache failed failures h event (subs, l, served) = (
    subs,
    batch_loop_grows (IsListedFor event subs) batch cache failed failures h l,
    All-map
        (λ sub.
          IsServed-grows event sub h (batch_loop env has_metrics batch cache failed failures h).1
            (λ P. batch_loop_grows P batch cache failed failures h))
        subs served,
  )

  -- What a loop over `batch` that has failed events and their errors to start with, and ends
  -- without an error of the store, says of them.
  abbrev Accounts :
      List Event → List Event → List Error → Result (List Event × List Error) × List Call → Type 0
  Accounts batch failed failures (ok (fs, es), h) =
      (length failed ≡ length failures → length fs ≡ length es)
      × ((e : Event) → Any (λ f. f ≡ e) failed → Any (λ f. f ≡ e) fs)
      × All (IsAccounted fs h) batch
  Accounts batch failed failures (err e, h) = Unit

  after_deliver-Accounts :
      (event : Event) (batch : List Event) (cache : Cache) (failed : List Event)
      (failures : List Error) (h : List Call) (x : Option Error)
      → ((fs : List Event) (es : List Error)
          → Accounts batch fs es (batch_loop env has_metrics batch cache fs es h))
      → (x ≡ none → IsEventServed h event)
      → Accounts (event ∷ batch) failed failures (
          after_deliver env has_metrics
            (batch_loop env has_metrics batch cache)
            event
            failed
            failures
            x
            h)
  after_deliver-Accounts event batch cache failed failures h none ih served =
      with_served (batch_loop env has_metrics batch cache failed failures h) (ih failed failures)
        (IsEventServed-grows batch cache failed failures h event (served refl))
    where
      with_served :
          (r : Result (List Event × List Error) × List Call)
          → Accounts batch failed failures r
          → IsEventServed r.1 event
          → Accounts (event ∷ batch) failed failures r
      with_served (ok (fs, es), h') (l, m, a) v = (l, m, (inl v, a))
      with_served (err e, h') a v = tt
  after_deliver-Accounts event batch cache failed failures h (some x) ih served =
      by_terminal (as_dead_letter x)
    where
      by_terminal :
          (terminal : Option Error)
          → Accounts (event ∷ batch) failed failures (
              after_as env has_metrics
                (batch_loop env has_metrics batch cache)
                event
                failed
                failures
                x
                terminal
                h)
      by_terminal none = tt
      by_terminal (some t) =
          with_failed
            (batch_loop env has_metrics batch cache (failed ++ (event ∷ [])) (failures ++ (x ∷ []))
              h)
            (ih (failed ++ (event ∷ [])) (failures ++ (x ∷ [])))
        where
          with_failed :
              (r : Result (List Event × List Error) × List Call)
              → Accounts batch (failed ++ (event ∷ [])) (failures ++ (x ∷ [])) r
              → Accounts (event ∷ batch) failed failures r
          with_failed (ok (fs, es), h') (l, m, a) = (
            λ e. l (
                omega
                  (arith, e, length-append failed (event ∷ []), length-append failures (x ∷ []))),
            λ e p. m e (Any-append_left _ failed (event ∷ []) p),
            (inr (m event (Any-append_right _ failed (event ∷ []) (inl refl))), a),
          )
          with_failed (err e, h') a = tt

  batch_loop-Accounts :
      (batch : List Event) (cache : Cache) (failed : List Event) (failures : List Error)
      (h : List Call)
      → All (λ event. HasNoNull event.tenant_id) batch
      → IsBacked cache h
      → Accounts batch failed failures (batch_loop env has_metrics batch cache failed failures h)
  unfolding batch_loop find_subscriptions
  batch_loop-Accounts [] cache failed failures h n b = (λ e. e, λ e p. p, tt)
  batch_loop-Accounts (event ∷ batch) cache failed failures h (n, ns) b =
      let (r, h') = find_subscriptions env has_metrics event cache h in
      by_found r h'
        (after_lookup-Found event cache (lookup Text-discrete (event_key event) cache) h n b refl)
        (λ c. batch_loop-Accounts batch c)
    where
      by_found :
          (r : Result (Cache × List Subscription)) (h' : List Call)
          → Found event r h'
          → ((c : Cache) (fs : List Event) (es : List Error) (h'' : List Call)
              → All (λ e. HasNoNull e.tenant_id) batch
              → IsBacked c h''
              → Accounts batch fs es (batch_loop env has_metrics batch c fs es h''))
          → Accounts (event ∷ batch) failed failures (
              after_find env has_metrics
                (batch_loop env has_metrics batch)
                event
                failed
                failures
                r
                h')
      by_found (err e) h' found ih = tt
      by_found (ok (c, subs)) h' (backed, l) ih =
          let (x, h'') = deliver env has_metrics event subs h' in
          after_deliver-Accounts event batch c failed failures h'' x
            (λ fs es.
              ih c fs es h'' ns
                (λ k s e. deliver_grows env has_metrics _ event subs h' (backed k s e)))
            (λ e. (
              subs,
              Any-map (IsListing-IsListedFor event subs n) h''
                  (deliver_grows env has_metrics _ event subs h' l),
              deliver-IsServed env has_metrics event subs h' e,
            ))

  Accounts-served :
      (batch : List Event) (r : Result (List Event × List Error) × List Call)
      → Accounts batch [] [] r
      → (after_batch env has_metrics r.0 r.1).0 ≡ none
      → All (IsEventServed (after_batch env has_metrics r.0 r.1).1) batch
  Accounts-served batch (err e, h) a p = ground arith
  Accounts-served batch (ok (fs, e ∷ es), h) a p = ground arith
  Accounts-served batch (ok (f ∷ fs, []), h) (l, m, a) p = absurd (omega (arith, l refl))
  Accounts-served batch (ok ([], []), h) (l, m, a) p =
      All-map (λ event. elim [ inl v ↦ v | inr p ↦ absurd p ]) batch a

  -- If no tenant has a null character in its identifier and HandleBatch returns without an error,
  -- then for every event of the batch the store listed, in this call or before, subscriptions for
  -- its very tenant and type, and for each of them, by then, the store has refused the claim, or the
  -- event was delivered to it without an error and recorded as completed without an error.
  pub handle_batch-IsEventServed :
      (batch : List Event) (h : List Call)
      → All (λ event. HasNoNull event.tenant_id) batch
      → (handle_batch env has_metrics batch h).0 ≡ none
      → All (IsEventServed (handle_batch env has_metrics batch h).1) batch
  unfolding handle_batch
  handle_batch-IsEventServed batch h n e =
      Accounts-served batch (batch_loop env has_metrics batch [] [] [] h)
        (batch_loop-Accounts batch [] [] [] h n (IsBacked-empty h)) e
