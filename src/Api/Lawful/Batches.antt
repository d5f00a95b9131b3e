-- ===== src/Api/Lawful/Batches.antt =====
-- ingestBatch of internal/api/http.go makes lawful calls.
use pulse_data.Prelude.{
  ℕ, suc, ◌≤◌, ◌≡◌, refl, ap, arith, Bool, true, false, Option, none, some, List, [], ◌∷◌, length,
  All, All-map, Any, if_either, ◌⊎◌, inl, inr, Bool-cases, ltb, ◌==◌, ◌||◌, not,
}
use pulse_data.Prelude.Text.{Text}
use pulse_data.Prelude.History.{Run}
use pulse_data.Events.{Event}
use pulse_data.Events.Decode.{decode}
use pulse_data.Events.Origin.{decode-ok}
use pulse_data.Errors.{Error, Result, ok, err}
use pulse_data.Auth.Tenants.{Tenant}
use pulse_data.Api.{Handler, Request, Response, Call, clocked, limited, published, Env}
use pulse_data.Api.Ingest.{
  cons_event, after_event, decode_all, after_publish, publish, after_allow, limit, after_decode,
  after_read, ingest_batch,
}
use pulse_data.Api.Lawful.{
  AreCallsLawful, AreCallsAllowed, AreCallsChecked, MayActFor, IsValid, IsWithinRate,
}
use pulse_data.Api.Lawful.Handlers.{Serves, authenticate-IsLawful}

module _ (h : Handler) (env : Env) (r : Request) where
  abbrev IsLawful : List Call → Type 0
  IsLawful = AreCallsLawful h env r

  -- The event is of the tenant and valid.
  abbrev IsSound : Text → List Call → Event → Type 0
  IsSound id past e = (e.tenant_id ≡ id) × IsValid h env r past e

  -- What the loop over `n` values leaves behind.
  abbrev Gives : Text → ℕ → Result (List Event) × List Call → Type 0
  Gives id n (ok batch, past) =
      (length batch ≡ n) × All (IsSound id past) batch × IsLawful past × MayActFor h env r past id
  Gives id n (err e, past) = IsLawful past

  Gives-cons :
      (id : Text) (n : ℕ) (e : Event) (a : Result (List Event)) (past : List Call)
      → IsSound id past e
      → Gives id n (a, past)
      → Gives id (suc n) (cons_event e a, past)
  Gives-cons id n e (err x) past s l = l
  Gives-cons id n e (ok batch) past s (k, all, l, g) = (ap suc k, (s, all), l, g)

  -- The loop takes no call back.
  decode_all_grows :
      (P : Call → Type 0) (t : Tenant) (values : List (List ℕ)) (past : List Call)
      → Any P past
      → Any P (decode_all h env t values past).1
  unfolding decode_all
  decode_all_grows P t [] past p = p
  decode_all_grows P t (value ∷ values) past p = grind (arith, decode_all_grows P t values)

  after_event-Gives :
      (t : Tenant) (values : List (List ℕ)) (past : List Call) (a : Result Event)
      → ((e : Event) → a ≡ ok e → IsSound t.id past e)
      → Gives t.id (length values) (decode_all h env t values past)
      → IsLawful past
      → Gives t.id (suc (length values)) (after_event h env (decode_all h env t values) a past)
  after_event-Gives t values past (err x) s ih (l, m) = ((tt, l), (tt, m))
  after_event-Gives t values past (ok e) s ih l =
      Gives-cons t.id (length values) e (decode_all h env t values past).0
        (decode_all h env t values past).1
        ((s e refl).0, decode_all_grows _ t values past (s e refl).1) ih

  decode_all-Gives :
      (t : Tenant) (values : List (List ℕ)) (past : List Call)
      → MayActFor h env r past t.id
      → IsLawful past
      → Gives t.id (length values) (decode_all h env t values past)
  unfolding decode_all
  decode_all-Gives t [] past g l = (refl, tt, l, g)
  decode_all-Gives t (value ∷ values) past g (l, m) =
      let now = env.now past in
      after_event-Gives t values (clocked now ∷ past) (decode env.json now value t.id h.max_payload)
        (λ e p.
          let (own, valid, ends) = decode-ok env.json now value t.id h.max_payload e p in
          (own, inl valid))
        (decode_all-Gives t values (clocked now ∷ past) (inr g) ((tt, l), (tt, m)))
        ((tt, l), (tt, m))

  module _ (t : Tenant) (batch : List Event) (some_events : 1 ≤ length batch)
      (few_events : length batch ≤ h.max_batch_events) where
    publish-IsLawful :
        (past : List Call)
        → MayActFor h env r past t.id
        → IsWithinRate h env r h.has_limiter past batch
        → All (IsSound t.id past) batch
        → IsLawful past
        → IsLawful (publish h env batch past).1
    publish-IsLawful past g w all (l, m) =
        by_answer (env.publish batch past) ((t.id, g, All-map (λ e s. s.0) batch all), l)
          ((some_events, few_events, All-map (λ e s. s.1) batch all, w), m)
      where
        by_answer :
            (a : Option Error)
            → AreCallsAllowed h env r (published batch a ∷ past)
            → AreCallsChecked h env r (published batch a ∷ past)
            → IsLawful (after_publish h env batch a (published batch a ∷ past)).1
        by_answer none l' m' = ((tt, (tt, l')), (tt, (tt, m')))
        by_answer (some e) l' m' = ((tt, l'), (tt, m'))

    limit-IsLawful :
        (has_limiter : Bool)
        → h.has_limiter ≡ has_limiter
        → (past : List Call) → MayActFor h env r past t.id
        → All (IsSound t.id past) batch
        → IsLawful past
        → IsLawful (limit h env has_limiter t batch past).1
    limit-IsLawful false e past g all l = publish-IsLawful past g (rw e tt) all l
    limit-IsLawful true e past g all (l, m) = by_answer (env.allow t.id (length batch) past)
      where
        by_answer :
            (a : Result Bool)
            → IsLawful (after_allow h env batch a (limited t.id (length batch) a ∷ past)).1
        by_answer (err x) = ((g, l), (tt, m))
        by_answer (ok false) = ((tt, (g, l)), (tt, (tt, m)))
        by_answer (ok true) =
            publish-IsLawful (limited t.id (length batch) (ok true) ∷ past) (inr g)
              (rw e (inl refl)) (All-map (λ x s. (s.0, inr s.1)) batch all) ((g, l), (tt, m))

  after_decode-IsLawful :
      (t : Tenant) (n : ℕ) (a : Result (List Event)) (past : List Call)
      → 1 ≤ n
      → n ≤ h.max_batch_events
      → Gives t.id n (a, past)
      → IsLawful (after_decode h env t a past).1
  after_decode-IsLawful t n (err e) past low high l = l
  after_decode-IsLawful t n (ok batch) past low high (k, all, l, g) =
      limit-IsLawful t batch (omega (arith, k, low)) (omega (arith, k, high)) h.has_limiter refl
        past g all l

  after_read-Serves : (a : Option (List (List ℕ))) → Serves h env r (λ t. after_read h env r t a)
  after_read-Serves none t past g l = l
  after_read-Serves (some raw) t past g l =
      by_tests (Bool-cases (length raw == 0 || ltb h.max_batch_events (length raw)))
    where
      by_tests :
          ((length raw == 0 || ltb h.max_batch_events (length raw)) ≡ true)
            ⊎ ((length raw == 0 || ltb h.max_batch_events (length raw)) ≡ false)
          → IsLawful (after_read h env r t (some raw) past).1
      by_tests (inl bad) = rw bad l
      by_tests (inr good) = rw good (
          if_either (λ (run : Run Call Response). IsLawful (run past).1)
            (not (env.ends h.max_batch_bytes r.body)) l
            (after_decode-IsLawful t (length raw) (decode_all h env t raw past).0
              (decode_all h env t raw past).1 (ground (arith, good)) (ground (arith, good))
              (decode_all-Gives t raw past g l)))

  pub ingest_batch-IsLawful :
      (past : List Call) → IsLawful past → IsLawful (ingest_batch h env r past).1
  unfolding ingest_batch
  ingest_batch-IsLawful past l =
      authenticate-IsLawful h env r
        (λ t. after_read h env r t (env.decode_batch h.max_batch_bytes r.body))
        (after_read-Serves (env.decode_batch h.max_batch_bytes r.body)) past l
