-- ===== src/Api/Durability.antt =====
-- What the status of a response of internal/api/http.go says about the publisher.
use pulse_data.Prelude.{
  ℕ, ◌≡◌, ◌≢◌, refl, arith, Bool, true, false, Option, none, some, List, [], ◌∷◌, length, All, Any,
  inl, inr, ◌⊎◌, if_either, ◌==◌, ltb, ◌||◌, not,
}
use pulse_data.Prelude.Text.{Text, split, trim_rune}
use pulse_data.Prelude.History.{Run}
use pulse_data.Events.{Event}
use pulse_data.Events.Decode.{decode}
use pulse_data.Errors.{Error, Result, ok, err}
use pulse_data.Auth.Tenants.{Tenant}
use pulse_data.Auth.Bearer.{bearer}
use pulse_data.Api.{
  Handler, Request, Response, accepted, Call, clocked, authenticated, limited, published, Env,
}
use pulse_data.Api.Access.{authenticate, after_bearer, after_authenticate}
use pulse_data.Api.Ingest.{
  after_event, decode_all, after_publish, after_allow, limit, after_decode, after_read,
  ingest_batch,
}
use pulse_data.Api.Tenants.{create_tenant, rotated_id, rotate_own, after_path, rotate_tenant}
use pulse_data.Api.Summaries.{summarize_for, summary}
use pulse_data.Api.Webhooks.{create_webhook}
use pulse_data.Api.Webhooks
use pulse_data.Api.Routes.{
  Route, live, ready, events_batch, tenants, tenants_below, webhooks, analytics_summary, serve,
}

-- The publisher has not taken a batch by this call.
abbrev pub IsUnpublished : Call → Type 0
IsUnpublished (published batch none) = ⊥
IsUnpublished _ = Unit

abbrev pub IsTaken : List Event → Call → Type 0
IsTaken batch (published b none) = b ≡ batch
IsTaken batch _ = ⊥

-- The response accepts a batch that the publisher has taken, or it accepts nothing and the
-- publisher has taken nothing.
abbrev pub IsTruthful : Response × List Call → Type 0
IsTruthful (response, past) =
    ((batch : List Event) × (response.status ≡ 202)
      × (response.body ≡ accepted (length batch))
      × Any (IsTaken batch) past)
    ⊎ ((response.status ≢ 202) × All IsUnpublished past)

module _ (h : Handler) (env : Env) where
  abbrev Answers : (Tenant → Run Call Response) → Type 0
  Answers rest = (t : Tenant) (past : List Call) → All IsUnpublished past → IsTruthful (rest t past)

  authenticate-IsTruthful :
      (r : Request) (rest : Tenant → Run Call Response)
      → Answers rest
      → IsTruthful (authenticate env r rest [])
  unfolding authenticate
  authenticate-IsTruthful r rest answers = by_key (bearer r.authorization)
    where
      by_answer :
          (key : Text) (a : Result Tenant)
          → IsTruthful (after_authenticate env rest a (authenticated key a ∷ []))
      by_answer key (err e) = inr (omega arith, (tt, tt))
      by_answer key (ok t) = answers t (authenticated key (ok t) ∷ []) (tt, tt)

      by_key : (k : Option Text) → IsTruthful (after_bearer env rest k [])
      by_key none = inr (omega arith, tt)
      by_key (some key) = by_answer key (env.authenticate key [])

  decode_all-quiet :
      (t : Tenant) (values : List (List ℕ)) (past : List Call)
      → All IsUnpublished past
      → All IsUnpublished (decode_all h env t values past).1
  unfolding decode_all
  decode_all-quiet t [] past q = q
  decode_all-quiet t (value ∷ values) past q =
      by_event (decode env.json (env.now past) value t.id h.max_payload)
        (decode_all-quiet t values (clocked (env.now past) ∷ past) (tt, q))
    where
      by_event :
          (a : Result Event)
          → All IsUnpublished (decode_all h env t values (clocked (env.now past) ∷ past)).1
          → All IsUnpublished
              (after_event h env (decode_all h env t values) a (clocked (env.now past) ∷ past)).1
      by_event (err e) rest = (tt, (tt, q))
      by_event (ok e) rest = rest

  after_publish-IsTruthful :
      (batch : List Event) (a : Option Error) (past : List Call)
      → All IsUnpublished past
      → IsTruthful (after_publish h env batch a (published batch a ∷ past))
  after_publish-IsTruthful batch none past q = inl (batch, refl, refl, inr (inr (inl refl)))
  after_publish-IsTruthful batch (some e) past q = inr (omega arith, (tt, (tt, q)))

  limit-IsTruthful :
      (has_limiter : Bool) (t : Tenant) (batch : List Event) (past : List Call)
      → All IsUnpublished past
      → IsTruthful (limit h env has_limiter t batch past)
  limit-IsTruthful false t batch past q =
      after_publish-IsTruthful batch (env.publish batch past) past q
  limit-IsTruthful true t batch past q = by_answer (env.allow t.id (length batch) past)
    where
      by_answer :
          (a : Result Bool)
          → IsTruthful (after_allow h env batch a (limited t.id (length batch) a ∷ past))
      by_answer (err e) = inr (omega arith, (tt, q))
      by_answer (ok false) = inr (omega arith, (tt, (tt, q)))
      by_answer (ok true) =
          let past' = limited t.id (length batch) (ok true) ∷ past in
          after_publish-IsTruthful batch (env.publish batch past') past' (tt, q)

  after_decode-IsTruthful :
      (t : Tenant) (a : Result (List Event)) (past : List Call)
      → All IsUnpublished past
      → IsTruthful (after_decode h env t a past)
  after_decode-IsTruthful t (err e) past q = inr (omega arith, q)
  after_decode-IsTruthful t (ok batch) past q = limit-IsTruthful h.has_limiter t batch past q

  after_read-Answers :
      (r : Request) (a : Option (List (List ℕ))) → Answers (λ t. after_read h env r t a)
  after_read-Answers r none t past q = inr (omega arith, q)
  after_read-Answers r (some raw) t past q =
      if_either (λ (run : Run Call Response). IsTruthful (run past))
        (length raw == 0 || ltb h.max_batch_events (length raw)) (inr (omega arith, q))
        (if_either (λ (run : Run Call Response). IsTruthful (run past))
          (not (env.ends h.max_batch_bytes r.body)) (inr (omega arith, q))
          (after_decode-IsTruthful t (decode_all h env t raw past).0 (decode_all h env t raw past).1
            (decode_all-quiet t raw past q)))

  summarize_for-Answers : (r : Request) → Answers (summarize_for h env r)
  summarize_for-Answers r t past q = ground arith

  after_webhook-Answers : (a : Option (Text × Text)) → Answers (λ t. Webhooks.after_read h env t a)
  after_webhook-Answers a t past q = ground arith

  rotate_own-Answers : (id : Text) → Answers (rotate_own env id)
  rotate_own-Answers id t past q = ground arith

  create_tenant-IsTruthful : (r : Request) → IsTruthful (create_tenant h env r [])
  unfolding create_tenant
  create_tenant-IsTruthful r = ground arith

  rotate_tenant-IsTruthful : (r : Request) → IsTruthful (rotate_tenant env r [])
  unfolding rotate_tenant
  rotate_tenant-IsTruthful r = by_path (rotated_id (split b'/' (trim_rune b'/' r.path)))
    where
      by_path : (p : Option Text) → IsTruthful (after_path env r p [])
      by_path none = inr (omega arith, tt)
      by_path (some id) = authenticate-IsTruthful r (rotate_own env id) (rotate_own-Answers id)

  -- On every route the status is 202 only with a body that counts the events of a batch which the
  -- publisher has taken without an error; with any other status the publisher has taken nothing.
  pub serve-IsTruthful : (route : Route) (r : Request) → IsTruthful (serve h env route r [])
  unfolding serve ingest_batch summary create_webhook
  serve-IsTruthful live r = inr (omega arith, tt)
  serve-IsTruthful ready r = ground arith
  serve-IsTruthful events_batch r =
      authenticate-IsTruthful r
        (λ t. after_read h env r t (env.decode_batch h.max_batch_bytes r.body))
        (after_read-Answers r (env.decode_batch h.max_batch_bytes r.body))
  serve-IsTruthful tenants r = create_tenant-IsTruthful r
  serve-IsTruthful tenants_below r = rotate_tenant-IsTruthful r
  serve-IsTruthful webhooks r =
      if_either (λ (run : Run Call Response). IsTruthful (run [])) (not h.has_webhooks)
        (inr (omega arith, tt))
        (authenticate-IsTruthful r (λ t. Webhooks.after_read h env t (env.decode_webhook r.body))
          (after_webhook-Answers (env.decode_webhook r.body)))
  serve-IsTruthful analytics_summary r =
      if_either (λ (run : Run Call Response). IsTruthful (run [])) (not h.has_analytics)
        (inr (omega arith, tt))
        (authenticate-IsTruthful r (summarize_for h env r) (summarize_for-Answers r))
