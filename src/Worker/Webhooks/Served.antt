-- ===== src/Worker/Webhooks/Served.antt =====
-- What the result of WebhookHandler of internal/worker/handlers.go says about the deliveries.
use pulse_data.Prelude.{
  ◌≡◌, refl, ◌≢◌, ◌⊎◌, inl, inr, arith, Bool, false, none, List, [], ◌∷◌, ◌++◌, All, Any,
}
use pulse_data.Events.{Event}
use pulse_data.Errors.{Error, ok}
use pulse_data.Webhook.Claims.{DeliveryClaim}
use pulse_data.Webhook.Dispatcher.{Delivery}
use pulse_data.Webhook.Subscriptions.{Subscription}
use pulse_data.Worker.Webhooks.{
  Call, listed, claimed, delivered, finished, Env, Turn, aborted, failed, passed, claim_of,
  delivery_of, count, deliver_one, after_one, deliver_loop, deliver, handle, failures_error,
}

-- The store refused the claim.
abbrev pub Refuses : DeliveryClaim → Call → Type 0
Refuses key (claimed k (ok false)) = k ≡ key
Refuses key _ = ⊥

-- The dispatcher delivered without an error.
abbrev pub Delivers : Delivery → Call → Type 0
Delivers x (delivered y none) = y ≡ x
Delivers x _ = ⊥

-- The store recorded the delivery as completed, without an error.
abbrev pub Completes : DeliveryClaim → Call → Type 0
Completes key (finished k none) = k ≡ key
Completes key _ = ⊥

-- The claim was refused, or the event was delivered and this was recorded.
abbrev pub IsServed : Event → List Call → Subscription → Type 0
IsServed event h sub =
    Any (Refuses (claim_of event sub)) h
    ⊎ (Any (Delivers (delivery_of event sub)) h × Any (Completes (claim_of event sub)) h)

-- A history that has all calls of another serves what that serves.
pub IsServed-grows :
    (event : Event) (sub : Subscription) (h h' : List Call)
    → ((P : Call → Type 0) → Any P h → Any P h')
    → IsServed event h sub
    → IsServed event h' sub
IsServed-grows event sub h h' grows (inl refused) = inl (grows _ refused)
IsServed-grows event sub h h' grows (inr (given, recorded)) = inr (grows _ given, grows _ recorded)

module _ (env : Env) (has_metrics : Bool) where
  -- Calls are never taken back.
  deliver_one_grows :
      (P : Call → Type 0) (event : Event) (sub : Subscription) (h : List Call)
      → Any P h
      → Any P (deliver_one env has_metrics event sub h).1
  unfolding deliver_one count
  deliver_one_grows P event sub h p = ground arith

  deliver_one-IsServed :
      (event : Event) (sub : Subscription) (h : List Call)
      → (deliver_one env has_metrics event sub h).0 ≡ passed
      → IsServed event (deliver_one env has_metrics event sub h).1 sub
  unfolding deliver_one count
  deliver_one-IsServed event sub h e = ground arith

  deliver_loop_grows :
      (P : Call → Type 0) (event : Event) (subs : List Subscription) (failures : List Error)
      (h : List Call)
      → Any P h
      → Any P (deliver_loop env has_metrics event subs failures h).1
  unfolding deliver_loop
  deliver_loop_grows P event [] failures h p = p
  deliver_loop_grows P event (sub ∷ subs) failures h p =
      grind (arith, deliver_one_grows, deliver_loop_grows P event subs)

  failures_append : (failures : List Error) (e : Error) → failures ++ (e ∷ []) ≢ []
  failures_append [] e = ground arith
  failures_append (x ∷ failures) e = ground arith

  failures_error-none : (failures : List Error) → failures_error failures ≡ none → failures ≡ []
  failures_error-none [] e = refl
  failures_error-none (x ∷ failures) e = ground arith

  -- What the loop over `subs` from `failures` on guarantees.
  abbrev LoopServes : Event → List Subscription → List Error → List Call → Type 0
  LoopServes event subs failures h =
      (deliver_loop env has_metrics event subs failures h).0 ≡ none
      → (failures ≡ [])
        × All (IsServed event (deliver_loop env has_metrics event subs failures h).1) subs

  after_one-IsServed :
      (event : Event) (sub : Subscription) (subs : List Subscription) (failures : List Error)
      (r : Turn) (h : List Call)
      → ((fs : List Error) → LoopServes event subs fs h)
      → (r ≡ passed → IsServed event h sub)
      → (after_one env has_metrics (deliver_loop env has_metrics event subs) failures r h).0 ≡ none
      → (failures ≡ [])
        × All
            (IsServed event
              (after_one env has_metrics (deliver_loop env has_metrics event subs) failures r h).1)
            (sub ∷ subs)
  after_one-IsServed event sub subs failures (aborted x) h ih served e = ground arith
  after_one-IsServed event sub subs failures (failed x) h ih served e =
      absurd (failures_append failures x (ih (failures ++ (x ∷ [])) e).0)
  after_one-IsServed event sub subs failures passed h ih served e =
      let (p, all) = ih failures e in
      (
        p,
        (
          IsServed-grows event sub h (deliver_loop env has_metrics event subs failures h).1
              (λ P. deliver_loop_grows P event subs failures h) (served refl),
          all,
        ),
      )

  deliver_loop-IsServed :
      (event : Event) (subs : List Subscription) (failures : List Error) (h : List Call)
      → LoopServes event subs failures h
  unfolding deliver_loop
  deliver_loop-IsServed event [] failures h e = (failures_error-none failures e, tt)
  deliver_loop-IsServed event (sub ∷ subs) failures h e =
      let (r, h') = deliver_one env has_metrics event sub h in
      after_one-IsServed event sub subs failures r h' (λ fs. deliver_loop-IsServed event subs fs h')
        (deliver_one-IsServed event sub h) e

  pub deliver-IsServed :
      (event : Event) (subs : List Subscription) (h : List Call)
      → (deliver env has_metrics event subs h).0 ≡ none
      → All (IsServed event (deliver env has_metrics event subs h).1) subs
  unfolding deliver
  deliver-IsServed event subs h e = (deliver_loop-IsServed event subs [] h e).1

  -- If Handle returns without an error, then for every subscription that the store listed for the
  -- tenant and the type of the event, by then the store has refused the claim, or the dispatcher has
  -- delivered the event to the subscription without an error and the store has recorded the delivery
  -- as completed without an error.
  pub handle-IsServed :
      (event : Event) (h : List Call) (subs : List Subscription)
      → env.list_subscriptions event.tenant_id event.type h ≡ ok subs
      → (handle env has_metrics event h).0 ≡ none
      → All (IsServed event (handle env has_metrics event h).1) subs
  unfolding handle
  handle-IsServed event h subs l e =
      ground (arith, deliver-IsServed event subs (listed event.tenant_id event.type (ok subs) ∷ h))

  pub deliver_grows :
      (P : Call → Type 0) (event : Event) (subs : List Subscription) (h : List Call)
      → Any P h
      → Any P (deliver env has_metrics event subs h).1
  unfolding deliver
  deliver_grows P event subs h p = deliver_loop_grows P event subs [] h p
