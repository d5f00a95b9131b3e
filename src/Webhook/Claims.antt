-- ===== src/Webhook/Claims.antt =====
-- The delivery claims of MemoryStore in internal/webhook/subscription.go. Each method holds the
-- mutex of the store, so calls of several workers are a sequence of calls; `now` is what
-- currentTime returns.
pub mod Exclusion
use pulse_data.Prelude.{
  ℕ, ◌+◌, ◌*◌, ◌≡◌, refl, ap, ltb, if◌then◌else◌, ◌&&◌, ◌||◌, not, Bool, true, false, Option, none,
  some, List, [], ◌∷◌,
}
use mathlib.Core.List.{lookup}
use pulse_data.Prelude.Map.{Map, insert}
use pulse_data.Prelude.Text.{Text, Text-discrete}
use pulse_data.Events.{Time}
use pulse_data.Events.Validate.{second, zero_time}

pub record DeliveryClaim : Type 0 where
  pub tenant_id : Text
  pub event_id : Text
  pub subscription_id : Text

pub claim_path :
    (a b : DeliveryClaim)
    → a.tenant_id ≡ b.tenant_id
    → a.event_id ≡ b.event_id
    → a.subscription_id ≡ b.subscription_id
    → a ≡ b
claim_path a b p q r = λ i. record { tenant_id = p i; event_id = q i; subscription_id = r i }

abbrev pub DeliveryClaim_dec :
    (a b : DeliveryClaim)
    → Dec (a.tenant_id ≡ b.tenant_id)
    → Dec (a.event_id ≡ b.event_id)
    → Dec (a.subscription_id ≡ b.subscription_id)
    → Dec (a ≡ b)
DeliveryClaim_dec a b (yes p) (yes q) (yes r) = yes (claim_path a b p q r)
DeliveryClaim_dec a b (no p) q r = no (λ e. p (ap (λ (c : DeliveryClaim). c.tenant_id) e))
DeliveryClaim_dec a b (yes p) (no q) r = no (λ e. q (ap (λ (c : DeliveryClaim). c.event_id) e))
DeliveryClaim_dec a b (yes p) (yes q) (no r) =
    no (λ e. r (ap (λ (c : DeliveryClaim). c.subscription_id) e))

unfoldable pub DeliveryClaim-discrete : Discrete DeliveryClaim
unfolding Text-discrete
DeliveryClaim-discrete a b =
    DeliveryClaim_dec a b (Text-discrete a.tenant_id b.tenant_id)
      (Text-discrete a.event_id b.event_id) (Text-discrete a.subscription_id b.subscription_id)

pub data DeliveryStatus : Type 0 where
  pending processing completed : DeliveryStatus

pub record DeliveryState : Type 0 where
  pub status : DeliveryStatus
  pub lease_until : Time

abbrev pub is_completed : DeliveryStatus → Bool
is_completed completed = true
is_completed _ = false

abbrev pub is_processing : DeliveryStatus → Bool
is_processing processing = true
is_processing _ = false

abbrev pub Claims : Type 0
Claims = Map DeliveryClaim DeliveryState

-- The lease of a claim, of an hour.
abbrev pub delivery_lease : ℕ
delivery_lease = 3600 * second

-- A claim that must not be taken: it was completed, or is processed under a lease that runs.
abbrev pub is_taken : Time → Option DeliveryState → Bool
is_taken now none = false
is_taken now (some s) = is_completed s.status || (is_processing s.status && ltb now s.lease_until)

unfoldable pub claim_delivery : Time → DeliveryClaim → Claims → Bool × Claims
claim_delivery now key claims =
    if is_taken now (lookup DeliveryClaim-discrete key claims) then (false, claims) else (
      true,
      insert DeliveryClaim-discrete key
          (record { status = processing; lease_until = now + delivery_lease }) claims,
    )

-- What CompleteDelivery and ReleaseDelivery write; `none` where they return at once.
abbrev pub completion : Time → Option DeliveryState → Option DeliveryState
completion now none = none
completion now (some s) =
    if is_completed s.status || not (ltb now s.lease_until)
    then none
    else some (record { status = completed; lease_until = zero_time })

abbrev pub cancellation : Time → Option DeliveryState → Option DeliveryState
cancellation now none = none
cancellation now (some s) =
    if not (is_processing s.status) || not (ltb now s.lease_until)
    then none
    else some (record { status = pending; lease_until = zero_time })

abbrev pub write_state : DeliveryClaim → Option DeliveryState → Claims → Claims
write_state key none claims = claims
write_state key (some s) claims = insert DeliveryClaim-discrete key s claims

unfoldable pub complete_delivery : Time → DeliveryClaim → Claims → Claims
complete_delivery now key claims =
    write_state key (completion now (lookup DeliveryClaim-discrete key claims)) claims

unfoldable pub release_delivery : Time → DeliveryClaim → Claims → Claims
release_delivery now key claims =
    write_state key (cancellation now (lookup DeliveryClaim-discrete key claims)) claims
