-- ===== src/Webhook/Subscriptions.antt =====
-- The subscriptions of MemoryStore in internal/webhook/subscription.go. The order in which Go
-- walks a map is left open there; this model walks it in the order of insertion.
pub mod Listing
use mathlib.Core.List.{lookup}
use pulse_data.Prelude.{
  ℕ, ◌≡◌, ◌↔◌, ◌&&◌, if◌then◌else◌, arith, Bool, true, false, Option, none, some, List, [], ◌∷◌,
  Any,
}
use pulse_data.Prelude.Map.{Map, insert, lookup-insert_self}
use pulse_data.Prelude.Text.{Text, Text-discrete}
use pulse_data.Events.{Time}

pub record Subscription : Type 0 where
  pub id : Text
  pub tenant_id : Text
  pub event_type : Text
  pub endpoint : Text
  pub secret : List ℕ
  pub enabled : Bool
  pub created_at : Time
  pub updated_at : Time

abbrev pub Subscriptions : Type 0
Subscriptions = Map Text Subscription

unfoldable pub create_subscription : Subscription → Subscriptions → Subscription × Subscriptions
create_subscription sub items = (sub, insert Text-discrete sub.id sub items)

-- tenantID == sub.TenantID
abbrev pub is_text : {A : Type 0} → Dec A → Bool
is_text (yes p) = true
is_text (no p) = false

abbrev pub is_listed : Text → Text → Subscription → Bool
is_listed tenant_id event_type sub =
    is_text (Text-discrete sub.tenant_id tenant_id)
    && (is_text (Text-discrete sub.event_type event_type) && sub.enabled)

unfoldable pub list_subscriptions : Text → Text → Subscriptions → List Subscription
list_subscriptions tenant_id event_type [] = []
list_subscriptions tenant_id event_type (item ∷ items) =
    let rest = list_subscriptions tenant_id event_type items in
    if is_listed tenant_id event_type item.1 then item.1 ∷ rest else rest
