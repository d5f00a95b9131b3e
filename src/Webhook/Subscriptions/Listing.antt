-- ===== src/Webhook/Subscriptions/Listing.antt =====
-- What the list of subscriptions of internal/webhook/subscription.go holds.
use pulse_data.Prelude.{
  ◌≡◌, ◌↔◌, inl, inr, refl, sym, arith, Bool, true, false, List, [], ◌∷◌, Any, if◌then◌else◌,
}
use mathlib.Core.Path.{subst}
use pulse_data.Prelude.Text.{Text}
use pulse_data.Webhook.Subscriptions.{Subscription, Subscriptions, is_listed, list_subscriptions}

-- The subscription is of the tenant and the type, and is enabled.
abbrev pub IsWanted : Text → Text → Subscription → Type 0
IsWanted tenant_id event_type sub =
    (sub.tenant_id ≡ tenant_id) × (sub.event_type ≡ event_type) × (sub.enabled ≡ true)

is_listed_iff :
    (tenant_id event_type : Text) (sub : Subscription)
    → (is_listed tenant_id event_type sub ≡ true) ↔ IsWanted tenant_id event_type sub
is_listed_iff tenant_id event_type sub = ground arith

abbrev keep : Bool → Subscription → List Subscription → List Subscription
keep b sub rest = if b then sub ∷ rest else rest

-- ListSubscriptions returns a subscription exactly if the store has it, it is of the given tenant
-- and the given type, and it is enabled.
pub list_subscriptions-Any_iff :
    (tenant_id event_type : Text) (sub : Subscription) (items : Subscriptions)
    → Any (λ s. s ≡ sub) (list_subscriptions tenant_id event_type items)
      ↔ (Any (λ item. item.1 ≡ sub) items × IsWanted tenant_id event_type sub)
unfolding list_subscriptions
list_subscriptions-Any_iff tenant_id event_type sub [] = ground arith
list_subscriptions-Any_iff tenant_id event_type sub (item ∷ items) =
    by_test (is_listed tenant_id event_type item.1) refl
      (list_subscriptions-Any_iff tenant_id event_type sub items)
  where
    by_test :
        (b : Bool)
        → is_listed tenant_id event_type item.1 ≡ b
        → (Any (λ s. s ≡ sub) (list_subscriptions tenant_id event_type items)
            ↔ (Any (λ x. x.1 ≡ sub) items × IsWanted tenant_id event_type sub))
        → Any (λ s. s ≡ sub) (keep b item.1 (list_subscriptions tenant_id event_type items))
          ↔ (Any (λ x. x.1 ≡ sub) (item ∷ items) × IsWanted tenant_id event_type sub)
    by_test true e ih =
        let wanted = (is_listed_iff tenant_id event_type item.1).0 e in
        (
          elim [
            | inl p ↦ (inl p, subst (IsWanted tenant_id event_type) p wanted)
            | inr p ↦ let (q, w) = ih.0 p in (inr q, w)
          ],
          λ x. elim x.0 [ inl p ↦ inl p | inr p ↦ inr (ih.1 (p, x.1)) ],
        )
    by_test false e ih = (
      λ p. let (q, w) = ih.0 p in (inr q, w),
      λ x. elim x.0 [
        | inl p ↦
            let t =
              (is_listed_iff tenant_id event_type item.1).1
                (subst (IsWanted tenant_id event_type) (sym p) x.1) in
            absurd (ground (arith, e, t))
        | inr p ↦ ih.1 (p, x.1)
      ],
    )
