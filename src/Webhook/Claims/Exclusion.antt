-- ===== src/Webhook/Claims/Exclusion.antt =====
-- Who may deliver: claims of internal/webhook/subscription.go under calls of several workers.
use pulse_data.Prelude.{
  ℕ, suc, ◌+◌, ◌<◌, ◌≡◌, ◌≢◌, ◌⊎◌, refl, ite, if◌then◌else◌, true, false, Option, none, some, List,
  [], ◌∷◌, All, arith,
}
use mathlib.Core.List.{lookup}
use pulse_data.Prelude.Map.{lookup-insert}
use pulse_data.Events.{Time}
use pulse_data.Webhook.Claims.{
  DeliveryClaim, DeliveryClaim-discrete as dec, DeliveryState, processing, completed, Claims,
  delivery_lease, claim_delivery, complete_delivery, release_delivery,
}

-- A call of a method of the store, at a time.
pub data Op : Type 0 where
  claims completes releases : Time → DeliveryClaim → Op

unfoldable pub apply : Op → Claims → Claims
unfolding claim_delivery complete_delivery release_delivery
apply (claims now key) m = (claim_delivery now key m).1
apply (completes now key) m = complete_delivery now key m
apply (releases now key) m = release_delivery now key m

-- How many of the calls are claims of the key that are granted.
unfoldable pub grants : DeliveryClaim → List Op → Claims → ℕ
unfolding apply
grants key [] m = 0
grants key (claims now k ∷ ops) m =
    let rest = grants key ops (apply (claims now k) m) in
    ite (dec key k) (if (claim_delivery now k m).0 then suc rest else rest) rest
grants key (completes now k ∷ ops) m = grants key ops (apply (completes now k) m)
grants key (releases now k ∷ ops) m = grants key ops (apply (releases now k) m)

-- The claim is completed, or is processed under a lease until a time.
abbrev IsHeld : Time → Option DeliveryState → Type 0
IsHeld until none = ⊥
IsHeld until (some s) = (s.status ≡ completed) ⊎ ((s.status ≡ processing) × (s.lease_until ≡ until))

-- The call comes before the time, and does not release the key.
abbrev pub LeavesAlone : DeliveryClaim → Time → Op → Type 0
LeavesAlone key until (claims now k) = now < until
LeavesAlone key until (completes now k) = now < until
LeavesAlone key until (releases now k) = (now < until) × (key ≢ k)

apply-IsHeld :
    (key : DeliveryClaim) (until : Time) (op : Op) (m : Claims)
    → LeavesAlone key until op
    → IsHeld until (lookup dec key m)
    → IsHeld until (lookup dec key (apply op m))
unfolding apply
apply-IsHeld key until (claims now k) m a h = grind (arith, lookup-insert)
apply-IsHeld key until (completes now k) m a h = grind (arith, lookup-insert)
apply-IsHeld key until (releases now k) m a h = grind (arith, lookup-insert)

claim_held :
    (key : DeliveryClaim) (until now : Time) (m : Claims)
    → now < until
    → IsHeld until (lookup dec key m)
    → (claim_delivery now key m).0 ≡ false
unfolding claim_delivery
claim_held key until now m b h = ground arith

grants_held :
    (key : DeliveryClaim) (until : Time) (ops : List Op) (m : Claims)
    → All (LeavesAlone key until) ops
    → IsHeld until (lookup dec key m)
    → grants key ops m ≡ 0
unfolding grants
grants_held key until [] m a h = refl
grants_held key until (claims now k ∷ ops) m a h =
    let rest =
      grants_held key until ops (apply (claims now k) m) a.1
        (apply-IsHeld key until (claims now k) m a.0 h) in
    grind (arith, rest, claim_held key until now m a.0 h)
grants_held key until (completes now k ∷ ops) m a h =
    grants_held key until ops (apply (completes now k) m) a.1
      (apply-IsHeld key until (completes now k) m a.0 h)
grants_held key until (releases now k ∷ ops) m a h =
    grants_held key until ops (apply (releases now k) m) a.1
      (apply-IsHeld key until (releases now k) m a.0 h)

claim-IsHeld :
    (now : Time) (key : DeliveryClaim) (m : Claims)
    → (claim_delivery now key m).0 ≡ true
    → IsHeld (now + delivery_lease) (lookup dec key (claim_delivery now key m).1)
unfolding claim_delivery
claim-IsHeld now key m g = grind (arith, lookup-insert)

-- Once a claim is granted, no claim of the same key is granted by any sequence of calls, whoever
-- makes them and whatever other keys they are about, that come before the lease of an hour is over
-- and do not release the key.
pub claim_excludes :
    (now : Time) (key : DeliveryClaim) (ops : List Op) (m : Claims)
    → (claim_delivery now key m).0 ≡ true
    → All (LeavesAlone key (now + delivery_lease)) ops
    → grants key ops (claim_delivery now key m).1 ≡ 0
claim_excludes now key ops m g a =
    grants_held key (now + delivery_lease) ops (claim_delivery now key m).1 a
      (claim-IsHeld now key m g)

abbrev IsDone : Option DeliveryState → Type 0
IsDone none = ⊥
IsDone (some s) = s.status ≡ completed

apply-IsDone :
    (key : DeliveryClaim) (op : Op) (m : Claims)
    → IsDone (lookup dec key m)
    → IsDone (lookup dec key (apply op m))
unfolding apply
apply-IsDone key (claims now k) m h = grind (arith, lookup-insert)
apply-IsDone key (completes now k) m h = grind (arith, lookup-insert)
apply-IsDone key (releases now k) m h = grind (arith, lookup-insert)

claim_done :
    (key : DeliveryClaim) (now : Time) (m : Claims)
    → IsDone (lookup dec key m)
    → (claim_delivery now key m).0 ≡ false
unfolding claim_delivery
claim_done key now m h = ground arith

grants_done :
    (key : DeliveryClaim) (ops : List Op) (m : Claims)
    → IsDone (lookup dec key m)
    → grants key ops m ≡ 0
unfolding grants
grants_done key [] m h = refl
grants_done key (claims now k ∷ ops) m h =
    let rest = grants_done key ops (apply (claims now k) m) (apply-IsDone key (claims now k) m h) in
    grind (arith, rest, claim_done key now m h)
grants_done key (completes now k ∷ ops) m h =
    grants_done key ops (apply (completes now k) m) (apply-IsDone key (completes now k) m h)
grants_done key (releases now k ∷ ops) m h =
    grants_done key ops (apply (releases now k) m) (apply-IsDone key (releases now k) m h)

complete-IsDone :
    (now later : Time) (key : DeliveryClaim) (m : Claims)
    → (claim_delivery now key m).0 ≡ true
    → later < now + delivery_lease
    → IsDone (lookup dec key (complete_delivery later key (claim_delivery now key m).1))
unfolding claim_delivery complete_delivery
complete-IsDone now later key m g l = grind (arith, lookup-insert)

-- Once a granted claim is completed within its lease, no claim of the key is ever granted again, by
-- any sequence of calls at any time.
pub completion_is_final :
    (now later : Time) (key : DeliveryClaim) (ops : List Op) (m : Claims)
    → (claim_delivery now key m).0 ≡ true
    → later < now + delivery_lease
    → grants key ops (complete_delivery later key (claim_delivery now key m).1) ≡ 0
completion_is_final now later key ops m g l =
    grants_done key ops (complete_delivery later key (claim_delivery now key m).1)
      (complete-IsDone now later key m g l)

-- A granted claim that is released within its lease can be claimed at once.
pub release_allows_claim :
    (now later again : Time) (key : DeliveryClaim) (m : Claims)
    → (claim_delivery now key m).0 ≡ true
    → later < now + delivery_lease
    → (claim_delivery again key (release_delivery later key (claim_delivery now key m).1)).0 ≡ true
unfolding claim_delivery release_delivery
release_allows_claim now later again key m g l = grind (arith, lookup-insert)
