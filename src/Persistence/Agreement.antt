-- ===== src/Persistence/Agreement.antt =====
-- The claims of MemoryStore in internal/webhook/subscription.go and those of
-- internal/persistence/postgres.go are one protocol.
use pulse_data.Prelude.{
  ◌≤◌, ◌≡◌, refl, ap, ite, Bool, true, Option, none, some, List, [], ◌∷◌, All, arith, ◌+◌,
  if◌then◌else◌,
}
use mathlib.Core.List.{lookup}
use mathlib.Core.Path.{ap₂}
use pulse_data.Prelude.Map.{lookup-insert}
use pulse_data.Events.{Time}
use pulse_data.Events.Validate.{zero_time}
use pulse_data.Errors.{Error, Result, ok}
use pulse_data.Webhook.Claims
use pulse_data.Webhook.Claims.{
  DeliveryClaim, DeliveryClaim-discrete as dec, DeliveryState, DeliveryStatus, pending, processing,
  completed, Claims,
}
use pulse_data.Webhook.Claims.Exclusion.{Op, claims, completes, releases}
use pulse_data.Persistence.ClaimRows
use pulse_data.Persistence.ClaimRows.{Row, Rows}

-- The lease of a claim in memory and in a row: it is set exactly while the claim is processed.
abbrev pub LeaseAgrees : DeliveryStatus → Time → Option Time → Type 0
LeaseAgrees processing until (some until') = until ≡ until'
LeaseAgrees processing until none = ⊥
LeaseAgrees pending until lease = (until ≡ zero_time) × (lease ≡ none)
LeaseAgrees completed until lease = (until ≡ zero_time) × (lease ≡ none)

-- A state of the memory store and a row stand for the same.
abbrev pub Represents : Option DeliveryState → Option Row → Type 0
Represents none none = Unit
Represents (some s) (some r) =
    (s.status ≡ r.status) × LeaseAgrees s.status s.lease_until r.lease_until
Represents (some s) none = ⊥
Represents none (some r) = ⊥

abbrev pub Simulates : Claims → Rows → Type 0
Simulates m t = (key : DeliveryClaim) → Represents (lookup dec key m) (lookup dec key t)

-- What a call answers.
pub data Answer : Type 0 where
  claimed : Result Bool → Answer
  done : Option Error → Answer

unfoldable pub memory_step : Op → Claims → Answer × Claims
memory_step (claims now key) m =
    let (granted, m') = Claims.claim_delivery now key m in (claimed (ok granted), m')
memory_step (completes now key) m = (done none, Claims.complete_delivery now key m)
memory_step (releases now key) m = (done none, Claims.release_delivery now key m)

-- No statement fails but for a foreign key.
unfoldable pub row_step : (DeliveryClaim → Bool) → Op → Rows → Answer × Rows
row_step knows (claims now key) t =
    let (r, t') = ClaimRows.claim_delivery none knows now key t in (claimed r, t')
row_step knows (completes now key) t =
    let (r, t') = ClaimRows.complete_delivery none now key t in (done r, t')
row_step knows (releases now key) t =
    let (r, t') = ClaimRows.release_delivery none now key t in (done r, t')

abbrev pub time_of : Op → Time
time_of (claims now key) = now
time_of (completes now key) = now
time_of (releases now key) = now

-- A claim is for a tenant and a subscription that are in their tables.
abbrev pub IsKnown : (DeliveryClaim → Bool) → Op → Type 0
IsKnown knows (claims now key) = knows key ≡ true
IsKnown knows _ = Unit

claim_agrees :
    (knows : DeliveryClaim → Bool) (now : Time) (key : DeliveryClaim) (m : Claims) (t : Rows)
    → zero_time ≤ now
    → knows key ≡ true
    → Represents (lookup dec key m) (lookup dec key t)
    → ok (Claims.claim_delivery now key m).0 ≡ (ClaimRows.claim_delivery none knows now key t).0
unfolding Claims.claim_delivery ClaimRows.claim_delivery
claim_agrees knows now key m t z k r = ground arith

-- What each call makes of the state under its key, and of the row.
abbrev claimed_state : Time → Option DeliveryState → Option DeliveryState
claimed_state now s =
    if Claims.is_taken now s
    then s
    else some (record { status = processing; lease_until = now + Claims.delivery_lease })

abbrev claimed_row : Time → Option Row → Option Row
claimed_row now r =
    if ClaimRows.may_claim now r
    then some (record { status = processing; lease_until = some (now + Claims.delivery_lease) })
    else r

abbrev written : Option DeliveryState → Option DeliveryState → Option DeliveryState
written none s = s
written (some x) s = some x

abbrev finished_row : DeliveryStatus → Time → Option Row → Option Row
finished_row status now r =
    if ClaimRows.may_finish now r then some (record { status = status; lease_until = none }) else r

module _ (now : Time) (key k : DeliveryClaim) where
  lookup-claim_memory :
      (m : Claims)
      → lookup dec key (Claims.claim_delivery now k m).1
        ≡ ite (dec key k) (claimed_state now (lookup dec k m)) (lookup dec key m)
  unfolding Claims.claim_delivery
  lookup-claim_memory m = grind (arith, lookup-insert)

  lookup-claim_row :
      (knows : DeliveryClaim → Bool) (t : Rows)
      → knows k ≡ true
      → lookup dec key (ClaimRows.claim_delivery none knows now k t).1
        ≡ ite (dec key k) (claimed_row now (lookup dec k t)) (lookup dec key t)
  unfolding ClaimRows.claim_delivery
  lookup-claim_row knows t known = grind (arith, lookup-insert)

  lookup-complete_memory :
      (m : Claims)
      → lookup dec key (Claims.complete_delivery now k m)
        ≡ ite
            (dec key k)
            (written (Claims.completion now (lookup dec k m)) (lookup dec k m))
            (lookup dec key m)
  unfolding Claims.complete_delivery
  lookup-complete_memory m = grind (arith, lookup-insert)

  lookup-release_memory :
      (m : Claims)
      → lookup dec key (Claims.release_delivery now k m)
        ≡ ite
            (dec key k)
            (written (Claims.cancellation now (lookup dec k m)) (lookup dec k m))
            (lookup dec key m)
  unfolding Claims.release_delivery
  lookup-release_memory m = grind (arith, lookup-insert)

  lookup-finish_row :
      (status : DeliveryStatus) (t : Rows)
      → lookup dec key (ClaimRows.finish status now k t)
        ≡ ite (dec key k) (finished_row status now (lookup dec k t)) (lookup dec key t)
  unfolding ClaimRows.finish
  lookup-finish_row status t = grind (arith, lookup-insert)

module _ (now : Time) (s : Option DeliveryState) (r : Option Row) (later : zero_time ≤ now)
    (same : Represents s r) where
  claimed-Represents : Represents (claimed_state now s) (claimed_row now r)
  claimed-Represents = ground arith

  completed-Represents :
      Represents (written (Claims.completion now s) s) (finished_row completed now r)
  completed-Represents = ground arith

  released-Represents :
      Represents (written (Claims.cancellation now s) s) (finished_row pending now r)
  released-Represents = ground arith

ite-Represents :
    {P : Type 0} (d : Dec P) (s s' : Option DeliveryState) (r r' : Option Row)
    → Represents s r
    → Represents s' r'
    → Represents (ite d s s') (ite d r r')
ite-Represents (yes p) s s' r r' h h' = ground arith
ite-Represents (no p) s s' r r' h h' = ground arith

module _ (knows : DeliveryClaim → Bool) where
  step-Simulates :
      (op : Op) (m : Claims) (t : Rows)
      → zero_time ≤ time_of op
      → IsKnown knows op
      → Simulates m t
      → Simulates (memory_step op m).1 (row_step knows op t).1
  unfolding memory_step row_step ClaimRows.complete_delivery ClaimRows.release_delivery
  step-Simulates (claims now k) m t z known s key =
      rw (lookup-claim_memory now key k m, lookup-claim_row now key k knows t known)
        (ite-Represents (dec key k) _ _ _ _
          (claimed-Represents now (lookup dec k m) (lookup dec k t) z (s k)) (s key))
  step-Simulates (completes now k) m t z known s key =
      rw (lookup-complete_memory now key k m, lookup-finish_row now key k completed t)
        (ite-Represents (dec key k) _ _ _ _
          (completed-Represents now (lookup dec k m) (lookup dec k t) z (s k)) (s key))
  step-Simulates (releases now k) m t z known s key =
      rw (lookup-release_memory now key k m, lookup-finish_row now key k pending t)
        (ite-Represents (dec key k) _ _ _ _
          (released-Represents now (lookup dec k m) (lookup dec k t) z (s k)) (s key))

  step-answers :
      (op : Op) (m : Claims) (t : Rows)
      → zero_time ≤ time_of op
      → IsKnown knows op
      → Simulates m t
      → (memory_step op m).0 ≡ (row_step knows op t).0
  unfolding memory_step row_step ClaimRows.complete_delivery ClaimRows.release_delivery
  step-answers (claims now k) m t z known s =
      ap (λ (r : Result Bool). claimed r) (claim_agrees knows now k m t z known (s k))
  step-answers (completes now k) m t z known s = refl
  step-answers (releases now k) m t z known s = refl

abbrev pub memory_answers : List Op → Claims → List Answer
memory_answers [] m = []
memory_answers (op ∷ ops) m = (memory_step op m).0 ∷ memory_answers ops (memory_step op m).1

abbrev pub row_answers : (DeliveryClaim → Bool) → List Op → Rows → List Answer
row_answers knows [] t = []
row_answers knows (op ∷ ops) t =
    (row_step knows op t).0 ∷ row_answers knows ops (row_step knows op t).1

module _ (knows : DeliveryClaim → Bool) where
  answers_agree :
      (ops : List Op) (m : Claims) (t : Rows)
      → All (λ op. zero_time ≤ time_of op) ops
      → All (IsKnown knows) ops
      → Simulates m t
      → memory_answers ops m ≡ row_answers knows ops t
  answers_agree [] m t z known s = refl
  answers_agree (op ∷ ops) m t z known s = ap₂ ◌∷◌ (step-answers knows op m t z.0 known.0 s) (
      answers_agree ops (memory_step op m).1 (row_step knows op t).1 z.1 known.1
        (step-Simulates knows op m t z.0 known.0 s))

  -- From empty stores, any sequence of claims, completions and releases at times that are not
  -- before the zero time, each at the same time in both, is answered alike by the memory store and
  -- by the statements on the table, if the tenants and the subscriptions that are claimed for are in
  -- their tables and no statement fails.
  pub memory_answers-eq-row_answers :
      (ops : List Op)
      → All (λ op. zero_time ≤ time_of op) ops
      → All (IsKnown knows) ops
      → memory_answers ops [] ≡ row_answers knows ops []
  unfolding lookup
  memory_answers-eq-row_answers ops z known = answers_agree ops [] [] z known (λ key. tt)
