-- ===== src/Persistence/ClaimRows.antt =====
-- The statements of ClaimDelivery, CompleteDelivery and ReleaseDelivery in
-- internal/persistence/postgres.go, on the rows of webhook_delivery_claims by their primary key.
-- The columns claimed_at and completed_at are written and never read; `now` is now(), and `failure`
-- the error of a statement that was not done. `knows` tells whether the tenant and the subscription
-- of a key are in their tables, to which the foreign keys of migrations/001_initial.sql point.
use pulse_data.Prelude.{
  ◌+◌, ltb, leb, if◌then◌else◌, ◌&&◌, not, Bool, true, false, Option, none, some, is_none,
}
use mathlib.Core.List.{lookup}
use pulse_data.Prelude.Map.{Map, insert}
use pulse_data.Events.{Time}
use pulse_data.Errors.{Error, Result, ok, err}
use pulse_data.Persistence.TenantRows.{err_violation}
use pulse_data.Webhook.Claims.{
  DeliveryClaim, DeliveryClaim-discrete, DeliveryStatus, pending, processing, completed,
  is_completed, is_processing, delivery_lease,
}

-- A lease that is NULL is `none`.
pub record Row : Type 0 where
  pub status : DeliveryStatus
  pub lease_until : Option Time

abbrev pub Rows : Type 0
Rows = Map DeliveryClaim Row

-- lease_until IS NULL OR lease_until <= now()
abbrev pub lease_is_over : Time → Option Time → Bool
lease_is_over now none = true
lease_is_over now (some until) = leb until now

-- lease_until > now(), which is not true of NULL
abbrev pub lease_runs : Time → Option Time → Bool
lease_runs now none = false
lease_runs now (some until) = ltb now until

-- The row that the INSERT meets under its key, and whether it may write: without a conflict, or by
-- the WHERE of the DO UPDATE.
abbrev pub may_claim : Time → Option Row → Bool
may_claim now none = true
may_claim now (some r) = not (is_completed r.status) && lease_is_over now r.lease_until

-- A row that is inserted needs its tenant and its subscription; the DO UPDATE leaves the key of a row
-- as it is. The scan finds the 1 of the RETURNING, or no row.
unfoldable pub claim_delivery :
    Option Error → (DeliveryClaim → Bool) → Time → DeliveryClaim → Rows → Result Bool × Rows
claim_delivery (some e) knows now key rows = (err e, rows)
claim_delivery none knows now key rows =
    let found = lookup DeliveryClaim-discrete key rows in
    if is_none found && not (knows key)
    then (err err_violation, rows)
    else if may_claim now found
    then (
      ok true,
      insert DeliveryClaim-discrete key
          (record { status = processing; lease_until = some (now + delivery_lease) }) rows,
    )
    else (ok false, rows)

-- status='processing' AND lease_until > now()
abbrev pub may_finish : Time → Option Row → Bool
may_finish now none = false
may_finish now (some r) = is_processing r.status && lease_runs now r.lease_until

-- Both UPDATE statements set a status and the lease to NULL.
unfoldable pub finish : DeliveryStatus → Time → DeliveryClaim → Rows → Rows
finish status now key rows =
    if may_finish now (lookup DeliveryClaim-discrete key rows)
    then insert DeliveryClaim-discrete key (record { status = status; lease_until = none }) rows
    else rows

unfoldable pub complete_delivery : Option Error → Time → DeliveryClaim → Rows → Option Error × Rows
unfolding finish
complete_delivery (some e) now key rows = (some e, rows)
complete_delivery none now key rows = (none, finish completed now key rows)

unfoldable pub release_delivery : Option Error → Time → DeliveryClaim → Rows → Option Error × Rows
unfolding finish
release_delivery (some e) now key rows = (some e, rows)
release_delivery none now key rows = (none, finish pending now key rows)
