-- ===== src/Api/Lawful.antt =====
-- For whom the handlers of internal/api/http.go call what they call, and under which conditions.
pub mod Handlers
pub mod Webhooks
pub mod Batches
pub mod Served
use pulse_data.Prelude.{
  ℕ, ◌+◌, ◌*◌, ◌≤◌, ◌<◌, ◌≡◌, refl, arith, ltb, if◌then◌else◌, Bool, true, false, Option, none,
  some, List, [], ◌∷◌, length, is_empty, All, Any, Bool-cases, inl, inr, not, if_either,
}
use pulse_data.Prelude.Text.{Text, byte_length, codes, split, trim_rune}
use pulse_data.Prelude.History.{Run}
use pulse_data.Events.{Event, Time}
use pulse_data.Events.Validate.{validate}
use pulse_data.Errors.{Error, Result, ok, err}
use pulse_data.Auth.Tenants.{Tenant, is_same}
use pulse_data.Auth.Bearer.{bearer}
use pulse_data.Api.{
  Handler, Request, Response, Call, clocked, authenticated, created, rotated, limited, published,
  summarized, checked, drew_id, drew_secret, subscribed, pinged, counted, Env,
}
use pulse_data.Api.Tenants.{rotated_id}
use pulse_data.Api.Summaries.{day}
use pulse_data.Api.Webhooks.{check}

module _ (h : Handler) (env : Env) (r : Request) where
  -- This call found the tenant of the identifier by the key of the request.
  abbrev pub Grants : Text → Call → Type 0
  Grants id (authenticated key (ok t)) = (bearer r.authorization ≡ some key) × (t.id ≡ id)
  Grants id _ = ⊥

  abbrev pub MayActFor : List Call → Text → Type 0
  MayActFor past id = Any (Grants id) past

  -- The call concerns the tenant of the request's key alone; a tenant is created for the admin.
  abbrev pub IsAllowed : List Call → Call → Type 0
  IsAllowed past (created name a) =
      (is_empty h.admin_token ≡ false) × (r.admin_token ≡ h.admin_token)
  IsAllowed past (rotated id a) =
      MayActFor past id × (rotated_id (split b'/' (trim_rune b'/' r.path)) ≡ some id)
  IsAllowed past (limited id n a) = MayActFor past id
  IsAllowed past (published batch a) =
      (id : Text) × MayActFor past id × All (λ e. e.tenant_id ≡ id) batch
  IsAllowed past (summarized id type from to a) = MayActFor past id
  IsAllowed past (subscribed sub a) = MayActFor past sub.tenant_id
  IsAllowed past _ = Unit

  -- The limiter, if there is one, has let a number of events of a tenant pass.
  abbrev pub HasPassed : Bool → ℕ → Call → Type 0
  HasPassed has_limiter n (limited id m (ok true)) = m ≡ n
  HasPassed has_limiter n _ = ⊥

  abbrev pub IsWithinRate : Bool → List Call → List Event → Type 0
  IsWithinRate false past batch = Unit
  IsWithinRate true past batch = Any (HasPassed true (length batch)) past

  -- The event passes Validate at the time that this call read from the clock.
  abbrev pub IsValidAt : Event → Call → Type 0
  IsValidAt e (clocked now) = validate env.json.valid now e h.max_payload ≡ none
  IsValidAt e _ = ⊥

  abbrev pub IsValid : List Call → Event → Type 0
  IsValid past e = Any (IsValidAt e) past

  abbrev pub Vets : Text → Call → Type 0
  Vets endpoint (checked e none) = e ≡ endpoint
  Vets endpoint _ = ⊥

  -- The arguments of the call were checked.
  abbrev pub IsChecked : List Call → Call → Type 0
  IsChecked past (created name a) = (is_empty name ≡ false) × (byte_length name ≤ 200)
  IsChecked past (published batch a) =
      (1 ≤ length batch)
      × (length batch ≤ h.max_batch_events)
      × All (IsValid past) batch
      × IsWithinRate h.has_limiter past batch
  IsChecked past (summarized id type from to a) = (from < to) × (to ≤ from + 31 * day)
  IsChecked past (checked endpoint a) = check h env endpoint past ≡ a
  IsChecked past (subscribed sub a) = (sub.enabled ≡ true) × Any (Vets sub.endpoint) past
  IsChecked past _ = Unit

  abbrev pub AreCallsAllowed : List Call → Type 0
  AreCallsAllowed [] = Unit
  AreCallsAllowed (c ∷ past) = IsAllowed past c × AreCallsAllowed past

  abbrev pub AreCallsChecked : List Call → Type 0
  AreCallsChecked [] = Unit
  AreCallsChecked (c ∷ past) = IsChecked past c × AreCallsChecked past

  abbrev pub AreCallsLawful : List Call → Type 0
  AreCallsLawful past = AreCallsAllowed past × AreCallsChecked past
