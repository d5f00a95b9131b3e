-- ===== src/Api/Lawful/Webhooks.antt =====
-- createWebhook of internal/api/http.go makes lawful calls.
use pulse_data.Prelude.{ℕ, ◌≡◌, refl, arith, Option, none, some, List, ◌∷◌, Any, inl, inr}
use pulse_data.Prelude.Text.{Text}
use pulse_data.Errors.{Error, Result, ok, err}
use pulse_data.Auth.Tenants.{Tenant}
use pulse_data.Api.{Handler, Request, Call, checked, drew_id, drew_secret, Env}
use pulse_data.Api.Webhooks.{check, after_check, after_id, after_secret, after_read, create_webhook}
use pulse_data.Api.Lawful.{AreCallsLawful, MayActFor, Vets}
use pulse_data.Api.Lawful.Handlers.{Serves, authenticate-IsLawful}

module _ (h : Handler) (env : Env) (r : Request) where
  abbrev IsLawful : List Call → Type 0
  IsLawful = AreCallsLawful h env r

  -- Once the endpoint was checked, what is left is lawful.
  after_secret-IsLawful :
      (t : Tenant) (wanted : Text × Text) (id : Text) (a : Result (List ℕ)) (past : List Call)
      → MayActFor h env r past t.id
      → Any (Vets h env r wanted.1) past
      → IsLawful past
      → IsLawful (after_secret h env t wanted id a past).1
  after_secret-IsLawful t wanted id a past g v l = ground arith

  after_id-IsLawful :
      (t : Tenant) (wanted : Text × Text) (a : Result Text) (past : List Call)
      → MayActFor h env r past t.id
      → Any (Vets h env r wanted.1) past
      → IsLawful past
      → IsLawful (after_id h env t wanted a past).1
  after_id-IsLawful t wanted (err e) past g v l = l
  after_id-IsLawful t wanted (ok id) past g v (l, m) =
      let secret = env.new_secret past in
      after_secret-IsLawful t wanted id secret (drew_secret secret ∷ past) (inr g) (inr v)
        ((tt, l), (tt, m))

  after_check-IsLawful :
      (t : Tenant) (wanted : Text × Text) (a : Option Error) (past : List Call)
      → check h env wanted.1 past ≡ a
      → MayActFor h env r past t.id
      → IsLawful past
      → IsLawful (after_check h env t wanted a (checked wanted.1 a ∷ past)).1
  after_check-IsLawful t wanted (some e) past c g (l, m) = ((tt, l), (c, m))
  after_check-IsLawful t wanted none past c g (l, m) =
      let past' = checked wanted.1 none ∷ past in
      let id = env.new_id past' in
      after_id-IsLawful t wanted id (drew_id id ∷ past') (inr (inr g)) (inr (inl refl))
        ((tt, (tt, l)), (tt, (c, m)))

  after_read-Serves : (a : Option (Text × Text)) → Serves h env r (λ t. after_read h env t a)
  after_read-Serves none t past g l = l
  after_read-Serves (some wanted) t past g l =
      ground (arith, after_check-IsLawful t wanted (check h env wanted.1 past) past refl g l)

  pub create_webhook-IsLawful :
      (past : List Call) → IsLawful past → IsLawful (create_webhook h env r past).1
  unfolding create_webhook
  create_webhook-IsLawful past l = ground (
    arith,
    authenticate-IsLawful h env r (λ t. after_read h env t (env.decode_webhook r.body))
        (after_read-Serves (env.decode_webhook r.body)) past l,
  )
