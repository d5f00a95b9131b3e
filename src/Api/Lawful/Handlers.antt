-- ===== src/Api/Lawful/Handlers.antt =====
-- Each handler of internal/api/http.go but ingestBatch makes lawful calls.
use pulse_data.Prelude.{◌≡◌, refl, arith, Option, none, some, List, ◌∷◌, inl}
use pulse_data.Prelude.Text.{Text, split, trim_rune}
use pulse_data.Prelude.History.{Run}
use pulse_data.Errors.{Result, ok, err}
use pulse_data.Auth.Tenants.{Tenant}
use pulse_data.Auth.Bearer.{bearer}
use pulse_data.Api.{Handler, Request, Response, Call, authenticated, Env}
use pulse_data.Api.Access.{authenticate, after_bearer, after_authenticate}
use pulse_data.Api.Tenants.{rotated_id, rotate_own, rotate_tenant, after_path, create_tenant}
use pulse_data.Api.Summaries.{summarize_for, summary}
use pulse_data.Api.Lawful.{AreCallsLawful, MayActFor}

module _ (h : Handler) (env : Env) (r : Request) where
  abbrev IsLawful : List Call → Type 0
  IsLawful = AreCallsLawful h env r

  -- What a handler does for the tenant of the request's key.
  abbrev pub Serves : (Tenant → Run Call Response) → Type 0
  Serves rest =
      (t : Tenant) (past : List Call)
      → MayActFor h env r past t.id
      → IsLawful past
      → IsLawful (rest t past).1

  pub after_authenticate-IsLawful :
      (rest : Tenant → Run Call Response)
      → Serves rest
      → (key : Text) → bearer r.authorization ≡ some key
      → (a : Result Tenant) (past : List Call) → IsLawful past
      → IsLawful (after_authenticate env rest a (authenticated key a ∷ past)).1
  after_authenticate-IsLawful rest serves key e (err x) past (l, m) = ((tt, l), (tt, m))
  after_authenticate-IsLawful rest serves key e (ok t) past (l, m) =
      serves t (authenticated key (ok t) ∷ past) (inl (e, refl)) ((tt, l), (tt, m))

  after_bearer-IsLawful :
      (rest : Tenant → Run Call Response)
      → Serves rest
      → (k : Option Text) → bearer r.authorization ≡ k
      → (past : List Call) → IsLawful past
      → IsLawful (after_bearer env rest k past).1
  after_bearer-IsLawful rest serves none e past l = l
  after_bearer-IsLawful rest serves (some key) e past l =
      after_authenticate-IsLawful rest serves key e (env.authenticate key past) past l

  pub authenticate-IsLawful :
      (rest : Tenant → Run Call Response)
      → Serves rest
      → (past : List Call) → IsLawful past
      → IsLawful (authenticate env r rest past).1
  unfolding authenticate
  authenticate-IsLawful rest serves past l =
      after_bearer-IsLawful rest serves (bearer r.authorization) refl past l

  rotate_own-Serves :
      (id : Text)
      → rotated_id (split b'/' (trim_rune b'/' r.path)) ≡ some id
      → Serves (rotate_own env id)
  rotate_own-Serves id e t past g l = ground arith

  pub rotate_tenant-IsLawful :
      (past : List Call) → IsLawful past → IsLawful (rotate_tenant env r past).1
  unfolding rotate_tenant
  rotate_tenant-IsLawful past l = by_path (rotated_id (split b'/' (trim_rune b'/' r.path))) refl
    where
      by_path :
          (p : Option Text)
          → rotated_id (split b'/' (trim_rune b'/' r.path)) ≡ p
          → IsLawful (after_path env r p past).1
      by_path none e = l
      by_path (some id) e =
          authenticate-IsLawful (rotate_own env id) (rotate_own-Serves id e) past l

  pub create_tenant-IsLawful :
      (past : List Call) → IsLawful past → IsLawful (create_tenant h env r past).1
  unfolding create_tenant
  create_tenant-IsLawful past l = ground arith

  summarize_for-Serves : Serves (summarize_for h env r)
  summarize_for-Serves t past g l = ground arith

  pub summary-IsLawful : (past : List Call) → IsLawful past → IsLawful (summary h env r past).1
  unfolding summary
  summary-IsLawful past l =
      ground (arith, authenticate-IsLawful (summarize_for h env r) summarize_for-Serves past l)
