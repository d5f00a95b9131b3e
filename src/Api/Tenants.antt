-- ===== src/Api/Tenants.antt =====
-- createTenant and rotateTenant of internal/api/http.go.
use pulse_data.Prelude.{ltb, if◌then◌else◌, ◌||◌, not, Option, none, some, List, [], ◌∷◌, is_empty}
use pulse_data.Prelude.Text.{Text, codes, trim_space, trim_rune, split, byte_length}
use pulse_data.Prelude.History.{Run, call, ◌>>=◌}
use pulse_data.Errors.{Result, ok, err, message}
use pulse_data.Auth.Tenants.{Tenant, is_same}
use pulse_data.Api.{
  Handler, Request, Response, failure, tenant_created, key_rotated, Call, created, rotated, Env,
  respond, fail,
}
use pulse_data.Api.Access.{authenticate}

module _ (h : Handler) (env : Env) where
  abbrev pub after_create : Result (Tenant × Text) → Run Call Response
  after_create (err e) = respond 400 (failure (message e))
  after_create (ok (t, key)) = respond 201 (tenant_created t.id t.name key)

  abbrev pub with_name : Text → Run Call Response
  with_name name =
      if is_empty name || ltb 200 (byte_length name)
      then fail 400 "name must be between 1 and 200 characters"
      else call (env.create_tenant name) (created name) >>= after_create

  abbrev pub after_name : Option Text → Run Call Response
  after_name none = fail 400 "invalid JSON"
  after_name (some name) = with_name (trim_space name)

  unfoldable pub create_tenant : Request → Run Call Response
  create_tenant r =
      if is_empty h.admin_token || not (is_same r.admin_token h.admin_token)
      then fail 401 "admin authentication required"
      else after_name (env.decode_name r.body)

-- The identifier in a path of four parts that ends in "rotate".
abbrev pub rotated_id : List Text → Option Text
rotated_id (version ∷ tenants ∷ id ∷ last ∷ []) =
    if is_same last (codes "rotate") then some id else none
rotated_id _ = none

module _ (env : Env) where
  abbrev pub after_rotate : Tenant → Result Text → Run Call Response
  after_rotate tenant (err e) = fail 404 "tenant not found"
  after_rotate tenant (ok key) = respond 200 (key_rotated tenant.id key)

  abbrev pub rotate_own : Text → Tenant → Run Call Response
  rotate_own id tenant =
      if not (is_same tenant.id id)
      then fail 403 "tenant mismatch"
      else call (env.rotate_key tenant.id) (rotated tenant.id) >>= after_rotate tenant

  abbrev pub after_path : Request → Option Text → Run Call Response
  after_path r none = fail 404 "not found"
  after_path r (some id) = authenticate env r (rotate_own id)

  unfoldable pub rotate_tenant : Request → Run Call Response
  unfolding authenticate trim_rune split
  rotate_tenant r = after_path r (rotated_id (split b'/' (trim_rune b'/' r.path)))
