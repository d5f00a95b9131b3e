-- ===== src/Auth/Tenants/Keys.antt =====
-- Which key authenticates which tenant in internal/auth/tenant.go.
use mathlib.Core.List.{lookup}
use pulse_data.Prelude.{ℕ, ◌≡◌, ◌↔◌, inr, refl, arith, Option, none, some, List, [], ◌∷◌, Any}
use pulse_data.Prelude.Map.{lookup-insert_self}
use pulse_data.Prelude.Text.{Text, Text-discrete, codes}
use pulse_data.Events.{Time}
use pulse_data.Errors.{ok, err}
use pulse_data.Auth.Tenants.{
  Tenant, Tenants, err_unauthorized, rotated, after_find, rotate_key, authenticate, get,
  or_not_found,
}

module _ (sha256 : Text → List ℕ) where
  -- The tenant is active and this is the digest of its key.
  abbrev pub Accepts : Text → Text × Tenant → Type 0
  Accepts key item = (item.1.status ≡ codes "active") × (sha256 key ≡ item.1.api_key_hash)

  -- If Authenticate answers with a tenant, then the store holds this tenant, it is active, and its
  -- hash is that of the key.
  pub authenticate-Any :
      (key : Text) (tenants : Tenants) (t : Tenant)
      → authenticate sha256 key tenants ≡ ok t
      → Any (λ item. (item.1 ≡ t) × Accepts key item) tenants
  unfolding authenticate
  authenticate-Any key [] t e = ground arith
  authenticate-Any key (item ∷ tenants) t e = ground (arith, authenticate-Any key tenants t)

  -- Authenticate refuses a key exactly if the store holds no active tenant whose hash is that of
  -- the key.
  pub authenticate-eq-err_iff :
      (key : Text) (tenants : Tenants)
      → (authenticate sha256 key tenants ≡ err err_unauthorized) ↔ (¬ Any (Accepts key) tenants)
  unfolding authenticate
  authenticate-eq-err_iff key [] = (λ e x. x, λ n. refl)
  authenticate-eq-err_iff key (item ∷ tenants) =
      let (f, g) = authenticate-eq-err_iff key tenants in
      (λ e a. ground (arith, f), λ n. ground (arith, g (λ a. n (inr a)), n))

  -- After RotateKey has succeeded, Get returns the tenant as it was but for the hash, which is that
  -- of the new key, and the time of the change.
  pub get-rotate_key :
      (tenant_id key : Text) (now : Time) (tenants : Tenants) (t : Tenant)
      → get tenant_id tenants ≡ ok t
      → let (r, tenants') = rotate_key sha256 tenant_id key now tenants in
        (r ≡ ok key) × (get tenant_id tenants' ≡ ok (rotated sha256 key now t))
  unfolding get rotate_key
  get-rotate_key tenant_id key now tenants t e = by_item (lookup Text-discrete tenant_id tenants) e
    where
      by_item :
          (c : Option Tenant)
          → or_not_found c ≡ ok t
          → let (r, tenants') = after_find sha256 tenant_id key now tenants c in
            (r ≡ ok key) × (get tenant_id tenants' ≡ ok (rotated sha256 key now t))
      by_item none e = ground arith
      by_item (some c) e =
          ground (
            arith,
            e,
            lookup-insert_self Text-discrete tenant_id (rotated sha256 key now c) tenants,
          )
