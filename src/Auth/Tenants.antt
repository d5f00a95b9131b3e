-- ===== src/Auth/Tenants.antt =====
-- MemoryStore of internal/auth/tenant.go. SHA-256 is a function that is given; a new key is what
-- NewAPIKey returns, an argument here. The order in which Go walks a map is left open there; this
-- model walks it in the order of insertion.
pub mod Keys
use mathlib.Core.List.{lookup}
use pulse_data.Prelude.{
  ℕ, if◌then◌else◌, ◌&&◌, Bool, true, false, Option, none, some, List, [], ◌∷◌, is_empty, ◌++◌,
}
use native.Mathlib.Decide.{ℕ_discrete}
use pulse_data.Prelude.Map.{Map, insert}
use pulse_data.Prelude.Text.{Text, Text-discrete, codes, trim_space}
use pulse_data.Events.{Time}
use pulse_data.Errors.{Error, plain, Result, ok, err}

pub record Tenant : Type 0 where
  pub id : Text
  pub name : Text
  pub api_key_hash : List ℕ
  pub status : Text
  pub created_at : Time
  pub updated_at : Time

abbrev pub Tenants : Type 0
Tenants = Map Text Tenant

abbrev pub err_unauthorized : Error
err_unauthorized = plain (codes "unauthorized")

abbrev pub err_tenant_not_found : Error
err_tenant_not_found = plain (codes "tenant not found")

abbrev pub is_same : List ℕ → List ℕ → Bool
is_same a b = elim (Text-discrete a b) [ yes p ↦ true | no p ↦ false ]

module _ (sha256 : Text → List ℕ) where
  abbrev pub equal_api_key_hash : Text → List ℕ → Bool
  equal_api_key_hash key hash = is_same (sha256 key) hash

  -- Create, with the new key, the sixteen characters of the new identifier and the time.
  unfoldable pub create : Text → Text → Text → Time → Tenants → Result Tenant × Tenants
  unfolding insert
  create name key id now tenants =
      if is_empty (trim_space name)
      then (err (plain (codes "tenant name is required")), tenants)
      else let t : Tenant = record {
        id = codes "ten_" ++ id;
        name = name;
        api_key_hash = sha256 key;
        status = codes "active";
        created_at = now;
        updated_at = now;
      } in
        (ok t, insert Text-discrete t.id t tenants)

  abbrev pub rotated : Text → Time → Tenant → Tenant
  rotated key now t = record t { api_key_hash = sha256 key; updated_at = now }

  abbrev pub after_find : Text → Text → Time → Tenants → Option Tenant → Result Text × Tenants
  after_find tenant_id key now tenants none = (err err_tenant_not_found, tenants)
  after_find tenant_id key now tenants (some t) =
      (ok key, insert Text-discrete tenant_id (rotated key now t) tenants)

  -- RotateKey, with the new key.
  unfoldable pub rotate_key : Text → Text → Time → Tenants → Result Text × Tenants
  rotate_key tenant_id key now tenants =
      after_find tenant_id key now tenants (lookup Text-discrete tenant_id tenants)

  unfoldable pub authenticate : Text → Tenants → Result Tenant
  authenticate key [] = err err_unauthorized
  authenticate key (item ∷ tenants) =
      let rest = authenticate key tenants in
      if is_same item.1.status (codes "active") && equal_api_key_hash key item.1.api_key_hash
      then ok item.1
      else rest

abbrev pub or_not_found : Option Tenant → Result Tenant
or_not_found none = err err_tenant_not_found
or_not_found (some t) = ok t

unfoldable pub get : Text → Tenants → Result Tenant
get tenant_id tenants = or_not_found (lookup Text-discrete tenant_id tenants)
