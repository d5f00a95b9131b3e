-- ===== src/Auth/Cache/System.antt =====
-- CachedStore of internal/auth/cache.go over MemoryStore of internal/auth/tenant.go, with calls
-- that do not overlap.
use mathlib.Core.List.{lookup}
use native.Mathlib.Omega.{arith}
use pulse_data.Prelude.{ℕ, ◌≡◌, refl, Option, none, some, List, [], ◌∷◌, All}
use pulse_data.Prelude.Map.{insert, erase}
use pulse_data.Prelude.Text.{Text, Text-discrete}
use pulse_data.Events.{Time}
use pulse_data.Errors.{Result, ok, err}
use pulse_data.Auth.Tenants.{Tenant, Tenants, rotate_key, authenticate}
use pulse_data.Auth.Cache.{CachedTenant, Items, look, drop_expired, store, evict}

module _ (sha256 : Text → List ℕ) (ttl : ℕ) (pick : Items → Text) where
  -- The inner store has answered.
  abbrev pub after_inner : Time → Text → Items → Result Tenant → Result Tenant × Items
  after_inner now key items (err e) = (err e, items)
  after_inner now key items (ok t) = (ok t, store ttl pick now (sha256 key) t items)

  abbrev pub after_hit : Time → Text → Tenants → Option Tenant × Items → Result Tenant × Items
  after_hit now key tenants (some t, items) = (ok t, items)
  after_hit now key tenants (none, items) =
      after_inner now key items (authenticate sha256 key tenants)

  -- Authenticate of the cache.
  unfoldable pub authenticate_cached : Time → Text → Tenants → Items → Result Tenant × Items
  authenticate_cached now key tenants items =
      after_hit now key tenants (look now (sha256 key) items)

  abbrev pub after_rotate : Text → Items → Result Text × Tenants → Result Text × Tenants × Items
  after_rotate tenant_id items (err e, tenants) = (err e, tenants, items)
  after_rotate tenant_id items (ok key, tenants) = (ok key, tenants, evict tenant_id items)

  -- RotateKey of the cache.
  unfoldable pub rotate_cached :
      Text → Text → Time → Tenants → Items → Result Text × Tenants × Items
  rotate_cached tenant_id key now tenants items =
      after_rotate tenant_id items (rotate_key sha256 tenant_id key now tenants)

-- What Authenticate answers for a key with a digest.
abbrev pub by_digest : Text → Tenants → Result Tenant
by_digest digest tenants = authenticate (λ x. x) digest tenants

pub authenticate-eq-by_digest :
    (sha256 : Text → List ℕ) (key : Text) (tenants : Tenants)
    → authenticate sha256 key tenants ≡ by_digest (sha256 key) tenants
unfolding authenticate
authenticate-eq-by_digest sha256 key [] = refl
authenticate-eq-by_digest sha256 key (item ∷ tenants) =
    ground (arith, authenticate-eq-by_digest sha256 key tenants)

module _ (tenants : Tenants) where
  -- Every entry is what the store answers for its digest.
  abbrev pub IsRight : Items → Type 0
  IsRight items = All (λ item. by_digest item.0 tenants ≡ ok item.1.tenant) items

  pub erase-IsRight :
      (d : Text) (items : Items) → IsRight items → IsRight (erase Text-discrete d items)
  unfolding erase
  erase-IsRight d [] all = tt
  erase-IsRight d (item ∷ items) (a, all) = let ih = erase-IsRight d items all in ground arith

  pub drop_expired-IsRight :
      (now : Time) (items : Items) → IsRight items → IsRight (drop_expired now items)
  unfolding drop_expired
  drop_expired-IsRight now [] all = tt
  drop_expired-IsRight now (item ∷ items) (a, all) =
      let ih = drop_expired-IsRight now items all in ground arith

  pub insert-IsRight :
      (d : Text) (c : CachedTenant) (items : Items)
      → by_digest d tenants ≡ ok c.tenant
      → IsRight items
      → IsRight (insert Text-discrete d c items)
  unfolding insert
  insert-IsRight d c [] right all = (right, tt)
  insert-IsRight d c (item ∷ items) right (a, all) =
      let ih = insert-IsRight d c items right all in ground arith

  pub lookup-IsRight :
      (d : Text) (items : Items) (c : CachedTenant)
      → IsRight items
      → lookup Text-discrete d items ≡ some c
      → by_digest d tenants ≡ ok c.tenant
  unfolding lookup
  lookup-IsRight d [] c all e = ground arith
  lookup-IsRight d (item ∷ items) c (a, all) e =
      let ih = lookup-IsRight d items c all in ground arith
