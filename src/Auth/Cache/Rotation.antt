-- ===== src/Auth/Cache/Rotation.antt =====
-- What a rotation of a key takes out of the cache of internal/auth/cache.go, and what a call of
-- Authenticate that is under way can put back.
use mathlib.Core.List.{lookup}
use pulse_data.Prelude.{
  ℕ, ◌≡◌, ◌≢◌, ◌<◌, ◌+◌, refl, arith, false, Option, none, some, List, [], ◌∷◌,
}
use pulse_data.Prelude.Map.{lookup-insert_self}
use pulse_data.Prelude.Text.{Text, Text-discrete}
use pulse_data.Events.{Time}
use pulse_data.Errors.{ok}
use pulse_data.Auth.Tenants.{
  Tenant, Tenants, is_same, equal_api_key_hash, rotated, rotate_key, authenticate, get,
}
use pulse_data.Auth.Tenants.Keys.{get-rotate_key}
use pulse_data.Auth.Cache.{CachedTenant, Items, after_look, look, store, evict}

lookup-evict :
    (tenant_id key : Text) (items : Items) (c : CachedTenant)
    → lookup Text-discrete key (evict tenant_id items) ≡ some c
    → c.tenant.id ≢ tenant_id
unfolding evict lookup
lookup-evict tenant_id key [] c e = ground arith
lookup-evict tenant_id key (item ∷ items) c e = ground (arith, lookup-evict tenant_id key items c)

-- Right after RotateKey has gone through the cache, Authenticate answers from the cache with no
-- tenant of the rotated identifier, whatever the key and the time.
pub look-evict :
    (tenant_id key : Text) (now : Time) (items : Items) (t : Tenant)
    → (look now key (evict tenant_id items)).0 ≡ some t
    → t.id ≢ tenant_id
unfolding look
look-evict tenant_id key now items t e =
    by_item (lookup Text-discrete key (evict tenant_id items)) refl e
  where
    by_item :
        (c : Option CachedTenant)
        → lookup Text-discrete key (evict tenant_id items) ≡ c
        → (after_look now key (evict tenant_id items) c).0 ≡ some t
        → t.id ≢ tenant_id
    by_item none p e = ground arith
    by_item (some c) p e = ground (arith, lookup-evict tenant_id key items c p)

look_fresh :
    (now : Time) (key : Text) (items : Items) (c : CachedTenant)
    → lookup Text-discrete key items ≡ some c
    → now < c.expires
    → (look now key items).0 ≡ some c.tenant
unfolding look
look_fresh now key items c e l = ground (arith, e, l)

is_same_no : (a b : List ℕ) → a ≢ b → is_same a b ≡ false
is_same_no a b n = ground (arith, n)

-- If a call of Authenticate has its answer for the old key of a tenant, then RotateKey gives the
-- tenant a key of another digest and goes through the cache, and then the call writes to the
-- cache, the old key is answered from the cache with the tenant until the time to live has passed
-- since the call began, although it is not the key of the tenant in the store.
pub look-store-evict :
    (sha256 : Text → List ℕ) (ttl : ℕ) (pick : Items → Text) (now later : Time) (old new : Text)
    (tenants : Tenants) (items : Items) (t : Tenant)
    → authenticate sha256 old tenants ≡ ok t
    → get t.id tenants ≡ ok t
    → sha256 old ≢ sha256 new
    → later < now + ttl
    → let tenants' = (rotate_key sha256 t.id new now tenants).1 in
      let items' = store ttl pick now (sha256 old) t (evict t.id items) in
      ((look later (sha256 old) items').0 ≡ some t)
      × (get t.id tenants' ≡ ok (rotated sha256 new now t))
      × (equal_api_key_hash sha256 old (rotated sha256 new now t).api_key_hash ≡ false)
unfolding store
look-store-evict sha256 ttl pick now later old new tenants items t a g d l = (
  look_fresh later (sha256 old) _ (record { tenant = t; expires = now + ttl })
      (lookup-insert_self Text-discrete (sha256 old) _ _) l,
  (get-rotate_key sha256 t.id new now tenants t g).1,
  is_same_no (sha256 old) (sha256 new) d,
)
