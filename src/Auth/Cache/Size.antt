-- ===== src/Auth/Cache/Size.antt =====
-- The bound on the cache of internal/auth/cache.go, and what a rotation takes out of it.
use mathlib.Core.List.{lookup}
use pulse_data.Prelude.{ℕ, ◌≡◌, ◌≢◌, ◌≤◌, ◌<◌, ◌+◌, arith, some, List, [], ◌∷◌, length}
use pulse_data.Prelude.Map.{erase, length-insert-le, length-erase-le}
use pulse_data.Prelude.Text.{Text, Text-discrete}
use pulse_data.Events.{Time}
use pulse_data.Auth.Tenants.{Tenant}
use pulse_data.Auth.Cache.{
  CachedTenant, Items, max_cached_keys, look, drop_expired, drop_one, room, store, evict,
}

-- The steps that the calls of CachedStore make on its map, in the order in which they get the
-- mutex.
pub data Step : Type 0 where
  looked : Time → Text → Step
  stored : Time → Text → Tenant → Step
  evicted : Text → Step

module _ (ttl : ℕ) (pick : Items → Text) where
  abbrev pub step : Step → Items → Items
  step (looked now key) items = (look now key items).1
  step (stored now key tenant) items = store ttl pick now key tenant items
  step (evicted tenant_id) items = evict tenant_id items

  abbrev pub run : List Step → Items → Items
  run [] items = items
  run (s ∷ steps) items = run steps (step s items)

drop_expired-length-le :
    (now : Time) (items : Items) → length (drop_expired now items) ≤ length items
unfolding drop_expired
drop_expired-length-le now [] = omega arith
drop_expired-length-le now (item ∷ items) = ground (arith, drop_expired-length-le now items)

evict-length-le : (tenant_id : Text) (items : Items) → length (evict tenant_id items) ≤ length items
unfolding evict
evict-length-le tenant_id [] = omega arith
evict-length-le tenant_id (item ∷ items) = ground (arith, evict-length-le tenant_id items)

-- A key of the map.
abbrev pub Has : Items → Text → Type 0
Has items key = (t : CachedTenant) × (lookup Text-discrete key items ≡ some t)

-- Dropping a key that is there makes the map smaller.
length-erase-lt :
    (key : Text) (t : CachedTenant) (items : Items)
    → lookup Text-discrete key items ≡ some t
    → length (erase Text-discrete key items) < length items
unfolding erase lookup
length-erase-lt key t [] e = ground arith
length-erase-lt key t (item ∷ items) e =
    ground (arith, length-erase-lt key t items, length-erase-le Text-discrete key items)

module _ (ttl : ℕ) (pick : Items → Text)
    (picks : (items : Items) → items ≢ [] → Has items (pick items)) where
  drop_one-length-lt : (items : Items) → items ≢ [] → length (drop_one pick items) < length items
  drop_one-length-lt items n = let (t, e) = picks items n in length-erase-lt (pick items) t items e

  -- The map with room for one more entry.
  make_room :
      (items : Items) → length items ≤ max_cached_keys → length (room pick items) < max_cached_keys
  make_room [] l = ground arith
  make_room (x ∷ items) l = ground (arith, drop_one-length-lt (x ∷ items) (λ e. ground (arith, e)))

  store-length-le :
      (now : Time) (key : Text) (tenant : Tenant) (items : Items)
      → length items ≤ max_cached_keys
      → length (store ttl pick now key tenant items) ≤ max_cached_keys
  unfolding store
  store-length-le now key tenant items b =
      let live = drop_expired now items in
      let r = make_room live (omega (arith, b, drop_expired-length-le now items)) in
      let s =
        length-insert-le Text-discrete key (record { tenant = tenant; expires = now + ttl })
          (room pick live) in
      omega (arith, r, s)

  step-length-le :
      (s : Step) (items : Items)
      → length items ≤ max_cached_keys
      → length (step ttl pick s items) ≤ max_cached_keys
  unfolding look
  step-length-le (looked now key) items b = ground (arith, length-erase-le Text-discrete key items)
  step-length-le (stored now key tenant) items b = store-length-le now key tenant items b
  step-length-le (evicted tenant_id) items b = omega (arith, evict-length-le tenant_id items, b)

  run-length-le :
      (steps : List Step) (items : Items)
      → length items ≤ max_cached_keys
      → length (run ttl pick steps items) ≤ max_cached_keys
  run-length-le [] items b = b
  run-length-le (s ∷ steps) items b =
      run-length-le steps (step ttl pick s items) (step-length-le s items b)

  -- If the entry that is dropped for want of room is one of the map, then after any steps of any
  -- calls of Authenticate and RotateKey, in any order, a cache that was empty at first holds at
  -- most 4096 entries.
  pub run-length-le_max : (steps : List Step) → length (run ttl pick steps []) ≤ max_cached_keys
  run-length-le_max steps = run-length-le steps [] (omega arith)
