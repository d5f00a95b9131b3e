-- ===== src/Auth/Cache.antt =====
-- CachedStore of internal/auth/cache.go over any store of tenants. SHA-256 is a function that is
-- given: the key of the map is the digest of a tenant's key. Authenticate holds the mutex around
-- its look at the map, around the deletion of an expired entry and around its write; the look and
-- the deletion are one step here, the write another, and the inner store is asked between them.
pub mod Size
pub mod Rotation
pub mod System
pub mod Entries
pub mod Transparent
use mathlib.Core.List.{lookup}
use pulse_data.Prelude.{
  ℕ, ◌+◌, ltb, leb, if◌then◌else◌, not, Bool, true, false, Option, none, some, List, [], ◌∷◌,
  length,
}
use pulse_data.Prelude.Map.{Map, insert, erase}
use pulse_data.Prelude.Text.{Text, Text-discrete}
use pulse_data.Events.{Time}
use pulse_data.Auth.Tenants.{Tenant}

pub record CachedTenant : Type 0 where
  pub tenant : Tenant
  pub expires : Time

-- The cached tenants by the digests of their keys.
abbrev pub Items : Type 0
Items = Map Text CachedTenant

abbrev pub max_cached_keys : ℕ
max_cached_keys = 4096

-- The first look of Authenticate: a tenant whose entry has not expired, or else the map without
-- the expired entry.
abbrev pub after_look : Time → Text → Items → Option CachedTenant → Option Tenant × Items
after_look now key items none = (none, items)
after_look now key items (some item) =
    if ltb now item.expires
    then (some item.tenant, items)
    else (none, erase Text-discrete key items)

unfoldable pub look : Time → Text → Items → Option Tenant × Items
look now key items = after_look now key items (lookup Text-discrete key items)

-- The loop that drops what has expired.
unfoldable pub drop_expired : Time → Items → Items
drop_expired now [] = []
drop_expired now (item ∷ items) =
    let rest = drop_expired now items in if ltb now item.1.expires then item ∷ rest else rest

-- The loop that drops one entry: which one is left open by Go's order of a map.
abbrev pub drop_one : (Items → Text) → Items → Items
drop_one pick items = erase Text-discrete (pick items) items

-- The map with room for one more entry.
abbrev pub room : (Items → Text) → Items → Items
room pick live = if leb max_cached_keys (length live) then drop_one pick live else live

-- The write of Authenticate, once the inner store has found the tenant.
unfoldable pub store : ℕ → (Items → Text) → Time → Text → Tenant → Items → Items
unfolding drop_expired
store ttl pick now key tenant items =
    insert Text-discrete key (record { tenant = tenant; expires = now + ttl })
      (room pick (drop_expired now items))

abbrev pub is_of : Text → Tenant → Bool
is_of tenant_id t = elim (Text-discrete t.id tenant_id) [ yes p ↦ true | no p ↦ false ]

-- The loop of RotateKey, once the inner store has rotated.
unfoldable pub evict : Text → Items → Items
evict tenant_id [] = []
evict tenant_id (item ∷ items) =
    let rest = evict tenant_id items in if is_of tenant_id item.1.tenant then rest else item ∷ rest
