-- ===== src/Auth/Cache/Entries.antt =====
-- Entries of the cache of internal/auth/cache.go when the store under it changes.
use mathlib.Core.List.{lookup}
use native.Mathlib.Omega.{arith}
use pulse_data.Prelude.{◌≡◌, ◌≢◌, none, some, [], ◌∷◌, All}
use pulse_data.Prelude.Map.{insert}
use pulse_data.Prelude.Text.{Text, Text-discrete}
use pulse_data.Errors.{ok}
use pulse_data.Auth.Tenants.{Tenant, Tenants, authenticate}
use pulse_data.Auth.Cache.{Items, evict}
use pulse_data.Auth.Cache.System.{by_digest, IsRight}

abbrev pub IsKeyed : Tenants → Type 0
IsKeyed m = All (λ item. item.0 ≡ item.1.id) m

pub insert-IsKeyed :
    (t : Tenant) (k : Text) (m : Tenants)
    → k ≡ t.id
    → IsKeyed m
    → IsKeyed (insert Text-discrete k t m)
unfolding insert
insert-IsKeyed t k [] e all = (e, tt)
insert-IsKeyed t k (item ∷ m) e (a, all) = let ih = insert-IsKeyed t k m e all in ground arith

pub lookup-IsKeyed :
    (k : Text) (m : Tenants) (t : Tenant) → IsKeyed m → lookup Text-discrete k m ≡ some t → k ≡ t.id
unfolding lookup
lookup-IsKeyed k [] t all e = ground arith
lookup-IsKeyed k (item ∷ m) t (a, all) e = let ih = lookup-IsKeyed k m t all in ground arith

-- A new tenant changes no answer.
pub by_digest-insert_new :
    (k : Text) (t : Tenant) (m : Tenants) (d : Text) (u : Tenant)
    → lookup Text-discrete k m ≡ none
    → by_digest d m ≡ ok u
    → by_digest d (insert Text-discrete k t m) ≡ ok u
unfolding lookup insert authenticate
by_digest-insert_new k t [] d u new e = ground arith
by_digest-insert_new k t (item ∷ m) d u new e =
    let ih = by_digest-insert_new k t m d u in ground arith

-- A rotated key changes no answer for other digests with another tenant.
pub by_digest-insert_rotated :
    (k : Text) (t : Tenant) (m : Tenants) (d : Text) (u : Tenant)
    → IsKeyed m
    → d ≢ t.api_key_hash
    → u.id ≢ k
    → by_digest d m ≡ ok u
    → by_digest d (insert Text-discrete k t m) ≡ ok u
unfolding insert authenticate
by_digest-insert_rotated k t [] d u all other apart e = ground arith
by_digest-insert_rotated k t (item ∷ m) d u (a, all) other apart e =
    let ih = by_digest-insert_rotated k t m d u all other apart in ground arith

pub All-IsRight :
    (m m' : Tenants) (items : Items)
    → ((d : Text) (u : Tenant) → by_digest d m ≡ ok u → by_digest d m' ≡ ok u)
    → IsRight m items
    → IsRight m' items
All-IsRight m m' [] more all = tt
All-IsRight m m' (item ∷ items) more (a, all) =
    (more item.0 item.1.tenant a, All-IsRight m m' items more all)

pub evict-IsRight :
    (m m' : Tenants) (id : Text) (items : Items)
    → ((d : Text) (u : Tenant) → by_digest d m ≡ ok u → u.id ≢ id → by_digest d m' ≡ ok u)
    → IsRight m items
    → IsRight m' (evict id items)
unfolding evict
evict-IsRight m m' id [] more all = tt
evict-IsRight m m' id (item ∷ items) more (a, all) =
    let ih = evict-IsRight m m' id items more all in
    let kept = more item.0 item.1.tenant a in ground arith
