-- ===== src/Tests/AuthRuns.antt =====
-- Runs of internal/auth at concrete inputs.
use mathlib.Core.List.{lookup}
use pulse_data.Prelude.{
  true, ℕ, ◌≡◌, ◌≢◌, ◌≤◌, refl, arith, ap, false, some, List, [], ◌∷◌, length, Any,
}
use pulse_data.Prelude.Text.{Text, Text-discrete, codes, trim_space}
use pulse_data.Errors.{ok}
use pulse_data.Auth.Tenants.{
  create, Tenant, Tenants, rotated, equal_api_key_hash, rotate_key, authenticate, get,
}
use pulse_data.Auth.Tenants.Keys.{Accepts, authenticate-Any}
use pulse_data.Auth.Cache.{Items, max_cached_keys, look, store, evict}
use pulse_data.Auth.Cache.Size.{looked, stored, evicted, Has, run, run-length-le_max}
use pulse_data.Auth.Cache.Rotation.{look-store-evict}
use pulse_data.Persistence.TenantRows
use pulse_data.Persistence.TenantRows.{drop, has_conflict, has_hash}
use pulse_data.Persistence.TenantAgreement.{
  Op, creates, rotates, asks, gets, AreNew, memory_replies, row_step, row_replies,
  memory_replies-eq-row_replies,
}
use pulse_data.Auth.Cache.Transparent
use pulse_data.Auth.Cache.Transparent.{
  cached_replies, plain_replies, cached_replies-eq-plain_replies,
}
use pulse_data.Tests.Samples.{today}

-- A digest for the tests.
abbrev sha256 : Text → List ℕ
sha256 key = key

abbrev shop : Tenant
shop = record {
  id = codes "ten_a";
  name = codes "Shop";
  api_key_hash = codes "old";
  status = codes "active";
  created_at = today;
  updated_at = today;
}

abbrev other : Tenant
other = record shop { id = codes "ten_bb" }

abbrev shops : Tenants
shops = (codes "ten_a", shop) ∷ []

authenticate-Any_example :
    Any (λ (item : Text × Tenant). (item.1 ≡ shop) × Accepts sha256 (codes "old") item) shops
unfolding authenticate Text-discrete
authenticate-Any_example = authenticate-Any sha256 (codes "old") shops shop refl

-- The key of the first entry.
abbrev first : Items → Text
first [] = []
first (item ∷ items) = item.0

first-Has : (items : Items) → items ≢ [] → Has items (first items)
unfolding lookup
first-Has [] n = absurd (n refl)
first-Has (item ∷ items) n = (item.1, ground arith)

run-length-le_max_example :
    length (
      run 60 first
        (stored 5 (codes "a") shop ∷ evicted (codes "ten_a") ∷ looked 9 (codes "a") ∷ [])
        [])
    ≤ max_cached_keys
run-length-le_max_example =
    run-length-le_max 60 first first-Has
      (stored 5 (codes "a") shop ∷ evicted (codes "ten_a") ∷ looked 9 (codes "a") ∷ [])

old_not_new : codes "old" ≢ codes "new2"
old_not_new e = omega (arith, ap (λ (t : Text). length t) e)

look-store-evict_example :
    let tenants' = (rotate_key sha256 (codes "ten_a") (codes "new2") 5 shops).1 in
    let items' = store 60 first 5 (codes "old") shop (evict (codes "ten_a") []) in
    ((look 9 (codes "old") items').0 ≡ some shop)
    × (get (codes "ten_a") tenants' ≡ ok (rotated sha256 (codes "new2") 5 shop))
    × (equal_api_key_hash sha256 (codes "old") (codes "new2") ≡ false)
unfolding authenticate get lookup Text-discrete
look-store-evict_example =
    look-store-evict sha256 60 first 5 9 (codes "old") (codes "new2") shops [] shop refl refl
      old_not_new (omega arith)

-- A tenant is created, its key is rotated, and both keys are tried.
abbrev calls : List Op
calls =
    creates (codes "Shop") (codes "pulse_0123456789abcdef") (codes "0123456789abcdef") today
    ∷ rotates (codes "ten_0123456789abcdef") (codes "pulse_new") today
    ∷ asks (codes "pulse_new")
    ∷ asks (codes "pulse_0123456789abcdef")
    ∷ gets (codes "ten_0123456789abcdef")
    ∷ []

calls_new : AreNew sha256 (λ name. true) calls []
unfolding AreNew has_conflict trim_space has_hash row_step TenantRows.create Text-discrete drop
calls_new = ((refl, refl, refl, refl), (refl, (tt, (tt, (tt, tt)))))

memory_replies-eq-row_replies_example :
    memory_replies sha256 calls [] ≡ row_replies sha256 (λ name. true) calls []
memory_replies-eq-row_replies_example =
    memory_replies-eq-row_replies sha256 (λ name. true) calls calls_new

-- The same with the cache: the new key is asked for twice.
abbrev cached_calls : List Transparent.Op
cached_calls =
    Transparent.creates (codes "Shop") (codes "old key") (codes "a") today
    ∷ Transparent.asks (codes "old key") today
    ∷ Transparent.rotates (codes "ten_a") (codes "new key") today
    ∷ Transparent.asks (codes "old key") today
    ∷ Transparent.asks (codes "new key") today
    ∷ Transparent.asks (codes "new key") today
    ∷ []

cached_calls_new : Transparent.AreNew sha256 cached_calls []
unfolding Transparent.AreNew lookup authenticate Transparent.plain_step create trim_space
    Text-discrete
cached_calls_new = (refl, (tt, (refl, (tt, (tt, (tt, tt))))))

cached_replies-eq-plain_replies_example :
    cached_replies sha256 10 first cached_calls [] [] ≡ plain_replies sha256 cached_calls []
cached_replies-eq-plain_replies_example =
    cached_replies-eq-plain_replies sha256 10 first cached_calls cached_calls_new
