-- ===== src/Auth/Cache/Transparent.antt =====
-- The cache of internal/auth/cache.go cannot be told from its store, as long as calls do not
-- overlap.
use mathlib.Core.List.{lookup}
use mathlib.Core.Path.{ap₂}
use native.Mathlib.Omega.{arith}
use pulse_data.Prelude.{
  ℕ, ◌≡◌, ◌≢◌, refl, sym, ap, ◌∙◌, ◌+◌, leb, ltb, Option, none, some, List, [], ◌∷◌, ◌++◌, length,
  if_either, is_empty,
}
use pulse_data.Prelude.Map.{erase}
use pulse_data.Prelude.Text.{Text, Text-discrete, codes, trim_space}
use pulse_data.Events.{Time}
use pulse_data.Errors.{Result, ok, err}
use pulse_data.Auth.Tenants.{
  Tenant, Tenants, create, rotated, after_find, rotate_key, authenticate, err_unauthorized,
}
use pulse_data.Auth.Cache.{
  CachedTenant, Items, after_look, look, drop_expired, room, store, max_cached_keys,
}
use pulse_data.Auth.Cache.System.{
  after_inner, after_hit, authenticate_cached, after_rotate, rotate_cached, by_digest,
  authenticate-eq-by_digest, IsRight, erase-IsRight, drop_expired-IsRight, insert-IsRight,
  lookup-IsRight,
}
use pulse_data.Auth.Cache.Entries.{
  IsKeyed, insert-IsKeyed, lookup-IsKeyed, by_digest-insert_new, by_digest-insert_rotated,
  All-IsRight, evict-IsRight,
}

pub data Op : Type 0 where
  creates : Text → Text → Text → Time → Op
  rotates : Text → Text → Time → Op
  asks : Text → Time → Op

pub data Reply : Type 0 where
  tenant : Result Tenant → Reply
  new_key : Result Text → Reply

module _ (sha256 : Text → List ℕ) where
  -- One call of the store.
  unfoldable pub plain_step : Op → Tenants → Reply × Tenants
  plain_step (creates name key id now) m =
      let (r, m') = create sha256 name key id now m in (tenant r, m')
  plain_step (rotates id key now) m =
      let (r, m') = rotate_key sha256 id key now m in (new_key r, m')
  plain_step (asks key now) m = (tenant (authenticate sha256 key m), m)

  unfoldable pub plain_replies : List Op → Tenants → List Reply
  unfolding plain_step
  plain_replies [] m = []
  plain_replies (op ∷ ops) m = let (r, m') = plain_step op m in r ∷ plain_replies ops m'

  -- A new identifier is none of the store's, and a new key is not one that the store accepts.
  abbrev pub IsNew : Op → Tenants → Type 0
  IsNew (creates name key id now) m = lookup Text-discrete (codes "ten_" ++ id) m ≡ none
  IsNew (rotates id key now) m = authenticate sha256 key m ≡ err err_unauthorized
  IsNew (asks key now) m = Unit

  unfoldable pub AreNew : List Op → Tenants → Type 0
  AreNew [] m = Unit
  AreNew (op ∷ ops) m = IsNew op m × AreNew ops (plain_step op m).1

  module _ (ttl : ℕ) (pick : Items → Text) where
    store-IsRight :
        (m : Tenants) (now : Time) (d : Text) (t : Tenant) (items : Items)
        → by_digest d m ≡ ok t
        → IsRight m items
        → IsRight m (store ttl pick now d t items)
    unfolding store
    store-IsRight m now d t items right all =
        let live = drop_expired now items in
        let kept = drop_expired-IsRight m now items all in
        insert-IsRight m d (record { tenant = t; expires = now + ttl }) (room pick live) right
          (if_either (IsRight m) (leb max_cached_keys (length live))
            (erase-IsRight m (pick live) live kept) kept)

    -- The answer of the store, and a cache that is still right.
    abbrev IsAnswer : Text → Tenants → Result Tenant × Items → Type 0
    IsAnswer key m (r, items) = (r ≡ authenticate sha256 key m) × IsRight m items

    after_inner-IsAnswer :
        (now : Time) (key : Text) (m : Tenants) (items : Items) (r : Result Tenant)
        → r ≡ authenticate sha256 key m
        → IsRight m items
        → IsAnswer key m (after_inner sha256 ttl pick now key items r)
    after_inner-IsAnswer now key m items (err e) same all = (same, all)
    after_inner-IsAnswer now key m items (ok t) same all = (
      same,
      store-IsRight m now (sha256 key) t items (sym (same ∙ authenticate-eq-by_digest sha256 key m))
          all,
    )

    authenticate_cached-IsAnswer :
        (now : Time) (key : Text) (m : Tenants) (items : Items)
        → IsRight m items
        → IsAnswer key m (authenticate_cached sha256 ttl pick now key m items)
    unfolding authenticate_cached look
    authenticate_cached-IsAnswer now key m items all =
        by_item (lookup Text-discrete (sha256 key) items) refl
      where
        by_item :
            (c : Option CachedTenant)
            → lookup Text-discrete (sha256 key) items ≡ c
            → IsAnswer key m
                (after_hit sha256 ttl pick now key m (after_look now (sha256 key) items c))
        by_item none e = after_inner-IsAnswer now key m items (authenticate sha256 key m) refl all
        by_item (some c) e =
            if_either
              (λ (l : Option Tenant × Items).
                IsAnswer key m (after_hit sha256 ttl pick now key m l))
              (ltb now c.expires)
              (
                sym (
                    authenticate-eq-by_digest sha256 key m
                    ∙ lookup-IsRight m (sha256 key) items c all e),
                all,
              )
              (after_inner-IsAnswer now key m (erase Text-discrete (sha256 key) items)
                (authenticate sha256 key m) refl (erase-IsRight m (sha256 key) items all))

    -- One call of the cache over the store.
    unfoldable pub cached_step : Op → Tenants → Items → Reply × Tenants × Items
    cached_step (creates name key id now) m items =
        let (r, m') = create sha256 name key id now m in (tenant r, m', items)
    cached_step (rotates id key now) m items =
        let (r, m', items') = rotate_cached sha256 ttl pick id key now m items in
        (new_key r, m', items')
    cached_step (asks key now) m items =
        let (r, items') = authenticate_cached sha256 ttl pick now key m items in
        (tenant r, m, items')

    unfoldable pub cached_replies : List Op → Tenants → Items → List Reply
    unfolding cached_step
    cached_replies [] m items = []
    cached_replies (op ∷ ops) m items =
        let (r, m', items') = cached_step op m items in r ∷ cached_replies ops m' items'

    abbrev IsMatched : Reply × Tenants × Items → Reply × Tenants → Type 0
    IsMatched (r, m, items) (r', m') = (r ≡ r') × (m ≡ m') × IsRight m' items × IsKeyed m'

    create-IsMatched :
        (name key id : Text) (now : Time) (m : Tenants) (items : Items)
        → IsRight m items
        → IsKeyed m
        → IsNew (creates name key id now) m
        → IsMatched
            (cached_step (creates name key id now) m items)
            (plain_step (creates name key id now) m)
    unfolding cached_step plain_step create
    create-IsMatched name key id now m items all keyed new =
        if_either
          (λ (x : Result Tenant × Tenants). IsMatched (tenant x.0, x.1, items) (tenant x.0, x.1))
          (is_empty (trim_space name)) (refl, refl, all, keyed)
          (
            refl,
            refl,
            All-IsRight m _ items (λ d u e. by_digest-insert_new _ _ m d u new e) all,
            insert-IsKeyed _ _ m refl keyed,
          )

    rotate-IsMatched :
        (id key : Text) (now : Time) (m : Tenants) (items : Items)
        → IsRight m items
        → IsKeyed m
        → IsNew (rotates id key now) m
        → IsMatched (cached_step (rotates id key now) m items) (plain_step (rotates id key now) m)
    unfolding cached_step plain_step rotate_key rotate_cached
    rotate-IsMatched id key now m items all keyed new = by_tenant (lookup Text-discrete id m) refl
      where
        other : (d : Text) (u : Tenant) → by_digest d m ≡ ok u → d ≢ sha256 key
        other d u e same =
            let clash =
              sym e
              ∙ ap (λ (x : Text). by_digest x m) same
              ∙ sym (authenticate-eq-by_digest sha256 key m)
              ∙ new in
            ground arith

        by_tenant :
            (c : Option Tenant)
            → lookup Text-discrete id m ≡ c
            → let x = after_find sha256 id key now m c in
              let y = after_rotate sha256 ttl pick id items x in
              IsMatched (new_key y.0, y.1, y.2) (new_key x.0, x.1)
        by_tenant none e = (refl, refl, all, keyed)
        by_tenant (some t) e = (
          refl,
          refl,
          evict-IsRight m _ id items
              (λ d u found apart.
                by_digest-insert_rotated id (rotated sha256 key now t) m d u keyed (other d u found)
                  apart found)
              all,
          insert-IsKeyed (rotated sha256 key now t) id m (lookup-IsKeyed id m t keyed e) keyed,
        )

    step-IsMatched :
        (op : Op) (m : Tenants) (items : Items)
        → IsRight m items
        → IsKeyed m
        → IsNew op m
        → IsMatched (cached_step op m items) (plain_step op m)
    unfolding cached_step plain_step
    step-IsMatched (creates name key id now) m items all keyed new =
        create-IsMatched name key id now m items all keyed new
    step-IsMatched (rotates id key now) m items all keyed new =
        rotate-IsMatched id key now m items all keyed new
    step-IsMatched (asks key now) m items all keyed new =
        let (same, right) = authenticate_cached-IsAnswer now key m items all in
        (ap (λ (r : Result Tenant). tenant r) same, refl, right, keyed)

    replies-eq_from :
        (ops : List Op) (m m' : Tenants) (items : Items)
        → m ≡ m'
        → IsRight m' items
        → IsKeyed m'
        → AreNew ops m'
        → cached_replies ops m items ≡ plain_replies ops m'
    unfolding cached_replies plain_replies AreNew
    replies-eq_from [] m m' items same all keyed new = refl
    replies-eq_from (op ∷ ops) m m' items same all keyed (new, news) =
        let (r, next, right, still) = step-IsMatched op m' items all keyed new in
        ap (λ (x : Tenants). cached_replies (op ∷ ops) x items) same
        ∙ ap₂ (λ (x : Reply) (xs : List Reply). x ∷ xs) r
            (replies-eq_from ops _ _ _ next right still news)

    -- If each new identifier is none of the store's and each new key is not one that the store
    -- accepts, then from no tenants and an empty cache on any calls of Create, RotateKey and
    -- Authenticate that do not overlap have the same answers of CachedStore over MemoryStore as of
    -- MemoryStore alone, whatever the time to live, the times and the order of the map.
    pub cached_replies-eq-plain_replies :
        (ops : List Op) → AreNew ops [] → cached_replies ops [] [] ≡ plain_replies ops []
    cached_replies-eq-plain_replies ops new = replies-eq_from ops [] [] [] refl tt tt new
