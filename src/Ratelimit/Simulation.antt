-- ===== src/Ratelimit/Simulation.antt =====
-- Buckets under keys stand for what tenants have got: the part of the proof that the limiters of
-- internal/ratelimit share.
use mathlib.Core.List.{lookup}
use mathlib.Core.Path.{subst}
use pulse_data.Prelude.{ℕ, ◌+◌, ◌≤◌, ◌≡◌, sym, ap, arith, Option, some, ite}
use pulse_data.Prelude.Map.{Map, insert, lookup-insert}
use pulse_data.Prelude.Text.{Text, Text-discrete}
use pulse_data.Ratelimit.Quota.{Granted, granted}

module _ {B : Type 0} (key : Text → Text) (key_injective : (s t : Text) → key s ≡ key t → s ≡ t)
    (limit : ℕ) (Fits : ℕ → Option B → Type 0) where
  -- Every tenant's bucket fits what it has got.
  abbrev pub Stands : Map Text B → Granted → Type 0
  Stands items g =
      (t : Text) → (granted t g ≤ limit) × Fits (granted t g) (lookup Text-discrete (key t) items)

  granted-insert :
      (s t : Text) (k : ℕ) (g : Granted)
      → granted s (insert Text-discrete t k g) ≡ ite (Text-discrete s t) k (granted s g)
  granted-insert s t k g = ground (arith, lookup-insert Text-discrete s t k g)

  -- A grant.
  pub Stands-insert :
      (t : Text) (k : ℕ) (b : B) (items : Map Text B) (g : Granted)
      → k ≤ limit
      → Fits k (some b)
      → Stands items g
      → Stands (insert Text-discrete (key t) b items) (insert Text-discrete t k g)
  Stands-insert t k b items g l f st s =
      rw (granted-insert s t k g, lookup-insert Text-discrete (key s) (key t) b items)
        (by_keys (Text-discrete s t) (Text-discrete (key s) (key t)))
    where
      by_keys :
          (d : Dec (s ≡ t)) (e : Dec (key s ≡ key t))
          → (ite d k (granted s g) ≤ limit)
            × Fits (ite d k (granted s g)) (ite e (some b) (lookup Text-discrete (key s) items))
      by_keys (yes p) (yes q) = (l, f)
      by_keys (yes p) (no q) = absurd (q (ap key p))
      by_keys (no p) (yes q) = absurd (p (key_injective s t q))
      by_keys (no p) (no q) = st s

  -- A refusal.
  pub Stands-store :
      (t : Text) (b : B) (items : Map Text B) (g : Granted)
      → Fits (granted t g) (some b)
      → Stands items g
      → Stands (insert Text-discrete (key t) b items) g
  Stands-store t b items g f st s =
      rw (lookup-insert Text-discrete (key s) (key t) b items)
        (by_key (Text-discrete (key s) (key t)))
    where
      by_key :
          (e : Dec (key s ≡ key t))
          → (granted s g ≤ limit)
            × Fits (granted s g) (ite e (some b) (lookup Text-discrete (key s) items))
      by_key (yes q) =
          ((st s).0, subst (λ u. Fits (granted u g) (some b)) (sym (key_injective s t q)) f)
      by_key (no q) = st s

  -- A request for nothing.
  pub Stands-same :
      (t : Text) (items : Map Text B) (g : Granted)
      → Stands items g
      → Stands items (insert Text-discrete t (granted t g + 0) g)
  Stands-same t items g st s =
      rw (granted-insert s t (granted t g + 0) g) (by_tenant (Text-discrete s t))
    where
      by_tenant :
          (d : Dec (s ≡ t))
          → (ite d (granted t g + 0) (granted s g) ≤ limit)
            × Fits (ite d (granted t g + 0) (granted s g)) (lookup Text-discrete (key s) items)
      by_tenant (yes p) =
          subst (λ k. (k ≤ limit) × Fits k (lookup Text-discrete (key s) items)) (same s p) (st s)
        where
          same : (s : Text) → s ≡ t → granted s g ≡ granted t g + 0
          same s p = omega (arith, ap (λ (u : Text). granted u g) p)
      by_tenant (no p) = st s
