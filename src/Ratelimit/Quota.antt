-- ===== src/Ratelimit/Quota.antt =====
-- The reference for the limiters of internal/ratelimit: at one instant a tenant gets what is left
-- of its limit.
use mathlib.Core.List.{lookup}
use pulse_data.Prelude.{
  ℕ, ◌+◌, ltb, if◌then◌else◌, Bool, true, false, Option, none, some, List, [], ◌∷◌,
}
use pulse_data.Prelude.Map.{Map, insert}
use pulse_data.Prelude.Text.{Text, Text-discrete}

-- What each tenant has got.
abbrev pub Granted : Type 0
Granted = Map Text ℕ

abbrev pub or_zero : Option ℕ → ℕ
or_zero none = 0
or_zero (some n) = n

abbrev pub granted : Text → Granted → ℕ
granted tenant_id g = or_zero (lookup Text-discrete tenant_id g)

unfoldable pub request : ℕ → Text → ℕ → Granted → Bool × Granted
request limit tenant_id amount g =
    if ltb limit (granted tenant_id g + amount)
    then (false, g)
    else (true, insert Text-discrete tenant_id (granted tenant_id g + amount) g)

-- The answers to a list of requests.
unfoldable pub answers : ℕ → List (Text × ℕ) → Granted → List Bool
unfolding request
answers limit [] g = []
answers limit ((tenant_id, amount) ∷ requests) g =
    let (a, g') = request limit tenant_id amount g in a ∷ answers limit requests g'
