-- ===== src/Auth/Bearer.antt =====
-- Bearer of internal/auth/tenant.go. No letter of "bearer" has a fold outside ASCII, so
-- strings.EqualFold is a comparison of the text in lower case here.
use pulse_data.Prelude.{
  ℕ, ◌+◌, leb, if◌then◌else◌, ◌&&◌, Option, none, some, List, [], ◌∷◌, map, is_empty, ◌||◌, not,
}
use pulse_data.Prelude.Fields.{fields}
use pulse_data.Prelude.Text.{Text, codes}
use pulse_data.Auth.Tenants.{is_same}

abbrev pub lower : ℕ → ℕ
lower c = if leb b'A' c && leb c b'Z' then c + 32 else c

abbrev pub bearer_of : List Text → Option Text
bearer_of (scheme ∷ key ∷ []) =
    if not (is_same (map lower scheme) (codes "bearer")) || is_empty key then none else some key
bearer_of _ = none

unfoldable pub bearer : Text → Option Text
unfolding fields
bearer header = bearer_of (fields header)
