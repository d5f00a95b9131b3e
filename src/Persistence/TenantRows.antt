-- ===== src/Persistence/TenantRows.antt =====
-- The tenants of internal/persistence/postgres.go: the statements of Create, RotateKey,
-- Authenticate and Get on the rows of migrations/001_initial.sql. `failure` is the error of a
-- statement that was not done, a new key is what NewAPIKey returns, and `check_name` is the CHECK
-- of the table on names.
use pulse_data.Prelude.{
  ℕ, zero, suc, ◌-◌, ◌==◌, if◌then◌else◌, ◌&&◌, ◌||◌, not, Bool, false, Option, none, some, List,
  [], ◌∷◌, ◌++◌, length,
}
use pulse_data.Prelude.Text.{Text, codes}
use pulse_data.Events.{Time}
use pulse_data.Errors.{Error, plain, Result, ok, err}
use pulse_data.Auth.Tenants.{Tenant, err_unauthorized, err_tenant_not_found, is_same, rotated}

-- The rows in the order of their insertion. `id` is the primary key and `api_key_hash` is unique.
abbrev pub Table : Type 0
Table = List Tenant

abbrev pub err_violation : Error
err_violation = plain (codes "constraint violation")

unfoldable pub drop : ℕ → Text → Text
drop zero s = s
drop (suc n) [] = []
drop (suc n) (c ∷ s) = drop n s

-- The identifier of a new tenant: the last sixteen characters of its key, after a prefix.
unfoldable pub id_of : Text → Text
unfolding drop
id_of key = codes "ten_" ++ drop (length key - 16) key

-- Another row has the identifier or the hash of a new one.
unfoldable pub has_conflict : Text → List ℕ → Table → Bool
has_conflict id hash [] = false
has_conflict id hash (t ∷ rows) =
    let rest = has_conflict id hash rows in is_same id t.id || (is_same hash t.api_key_hash || rest)

-- A row of another tenant has the hash.
unfoldable pub has_hash : Text → List ℕ → Table → Bool
has_hash id hash [] = false
has_hash id hash (t ∷ rows) =
    let rest = has_hash id hash rows in
    (not (is_same id t.id) && is_same hash t.api_key_hash) || rest

module _ (sha256 : Text → List ℕ) where
  unfoldable pub create :
      (Text → Bool) → Option Error → Text → Text → Time → Table → Result Tenant × Table
  unfolding id_of has_conflict
  create check_name (some e) name key now rows = (err e, rows)
  create check_name none name key now rows =
      if has_conflict (id_of key) (sha256 key) rows || not (check_name name)
      then (err err_violation, rows)
      else let t : Tenant = record {
        id = id_of key;
        name = name;
        api_key_hash = sha256 key;
        status = codes "active";
        created_at = now;
        updated_at = now;
      } in
        (ok t, rows ++ (t ∷ []))

  -- UPDATE of an active row, with the number of rows that are affected.
  unfoldable pub update_row : Text → Text → Time → Table → ℕ × Table
  update_row id key now [] = (0, [])
  update_row id key now (t ∷ rows) =
      let (n, rest) = update_row id key now rows in
      if not (is_same id t.id)
      then (n, t ∷ rest)
      else if is_same t.status (codes "active")
      then (1, rotated sha256 key now t ∷ rows)
      else (0, t ∷ rows)

  abbrev pub after_update : Text → ℕ × Table → Result Text × Table
  after_update key (n, rows) = (if n == 1 then ok key else err err_tenant_not_found, rows)

  -- The statement fails if it would write a hash that another row has, and then writes nothing. One
  -- that meets no active row writes no hash.
  unfoldable pub rotate_key : Option Error → Text → Text → Time → Table → Result Text × Table
  unfolding has_hash update_row
  rotate_key (some e) tenant_id key now rows = (err e, rows)
  rotate_key none tenant_id key now rows =
      let updated = update_row tenant_id key now rows in
      if updated.0 == 1 && has_hash tenant_id (sha256 key) rows
      then (err err_violation, rows)
      else after_update key updated

  -- The first active row with the hash; there is at most one.
  unfoldable pub select_by_key : Text → Table → Result Tenant
  select_by_key key [] = err err_unauthorized
  select_by_key key (t ∷ rows) =
      let rest = select_by_key key rows in
      if is_same t.status (codes "active") && is_same (sha256 key) t.api_key_hash
      then ok t
      else rest

  unfoldable pub authenticate : Option Error → Text → Table → Result Tenant
  unfolding select_by_key
  authenticate (some e) key rows = err e
  authenticate none key rows = select_by_key key rows

unfoldable pub select_by_id : Text → Table → Result Tenant
select_by_id tenant_id [] = err err_tenant_not_found
select_by_id tenant_id (t ∷ rows) =
    let rest = select_by_id tenant_id rows in if is_same tenant_id t.id then ok t else rest

unfoldable pub get : Option Error → Text → Table → Result Tenant
unfolding select_by_id
get (some e) tenant_id rows = err e
get none tenant_id rows = select_by_id tenant_id rows
