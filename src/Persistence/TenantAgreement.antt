-- ===== src/Persistence/TenantAgreement.antt =====
-- The tenants of MemoryStore in internal/auth/tenant.go and those of
-- internal/persistence/postgres.go answer alike.
use mathlib.Core.List.{lookup}
use mathlib.Core.Path.{ap₂, subst}
use pulse_data.Prelude.{
  ℕ, ◌≡◌, refl, ap, ◌∙◌, arith, ◌-◌, ◌==◌, ◌&&◌, Bool, true, false, Option, none, some, List, [],
  ◌∷◌, ◌++◌, length, map, is_empty, All,
}
use pulse_data.Prelude.Map.{insert}
use pulse_data.Prelude.Text.{Text, Text-discrete, codes, trim_space}
use pulse_data.Events.{Time}
use pulse_data.Errors.{Result}
use pulse_data.Auth.Tenants.{Tenant, Tenants, is_same, rotated, after_find, or_not_found}
use pulse_data.Auth.Tenants
use pulse_data.Persistence.TenantRows.{
  Table, drop, id_of, has_conflict, has_hash, update_row, select_by_key, select_by_id,
}
use pulse_data.Persistence.TenantRows

-- `creates name key id now` draws the key of a new tenant and, in the memory store, its identifier,
-- which the source draws apart from the key.
pub data Op : Type 0 where
  creates : Text → Text → Text → Time → Op
  rotates : Text → Text → Time → Op
  asks : Text → Op
  gets : Text → Op

pub data Reply : Type 0 where
  tenant : Result Tenant → Reply
  new_key : Result Text → Reply

and_false : {b : Bool} (a : Bool) → b ≡ false → (a && b) ≡ false
and_false true e = e
and_false false e = refl

-- The rows as the map of the memory store.
abbrev pub keyed : Table → Tenants
keyed rows = map (λ t. (t.id, t)) rows

abbrev AreActive : Table → Type 0
AreActive rows = All (λ t. is_same t.status (codes "active") ≡ true) rows

insert-keyed :
    (t : Tenant) (hash : List ℕ) (rows : Table)
    → has_conflict t.id hash rows ≡ false
    → insert Text-discrete t.id t (keyed rows) ≡ keyed (rows ++ (t ∷ []))
unfolding insert has_conflict
insert-keyed t hash [] e = refl
insert-keyed t hash (row ∷ rows) e = ground (arith, e, insert-keyed t hash rows)

lookup-keyed :
    (id : Text) (rows : Table)
    → or_not_found (lookup Text-discrete id (keyed rows)) ≡ select_by_id id rows
unfolding lookup select_by_id
lookup-keyed id [] = refl
lookup-keyed id (row ∷ rows) = ground (arith, lookup-keyed id rows)

module _ (sha256 : Text → List ℕ) where
  authenticate-keyed :
      (key : Text) (rows : Table)
      → Tenants.authenticate sha256 key (keyed rows) ≡ select_by_key sha256 key rows
  unfolding Tenants.authenticate select_by_key
  authenticate-keyed key [] = refl
  authenticate-keyed key (row ∷ rows) = ground (arith, authenticate-keyed key rows)

  -- What UPDATE does to active rows, after the lookup of the memory store.
  Updates : Text → Text → Time → Table → Option Tenant → ℕ × Table → Type 0
  Updates id key now rows none (n, rows') = (n ≡ 0) × (rows' ≡ rows)
  Updates id key now rows (some t) (n, rows') =
      (n ≡ 1) × (insert Text-discrete id (rotated sha256 key now t) (keyed rows) ≡ keyed rows')

  update_row-Updates :
      (id key : Text) (now : Time) (rows : Table)
      → AreActive rows
      → Updates id key now rows
          (lookup Text-discrete id (keyed rows))
          (update_row sha256 id key now rows)
  unfolding Updates lookup update_row insert
  update_row-Updates id key now [] all = (refl, refl)
  update_row-Updates id key now (t ∷ rows) (a, all) =
      let ih = update_row-Updates id key now rows all in ground arith

  update_row-AreActive :
      (id key : Text) (now : Time) (rows : Table)
      → AreActive rows
      → AreActive (update_row sha256 id key now rows).1
  unfolding update_row
  update_row-AreActive id key now [] all = tt
  update_row-AreActive id key now (t ∷ rows) (a, all) =
      let ih = update_row-AreActive id key now rows all in ground arith

  append-AreActive :
      (rows : Table) (t : Tenant)
      → AreActive rows
      → is_same t.status (codes "active") ≡ true
      → AreActive (rows ++ (t ∷ []))
  append-AreActive [] t all a = (a, tt)
  append-AreActive (row ∷ rows) t (b, all) a = (b, append-AreActive rows t all a)

  -- One call of the memory store.
  unfoldable pub memory_step : Op → Tenants → Reply × Tenants
  memory_step (creates name key id now) m =
      let (r, m') = Tenants.create sha256 name key id now m in (tenant r, m')
  memory_step (rotates id key now) m =
      let (r, m') = Tenants.rotate_key sha256 id key now m in (new_key r, m')
  memory_step (asks key) m = (tenant (Tenants.authenticate sha256 key m), m)
  memory_step (gets id) m = (tenant (Tenants.get id m), m)

  unfoldable pub memory_replies : List Op → Tenants → List Reply
  unfolding memory_step
  memory_replies [] m = []
  memory_replies (op ∷ ops) m = let (r, m') = memory_step op m in r ∷ memory_replies ops m'

  module _ (check_name : Text → Bool) where
    unfoldable pub row_step : Op → Table → Reply × Table
    row_step (creates name key id now) rows =
        let (r, rows') = TenantRows.create sha256 check_name none name key now rows in
        (tenant r, rows')
    row_step (rotates id key now) rows =
        let (r, rows') = TenantRows.rotate_key sha256 none id key now rows in (new_key r, rows')
    row_step (asks key) rows = (tenant (TenantRows.authenticate sha256 none key rows), rows)
    row_step (gets id) rows = (tenant (TenantRows.get none id rows), rows)

    unfoldable pub row_replies : List Op → Table → List Reply
    unfolding row_step
    row_replies [] rows = []
    row_replies (op ∷ ops) rows = let (r, rows') = row_step op rows in r ∷ row_replies ops rows'

    -- New keys and identifiers are none of the table's, the memory store draws the identifier that
    -- Postgres cuts from the key, and names pass the CHECK of the table.
    abbrev pub IsNew : Op → Table → Type 0
    IsNew (creates name key id now) rows =
        (drop (length key - 16) key ≡ id)
        × (is_empty (trim_space name) ≡ false)
        × (check_name name ≡ true)
        × (has_conflict (id_of key) (sha256 key) rows ≡ false)
    IsNew (rotates id key now) rows = has_hash id (sha256 key) rows ≡ false
    IsNew _ rows = Unit

    unfoldable pub AreNew : List Op → Table → Type 0
    AreNew [] rows = Unit
    AreNew (op ∷ ops) rows = IsNew op rows × AreNew ops (row_step op rows).1

    -- The answers are the same, and so is what the stores hold then.
    Agrees : Reply × Tenants → Reply × Table → Type 0
    Agrees (r, m) (r', rows) = (r ≡ r') × (m ≡ keyed rows) × AreActive rows

    rotate-Agrees :
        (id key : Text) (now : Time) (rows : Table)
        → AreActive rows
        → has_hash id (sha256 key) rows ≡ false
        → Agrees
            (memory_step (rotates id key now) (keyed rows))
            (row_step (rotates id key now) rows)
    unfolding Agrees memory_step row_step Tenants.rotate_key TenantRows.rotate_key Updates
    rotate-Agrees id key now rows all new =
        rw (and_false ((update_row sha256 id key now rows).0 == 1) new) (
          by_row (lookup Text-discrete id (keyed rows)) (update_row sha256 id key now rows)
            (update_row-Updates id key now rows all) (update_row-AreActive id key now rows all))
      where
        by_row :
            (found : Option Tenant) (u : ℕ × Table)
            → Updates id key now rows found u
            → AreActive u.1
            → let (r, m') = after_find sha256 id key now (keyed rows) found in
              let (r', rows') = TenantRows.after_update sha256 key u in
              (new_key r ≡ new_key r') × (m' ≡ keyed rows') × AreActive rows'
        by_row none (n, rows') (none_updated, same) active =
            rw (none_updated, same) (refl, refl, all)
        by_row (some t) (n, rows') (one_updated, same) active = rw one_updated (refl, same, active)

    create-Agrees :
        (name key id : Text) (now : Time) (rows : Table)
        → AreActive rows
        → IsNew (creates name key id now) rows
        → Agrees
            (memory_step (creates name key id now) (keyed rows))
            (row_step (creates name key id now) rows)
    unfolding Agrees memory_step row_step Tenants.create TenantRows.create id_of Text-discrete
    create-Agrees name key id now rows all (cut, named, checked, new) =
        subst
          (λ (x : Text).
            Agrees (memory_step (creates name key x now) (keyed rows))
              (row_step (creates name key x now) rows))
          cut
          (rw (named, checked, new)
            (refl, insert-keyed _ (sha256 key) rows new, append-AreActive rows _ all refl))

    step-Agrees :
        (op : Op) (rows : Table)
        → AreActive rows
        → IsNew op rows
        → Agrees (memory_step op (keyed rows)) (row_step op rows)
    unfolding Agrees memory_step row_step Tenants.get TenantRows.get TenantRows.authenticate
    step-Agrees (creates name key id now) rows all new = create-Agrees name key id now rows all new
    step-Agrees (rotates id key now) rows all new = rotate-Agrees id key now rows all new
    step-Agrees (asks key) rows all new =
        (ap (λ (r : Result Tenant). tenant r) (authenticate-keyed key rows), refl, all)
    step-Agrees (gets id) rows all new =
        (ap (λ (r : Result Tenant). tenant r) (lookup-keyed id rows), refl, all)

    replies-eq_from :
        (ops : List Op) (rows : Table)
        → AreActive rows
        → AreNew ops rows
        → memory_replies ops (keyed rows) ≡ row_replies ops rows
    unfolding AreNew memory_replies row_replies Agrees
    replies-eq_from [] rows all new = refl
    replies-eq_from (op ∷ ops) rows all (new, news) =
        let (r, m, active) = step-Agrees op rows all new in
        ap₂ (λ (x : Reply) (xs : List Reply). x ∷ xs) r
          (ap (memory_replies ops) m ∙ replies-eq_from ops (row_step op rows).1 active news)

    -- If the memory store draws for each new tenant the very identifier that Postgres cuts from the
    -- tenant's key (the source draws it at random), each new key and identifier is none of the
    -- table's, and the names of new tenants are not blank and pass the CHECK of the table, then
    -- from no tenants on any calls of Create, RotateKey, Authenticate and Get, with the same new
    -- keys and at the same times in both, have the same answers of the memory store as of Postgres,
    -- as long as no statement fails.
    pub memory_replies-eq-row_replies :
        (ops : List Op) → AreNew ops [] → memory_replies ops [] ≡ row_replies ops []
    memory_replies-eq-row_replies ops new = replies-eq_from ops [] tt new
