-- ===== src/Persistence/EventRows/Retry.antt =====
-- A batch that is saved again until the database answers, as the consumers of
-- internal/kafka/producer.go do, leaves the table that one save of each event leaves. Nobody
-- else writes to the table between the attempts.
use pulse_data.Prelude.{
  ◌≡◌, refl, sym, arith, Bool, true, false, none, List, [], ◌∷◌, ◌++◌, ◌⊎◌, inl, inr, All,
}
use mathlib.Core.List.{append_assoc, append-nil}
use pulse_data.Events.{Event}
use pulse_data.Persistence.EventRows.{
  Table, has_row, insert_row, insert_rows, Answer, answered, refused, unanswered, save_event,
  save_events_insert, has_conflict, after_copy, save_events,
}
use pulse_data.Persistence.EventRows.Binding.{bind_rows-arguments}

-- The events saved one at a time, with every answer received.
unfoldable pub save_each : List Event → Table → Table
save_each [] table = table
save_each (e ∷ es) table = save_each es (save_event answered e table).2

save_each-eq-insert_rows :
    (batch : List Event) (table : Table) → save_each batch table ≡ insert_rows batch table
unfolding save_each save_event insert_rows
save_each-eq-insert_rows [] table = refl
save_each-eq-insert_rows (e ∷ es) table = save_each-eq-insert_rows es (insert_row e table)

-- Without a conflict the rows are appended.
insert_rows-append :
    (batch : List Event) (table : Table)
    → has_conflict batch table ≡ false
    → insert_rows batch table ≡ table ++ batch
unfolding insert_rows insert_row has_conflict
insert_rows-append [] table c = sym (append-nil table)
insert_rows-append (e ∷ es) table c =
    ground (arith, insert_rows-append es (table ++ (e ∷ [])), append_assoc table (e ∷ []) es)

-- Rows stay.
has_row-append_left :
    (e : Event) (table rows : Table) → has_row e table ≡ true → has_row e (table ++ rows) ≡ true
unfolding has_row
has_row-append_left e [] rows h = ground arith
has_row-append_left e (row ∷ table) rows h = ground (arith, has_row-append_left e table rows)

has_row-append_self : (e : Event) (table : Table) → has_row e (table ++ (e ∷ [])) ≡ true
unfolding has_row
has_row-append_self e [] = ground arith
has_row-append_self e (row ∷ table) = ground (arith, has_row-append_self e table)

has_row-insert_row_self : (e : Event) (table : Table) → has_row e (insert_row e table) ≡ true
unfolding insert_row
has_row-insert_row_self e table = ground (arith, has_row-append_self e table)

has_row-insert_row :
    (e d : Event) (table : Table) → has_row e table ≡ true → has_row e (insert_row d table) ≡ true
unfolding insert_row
has_row-insert_row e d table h = ground (arith, has_row-append_left e table (d ∷ []))

has_row-insert_rows :
    (e : Event) (batch : List Event) (table : Table)
    → has_row e table ≡ true
    → has_row e (insert_rows batch table) ≡ true
unfolding insert_rows
has_row-insert_rows e [] table h = h
has_row-insert_rows e (d ∷ batch) table h =
    has_row-insert_rows e batch (insert_row d table) (has_row-insert_row e d table h)

-- All events of the batch have their row.
abbrev AreSaved : List Event → Table → Type 0
AreSaved batch table = All (λ e. has_row e table ≡ true) batch

AreSaved-insert_rows :
    (batch : List Event) (table : Table) → AreSaved batch (insert_rows batch table)
unfolding insert_rows
AreSaved-insert_rows [] table = tt
AreSaved-insert_rows (e ∷ es) table = (
  has_row-insert_rows e es (insert_row e table) (has_row-insert_row_self e table),
  AreSaved-insert_rows es (insert_row e table),
)

-- What is saved is not saved again.
insert_rows-saved :
    (batch : List Event) (table : Table) → AreSaved batch table → insert_rows batch table ≡ table
unfolding insert_rows insert_row
insert_rows-saved [] table s = refl
insert_rows-saved (e ∷ es) table (p, s) = rw p (insert_rows-saved es table s)

insert_rows-insert_rows :
    (batch : List Event) (table : Table)
    → insert_rows batch (insert_rows batch table) ≡ insert_rows batch table
insert_rows-insert_rows batch table =
    insert_rows-saved batch (insert_rows batch table) (AreSaved-insert_rows batch table)

save_events_insert-done :
    (a : Answer) (batch : List Event) (table : Table)
    → (save_events_insert a batch table).0 ≡ none
    → (save_events_insert a batch table).1 ≡ insert_rows batch table
unfolding save_events_insert
save_events_insert-done a batch table e = ground (arith, bind_rows-arguments batch)

save_events_insert-either :
    (a : Answer) (batch : List Event) (table : Table)
    → ((save_events_insert a batch table).1 ≡ table)
      ⊎ ((save_events_insert a batch table).1 ≡ insert_rows batch table)
unfolding save_events_insert
save_events_insert-either a batch table = ground (arith, bind_rows-arguments batch)

after_copy-done :
    (copy insert : Answer) (c : Bool) (batch : List Event) (table : Table)
    → has_conflict batch table ≡ c
    → (after_copy copy insert c batch table).0 ≡ none
    → (after_copy copy insert c batch table).1 ≡ insert_rows batch table
after_copy-done answered insert true batch table c e = save_events_insert-done insert batch table e
after_copy-done answered insert false batch table c e = sym (insert_rows-append batch table c)
after_copy-done (refused x) insert c' batch table c e = ground arith
after_copy-done (unanswered x) insert true batch table c e = ground arith
after_copy-done (unanswered x) insert false batch table c e = ground arith

after_copy-either :
    (copy insert : Answer) (c : Bool) (batch : List Event) (table : Table)
    → has_conflict batch table ≡ c
    → ((after_copy copy insert c batch table).1 ≡ table)
      ⊎ ((after_copy copy insert c batch table).1 ≡ insert_rows batch table)
after_copy-either answered insert true batch table c = save_events_insert-either insert batch table
after_copy-either answered insert false batch table c = inr (sym (insert_rows-append batch table c))
after_copy-either (refused x) insert c' batch table c = inl refl
after_copy-either (unanswered x) insert true batch table c = inl refl
after_copy-either (unanswered x) insert false batch table c =
    inr (sym (insert_rows-append batch table c))

save_events-done :
    (copy insert : Answer) (batch : List Event) (table : Table)
    → (save_events copy insert batch table).0 ≡ none
    → (save_events copy insert batch table).1 ≡ insert_rows batch table
unfolding save_events insert_rows
save_events-done copy insert [] table e = refl
save_events-done copy insert (x ∷ batch) table e =
    after_copy-done copy insert (has_conflict (x ∷ batch) table) (x ∷ batch) table refl e

save_events-either :
    (copy insert : Answer) (batch : List Event) (table : Table)
    → ((save_events copy insert batch table).1 ≡ table)
      ⊎ ((save_events copy insert batch table).1 ≡ insert_rows batch table)
unfolding save_events
save_events-either copy insert [] table = inl refl
save_events-either copy insert (x ∷ batch) table =
    after_copy-either copy insert (has_conflict (x ∷ batch) table) (x ∷ batch) table refl

-- The table after attempts to save a batch, each with the answers to its two statements.
abbrev pub attempts : List (Answer × Answer) → List Event → Table → Table
attempts [] batch table = table
attempts ((copy, insert) ∷ rest) batch table =
    attempts rest batch (save_events copy insert batch table).1

attempts-either :
    (answers : List (Answer × Answer)) (batch : List Event) (table : Table)
    → (attempts answers batch table ≡ table)
      ⊎ (attempts answers batch table ≡ insert_rows batch table)
attempts-either [] batch table = inl refl
attempts-either ((copy, insert) ∷ rest) batch table = ground (
  arith,
  save_events-either copy insert batch table,
  attempts-either rest batch (save_events copy insert batch table).1,
  attempts-either rest batch table,
  insert_rows-insert_rows batch table,
)

-- However often a batch was tried, whether a failed attempt took effect or not, and whatever keys
-- are in the table or twice in the batch: once SaveEvents returns without an error, the table is
-- what saving each event of the batch once with SaveEvent makes of the table at the start.
pub save_events-eq-save_each :
    (answers : List (Answer × Answer)) (copy insert : Answer) (batch : List Event) (table : Table)
    → (save_events copy insert batch (attempts answers batch table)).0 ≡ none
    → (save_events copy insert batch (attempts answers batch table)).1 ≡ save_each batch table
save_events-eq-save_each answers copy insert batch table e = ground (
  arith,
  save_events-done copy insert batch (attempts answers batch table) e,
  attempts-either answers batch table,
  insert_rows-insert_rows batch table,
  save_each-eq-insert_rows batch table,
)
