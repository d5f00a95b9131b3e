-- ===== src/Persistence/EventRows.antt =====
-- SaveEvent and SaveEvents of internal/persistence/postgres.go on the rows of the table events,
-- whose key is unique by migrations/001_initial.sql. A statement takes effect as a whole or not at
-- all; one that fails may have taken effect, if only its answer was lost.
pub mod Binding
pub mod Retry
use pulse_data.Prelude.{
  ℕ, suc, ◌+◌, ◌-◌, ◌*◌, if◌then◌else◌, ◌&&◌, ◌||◌, not, Bool, true, false, Option, none, some,
  List, [], ◌∷◌, ◌++◌, get_elem?,
}
use pulse_data.Prelude.Text.{Text, codes}
use pulse_data.Events.{Event, Time}
use pulse_data.Errors.{Error, plain}
use pulse_data.Auth.Tenants.{is_same}

-- The rows in the order of their insertion, each with the five columns of an event.
abbrev pub Table : Type 0
Table = List Event

abbrev pub same_key : Event → Event → Bool
same_key a b = is_same a.tenant_id b.tenant_id && is_same a.event_id b.event_id

-- A row has the key of the event.
unfoldable pub has_row : Event → Table → Bool
has_row e [] = false
has_row e (row ∷ rows) = same_key row e || has_row e rows

-- INSERT of one row with ON CONFLICT(tenant_id,event_id) DO NOTHING.
unfoldable pub insert_row : Event → Table → Table
unfolding has_row
insert_row e table = if has_row e table then table else table ++ (e ∷ [])

-- INSERT of several rows: a row conflicts with the rows before it too.
unfoldable pub insert_rows : List Event → Table → Table
insert_rows [] table = table
insert_rows (e ∷ es) table = insert_rows es (insert_row e table)

-- What the pool answers to a statement: it was done, it was not, or nobody knows and it was done.
pub data Answer : Type 0 where
  answered : Answer
  refused : Error → Answer
  unanswered : Error → Answer

abbrev pub error_of : Answer → Option Error
error_of answered = none
error_of (refused e) = some e
error_of (unanswered e) = some e

abbrev pub effect : Answer → Table → Table → Table
effect answered old new = new
effect (refused e) old new = old
effect (unanswered e) old new = new

-- SaveEvent, with `inserted` of the answer.
unfoldable pub save_event : Answer → Event → Table → Bool × Option Error × Table
unfolding insert_row
save_event answered e table = (not (has_row e table), none, insert_row e table)
save_event (refused x) e table = (false, some x, table)
save_event (unanswered x) e table = (false, some x, insert_row e table)

-- An argument of a statement.
pub data Argument : Type 0 where
  text : Text → Argument
  time : Time → Argument
  bytes : List ℕ → Argument

-- The five placeholders of each row, from the number of the row on.
unfoldable pub placeholders : ℕ → List Event → List (ℕ × ℕ × ℕ × ℕ × ℕ)
placeholders i [] = []
placeholders i (e ∷ es) =
    let base = i * 5 + 1 in (base, base + 1, base + 2, base + 3, base + 4) ∷ placeholders (suc i) es

unfoldable pub arguments : List Event → List Argument
arguments [] = []
arguments (e ∷ es) =
    text e.tenant_id
    ∷ text e.event_id
    ∷ text e.type
    ∷ time e.timestamp
    ∷ bytes e.payload
    ∷ arguments es

-- How the server reads a row of VALUES: `$1` is the first argument.
abbrev pub row_of :
    Option Argument
    → Option Argument
    → Option Argument
    → Option Argument
    → Option Argument
    → Option Event
row_of (some (text t)) (some (text i)) (some (text k)) (some (time s)) (some (bytes p)) =
    some (record { tenant_id = t; event_id = i; type = k; timestamp = s; payload = p })
row_of _ _ _ _ _ = none

abbrev pub argument : List Argument → ℕ → Option Argument
argument args n = get_elem? args (n - 1)

abbrev pub cons_row : Option Event → Option (List Event) → Option (List Event)
cons_row (some e) (some es) = some (e ∷ es)
cons_row _ _ = none

unfoldable pub bind_rows : List Argument → List (ℕ × ℕ × ℕ × ℕ × ℕ) → Option (List Event)
bind_rows args [] = some []
bind_rows args ((a, b, c, d, e) ∷ rows) =
    cons_row
      (row_of (argument args a) (argument args b) (argument args c) (argument args d)
        (argument args e))
      (bind_rows args rows)

-- A statement with a placeholder that is bound to nothing of its type is refused.
abbrev pub after_bind : Answer → Table → Option (List Event) → Option Error × Table
after_bind a table (some rows) = (error_of a, effect a table (insert_rows rows table))
after_bind a table none = (some (plain (codes "there is no such parameter")), table)

-- saveEventsInsert
unfoldable pub save_events_insert : Answer → List Event → Table → Option Error × Table
unfolding insert_rows bind_rows arguments placeholders
save_events_insert a batch table =
    after_bind a table (bind_rows (arguments batch) (placeholders 0 batch))

-- Some row of the batch has the key of a row of the table or of one before it.
unfoldable pub has_conflict : List Event → Table → Bool
unfolding has_row
has_conflict [] table = false
has_conflict (e ∷ es) table = has_row e table || has_conflict es (table ++ (e ∷ []))

-- COPY appends all rows, or fails with code 23505 and appends none. After any other error the
-- function returns.
abbrev pub after_copy : Answer → Answer → Bool → List Event → Table → Option Error × Table
after_copy answered insert true batch table = save_events_insert insert batch table
after_copy answered insert false batch table = (none, table ++ batch)
after_copy (refused e) insert conflict batch table = (some e, table)
after_copy (unanswered e) insert true batch table = (some e, table)
after_copy (unanswered e) insert false batch table = (some e, table ++ batch)

-- SaveEvents, with the answers to COPY and to INSERT.
unfoldable pub save_events : Answer → Answer → List Event → Table → Option Error × Table
unfolding has_conflict save_events_insert
save_events copy insert [] table = (none, table)
save_events copy insert (e ∷ es) table =
    after_copy copy insert (has_conflict (e ∷ es) table) (e ∷ es) table
