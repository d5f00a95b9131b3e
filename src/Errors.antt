-- ===== src/Errors.antt =====
-- Go's error values. An error is `nil` or one of these, so a result of type error is an
-- `Option Error`. fmt.Errorf with %w keeps its message and what it wraps; errors.As looks through
-- a chain in preorder. The two dead-letter types are declared in internal/kafka/producer.go.
use pulse_data.Prelude.{Option, none, some, List, ◌++◌}
use pulse_data.Prelude.Text.{Text, codes}
use pulse_data.Events.{Event}

mutual
  pub data Error : Type 0 where
    plain : Text → Error
    wrap : Text → Error → Error
    wraps : Text → Errors → Error
    join : Errors → Error
    dead_letter_error : Error → Error
    batch_dead_letter_error : List Event → Error → Error

  pub data Errors : Type 0 where
    nil : Errors
    cons : Error → Errors → Errors

unfoldable mutual
  -- err.Error()
  pub message : Error → Text
  message (plain s) = s
  message (wrap s e) = s
  message (wraps s es) = s
  message (join es) = message_list es
  message (dead_letter_error e) = message e
  message (batch_dead_letter_error evs e) = message e

  -- errors.Join puts a line break between two messages.
  pub message_list : Errors → Text
  message_list nil = codes ""
  message_list (cons e nil) = message e
  message_list (cons e (cons e' es)) = message e ++ (codes "\n" ++ message_list (cons e' es))

abbrev pub or_else {ℓ} : {A : Type ℓ} → Option A → Option A → Option A
or_else (some a) b = some a
or_else none b = b

unfoldable mutual
  -- errors.As(err, &terminal) for *DeadLetterError: what the first one found wraps.
  pub as_dead_letter : Error → Option Error
  as_dead_letter (plain s) = none
  as_dead_letter (wrap s e) = as_dead_letter e
  as_dead_letter (wraps s es) = as_dead_letter_list es
  as_dead_letter (join es) = as_dead_letter_list es
  as_dead_letter (dead_letter_error e) = some e
  as_dead_letter (batch_dead_letter_error evs e) = as_dead_letter e

  pub as_dead_letter_list : Errors → Option Error
  as_dead_letter_list nil = none
  as_dead_letter_list (cons e es) = or_else (as_dead_letter e) (as_dead_letter_list es)

pub record BatchDeadLetter : Type 0 where
  pub events : List Event
  pub cause : Error

unfoldable mutual
  -- errors.As(err, &terminal) for *BatchDeadLetterError.
  pub as_batch_dead_letter : Error → Option BatchDeadLetter
  as_batch_dead_letter (plain s) = none
  as_batch_dead_letter (wrap s e) = as_batch_dead_letter e
  as_batch_dead_letter (wraps s es) = as_batch_dead_letter_list es
  as_batch_dead_letter (join es) = as_batch_dead_letter_list es
  as_batch_dead_letter (dead_letter_error e) = as_batch_dead_letter e
  as_batch_dead_letter (batch_dead_letter_error evs e) = some (record { events = evs; cause = e })

  pub as_batch_dead_letter_list : Errors → Option BatchDeadLetter
  as_batch_dead_letter_list nil = none
  as_batch_dead_letter_list (cons e es) =
      or_else (as_batch_dead_letter e) (as_batch_dead_letter_list es)

-- A result of Go type (A, error), of which exactly one is meant.
pub data Result (A : Type 0) : Type 0 where
  ok : A → Result A
  err : Error → Result A

-- fmt.Errorf("<context>: %w", err)
abbrev pub in_context : Text → Error → Error
in_context context e = wrap (context ++ (codes ": " ++ message e)) e
