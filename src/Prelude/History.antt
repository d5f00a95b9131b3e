-- ===== src/Prelude/History.antt =====
-- Calls of what the program does not implement. A computation runs against the history of the
-- calls made so far, newest first. The answer to a call may be any function of that history, and
-- the call is put on it with its answer.
use mathlib.Core.List.{List, ◌∷◌}

-- `C` is the type of the calls of one component, each with its answer.
abbrev pub Run : Type 0 → Type 0 → Type 0
Run C A = List C → A × List C

module _ {A C : Type 0} where
  abbrev pub pure : A → Run C A
  pure a h = (a, h)

  -- one call: `answer` is what the environment does, `entry` what the history keeps
  abbrev pub call : (List C → A) → (A → C) → Run C A
  call answer entry h = let a = answer h in (a, entry a ∷ h)

infixl 5 ◌>>=◌ ◌>>◌
abbrev pub ◌>>=◌ : {A B C : Type 0} → Run C A → (A → Run C B) → Run C B
◌>>=◌ m f h = let (a, h') = m h in f a h'

abbrev pub ◌>>◌ : {B C : Type 0} → Run C (Unit {0}) → Run C B → Run C B
m >> k = m >>= λ _. k
