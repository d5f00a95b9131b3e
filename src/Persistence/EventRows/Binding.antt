-- ===== src/Persistence/EventRows/Binding.antt =====
-- The placeholders of the INSERT in internal/persistence/postgres.go meet their arguments.
use pulse_data.Prelude.{
  ℕ, suc, ◌+◌, ◌*◌, ◌≡◌, refl, arith, Option, some, List, [], ◌∷◌, ◌++◌, get_elem?, length,
  length-append,
}
use mathlib.Core.List.{append_assoc}
use mathlib.Core.Path.{subst}
use pulse_data.Events.{Event}
use pulse_data.Persistence.EventRows.{
  Argument, text, time, bytes, placeholders, arguments, row_of, argument, cons_row, bind_rows,
}

get_elem?-append :
    (pre post : List Argument) (k : ℕ) → get_elem? (pre ++ post) (length pre + k) ≡ get_elem? post k
get_elem?-append [] post k = ground arith
get_elem?-append (x ∷ pre) post k = ground (arith, get_elem?-append pre post k)

argument-append :
    (pre post : List Argument) (n k : ℕ)
    → n ≡ length pre + k + 1
    → argument (pre ++ post) n ≡ get_elem? post k
argument-append pre post n k e = ground (arith, e, get_elem?-append pre post k)

-- The five arguments of an event.
abbrev five : Event → List Argument
five e = text e.tenant_id ∷ text e.event_id ∷ text e.type ∷ time e.timestamp ∷ bytes e.payload ∷ []

cons_row_path :
    {a a' b b' c c' d d' f f' : Option Argument} {g g' : Option (List Event)}
    → a ≡ a'
    → b ≡ b'
    → c ≡ c'
    → d ≡ d'
    → f ≡ f'
    → g ≡ g'
    → cons_row (row_of a b c d f) g ≡ cons_row (row_of a' b' c' d' f') g'
cons_row_path p q r s t u = λ i. cons_row (row_of (p i) (q i) (r i) (s i) (t i)) (u i)

bind_rows-append :
    (i : ℕ) (pre : List Argument) (batch : List Event)
    → length pre ≡ i * 5
    → bind_rows (pre ++ arguments batch) (placeholders i batch) ≡ some batch
unfolding bind_rows placeholders arguments
bind_rows-append i pre [] l = refl
bind_rows-append i pre (e ∷ es) l =
    let all = arguments (e ∷ es) in
    let rest =
      subst (λ args. bind_rows args (placeholders (suc i) es) ≡ some es)
        (append_assoc pre (five e) (arguments es))
        (bind_rows-append (suc i) (pre ++ five e) es
          (omega (arith, l, length-append pre (five e)))) in
    cons_row_path (argument-append pre all (i * 5 + 1) 0 (omega (arith, l)))
      (argument-append pre all (i * 5 + 1 + 1) 1 (omega (arith, l)))
      (argument-append pre all (i * 5 + 1 + 2) 2 (omega (arith, l)))
      (argument-append pre all (i * 5 + 1 + 3) 3 (omega (arith, l)))
      (argument-append pre all (i * 5 + 1 + 4) 4 (omega (arith, l))) rest

-- Each row of VALUES is bound to the columns of its event.
pub bind_rows-arguments :
    (batch : List Event) → bind_rows (arguments batch) (placeholders 0 batch) ≡ some batch
bind_rows-arguments batch = bind_rows-append 0 [] batch (omega arith)
