-- ===== src/Prelude/Lists.antt =====
-- Lists measured by native numbers, predicates over lists and folds, under the library's names.
use Prim.Native.Nat.{ℕ, zero, suc, ◌+◌}
use mathlib.Core.Path.{◌≡◌}
use mathlib.Core.Logic.{◌⊎◌, inl, inr}
use mathlib.Core.List.{List, [], ◌∷◌, ◌++◌}
use mathlib.Core.Bool.{Bool, true, false}
use mathlib.Core.Option.{Option, none, some}
use native.Mathlib.Omega.{arith}

module _ {ℓ} {A : Type ℓ} where
  abbrev pub length : List A → ℕ
  length [] = 0
  length (x ∷ xs) = suc (length xs)

  abbrev pub get_elem? : List A → ℕ → Option A
  get_elem? [] i = none
  get_elem? (x ∷ xs) zero = some x
  get_elem? (x ∷ xs) (suc i) = get_elem? xs i

  -- `len(xs) == 0`
  abbrev pub is_empty : List A → Bool
  is_empty [] = true
  is_empty (x ∷ xs) = false

  pub length-append : (xs ys : List A) → length (xs ++ ys) ≡ length xs + length ys
  length-append [] ys = omega arith
  length-append (x ∷ xs) ys = omega (arith, length-append xs ys)

module _ {ℓ} {A : Type ℓ} (P : A → Type 0) where
  -- every element satisfies `P`
  abbrev pub All : List A → Type 0
  All [] = Unit
  All (x ∷ xs) = P x × All xs

  -- some element satisfies `P`
  abbrev pub Any : List A → Type 0
  Any [] = ⊥
  Any (x ∷ xs) = P x ⊎ Any xs

module _ {ℓ} {A : Type ℓ} {P Q : A → Type 0} where
  pub All-map : ((a : A) → P a → Q a) → (xs : List A) → All P xs → All Q xs
  All-map f [] h = tt
  All-map f (x ∷ xs) h = (f x h.0, All-map f xs h.1)

  pub Any-map : ((a : A) → P a → Q a) → (xs : List A) → Any P xs → Any Q xs
  Any-map f [] h = absurd h
  Any-map f (x ∷ xs) (inl p) = inl (f x p)
  Any-map f (x ∷ xs) (inr h) = inr (Any-map f xs h)

module _ {ℓ} {A : Type ℓ} (P : A → Type 0) where
  pub All-append : (xs ys : List A) → All P xs → All P ys → All P (xs ++ ys)
  All-append [] ys hx hy = hy
  All-append (x ∷ xs) ys hx hy = (hx.0, All-append xs ys hx.1 hy)

  pub Any-append_left : (xs ys : List A) → Any P xs → Any P (xs ++ ys)
  Any-append_left [] ys h = absurd h
  Any-append_left (x ∷ xs) ys (inl p) = inl p
  Any-append_left (x ∷ xs) ys (inr h) = inr (Any-append_left xs ys h)

  pub Any-append_right : (xs ys : List A) → Any P ys → Any P (xs ++ ys)
  Any-append_right [] ys h = h
  Any-append_right (x ∷ xs) ys h = inr (Any-append_right xs ys h)
