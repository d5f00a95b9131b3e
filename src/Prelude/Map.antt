-- ===== src/Prelude/Map.antt =====
-- A Go map as an association list over keys with a decidable equality: the library's `lookup`,
-- with the assignment `m[k] = v` and `delete(m, k)`.
use mathlib.Core.List.{List, [], ◌∷◌, lookup}
use mathlib.Core.Logic.{ite}
use mathlib.Core.Option.{none, some}
use mathlib.Core.Path.{◌≡◌}
use native.Mathlib.Omega.{arith}
use Prim.Native.Nat.{◌≤◌, ◌+◌}
use pulse_data.Prelude.Lists.{length}

abbrev pub Map {ℓ} : Type ℓ → Type ℓ → Type ℓ
Map K V = List (K × V)

module _ {ℓ} {K V : Type ℓ} (dec : Discrete K) where
  unfoldable pub insert : K → V → Map K V → Map K V
  insert k v [] = (k, v) ∷ []
  insert k v (e ∷ m) = let rest = insert k v m in ite (dec k e.0) ((k, v) ∷ m) (e ∷ rest)

  unfoldable pub erase : K → Map K V → Map K V
  erase k [] = []
  erase k (e ∷ m) = let rest = erase k m in ite (dec k e.0) rest (e ∷ rest)

  pub lookup-insert :
      (j k : K) (v : V) (m : Map K V)
      → lookup dec j (insert k v m) ≡ ite (dec j k) (some v) (lookup dec j m)
  unfolding lookup insert
  lookup-insert j k v [] = ground arith
  lookup-insert j k v (e ∷ m) = ground (arith, lookup-insert j k v m)

  pub lookup-insert_self : (k : K) (v : V) (m : Map K V) → lookup dec k (insert k v m) ≡ some v
  lookup-insert_self k v m = ground (arith, lookup-insert k k v m)

  pub lookup-erase :
      (j k : K) (m : Map K V) → lookup dec j (erase k m) ≡ ite (dec j k) none (lookup dec j m)
  unfolding lookup erase
  lookup-erase j k [] = ground arith
  lookup-erase j k (e ∷ m) = ground (arith, lookup-erase j k m)

  pub length-insert-le : (k : K) (v : V) (m : Map K V) → length (insert k v m) ≤ length m + 1
  unfolding insert
  length-insert-le k v [] = omega arith
  length-insert-le k v (e ∷ m) = ground (arith, length-insert-le k v m)

  pub length-erase-le : (k : K) (m : Map K V) → length (erase k m) ≤ length m
  unfolding erase
  length-erase-le k [] = omega arith
  length-erase-le k (e ∷ m) = ground (arith, length-erase-le k m)
