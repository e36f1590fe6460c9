-- ===== src/Prelude/Map.antt =====
-- A hash map with numeric keys (hashes, addresses, slots) as an association list that holds each
-- key once, newest first. The program's maps have no order; where it iterates over one, the model's
-- order is one of those that the program may see.
use Prim.Native.Nat.{ℕ, ◌+◌, ◌≤◌, ◌<◌}
use mathlib.Core.Path.{◌≡◌}
use mathlib.Core.Bool.{Bool, true}
use mathlib.Core.List.{List, [], ◌∷◌}
use mathlib.Core.Option.{Option, none, some}
use native.Mathlib.Omega.{arith}
use reth_statefeed.Prelude.Tests.{if◌then◌else◌, ◌==◌, is_some}
use reth_statefeed.Prelude.Lists.{length}

abbrev pub Map {ℓ} : Type ℓ → Type ℓ
Map V = List (ℕ × V)

module _ {ℓ} {V : Type ℓ} where
  unfoldable pub get : Map V → ℕ → Option V
  get [] k = none
  get ((j, v) ∷ m) k = if j == k then some v else get m k

  unfoldable pub remove : Map V → ℕ → Map V
  remove [] k = []
  remove ((j, v) ∷ m) k = let rest = remove m k in if j == k then rest else (j, v) ∷ rest

  unfoldable pub insert : Map V → ℕ → V → Map V
  insert m k v = (k, v) ∷ remove m k

  abbrev pub contains_key : Map V → ℕ → Bool
  contains_key m k = is_some (get m k)

  pub get-remove : (m : Map V) (k j : ℕ) → get (remove m k) j ≡ (if k == j then none else get m j)
  unfolding get remove
  get-remove [] k j = ground arith
  get-remove ((i, v) ∷ m) k j = ground (arith, get-remove m k j)

  pub get-insert :
      (m : Map V) (k j : ℕ) (v : V) → get (insert m k v) j ≡ (if k == j then some v else get m j)
  unfolding get insert
  get-insert m k j v = ground (arith, get-remove m k j)

  pub length-remove-le : (m : Map V) (k : ℕ) → length (remove m k) ≤ length m
  unfolding remove
  length-remove-le [] k = omega arith
  length-remove-le ((j, v) ∷ m) k = ground (arith, length-remove-le m k)

  -- A removal of a key that is there makes the map smaller.
  pub length-remove-lt :
      (m : Map V) (k : ℕ) → is_some (get m k) ≡ true → length (remove m k) < length m
  unfolding get remove
  length-remove-lt [] k h = cc
  length-remove-lt ((j, v) ∷ m) k h = ground (arith, length-remove-lt m k, length-remove-le m k)

  pub length-insert-le : (m : Map V) (k : ℕ) (v : V) → length (insert m k v) ≤ length m + 1
  unfolding insert
  length-insert-le m k v = omega (arith, length-remove-le m k)

  -- To overwrite an entry does not make the map larger.
  pub length-insert_old :
      (m : Map V) (k : ℕ) (v : V) → is_some (get m k) ≡ true → length (insert m k v) ≤ length m
  unfolding insert
  length-insert_old m k v h = omega (arith, length-remove-lt m k h)

  pub ruleset map_laws = (get-remove, get-insert)
