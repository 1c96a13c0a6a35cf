-- ===== src/Prelude/Sorting.antt =====
-- sort.Slice of the Go library.
use Prim.Native.Nat.{ℕ, ◌≤◌}
use mathlib.Core.Path.{◌≡◌}
use mathlib.Core.List.{List}
use mathlib.Core.Option.{some}
use scalability_engineering.Prelude.Lists.{length, get_elem?}
use scalability_engineering.Prelude.Int.{ℤ, ◌≤ℤ◌}

-- What it documents for a comparison of keys with `<`: the same elements, in ascending order.
pub record SortsBy {A : Type 0} (key : A → ℤ) (sort : List A → List A) : Type 0 where
  pub kept_length : (xs : List A) → length (sort xs) ≡ length xs
  pub kept :
      (xs : List A) (i : ℕ) (x : A)
      → get_elem? (sort xs) i ≡ some x
      → (j : ℕ) × (get_elem? xs j ≡ some x)
  pub found :
      (xs : List A) (i : ℕ) (x : A)
      → get_elem? xs i ≡ some x
      → (j : ℕ) × (get_elem? (sort xs) j ≡ some x)
  pub ascending :
      (xs : List A) (i j : ℕ) (x y : A)
      → i ≤ j
      → get_elem? (sort xs) i ≡ some x
      → get_elem? (sort xs) j ≡ some y
      → key x ≤ℤ key y
