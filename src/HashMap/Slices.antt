-- ===== src/HashMap/Slices.antt =====
-- Keys, Values, Stats and GetCurrentVersion of shared/hashset.go. A copy of a slice is the list
-- itself.
use scalability_engineering.Prelude.{ℕ, List, ℤ, pos}
use scalability_engineering.HashMap.{HashMap, size}

-- `F` is the type of Go's `float64`.
pub record Stats (F : Type 0) : Type 0 where
  pub total_entries : ℕ
  pub load_factor : F

module _ {K V : Type 0} where
  unfoldable pub all_keys : HashMap K V → List K
  all_keys h = h.keys

  unfoldable pub all_values : HashMap K V → List V
  all_values h = h.values

  -- `of_int` is the conversion to `float64`.
  unfoldable pub stats : {F : Type 0} → (ℤ → F) → HashMap K V → Stats F
  stats of_int h = record { total_entries = size h; load_factor = of_int (pos (size h)) }

  unfoldable pub get_current_version : HashMap K V → ℕ
  get_current_version h = h.current_version
