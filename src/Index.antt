-- ===== src/Index.antt =====
-- What HashMap (shared/hashset.go) and PriorityQueue (shared/priority_queue.go) have in common:
-- parallel slices, and a map from each element of the first to its position.
pub mod Grow
pub mod Shrink
pub mod Count
use scalability_engineering.Prelude.{
  ℕ, ◌≡◌, refl, Option, none, some, List, [], length, get_elem?, arith, get_elem?-some,
  get_elem?-lt, ◌<◌, ◌+◌, ◌≢◌, Option-cases, inl, inr,
}
use scalability_engineering.Prelude.GoMap.{GoMap, empty, lookup, size}

-- The value beside `k` in the parallel slice `vals`.
abbrev pub find : {K A : Type 0} (dec : Discrete K) → GoMap K ℕ → List A → K → Option A
find dec m vals k = elim (lookup dec k m) [ none ↦ none | some i ↦ get_elem? vals i ]

-- No element stands at two places.
abbrev pub Distinct : {K : Type 0} → List K → Type 0
Distinct {K} keys =
    (i j : ℕ) (k : K) → get_elem? keys i ≡ some k → get_elem? keys j ≡ some k → i ≡ j

-- Each element stands in the other list too.
abbrev pub Within : {K : Type 0} → List K → List K → Type 0
Within {K} keys others =
    (i : ℕ) (k : K) → get_elem? keys i ≡ some k → (j : ℕ) × (get_elem? others j ≡ some k)

module _ {K : Type 0} (dec : Discrete K) where
  -- The map is the inverse of the slice, and holds nothing else.
  pub record IsIndex (keys : List K) (m : GoMap K ℕ) : Type 0 where
    pub inside : (k : K) (i : ℕ) → lookup dec k m ≡ some i → get_elem? keys i ≡ some k
    pub found : (k : K) (i : ℕ) → get_elem? keys i ≡ some k → lookup dec k m ≡ some i
    pub counted : size dec m ≡ length keys

  pub IsIndex-empty : IsIndex [] empty
  unfolding lookup size
  IsIndex-empty = record { inside = λ k i. cc; found = λ k i. cc; counted = refl }

  module _ {keys : List K} {m : GoMap K ℕ} (I : IsIndex keys m) where
    pub lookup-lt : (k : K) (i : ℕ) → lookup dec k m ≡ some i → i < length keys
    lookup-lt k i e = get_elem?-lt keys i k (I.inside k i e)

    -- A value stands at one place only.
    pub place_unique :
        (k : K) (i j : ℕ) → get_elem? keys i ≡ some k → get_elem? keys j ≡ some k → i ≡ j
    place_unique k i j p q = ground (arith, I.found k i p, I.found k j q)
