-- ===== src/Index/Grow.antt =====
-- Appending, overwriting and exchanging elements.
use scalability_engineering.Prelude.{
  ℕ, ◌≡◌, none, some, List, [], ◌∷◌, ◌++◌, length, get_elem?, set, swap, arith, ite, ◌<◌,
  length-concat, get_elem?-concat, get_elem?-set, get_elem?-swap, length-swap, get_elem?-lt,
  Option-cases, inl, inr,
}
use scalability_engineering.Prelude.GoMap.{
  GoMap, lookup, insert, size, lookup-insert, size-insert_new, size-insert_old,
}
use scalability_engineering.Index.{find, IsIndex, lookup-lt}

module _ {K A : Type 0} (dec : Discrete K) {keys : List K} {m : GoMap K ℕ} (I : IsIndex dec keys m)
    (vals : List A) (paired : length vals ≡ length keys) where
  -- A new key at the end.
  module _ (k : K) (fresh : lookup dec k m ≡ none) where
    pub IsIndex-concat : IsIndex dec (keys ++ k ∷ []) (insert dec k (length keys) m)
    IsIndex-concat = record {
      inside = λ j i e. ground (
        arith,
        lookup-insert dec k j (length keys) m,
        get_elem?-concat keys k i,
        I.inside j i,
        lookup-lt dec I j i,
      );
      found = λ j i e. ground (
        arith,
        lookup-insert dec k j (length keys) m,
        get_elem?-concat keys k i,
        I.found j i,
        fresh,
      );
      counted =
          omega
            (arith, size-insert_new dec k (length keys) m fresh, length-concat keys k, I.counted);
    }

    pub find-concat :
        (a : A) (j : K)
        → find dec (insert dec k (length keys) m) (vals ++ a ∷ []) j
          ≡ ite (dec k j) (some a) (find dec m vals j)
    find-concat a j = elim (Option-cases (lookup dec j m)) [
      | inl e ↦
          ground
            (arith, lookup-insert dec k j (length keys) m, get_elem?-concat vals a (length keys))
      | inr (i, e) ↦ ground (
        arith,
        lookup-insert dec k j (length keys) m,
        get_elem?-concat vals a (length keys),
        get_elem?-concat vals a i,
        lookup-lt dec I j i,
      )
    ]

  -- A new value beside an old key.
  pub find-set :
      (k : K) (i : ℕ) (a : A) (j : K)
      → lookup dec k m ≡ some i
      → find dec m (set vals i a) j ≡ ite (dec k j) (some a) (find dec m vals j)
  find-set k i a j e = elim (Option-cases (lookup dec j m)) [
    | inl f ↦ ground arith
    | inr (n, f) ↦
        ground
          (arith, get_elem?-set vals i n a, lookup-lt dec I k i e, I.inside k i e, I.inside j n f)
  ]

  -- Two keys change places, their values too.
  module _ (i j : ℕ) (x y : K) (ex : get_elem? keys i ≡ some x)
      (ey : get_elem? keys j ≡ some y) where
    abbrev pub reindexed : GoMap K ℕ
    reindexed = insert dec x j (insert dec y i m)

    hi : i < length keys
    hi = get_elem?-lt keys i x ex

    hj : j < length keys
    hj = get_elem?-lt keys j y ey

    pub lookup-reindexed :
        (k : K)
        → lookup dec k reindexed ≡ ite (dec x k) (some j) (ite (dec y k) (some i) (lookup dec k m))
    lookup-reindexed k = rw (lookup-insert dec x k j (insert dec y i m), lookup-insert dec y k i m)

    pub IsIndex-swap : IsIndex dec (swap keys i j) reindexed
    IsIndex-swap = record {
      inside = λ k n e. ground (
        arith,
        lookup-reindexed k,
        get_elem?-swap keys i j hi hj n,
        I.inside k n,
        I.found x i ex,
        I.found y j ey,
      );
      found = λ k n e. ground (
        arith,
        lookup-reindexed k,
        get_elem?-swap keys i j hi hj n,
        I.found k n,
        I.found x i ex,
        I.found y j ey,
      );
      counted = omega (
        arith,
        size-insert_old dec y i j m (I.found y j ey),
        reindexed_size,
        length-swap keys i j hi hj,
        I.counted,
      );
    }
      where
        reindexed_size : size dec reindexed ≡ size dec (insert dec y i m)
        reindexed_size = elim (dec y x) [
          | yes p ↦ size-insert_old dec x j i _ (ground (arith, lookup-insert dec y x i m))
          | no p ↦
              size-insert_old dec x j i _
                (ground (arith, lookup-insert dec y x i m, I.found x i ex))
        ]

    pub find-swap : (k : K) → find dec reindexed (swap vals i j) k ≡ find dec m vals k
    find-swap k = elim (Option-cases (lookup dec k m)) [
      | inl e ↦ ground (arith, lookup-reindexed k, I.found x i ex, I.found y j ey)
      | inr (n, e) ↦ ground (
        arith,
        lookup-reindexed k,
        get_elem?-swap vals i j (omega (arith, hi)) (omega (arith, hj)) n,
        get_elem?-swap vals i j (omega (arith, hi)) (omega (arith, hj)) i,
        get_elem?-swap vals i j (omega (arith, hi)) (omega (arith, hj)) j,
        I.inside k n e,
        I.found x i ex,
        I.found y j ey,
      )
    ]
