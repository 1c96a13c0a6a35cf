-- ===== src/Index/Shrink.antt =====
-- Removing an element: the last one, or another whose place the last one takes.
use scalability_engineering.Prelude.{
  ℕ, ◌≡◌, none, some, List, length, get_elem?, set, take, arith, ite, ◌<◌, ◌+◌, ◌≢◌, suc,
  get_elem?-set, get_elem?-take, length-take, length-set, Option-cases, inl, inr,
}
use scalability_engineering.Prelude.GoMap.{
  GoMap, lookup, insert, delete, size, lookup-insert, lookup-delete, size-delete, size-insert_old,
}
use scalability_engineering.Index.{find, IsIndex, lookup-lt}

module _ {K A : Type 0} (dec : Discrete K) {keys : List K} {m : GoMap K ℕ} (I : IsIndex dec keys m)
    (vals : List A) (paired : length vals ≡ length keys) (n : ℕ) (last : length keys ≡ suc n)
    (k : K) where
  -- The key in the last place goes.
  module _ (e : lookup dec k m ≡ some n) where
    pub IsIndex-take : IsIndex dec (take n keys) (delete dec k m)
    IsIndex-take = record {
      inside = λ j i f. ground (
        arith,
        lookup-delete dec k j m,
        get_elem?-take n keys i,
        I.inside j i,
        lookup-lt dec I j i,
        I.inside k n e,
      );
      found =
          λ j i f. ground (arith, lookup-delete dec k j m, get_elem?-take n keys i, I.found j i, e);
      counted = omega (arith, size-delete dec k n m e, length-take n keys (omega arith), I.counted);
    }

    pub find-take :
        (j : K) → find dec (delete dec k m) (take n vals) j ≡ ite (dec k j) none (find dec m vals j)
    find-take j = elim (Option-cases (lookup dec j m)) [
      | inl f ↦ ground (arith, lookup-delete dec k j m)
      | inr (i, f) ↦ ground (
        arith,
        lookup-delete dec k j m,
        get_elem?-take n vals i,
        lookup-lt dec I j i f,
        I.inside j i f,
        I.inside k n e,
      )
    ]

  -- The key at `i` goes, and the last one, `l`, takes its place.
  module _ (i : ℕ) (e : lookup dec k m ≡ some i) (inner : i ≢ n) (l : K)
      (el : get_elem? keys n ≡ some l) (m' : GoMap K ℕ)
      (looked : (j : K)
        → lookup dec j m' ≡ ite (dec k j) none (ite (dec l j) (some i) (lookup dec j m)))
      (sized : size dec m' + 1 ≡ size dec m) where
    hi : i < length keys
    hi = lookup-lt dec I k i e

    other : l ≢ k
    other p = inner (ground (arith, I.found l n el))

    pub IsIndex-take-set : IsIndex dec (take n (set keys i l)) m'
    IsIndex-take-set = record {
      inside = λ j c f. ground (
        arith,
        looked j,
        get_elem?-take n (set keys i l) c,
        get_elem?-set keys i c l hi,
        I.inside j c,
        I.found l n el,
        I.found k i,
        I.inside k i e,
        lookup-lt dec I j c,
        hi,
      );
      found = λ j c f. ground (
        arith,
        looked j,
        get_elem?-take n (set keys i l) c,
        get_elem?-set keys i c l hi,
        I.found j c,
        I.found l n el,
        other,
        e,
      );
      counted = omega (
        arith,
        sized,
        length-take n (set keys i l) (omega (arith, length-set keys i l)),
        I.counted,
      );
    }

    pub find-take-set :
        (a : A)
        → get_elem? vals n ≡ some a
        → (j : K) → find dec m' (take n (set vals i a)) j ≡ ite (dec k j) none (find dec m vals j)
    find-take-set a ea j = elim (Option-cases (lookup dec j m)) [
      | inl f ↦ ground (arith, looked j, I.found l n el)
      | inr (c, f) ↦ ground (
        arith,
        looked j,
        get_elem?-take n (set vals i a) c,
        get_elem?-take n (set vals i a) i,
        get_elem?-set vals i c a,
        get_elem?-set vals i i a,
        I.inside j c f,
        I.found l n el,
        I.inside k i e,
        lookup-lt dec I j c f,
        hi,
        other,
      )
    ]

  -- Both orders of the two changes to the map give what that needs.
  module _ (i : ℕ) (e : lookup dec k m ≡ some i) (l : K) (other : l ≢ k) where
    pub lookup-delete-insert :
        (j : K)
        → lookup dec j (delete dec k (insert dec l i m))
          ≡ ite (dec k j) none (ite (dec l j) (some i) (lookup dec j m))
    lookup-delete-insert j =
        ground (arith, lookup-delete dec k j (insert dec l i m), lookup-insert dec l j i m)

    pub lookup-insert-delete :
        (j : K)
        → lookup dec j (insert dec l i (delete dec k m))
          ≡ ite (dec k j) none (ite (dec l j) (some i) (lookup dec j m))
    lookup-insert-delete j =
        ground (arith, lookup-insert dec l j i (delete dec k m), lookup-delete dec k j m, other)

    module _ (c : ℕ) (el : lookup dec l m ≡ some c) where
      pub size-delete-insert : size dec (delete dec k (insert dec l i m)) + 1 ≡ size dec m
      size-delete-insert = omega (
        arith,
        size-insert_old dec l i c m el,
        size-delete dec k i (insert dec l i m) (ground (arith, lookup-insert dec l k i m, other)),
      )

      pub size-insert-delete : size dec (insert dec l i (delete dec k m)) + 1 ≡ size dec m
      size-insert-delete = omega (
        arith,
        size-insert_old dec l i c (delete dec k m) (ground (arith, lookup-delete dec k l m, other)),
        size-delete dec k i m e,
      )
