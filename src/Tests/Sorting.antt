-- ===== src/Tests/Sorting.antt =====
-- An insertion sort, for which what is assumed of sort.Slice holds.
use mathlib.Core.Path.{subst}
use scalability_engineering.Prelude.{
  ℕ, zero, suc, ◌≤◌, ◌≡◌, refl, sym, ap, ◌∙◌, Bool, true, false, some, List, [], ◌∷◌, length,
  get_elem?, if◌then◌else◌, inl, inr, ℤ, ◌≤ℤ◌, leb_ℤ, arith, Bool-cases,
}
use scalability_engineering.Prelude.Sorting.{SortsBy}
use scalability_engineering.Prelude.Counting.{count, Rearranges}

module _ {A : Type 0} (key : A → ℤ) where
  unfoldable pub place_in : A → List A → List A
  place_in x [] = x ∷ []
  place_in x (y ∷ ys) =
      let rest = place_in x ys in if leb_ℤ (key x) (key y) then x ∷ y ∷ ys else y ∷ rest

  unfoldable pub sort_by : List A → List A
  unfolding place_in
  sort_by [] = []
  sort_by (x ∷ xs) = place_in x (sort_by xs)

  data IsIn (z : A) : List A → Type 0 where
    first : {x : A} {xs : List A} → x ≡ z → IsIn z (x ∷ xs)
    after : {x : A} {xs : List A} → IsIn z xs → IsIn z (x ∷ xs)

  get_elem?-IsIn : (xs : List A) (i : ℕ) (z : A) → get_elem? xs i ≡ some z → IsIn z xs
  get_elem?-IsIn [] i z e = cc
  get_elem?-IsIn (x ∷ xs) zero z e = first (some_inj e)
    where
      some_inj : some x ≡ some z → x ≡ z
      some_inj e = cc
  get_elem?-IsIn (x ∷ xs) (suc i) z e = after (get_elem?-IsIn xs i z e)

  IsIn-get_elem? : {z : A} {xs : List A} → IsIn z xs → (i : ℕ) × (get_elem? xs i ≡ some z)
  IsIn-get_elem? (first e) = (0, ap some e)
  IsIn-get_elem? (after h) = let (i, e) = IsIn-get_elem? h in (suc i, e)

  place_in-small :
      (x y : A) (ys : List A) → leb_ℤ (key x) (key y) ≡ true → place_in x (y ∷ ys) ≡ x ∷ y ∷ ys
  unfolding place_in
  place_in-small x y ys e = ground arith

  place_in-large :
      (x y : A) (ys : List A)
      → leb_ℤ (key x) (key y) ≡ false
      → place_in x (y ∷ ys) ≡ y ∷ place_in x ys
  unfolding place_in
  place_in-large x y ys e = ground arith

  reordered : {x y z : A} {ys : List A} → IsIn z (x ∷ ys) → IsIn z (x ∷ y ∷ ys)
  reordered (first e) = first e
  reordered (after h) = after (after h)

  exchanged :
      {x y z : A} {xs ys : List A}
      → (IsIn z xs → IsIn z (x ∷ ys))
      → IsIn z (y ∷ xs)
      → IsIn z (x ∷ y ∷ ys)
  exchanged f (first e) = after (first e)
  exchanged f (after h) = reordered (f h)

  exchanged_back :
      {x y z : A} {xs ys : List A}
      → (IsIn z (x ∷ ys) → IsIn z xs)
      → IsIn z (x ∷ y ∷ ys)
      → IsIn z (y ∷ xs)
  exchanged_back f (first e) = after (f (first e))
  exchanged_back f (after (first e)) = first e
  exchanged_back f (after (after h)) = after (f (after h))

  from_place_in : (x : A) (ys : List A) (z : A) → IsIn z (place_in x ys) → IsIn z (x ∷ ys)
  unfolding place_in
  from_place_in x [] z h = h
  from_place_in x (y ∷ ys) z h = elim (Bool-cases (leb_ℤ (key x) (key y))) [
    | inl e ↦ subst (IsIn z) (place_in-small x y ys e) h
    | inr e ↦ exchanged (from_place_in x ys z) (subst (IsIn z) (place_in-large x y ys e) h)
  ]

  into_place_in : (x : A) (ys : List A) (z : A) → IsIn z (x ∷ ys) → IsIn z (place_in x ys)
  unfolding place_in
  into_place_in x [] z h = h
  into_place_in x (y ∷ ys) z h = elim (Bool-cases (leb_ℤ (key x) (key y))) [
    | inl e ↦ subst (IsIn z) (sym (place_in-small x y ys e)) h
    | inr e ↦
        subst (IsIn z) (sym (place_in-large x y ys e)) (exchanged_back (into_place_in x ys z) h)
  ]

  mapped : {x z : A} {xs ys : List A} → (IsIn z xs → IsIn z ys) → IsIn z (x ∷ xs) → IsIn z (x ∷ ys)
  mapped f (first e) = first e
  mapped f (after h) = after (f h)

  from_sort_by : (xs : List A) (z : A) → IsIn z (sort_by xs) → IsIn z xs
  unfolding sort_by
  from_sort_by [] z h = h
  from_sort_by (x ∷ xs) z h = mapped (from_sort_by xs z) (from_place_in x (sort_by xs) z h)

  into_sort_by : (xs : List A) (z : A) → IsIn z xs → IsIn z (sort_by xs)
  unfolding sort_by
  into_sort_by [] z h = h
  into_sort_by (x ∷ xs) z h = into_place_in x (sort_by xs) z (mapped (into_sort_by xs z) h)

  data IsAscending : List A → Type 0 where
    empty : IsAscending []
    above :
        {x : A} {xs : List A}
        → ((y : A) → IsIn y xs → key x ≤ℤ key y)
        → IsAscending xs
        → IsAscending (x ∷ xs)

  place_in-IsAscending : (x : A) (ys : List A) → IsAscending ys → IsAscending (place_in x ys)
  unfolding place_in
  place_in-IsAscending x [] a = above (λ y h. nothing y h) empty
    where
      nothing : (y : A) → IsIn y [] → key x ≤ℤ key y
      nothing y h = elim h [ ]
  place_in-IsAscending x (y ∷ ys) (above low a) = elim (Bool-cases (leb_ℤ (key x) (key y))) [
    | inl e ↦ subst IsAscending (sym (place_in-small x y ys e)) (above (lower e) (above low a))
    | inr e ↦
        subst IsAscending (sym (place_in-large x y ys e))
          (above (λ z h. higher e z (from_place_in x ys z h)) (place_in-IsAscending x ys a))
  ]
    where
      lower : leb_ℤ (key x) (key y) ≡ true → (z : A) → IsIn z (y ∷ ys) → key x ≤ℤ key z
      lower e z (first p) = ground (arith, ap key p)
      lower e z (after h) = ground (arith, low z h)

      higher : leb_ℤ (key x) (key y) ≡ false → (z : A) → IsIn z (x ∷ ys) → key y ≤ℤ key z
      higher e z (first p) = ground (arith, ap key p)
      higher e z (after h) = low z h

  sort_by-IsAscending : (xs : List A) → IsAscending (sort_by xs)
  unfolding sort_by
  sort_by-IsAscending [] = empty
  sort_by-IsAscending (x ∷ xs) = place_in-IsAscending x (sort_by xs) (sort_by-IsAscending xs)

  ascends :
      (zs : List A) (i j : ℕ) (x y : A)
      → IsAscending zs
      → i ≤ j
      → get_elem? zs i ≡ some x
      → get_elem? zs j ≡ some y
      → key x ≤ℤ key y
  ascends [] i j x y a h p q = cc
  ascends (z ∷ zs) zero zero x y a h p q = ground (arith, ap (λ o. o) (sym p ∙ q))
  ascends (z ∷ zs) zero (suc j) x y (above low a) h p q =
      ground (arith, low y (get_elem?-IsIn zs j y q))
  ascends (z ∷ zs) (suc i) zero x y a h p q = absurd (omega arith)
  ascends (z ∷ zs) (suc i) (suc j) x y (above low a) h p q = ascends zs i j x y a (omega arith) p q

  length-place_in : (x : A) (ys : List A) → length (place_in x ys) ≡ suc (length ys)
  unfolding place_in
  length-place_in x [] = refl
  length-place_in x (y ∷ ys) = ground (arith, length-place_in x ys)

  length-sort_by : (xs : List A) → length (sort_by xs) ≡ length xs
  unfolding sort_by
  length-sort_by [] = refl
  length-sort_by (x ∷ xs) = length-place_in x (sort_by xs) ∙ ap suc (length-sort_by xs)

  pub sort_by-SortsBy : SortsBy key sort_by
  sort_by-SortsBy = record {
    kept_length = length-sort_by;
    kept = λ xs i x e. IsIn-get_elem? (from_sort_by xs x (get_elem?-IsIn (sort_by xs) i x e));
    found = λ xs i x e. IsIn-get_elem? (into_sort_by xs x (get_elem?-IsIn xs i x e));
    ascending = λ xs i j x y h p q. ascends (sort_by xs) i j x y (sort_by-IsAscending xs) h p q;
  }

module _ {A : Type 0} (less : A → A → Bool) where
  unfoldable pub place_before : A → List A → List A
  place_before x [] = x ∷ []
  place_before x (y ∷ ys) =
      let rest = place_before x ys in if less x y then x ∷ y ∷ ys else y ∷ rest

  unfoldable pub sort_with : List A → List A
  unfolding place_before
  sort_with [] = []
  sort_with (x ∷ xs) = place_before x (sort_with xs)

  count-place_before :
      (p : A → Bool) (x : A) (xs : List A) → count p (place_before x xs) ≡ count p (x ∷ xs)
  unfolding place_before
  count-place_before p x [] = refl
  count-place_before p x (y ∷ ys) = ground (arith, count-place_before p x ys)

  pub sort_with-Rearranges : Rearranges sort_with
  unfolding sort_with
  sort_with-Rearranges p [] = refl
  sort_with-Rearranges p (x ∷ xs) =
      ground (arith, count-place_before p x (sort_with xs), sort_with-Rearranges p xs)
