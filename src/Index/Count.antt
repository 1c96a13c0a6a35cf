-- ===== src/Index/Count.antt =====
-- A map that knows the place of each element of a slice, and is no larger, is its index.
use scalability_engineering.Prelude.{
  ℕ, zero, suc, ◌≡◌, refl, ap, some, none, List, [], ◌∷◌, length, get_elem?, arith, ◌+◌, ◌<◌, ◌≤◌,
  ◌≢◌, Option-cases, inl, inr, ◌⊎◌, ℕ_discrete,
}
use scalability_engineering.Prelude.GoMap.{
  GoMap, lookup, delete, insert, empty, size, lookup-insert, size-insert_new, size-insert_old,
  lookup-delete, size-delete, lookup_of_size-zero,
}
use scalability_engineering.Index.{IsIndex, Distinct, Within}

module _ {K : Type 0} (dec : Discrete K) where
  -- Where `k` stands, or that it stands nowhere.
  pub search_place :
      (k : K) (keys : List K)
      → ((c : ℕ) × (get_elem? keys c ≡ some k)) ⊎ ((c : ℕ) → get_elem? keys c ≢ some k)
  search_place k [] = inr (λ c. cc)
  search_place k (j ∷ keys) = elim (dec j k) [
    | yes p ↦ inl (0, ground arith)
    | no n ↦ elim (search_place k keys) [
      | inl (c, e) ↦ inl (suc c, e)
      | inr none_there ↦ inr (not_in none_there n)
    ]
  ]
    where
      not_in :
          ((c : ℕ) → get_elem? keys c ≢ some k) → j ≢ k → (c : ℕ) → get_elem? (j ∷ keys) c ≢ some k
      not_in r n zero = λ e. n (ground arith)
      not_in r n (suc c) = r c

  -- The map holds at least the elements of the slice, and any key besides.
  crowded :
      (keys : List K) (i : ℕ) (m : GoMap K ℕ)
      → ((c : ℕ) (j : K) → get_elem? keys c ≡ some j → lookup dec j m ≡ some (i + c))
      → (k : K) (n : ℕ) → lookup dec k m ≡ some n
      → ((c : ℕ) → get_elem? keys c ≢ some k)
      → length keys < size dec m
  crowded [] i m placed k n e out = elim (ℕ_discrete (size dec m) 0) [
    | yes z ↦ absurd (ground (arith, lookup_of_size-zero dec k m z))
    | no p ↦ omega arith
  ]
  crowded (j ∷ keys) i m placed k n e out =
      let at : lookup dec j m ≡ some i = ground (arith, placed 0 j refl) in
      let other : j ≢ k = λ p. out 0 (ground arith) in
      let rest =
        crowded keys (suc i) (delete dec j m)
          (λ c l f. ground (arith, at, lookup-delete dec j l m, placed (suc c) l f)) k n
          (ground (arith, lookup-delete dec j k m)) (λ c. out (suc c)) in
      omega (arith, rest, size-delete dec j i m at)

  pub IsIndex-of_placed :
      (keys : List K) (m : GoMap K ℕ)
      → ((c : ℕ) (j : K) → get_elem? keys c ≡ some j → lookup dec j m ≡ some c)
      → size dec m ≡ length keys
      → IsIndex dec keys m
  IsIndex-of_placed keys m placed counted = record {
    inside = λ k i e. elim (search_place k keys) [
      | inl (c, f) ↦ ground (arith, placed c k f)
      | inr out ↦
          absurd (omega (arith, crowded keys 0 m (λ c j f. ground (arith, placed c j f)) k i e out))
    ];
    found = λ k i e. placed i k e;
    counted = counted;
  }

  pub Distinct-tail : (k : K) (keys : List K) → Distinct (k ∷ keys) → Distinct keys
  Distinct-tail k keys d i j l e f = omega (arith, d (suc i) (suc j) l e f)

  -- A map of all elements of a list without repetitions is at least as large.
  length-le-size :
      (keys : List K) (m : GoMap K ℕ)
      → Distinct keys
      → ((c : ℕ) (j : K) → get_elem? keys c ≡ some j → lookup dec j m ≢ none)
      → length keys ≤ size dec m
  length-le-size [] m d known = omega arith
  length-le-size (k ∷ keys) m d known = elim (Option-cases (lookup dec k m)) [
    | inl e ↦ absurd (known 0 k refl e)
    | inr (n, e) ↦
        let rest = length-le-size keys (delete dec k m) (Distinct-tail k keys d) (λ c j f.
          let other : k ≢ j = λ p. absurd (omega (arith, d 0 (suc c) j (ap some p) f)) in
          ground (arith, lookup-delete dec k j m, known (suc c) j f)) in
        omega (arith, rest, size-delete dec k n m e)
  ]

  members : List K → GoMap K ℕ
  members [] = empty
  members (k ∷ keys) = insert dec k 0 (members keys)

  size-members-le : (keys : List K) → size dec (members keys) ≤ length keys
  unfolding members size
  size-members-le [] = omega arith
  size-members-le (k ∷ keys) = elim (Option-cases (lookup dec k (members keys))) [
    | inl e ↦ omega (arith, size-insert_new dec k 0 (members keys) e, size-members-le keys)
    | inr (n, e) ↦ omega (arith, size-insert_old dec k 0 n (members keys) e, size-members-le keys)
  ]

  lookup-members :
      (keys : List K) (i : ℕ) (k : K)
      → get_elem? keys i ≡ some k
      → lookup dec k (members keys) ≢ none
  unfolding members
  lookup-members [] i k e = cc
  lookup-members (j ∷ keys) zero k e = ground (arith, lookup-insert dec j k 0 (members keys))
  lookup-members (j ∷ keys) (suc i) k e =
      ground (arith, lookup-insert dec j k 0 (members keys), lookup-members keys i k e)

  -- A list without repetitions that lies within another is no longer.
  pub length-le_of_Within :
      (keys others : List K) → Distinct keys → Within keys others → length keys ≤ length others
  length-le_of_Within keys others d w =
      let known =
        length-le-size keys (members others) d
          (λ c j e. let (i, f) = w c j e in lookup-members others i j f) in
      omega (arith, known, size-members-le others)
