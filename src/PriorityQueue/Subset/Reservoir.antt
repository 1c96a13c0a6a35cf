-- ===== src/PriorityQueue/Subset/Reservoir.antt =====
-- Reservoir sampling keeps distinct elements, and GetRandomSubset as a whole.
use scalability_engineering.Prelude.{
  ℕ, zero, suc, ◌+◌, ◌-◌, ◌≡◌, refl, some, List, [], ◌%◌, leb, pos_part, get_elem?-set,
  get_elem?-take, arith, inl, inr, Returns, returns, length, get_elem?-some, length-set,
  length-take, ◌≢◌, ℕ_discrete, ◌<◌, ◌≤◌, get_elem?, set, take, ℤ, pos, leb_ℤ, ◌/◌, ◌==◌, ltb,
  if◌then◌else◌, Bool-cases, ltb→lt,
}
use scalability_engineering.Index.{Distinct, place_unique}
use scalability_engineering.PriorityQueue.{PriorityQueue}
use scalability_engineering.PriorityQueue.Sift.{IsValid}
use scalability_engineering.PriorityQueue.Subset.{
  Random, fast_rand, select_loop, reservoir_loop, get_random_subset,
}
use scalability_engineering.PriorityQueue.Subset.Rejection.{
  Selection, Recurs, Settles, select_loop-Settles,
}

module _ {V : Type 0} (dec : Discrete V) (draws : ℕ → ℕ) (values : List V) where
  -- All elements of `r` stand before `i`.
  abbrev Before : ℕ → List V → Type 0
  Before i r =
      (c : ℕ) (v : V) → get_elem? r c ≡ some v → (j : ℕ) × (j < i) × (get_elem? values j ≡ some v)

  module _ (d : Distinct values) (i : ℕ) (u : V) (eu : get_elem? values i ≡ some u) where
    Before-set : (r : List V) (j : ℕ) → j < length r → Before i r → Before (i + 1) (set r j u)
    Before-set r j h b c v e = elim (ℕ_discrete j c) [
      | yes x ↦ (i, omega arith, ground (arith, get_elem?-set r j c u h))
      | no x ↦
          let (k, lt, f) = b c v (ground (arith, get_elem?-set r j c u h)) in (k, omega arith, f)
    ]

    not-Before : (r : List V) → Before i r → (c : ℕ) → get_elem? r c ≢ some u
    not-Before r b c e = let (k, lt, f) = b c u e in absurd (omega (arith, d k i u f eu))

    Distinct-set :
        (r : List V) (j : ℕ) → j < length r → Before i r → Distinct r → Distinct (set r j u)
    Distinct-set r j h b dr c e v p q = ground (
      arith,
      get_elem?-set r j c u h,
      get_elem?-set r j e u h,
      dr c e v,
      not-Before r b c,
      not-Before r b e,
    )

  Before-next : (i : ℕ) (r : List V) → Before i r → Before (i + 1) r
  Before-next i r b c v e = let (k, lt, f) = b c v e in (k, omega arith, f)

  reservoir_loop-Selection :
      (rounds k i : ℕ) (r : List V)
      → Distinct values
      → rounds + i ≡ length values
      → Before i r
      → Distinct r
      → Returns (Selection values (length r)) (reservoir_loop dec draws values rounds k i r)
  unfolding reservoir_loop
  reservoir_loop-Selection zero k i r d e b dr =
      returns (record {
        sized = refl;
        distinct = dr;
        within = λ c v f. let (j, lt, g) = b c v f in (j, g);
      })
  reservoir_loop-Selection (suc rounds) k i r d e b dr =
      let j = draws k % (i + 1) in
      let (u, eu) = get_elem?-some values i (omega arith) in
      rw eu (elim (Bool-cases (ltb j (length r))) [
        | inl inside ↦
            let h = ltb→lt _ _ inside in
            rw inside (
              rw (length-set r j u) at (
                reservoir_loop-Selection rounds (k + 1) (i + 1) (set r j u) d (omega arith)
                  (Before-set d i u eu r j h b) (Distinct-set d i u eu r j h b dr)))
        | inr outside ↦ rw outside (
            reservoir_loop-Selection rounds (k + 1) (i + 1) r d (omega arith) (Before-next i r b)
              dr)
      ])

  Before-take : (n : ℕ) → Before n (take n values)
  Before-take n c v e =
      (c, ground (arith, get_elem?-take n values c), ground (arith, get_elem?-take n values c))

  Distinct-take : (n : ℕ) → Distinct values → Distinct (take n values)
  Distinct-take n d i j v e f =
      d i j v (ground (arith, get_elem?-take n values i))
        (ground (arith, get_elem?-take n values j))

  sampled-Settles :
      (n : ℕ)
      → (n ≤ length values / 2 → Recurs draws (length values))
      → Distinct values
      → n < length values
      → Settles (Selection values n) λ fuel.
        if leb n (length values / 2)
        then select_loop dec draws values fuel n 0 []
        else reservoir_loop dec draws values (length values - n) 0 n (take n values)
  sampled-Settles n recurs d h = elim (Bool-cases (leb n (length values / 2))) [
    | inl small ↦
        let (b, ends) =
          select_loop-Settles dec draws values n 0 [] n (recurs (ground arith)) d (omega arith) h
            (λ i j v. cc) (λ i v. cc) in
        (b, λ fuel p. rw small (ends fuel p))
    | inr large ↦ (
      0,
      λ fuel p. rw large (
          rw (length-take n values (omega arith)) at (
            reservoir_loop-Selection (length values - n) 0 n (take n values) d (omega arith)
              (Before-take n) (Distinct-take n d))),
    )
  ]

-- How many values GetRandomSubset returns.
abbrev pub subset_size : ℤ → ℕ → ℕ
subset_size n count =
    if leb_ℤ n (pos 0) then 0 else if leb count (pos_part n) then count else pos_part n

-- What the sampling needs of fastRand: where it draws until a value is new, each place comes up again
-- and again. The other ways to choose need nothing.
abbrev pub IsServed : Random → ℕ → ℤ → Type 0
IsServed R count n = 0 < pos_part n → pos_part n ≤ count / 2 → Recurs (fast_rand R count) count

-- GetRandomSubset on a valid queue ends without a panic, from some fuel on, if in a rejection
-- sampling, which chooses up to half of the values, each place comes up again and again. It returns
-- as many values as asked for, or all if there are fewer, each of them in the queue and none twice,
-- whichever way it samples.
pub get_random_subset-Selection :
    {V : Type 0} (dec : Discrete V) (R : Random) (q : PriorityQueue V) (n : ℤ)
    → IsValid dec q
    → IsServed R (length q.values) n
    → Settles
        (Selection q.values (subset_size n (length q.values)))
        (λ fuel. get_random_subset dec fuel R q n)
unfolding get_random_subset
get_random_subset-Selection dec R q n valid served = elim (Bool-cases (leb_ℤ n (pos 0))) [
  | inl none_asked ↦ (
    0,
    λ fuel p.
        rw none_asked
          (returns (record { sized = refl; distinct = λ i j v. cc; within = λ i v. cc })),
  )
  | inr some_asked ↦ elim (Bool-cases (length q.values == 0)) [
    | inl e ↦ (
      0,
      λ fuel p.
          rw (some_asked, e)
            (returns (record { sized = ground arith; distinct = λ i j v. cc; within = λ i v. cc })),
    )
    | inr e ↦ elim (Bool-cases (leb (length q.values) (pos_part n))) [
      | inl all ↦ (
        0,
        λ fuel p.
            rw (some_asked, e, all)
              (returns (record {
                sized = refl;
                distinct = (λ i j v. place_unique dec valid.table.index v i j);
                within = λ i v f. (i, f);
              })),
      )
      | inr less ↦
          let (b, ends) =
            sampled-Settles dec (fast_rand R (length q.values)) q.values (pos_part n)
              (served (ground arith)) (λ i j v. place_unique dec valid.table.index v i j)
              (ground arith) in
          (b, λ fuel p. rw (some_asked, e, less) (ends fuel p))
    ]
  ]
]
