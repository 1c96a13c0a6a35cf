-- ===== src/PriorityQueue/Subset/Rejection.antt =====
-- Rejection sampling ends and selects distinct elements.
use scalability_engineering.Prelude.{
  ℕ, zero, suc, Run, ok, ◌≤◌, ◌+◌, ◌≡◌, refl, sym, ap, ◌∙◌, true, false, some, List, [], ◌∷◌, ◌++◌,
  ◌⊎◌, ◌%◌, get_elem?-concat, arith, inl, inr, Returns, returns, length, get_elem?-some,
  get_elem?-lt, length-concat, ℕ_discrete, ◌<◌, get_elem?, Bool-cases,
}
use native.Mathlib.Nat.{mod-lt}
use scalability_engineering.Index.{Distinct, Within}
use scalability_engineering.Index.Count.{length-le_of_Within}
use scalability_engineering.PriorityQueue.Subset.{selected, draw_loop, select_loop}

-- `n` of the values, none of them twice.
pub record Selection {V : Type 0} (values : List V) (n : ℕ) (r : List V) : Type 0 where
  pub sized : length r ≡ n
  pub distinct : Distinct r
  pub within : Within r values

-- Each of the places comes up again and again, as it does for a random sequence almost surely.
abbrev pub Recurs : (ℕ → ℕ) → ℕ → Type 0
Recurs draws count = (k i : ℕ) → i < count → (d : ℕ) × (draws (k + d) % count ≡ i)

-- From some fuel on, the code returns.
abbrev pub Settles : {A : Type 0} → (A → Type 0) → (ℕ → Run A) → Type 0
Settles Post code = (bound : ℕ) × ((fuel : ℕ) → bound ≤ fuel → Returns Post (code fuel))

module _ {V : Type 0} (dec : Discrete V) where
  selected_at : (r : List V) (i : ℕ) (v : V) → get_elem? r i ≡ some v → selected dec r v ≡ true
  unfolding selected
  selected_at [] i v e = cc
  selected_at (u ∷ r) zero v e = ground arith
  selected_at (u ∷ r) (suc i) v e = ground (arith, selected_at r i v e)

  selected_place :
      (r : List V) (v : V) → selected dec r v ≡ true → (i : ℕ) × (get_elem? r i ≡ some v)
  unfolding selected
  selected_place [] v e = cc
  selected_place (u ∷ r) v e = elim (dec v u) [
    | yes p ↦ (0, ap some (sym p))
    | no n ↦ let (i, f) = selected_place r v (ground arith) in (suc i, f)
  ]

  Distinct-concat :
      (r : List V) (v : V) → Distinct r → selected dec r v ≡ false → Distinct (r ++ v ∷ [])
  Distinct-concat r v d e i j u p q = ground (
    arith,
    get_elem?-concat r v i,
    get_elem?-concat r v j,
    d i j u,
    selected_at r i v,
    selected_at r j v,
  )

  Within-concat :
      (r values : List V) (v : V) (k : ℕ)
      → Within r values
      → get_elem? values k ≡ some v
      → Within (r ++ v ∷ []) values
  Within-concat r values v k w e i u p = elim (ℕ_discrete (length r) i) [
    | yes x ↦ (k, ground (arith, get_elem?-concat r v i))
    | no x ↦ w i u (ground (arith, get_elem?-concat r v i))
  ]

  -- The first value that is not selected, or that there is none.
  scan :
      (values r : List V)
      → ((i : ℕ) × (v : V) × (get_elem? values i ≡ some v) × (selected dec r v ≡ false))
        ⊎ Within values r
  scan [] r = inr (λ i v. cc)
  scan (u ∷ values) r = elim (Bool-cases (selected dec r u)) [
    | inr free ↦ inl (0, u, refl, free)
    | inl taken ↦ elim (scan values r) [
      | inl (i, v, e, free) ↦ inl (suc i, v, e, free)
      | inr all ↦ inr (all_taken taken all)
    ]
  ]
    where
      all_taken : selected dec r u ≡ true → Within values r → Within (u ∷ values) r
      all_taken taken all zero v e = selected_place r v (ground arith)
      all_taken taken all (suc i) v e = all i v e

  -- Among more values than are selected there is one that is not.
  free_place :
      (values r : List V)
      → Distinct values
      → length r < length values
      → (i : ℕ) × (v : V) × (get_elem? values i ≡ some v) × (selected dec r v ≡ false)
  free_place values r d h = elim (scan values r) [
    | inl found ↦ found
    | inr all ↦ absurd (omega (arith, length-le_of_Within dec values r d all))
  ]

  module _ (draws : ℕ → ℕ) (values : List V) where
    Fresh : List V → V × ℕ → Type 0
    Fresh r (v, k) = (selected dec r v ≡ false) × (i : ℕ) × (get_elem? values i ≡ some v)

    -- A draw of a value that is not selected yet ends the draws for an element, one of another value
    -- does not.
    draw_loop-fresh :
        (fuel k : ℕ) (r : List V) (u : V)
        → get_elem? values (draws k % length values) ≡ some u
        → selected dec r u ≡ false
        → 0 < fuel
        → draw_loop dec draws values fuel k r ≡ ok (u, k + 1)
    unfolding draw_loop
    draw_loop-fresh zero k r u eu fresh h = absurd (omega arith)
    draw_loop-fresh (suc fuel) k r u eu fresh h = rw (eu, fresh) refl

    draw_loop-again :
        (fuel k : ℕ) (r : List V) (u : V)
        → get_elem? values (draws k % length values) ≡ some u
        → selected dec r u ≡ true
        → draw_loop dec draws values (suc fuel) k r ≡ draw_loop dec draws values fuel (k + 1) r
    unfolding draw_loop
    draw_loop-again fuel k r u eu again = rw (eu, again) refl

    -- The draws for one element end at the same one for any fuel that is enough.
    Drawn : ℕ → ℕ → List V → Type 0
    Drawn d k r =
        (x : V × ℕ) × Fresh r x
        × ((fuel : ℕ) → d < fuel → draw_loop dec draws values fuel k r ≡ ok x)

    Drawn-later :
        (d k : ℕ) (r : List V) (u : V)
        → get_elem? values (draws k % length values) ≡ some u
        → selected dec r u ≡ true
        → Drawn d (k + 1) r
        → Drawn (suc d) k r
    unfolding Drawn
    Drawn-later d k r u eu again (x, fresh, ends) = (x, fresh, ends')
      where
        ends' : (fuel : ℕ) → suc d < fuel → draw_loop dec draws values fuel k r ≡ ok x
        ends' zero h = absurd (omega arith)
        ends' (suc fuel) h = draw_loop-again fuel k r u eu again ∙ ends fuel (omega arith)

    draw_loop-Drawn :
        (d k : ℕ) (r : List V) (v : V)
        → 0 < length values
        → get_elem? values (draws (k + d) % length values) ≡ some v
        → selected dec r v ≡ false
        → Drawn d k r
    unfolding Drawn Fresh
    draw_loop-Drawn zero k r v p e s =
        let here : k + 0 ≡ k = omega arith in
        let same : get_elem? values (draws k % length values) ≡ some v = rw here at e in
        (
          (v, k + 1),
          (s, draws k % length values, same),
          λ fuel h. draw_loop-fresh fuel k r v same s h,
        )
    draw_loop-Drawn (suc d) k r v p e s =
        let (u, eu) = get_elem?-some values (draws k % length values) (mod-lt _ p) in
        elim (Bool-cases (selected dec r u)) [
          | inr fresh ↦ (
            (u, k + 1),
            (fresh, draws k % length values, eu),
            λ fuel h. draw_loop-fresh fuel k r u eu fresh (omega arith),
          )
          | inl again ↦
              let there : k + 1 + d ≡ k + suc d = omega arith in
              Drawn-later d k r u eu again (draw_loop-Drawn d (k + 1) r v p (rw there e) s)
        ]

    pub select_loop-Settles :
        (rounds k : ℕ) (r : List V) (n : ℕ)
        → Recurs draws (length values)
        → Distinct values
        → rounds + length r ≡ n
        → n < length values
        → Distinct r
        → Within r values
        → Settles (Selection values n) (λ fuel. select_loop dec draws values fuel rounds k r)
    unfolding select_loop Fresh Drawn
    select_loop-Settles zero k r n recurs d f below dr wr =
        (0, λ fuel h. returns (record { sized = omega arith; distinct = dr; within = wr }))
    select_loop-Settles (suc rounds) k r n recurs d f below dr wr =
        let (i, v, e, free) = free_place values r d (omega arith) in
        let (t, at) = recurs k i (get_elem?-lt values i v e) in
        let ((u, k'), (fresh, j, eu), ends) =
          draw_loop-Drawn t k r v (omega arith) (rw at e) free in
        let (b, rest) =
          select_loop-Settles rounds k' (r ++ u ∷ []) n recurs d (omega (arith, length-concat r u))
            below (Distinct-concat r u dr fresh) (Within-concat r values u j wr eu) in
        (b + suc t, λ fuel h. rw (ends fuel (omega arith)) (rest fuel (omega arith)))
