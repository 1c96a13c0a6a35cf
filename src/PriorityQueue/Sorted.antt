-- ===== src/PriorityQueue/Sorted.antt =====
-- ToSortedSlices, and ExtractMinBulk.
use mathlib.Core.List.{append-nil, append_assoc}
use scalability_engineering.Prelude.{
  ℕ, zero, suc, ◌+◌, ◌-◌, ◌≡◌, refl, sym, ap, ◌∙◌, none, some, List, [], ◌∷◌, ◌++◌, Run, ok,
  out_of_fuel, ◌>>=◌, arith, Option-cases, inl, inr, Returns, returns, Returns-map, length,
  get_elem?-some, ℕ_discrete, ◌<◌, get_elem?, ℤ, ◌≤ℤ◌, ◌==◌, if◌then◌else◌, Returns-if, ==→eq,
}
use scalability_engineering.Prelude.GoMap
use scalability_engineering.Index.{lookup-lt}
use scalability_engineering.PriorityQueue.{
  PriorityQueue, view, size, is_empty, extract_min, extract_min_bulk,
}
use scalability_engineering.PriorityQueue.Order.{prio, get_elem?-prio}
use scalability_engineering.PriorityQueue.Sift.{IsValid}
use scalability_engineering.PriorityQueue.Remove.{Without, Without-kept}
use scalability_engineering.PriorityQueue.Extract.{IsMin, extract_min-some, extract_min-none}

module _ {V : Type 0} (dec : Discrete V) where
  -- The loop of ToSortedSlices over its copy, with the rounds as fuel.
  unfoldable pub drain : ℕ → PriorityQueue V → List ℤ → List V → Run (List ℤ × List V)
  unfolding extract_min is_empty
  drain zero q priorities values = out_of_fuel
  drain (suc fuel) q priorities values =
      let step : Run (List ℤ × List V) = do
        (q', r) ← extract_min dec q
        elim r [
          | none ↦ drain fuel q' priorities values
          | some (p, v) ↦ drain fuel q' (priorities ++ p ∷ []) (values ++ v ∷ [])
        ]
      in if is_empty q then ok (priorities, values) else step

  unfoldable pub to_sorted_slices : PriorityQueue V → Run (List ℤ × List V)
  unfolding drain
  to_sorted_slices q = drain (length q.priorities + 1) q [] []

  -- The parallel slices list the queue's values with their priorities, each value once, in ascending
  -- order of priority.
  pub record Lists (q : PriorityQueue V) (ps : List ℤ) (vs : List V) : Type 0 where
    pub paired : length ps ≡ length vs
    pub sized : length ps ≡ length q.priorities
    pub sorted : (i j : ℕ) → i < j → j < length ps → prio ps i ≤ℤ prio ps j
    pub sound :
        (i : ℕ) (p : ℤ) (v : V)
        → get_elem? ps i ≡ some p
        → get_elem? vs i ≡ some v
        → view dec q v ≡ some p
    pub complete :
        (v : V) (p : ℤ)
        → view dec q v ≡ some p
        → (i : ℕ) × (get_elem? ps i ≡ some p) × (get_elem? vs i ≡ some v)

  Lists-empty : (q : PriorityQueue V) → IsValid dec q → length q.priorities ≡ 0 → Lists q [] []
  Lists-empty q valid e = record {
    paired = refl;
    sized = sym e;
    sorted = λ i j x y. absurd (omega arith);
    sound = λ i p v. cc;
    complete = λ v p h. elim (Option-cases (GoMap.lookup dec v q.index_map)) [
      | inl f ↦ absurd (ground arith)
      | inr (i, f) ↦
          absurd (omega (arith, valid.table.paired, lookup-lt dec valid.table.index v i f))
    ];
  }

  module _ (q q' : PriorityQueue V) (p : ℤ) (v : V) (min : IsMin dec q p v) (w : Without dec q v q')
      (ps : List ℤ) (vs : List V) (l : Lists q' ps vs) where
    first_least : (j : ℕ) → j < length ps → p ≤ℤ prio ps j
    first_least j h =
        let (u, eu) = get_elem?-some vs j (omega (arith, l.paired)) in
        min.least u (prio ps j)
          (Without-kept dec w u (prio ps j) (l.sound j _ u (get_elem?-prio ps j h) eu))

    sorted_cons : (i j : ℕ) → i < j → j < length (p ∷ ps) → prio (p ∷ ps) i ≤ℤ prio (p ∷ ps) j
    sorted_cons zero (suc j) x y = first_least j (omega arith)
    sorted_cons (suc i) (suc j) x y = l.sorted i j (omega arith) (omega arith)
    sorted_cons i zero x y = absurd (omega arith)

    sound_cons :
        (i : ℕ) (r : ℤ) (u : V)
        → get_elem? (p ∷ ps) i ≡ some r
        → get_elem? (v ∷ vs) i ≡ some u
        → view dec q u ≡ some r
    sound_cons zero r u a b = ground (arith, min.held)
    sound_cons (suc i) r u a b = Without-kept dec w u r (l.sound i r u a b)

    Lists-cons : Lists q (p ∷ ps) (v ∷ vs)
    Lists-cons = record {
      paired = omega (arith, l.paired);
      sized = omega (arith, l.sized, w.sized);
      sorted = sorted_cons;
      sound = sound_cons;
      complete = λ u r e. elim (dec v u) [
        | yes x ↦ (0, ground (arith, min.held), ap some x)
        | no x ↦ let (i, a, b) = l.complete u r (ground (arith, w.after u)) in (suc i, a, b)
      ];
    }

  pair_path :
      {ps rs : List ℤ} {us ws : List V}
      → ps ≡ rs
      → us ≡ ws
      → ◌≡◌ {A = List ℤ × List V} (ps, us) (rs, ws)
  pair_path p r = λ i. (p i, r i)

  Drained : PriorityQueue V → List ℤ → List V → List ℤ × List V → Type 0
  Drained q ps vs r = (rp : List ℤ) × (rv : List V) × (r ≡ (ps ++ rp, vs ++ rv)) × Lists q rp rv

  drain_lists :
      (k : ℕ) (q : PriorityQueue V) (ps : List ℤ) (vs : List V)
      → length q.priorities < k
      → IsValid dec q
      → Returns (Drained q ps vs) (drain k q ps vs)
  unfolding drain Drained is_empty size
  drain_lists zero q ps vs f valid = absurd (omega arith)
  drain_lists (suc k) q ps vs f valid =
      Returns-if (length q.priorities == 0)
        (λ e. returns (
          [],
          [],
          pair_path (sym (append-nil ps)) (sym (append-nil vs)),
          Lists-empty q valid (==→eq _ _ e),
        ))
        λ e.
          let (q', p, v, er, min, w) = extract_min-some dec q valid (ground arith) in
          rw er (
            Returns-map
              (drain_lists k q' (ps ++ p ∷ []) (vs ++ v ∷ []) (omega (arith, w.sized)) w.valid)
              λ r (rp, rv, same, l). (
                p ∷ rp,
                v ∷ rv,
                same ∙ pair_path (append_assoc ps (p ∷ []) rp) (append_assoc vs (v ∷ []) rv),
                Lists-cons q q' p v min w rp rv l,
              ))

  -- ToSortedSlices on a valid queue ends without a panic. The two slices it returns list all values
  -- of the queue with their priorities, in ascending order of priority.
  pub to_sorted_slices-Lists :
      (q : PriorityQueue V) → IsValid dec q → Returns (λ r. Lists q r.0 r.1) (to_sorted_slices q)
  unfolding to_sorted_slices Drained
  to_sorted_slices-Lists q valid =
      Returns-map (drain_lists (length q.priorities + 1) q [] [] (omega arith) valid)
        λ r (rp, rv, same, l). rw same l

  -- ExtractMinBulk removes the `m` values of the lowest priorities: what is left stands for the same
  -- function, but for values that have no higher priority than any value left.
  pub record Trimmed (q : PriorityQueue V) (m : ℕ) (r : PriorityQueue V) : Type 0 where
    pub valid : IsValid dec r
    pub sized : length r.priorities ≡ length q.priorities - m
    pub kept : (v : V) (p : ℤ) → view dec r v ≡ some p → view dec q v ≡ some p
    pub lowest :
        (v w : V) (p s : ℤ)
        → view dec q v ≡ some p
        → view dec r v ≡ none
        → view dec r w ≡ some s
        → p ≤ℤ s

  pub extract_min_bulk-Trimmed :
      (m : ℕ) (q : PriorityQueue V)
      → IsValid dec q
      → Returns (Trimmed q m) (extract_min_bulk dec q m)
  unfolding extract_min_bulk
  extract_min_bulk-Trimmed zero q valid = returns (record {
    valid = valid;
    sized = omega arith;
    kept = λ v p e. e;
    lowest = λ v w p s a b c. absurd (cc);
  })
  extract_min_bulk-Trimmed (suc m) q valid = elim (ℕ_discrete (length q.priorities) 0) [
    | yes e ↦ rw (extract_min-none dec q valid e) (
        returns (record {
          valid = valid;
          sized = omega arith;
          kept = λ v p x. x;
          lowest = λ v w p s a b c. absurd (cc);
        }))
    | no e ↦
        let (q', p, v, er, min, w) = extract_min-some dec q valid (omega arith) in
        rw er (
          Returns-map (extract_min_bulk-Trimmed m q' w.valid) λ r t. record {
            valid = t.valid;
            sized = omega (arith, t.sized, w.sized);
            kept = λ u s x. Without-kept dec w u s (t.kept u s x);
            lowest = λ u y ru s a b c. elim (dec v u) [
              | yes x ↦
                  let below = min.least y s (Without-kept dec w y s (t.kept y s c)) in
                  ground (arith, min.held)
              | no x ↦ t.lowest u y ru s (ground (arith, w.after u)) b c
            ];
          })
  ]
