-- ===== src/PriorityQueue/Sift.antt =====
-- swap, heapifyUp and heapifyDown: they restore the heap order, and the queue stands for the same
-- function.
use scalability_engineering.Prelude.{
  ℕ, zero, suc, ◌+◌, ◌-◌, ◌≡◌, refl, sym, ap, ◌∙◌, Bool, true, false, ◌&&◌, Option, none, some,
  List, [], ◌∷◌, ◌++◌, Run, ok, ◌>>=◌, or_panic, arith, ite, Option-cases, inl, inr, Returns,
  returns, Returns-bind, Returns-map, Returns-inv, length, get_elem?-some, get_elem?-lt,
  get_elem?-none, length-set, length-concat, length-take, ◌≢◌, ◌⊎◌, ℕ_discrete, ◌<◌, ◌≤◌, get_elem?,
  set, take, ℤ, pos, ◌≤ℤ◌, ◌<ℤ◌, ltb_ℤ, leb_ℤ, ◌*◌, ◌/◌, ◌==◌, ltb, if◌then◌else◌, Returns-if,
  get_elem?-swap, length-swap, swap-set, Bool-cases, ltb→lt, ==→eq,
}
use scalability_engineering.Prelude
use scalability_engineering.Index.Grow.{IsIndex-swap, find-swap}
use scalability_engineering.PriorityQueue.{
  PriorityQueue, parent, swap, lesser, heapify_up_loop, heapify_up, heapify_down_loop, heapify_down,
  view, IsTable,
}
use scalability_engineering.PriorityQueue.Order.{
  prio, get_elem?-prio, IsHeap, Hole, FitsBelow, FitsAbove, Hole-IsHeap, Hole-up, FitsBelow-up,
  Hole-down, FitsAbove-down,
}

module _ {V : Type 0} (dec : Discrete V) where
  -- `q'` holds the same values with the same priorities.
  pub record SameTable (q q' : PriorityQueue V) : Type 0 where
    pub table : IsTable dec q'
    pub sized : length q'.priorities ≡ length q.priorities
    pub viewed : (v : V) → view dec q' v ≡ view dec q v

  pub SameTable-trans : {q r s : PriorityQueue V} → SameTable q r → SameTable r s → SameTable q s
  SameTable-trans a b = record {
    table = b.table;
    sized = b.sized ∙ a.sized;
    viewed = λ v. b.viewed v ∙ a.viewed v;
  }

  pub record Sifted (q q' : PriorityQueue V) : Type 0 where
    pub same : SameTable q q'
    pub heap : IsHeap q'.priorities

  -- The queue is in order: a table whose priorities form a heap.
  pub record IsValid (q : PriorityQueue V) : Type 0 where
    pub table : IsTable dec q
    pub heap : IsHeap q.priorities

  abbrev Swapped : PriorityQueue V → ℕ → ℕ → PriorityQueue V → Type 0
  Swapped q i j q' = SameTable q q' × (q'.priorities ≡ Prelude.swap q.priorities i j)

  module _ (q : PriorityQueue V) (t : IsTable dec q) where
    swap-Swapped :
        (i j : ℕ)
        → i < length q.priorities
        → j < length q.priorities
        → Returns (Swapped q i j) (swap dec q i j)
    unfolding swap
    swap-Swapped i j hi hj =
        let (p, ep) = get_elem?-some q.priorities i hi in
        let (r, er) = get_elem?-some q.priorities j hj in
        let li : i < length q.values = omega (arith, t.paired) in
        let lj : j < length q.values = omega (arith, t.paired) in
        let (x, ex) = get_elem?-some q.values i li in
        let (y, ey) = get_elem?-some q.values j lj in
        let at = get_elem?-swap q.values i j li lj in
        let at_i : get_elem? (Prelude.swap q.values i j) i ≡ some y =
          ground (arith, at i, ex, ey) in
        let at_j : get_elem? (Prelude.swap q.values i j) j ≡ some x =
          ground (arith, at j, ex, ey) in
        rw
          (
            ep,
            er,
            ex,
            ey,
            ← swap-set q.values i j x y ex ey,
            at_i,
            at_j,
            ← swap-set q.priorities i j p r ep er,
          )
          (returns (
            record {
              table = record {
                paired = omega (
                  arith,
                  t.paired,
                  length-swap q.values i j li lj,
                  length-swap q.priorities i j hi hj,
                );
                index = IsIndex-swap dec t.index q.priorities t.paired i j x y ex ey;
              };
              sized = length-swap q.priorities i j hi hj;
              viewed = find-swap dec t.index q.priorities t.paired i j x y ex ey;
            },
            refl,
          ))

  pub same_self : (q : PriorityQueue V) → IsTable dec q → SameTable q q
  same_self q t = record { table = t; sized = refl; viewed = λ v. refl }

  Sifted-after : {q r s : PriorityQueue V} → SameTable q r → Sifted r s → Sifted q s
  Sifted-after a b = record { same = SameTable-trans a b.same; heap = b.heap }

  up_loop_restores :
      (k : ℕ) (q : PriorityQueue V) (i : ℕ)
      → i < k
      → IsTable dec q
      → Hole q.priorities i
      → FitsBelow q.priorities i
      → Returns (Sifted q) (heapify_up_loop dec k q i)
  unfolding heapify_up_loop
  up_loop_restores zero q i f t h below = absurd (omega arith)
  up_loop_restores (suc k) q i f t h below =
      let reach : parent i < length q.priorities = omega (arith, h.inside) in
      rw (get_elem?-prio q.priorities i h.inside, get_elem?-prio q.priorities (parent i) reach)
        (Returns-if (ltb 0 i)
          (λ pos.
            Returns-if (leb_ℤ (prio q.priorities (parent i)) (prio q.priorities i))
              (λ settled.
                returns
                  (record { same = same_self q t; heap = Hole-IsHeap h below (λ _. ground arith) }))
              (λ less. Returns-bind (swap-Swapped q t i (parent i) h.inside reach) λ q' s.
                let p : 0 < i = ground arith in
                let lt : prio q.priorities i <ℤ prio q.priorities (parent i) = ground arith in
                Returns-map
                  (up_loop_restores k q' (parent i) (omega arith) s.0.table
                    (rw s.1 (Hole-up h p lt below)) (rw s.1 (FitsBelow-up h p lt)))
                  λ r z. Sifted-after s.0 z))
          (λ root.
            returns (record { same = same_self q t; heap = Hole-IsHeap h below (ground arith) })))

  -- heapifyUp ends, and makes a heap of a queue where one element may be too low in the tree.
  pub heapify_up-Sifted :
      (q : PriorityQueue V) (i : ℕ)
      → IsTable dec q
      → Hole q.priorities i
      → FitsBelow q.priorities i
      → Returns (Sifted q) (heapify_up dec q i)
  unfolding heapify_up
  heapify_up-Sifted q i = up_loop_restores (i + 1) q i (omega arith)

  -- The child if it exists and is less, else `s`; and what the two tests of heapifyDown choose.
  pick : List ℤ → ℕ → ℕ → ℕ
  pick a c s = if ltb c (length a) then (if ltb_ℤ (prio a c) (prio a s) then c else s) else s

  smallest : List ℤ → ℕ → ℕ
  smallest a i = pick a (2 * i + 2) (pick a (2 * i + 1) i)

  lesser-pick :
      (q : PriorityQueue V) (c s : ℕ)
      → s < length q.priorities
      → lesser q c s ≡ ok (pick q.priorities c s)
  unfolding lesser pick
  lesser-pick q c s hs = elim (Bool-cases (ltb c (length q.priorities))) [
    | inl e ↦
        rw (e, get_elem?-prio q.priorities c (ltb→lt _ _ e), get_elem?-prio q.priorities s hs) refl
    | inr e ↦ rw e refl
  ]

  pick-lt : (a : List ℤ) (c s : ℕ) → s < length a → pick a c s < length a
  unfolding pick
  pick-lt a c s h = ground arith

  record IsSmallest (a : List ℤ) (i m : ℕ) : Type 0 where
    inside : m < length a
    child : m ≢ i → (parent m ≡ i) × (0 < m) × (prio a m <ℤ prio a i)
    least : (c : ℕ) → 0 < c → c < length a → parent c ≡ i → prio a m ≤ℤ prio a c
    further : i ≤ m

  smallest-IsSmallest : (a : List ℤ) (i : ℕ) → i < length a → IsSmallest a i (smallest a i)
  unfolding smallest pick
  smallest-IsSmallest a i h = record {
    inside = ground arith;
    child = λ e. (ground arith, ground arith, ground arith);
    least = λ c p q r. elim (split_child c p r) [ inl e ↦ ground arith | inr e ↦ ground arith ];
    further = ground arith;
  }
    where
      split_child : (c : ℕ) → 0 < c → parent c ≡ i → (c ≡ 2 * i + 1) ⊎ (c ≡ 2 * i + 2)
      split_child c p r = omega arith

  down_loop_restores :
      (k : ℕ) (q : PriorityQueue V) (i : ℕ)
      → length q.priorities - i < k
      → IsTable dec q
      → Hole q.priorities i
      → FitsAbove q.priorities i
      → Returns (Sifted q) (heapify_down_loop dec k q i)
  unfolding heapify_down_loop smallest
  down_loop_restores zero q i f t h above = absurd (omega arith)
  down_loop_restores (suc k) q i f t h above =
      let m = smallest q.priorities i in
      let s = smallest-IsSmallest q.priorities i h.inside in
      rw
        (
          lesser-pick q (2 * i + 1) i h.inside,
          lesser-pick q (2 * i + 2) (pick q.priorities (2 * i + 1) i)
              (pick-lt q.priorities _ i h.inside),
        )
        (Returns-if (m == i)
          (λ settled. returns (record {
            same = same_self q t;
            heap = Hole-IsHeap h (λ c p l e. rw (==→eq m i settled) at (s.least c p l e)) above;
          }))
          (λ moved.
            let (child, positive, less) = s.child (ground arith) in
            Returns-bind (swap-Swapped q t i m h.inside s.inside) λ q' z.
              Returns-map
                (down_loop_restores k q' m (omega (arith, s.further, s.inside, z.0.sized)) z.0.table
                  (rw z.1 (Hole-down h s.inside child positive less s.least above))
                  (rw z.1 (FitsAbove-down h s.inside child positive less s.least)))
                λ r y. Sifted-after z.0 y))

  -- heapifyDown ends, and makes a heap of a queue where one element may be too high in the tree.
  pub heapify_down-Sifted :
      (q : PriorityQueue V) (i : ℕ)
      → IsTable dec q
      → Hole q.priorities i
      → FitsAbove q.priorities i
      → Returns (Sifted q) (heapify_down dec q i)
  unfolding heapify_down
  heapify_down-Sifted q i = down_loop_restores (length q.priorities + 1) q i (omega arith)
