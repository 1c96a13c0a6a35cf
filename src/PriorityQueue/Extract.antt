-- ===== src/PriorityQueue/Extract.antt =====
-- Peek, GetPriority, Contains, ExtractMin and ExtractMinBulk.
use scalability_engineering.Prelude.{
  ℕ, suc, ◌-◌, ◌≡◌, refl, true, false, Option, none, some, [], ok, arith, Option-cases, inl, inr,
  Returns, returns, Returns-bind, Returns-map, Returns-inv, length, get_elem?-some, ◌≢◌, ◌<◌,
  get_elem?, ℤ, ◌≤ℤ◌, ◌==◌, Returns-if, ==→eq,
}
use scalability_engineering.Prelude.GoMap
use scalability_engineering.Index.{lookup-lt}
use scalability_engineering.PriorityQueue.{
  PriorityQueue, view, size, extract_root, extract_min, peek, get_priority, contains,
}
use scalability_engineering.PriorityQueue.Order.{root_least}
use scalability_engineering.PriorityQueue.Sift.{IsValid, heapify_down-Sifted}
use scalability_engineering.PriorityQueue.Remove.{
  Without, cut-Without, moved-IsTable, moved-Hole, moved-Without,
}

module _ {V : Type 0} (dec : Discrete V) (q : PriorityQueue V) where
  -- `v` is in the queue with the priority `p`, and no value has a lower priority.
  pub record IsMin (p : ℤ) (v : V) : Type 0 where
    pub held : view dec q v ≡ some p
    pub least : (w : V) (r : ℤ) → view dec q w ≡ some r → p ≤ℤ r

module _ {V : Type 0} (dec : Discrete V) (q : PriorityQueue V) (valid : IsValid dec q) where
  view_at :
      (i : ℕ) (p : ℤ) (v : V)
      → get_elem? q.priorities i ≡ some p
      → get_elem? q.values i ≡ some v
      → view dec q v ≡ some p
  view_at i p v ep ev = ground (arith, valid.table.index.found v i ev)

  -- GetPriority never panics on a valid queue, and returns the priority of the value in it.
  pub get_priority-view : (v : V) → get_priority dec q v ≡ ok (view dec q v)
  unfolding get_priority
  get_priority-view v = elim (Option-cases (GoMap.lookup dec v q.index_map)) [
    | inl e ↦ ground arith
    | inr (i, e) ↦
        let (p, ep) =
          get_elem?-some q.priorities i
            (omega (arith, valid.table.paired, lookup-lt dec valid.table.index v i e)) in
        ground arith
  ]

  pub contains-view :
      (v : V) → contains dec q v ≡ elim (view dec q v) [ none ↦ false | some _ ↦ true ]
  unfolding contains
  contains-view v = elim (Option-cases (GoMap.lookup dec v q.index_map)) [
    | inl e ↦ ground arith
    | inr (i, e) ↦
        let (p, ep) =
          get_elem?-some q.priorities i
            (omega (arith, valid.table.paired, lookup-lt dec valid.table.index v i e)) in
        ground arith
  ]

  root-IsMin :
      (p : ℤ) (v : V)
      → get_elem? q.priorities 0 ≡ some p
      → get_elem? q.values 0 ≡ some v
      → IsMin dec q p v
  root-IsMin p v ep ev = record {
    held = view_at 0 p v ep ev;
    least = λ w r e. elim (Option-cases (GoMap.lookup dec w q.index_map)) [
      | inl f ↦ absurd (ground arith)
      | inr (i, f) ↦
          let hi : i < length q.priorities =
            omega (arith, valid.table.paired, lookup-lt dec valid.table.index w i f) in
          ground (arith, root_least q.priorities i valid.heap hi)
    ];
  }

  pub view_nonempty : (v : V) (p : ℤ) → view dec q v ≡ some p → 0 < length q.priorities
  view_nonempty v p e = elim (Option-cases (GoMap.lookup dec v q.index_map)) [
    | inl f ↦ absurd (ground arith)
    | inr (i, f) ↦ omega (arith, valid.table.paired, lookup-lt dec valid.table.index v i f)
  ]

  -- What Peek may return: nothing from the empty queue only, else a minimum.
  abbrev pub Peeked : Option (ℤ × V) → Type 0
  Peeked none = size q ≡ 0
  Peeked (some (p, v)) = IsMin dec q p v

  -- Peek never panics on a valid queue, and returns a value of the lowest priority, if there is one.
  pub peek-Peeked : Returns Peeked (peek q)
  unfolding peek size
  peek-Peeked =
      Returns-if (length q.priorities == 0) (λ e. returns (==→eq _ _ e))
        λ e.
          let h : 0 < length q.priorities = ground arith in
          let (p, ep) = get_elem?-some q.priorities 0 h in
          let (v, ev) = get_elem?-some q.values 0 (omega (arith, valid.table.paired)) in
          rw (ep, ev) (returns (root-IsMin p v ep ev))

  -- What ExtractMin may do: nothing on the empty queue; else it removes a minimum and returns it.
  abbrev pub Extracted : PriorityQueue V × Option (ℤ × V) → Type 0
  Extracted (q', none) = (size q ≡ 0) × (q' ≡ q)
  Extracted (q', some (p, v)) = IsMin dec q p v × Without dec q v q'

  root_single :
      (p : ℤ) (v : V)
      → get_elem? q.values 0 ≡ some v
      → length q.priorities ≡ 1
      → Without dec q v
          (record { priorities = []; values = []; index_map = GoMap.delete dec v q.index_map })
  root_single p v ev one = cut-Without dec q valid v 0 0 (valid.table.index.found v 0 ev) one refl

  extract_root-Extracted : 0 < length q.priorities → Returns Extracted (extract_root dec q)
  unfolding extract_root
  extract_root-Extracted h =
      let n = length q.priorities - 1 in
      let size_eq : length q.priorities ≡ suc n = omega arith in
      let (p, ep) = get_elem?-some q.priorities 0 h in
      let (v, ev) = get_elem?-some q.values 0 (omega (arith, valid.table.paired)) in
      let e = valid.table.index.found v 0 ev in
      let min = root-IsMin p v ep ev in
      rw (ep, ev)
        (Returns-bind
          (Returns-if (n == 0) (λ one. returns (root_single p v ev (ground arith)))
            (λ more.
              let inner : 0 ≢ n = ground arith in
              let (l, el) = get_elem?-some q.values n (omega (arith, valid.table.paired)) in
              let (r, er) = get_elem?-some q.priorities n (omega arith) in
              rw (el, er)
                (Returns-map
                  (heapify_down-Sifted dec _ 0
                    (moved-IsTable dec q valid v 0 n e size_eq inner l r el er)
                    (moved-Hole dec q valid v 0 n e size_eq inner l r el er)
                    (λ impossible. absurd (omega arith)))
                  (moved-Without dec q valid v 0 n e size_eq inner l r el er))))
          λ q' w. returns (min, w))

  -- ExtractMin on a valid queue ends without a panic: it returns a value of the lowest priority
  -- and leaves a valid queue of all the others with their priorities; an empty queue stays as it
  -- is.
  pub extract_min-Extracted : Returns Extracted (extract_min dec q)
  unfolding extract_min size
  extract_min-Extracted =
      Returns-if (length q.priorities == 0) (λ e. returns (==→eq _ _ e, refl))
        λ e. extract_root-Extracted (ground arith)

  pub extract_min-none : length q.priorities ≡ 0 → extract_min dec q ≡ ok (q, none)
  unfolding extract_min
  extract_min-none h = ground arith

  -- A queue that is not empty gives up a minimum.
  pub extract_min-some :
      0 < length q.priorities
      → (q' : PriorityQueue V) × (p : ℤ) × (v : V) × (extract_min dec q ≡ ok (q', some (p, v)))
        × IsMin dec q p v
        × Without dec q v q'
  unfolding size
  extract_min-some h = go (Returns-inv extract_min-Extracted)
    where
      go :
          ((r : PriorityQueue V × Option (ℤ × V)) × (extract_min dec q ≡ ok r) × Extracted r)
          → (q' : PriorityQueue V) × (p : ℤ) × (v : V) × (extract_min dec q ≡ ok (q', some (p, v)))
            × IsMin dec q p v
            × Without dec q v q'
      go ((q', none), e, x) = absurd (omega (arith, x.0))
      go ((q', some (p, v)), e, x) = (q', p, v, e, x.0, x.1)
