-- ===== src/PriorityQueue/Validate.antt =====
-- Validate and Stats.
use scalability_engineering.Prelude.{
  ℕ, zero, suc, ◌+◌, ◌-◌, ◌≡◌, refl, ◌∙◌, Bool, true, false, none, some, List, [], ◌∷◌, Run, ok,
  out_of_fuel, ◌↔◌, ◌⊎◌, ◌^◌, leb, ◌>>=◌, or_panic, arith, inl, inr, Returns, returns, Returns-map,
  Returns-inv, ok, length, ◌<◌, ◌≤◌, get_elem?, ℤ, ◌≤ℤ◌, ltb_ℤ, ◌*◌, ◌==◌, ltb, if◌then◌else◌,
  Returns-if, Bool-cases, ltb→lt, ==→eq,
}
use scalability_engineering.Prelude.GoMap
use scalability_engineering.PriorityQueue.{PriorityQueue, parent}
use scalability_engineering.PriorityQueue.Order.{prio, get_elem?-prio}
use scalability_engineering.PriorityQueue.Sift.{IsValid}
use native.Mathlib.Nat.{zero-add, pow-suc}
use scalability_engineering.Index.Count.{IsIndex-of_placed}

-- The loop of Stats: the least height, from `height` on, with 2 ^ height above `n`.
unfoldable pub height_loop : ℕ → ℕ → ℕ → Run ℕ
height_loop zero n height = out_of_fuel
height_loop (suc fuel) n height =
    let rest = height_loop fuel n (height + 1) in if leb (2 ^ height) n then rest else ok height

unfoldable pub heap_height : ℕ → Run ℕ
unfolding height_loop
heap_height n = if ltb 0 n then height_loop (n + 1) n 1 else ok 0

pub record PriorityQueueStats : Type 0 where
  pub size : ℕ
  pub heap_height : ℕ
  pub is_valid : Bool

-- `priorities[child] < priorities[i]` for a child in the range
unfoldable pub below_parent : List ℤ → ℕ → ℕ → Run Bool
below_parent a child i =
    if ltb child (length a)
    then (do p ← or_panic (get_elem? a child); r ← or_panic (get_elem? a i); ok (ltb_ℤ p r))
    else ok false

-- The last loop of validateUnsafe: the rounds left, and `i`.
unfoldable pub validate_heap : List ℤ → ℕ → ℕ → Run Bool
unfolding below_parent
validate_heap a zero i = ok true
validate_heap a (suc rounds) i = do
  left ← below_parent a (2 * i + 1) i
  right ← below_parent a (2 * i + 2) i
  let rest = validate_heap a rounds (i + 1)
  if left then ok false else if right then ok false else rest

module _ {V : Type 0} (dec : Discrete V) where
  -- The loop over the values.
  unfoldable pub validate_index : GoMap.GoMap V ℕ → List V → ℕ → Bool
  validate_index m [] i = true
  validate_index m (v ∷ vs) i = elim (GoMap.lookup dec v m) [
    | none ↦ false
    | some index ↦ if index == i then validate_index m vs (i + 1) else false
  ]

  unfoldable pub validate : PriorityQueue V → Run Bool
  unfolding validate_index validate_heap
  validate q =
      if length q.priorities == length q.values
      then (if GoMap.size dec q.index_map == length q.priorities
          then (if validate_index q.index_map q.values 0
              then validate_heap q.priorities (length q.priorities) 0
              else ok false)
          else ok false)
      else ok false

  unfoldable pub stats : PriorityQueue V → Run PriorityQueueStats
  unfolding heap_height validate
  stats q = do
    height ← heap_height (length q.priorities)
    valid ← validate q
    ok (record { size = length q.priorities; heap_height = height; is_valid = valid })

  Placed : GoMap.GoMap V ℕ → List V → ℕ → Type 0
  Placed m vs i = (c : ℕ) (v : V) → get_elem? vs c ≡ some v → GoMap.lookup dec v m ≡ some (i + c)

  validate_index-Placed :
      (m : GoMap.GoMap V ℕ) (vs : List V) (i : ℕ) → validate_index m vs i ≡ true → Placed m vs i
  unfolding validate_index Placed
  validate_index-Placed m [] i e c v f = cc
  validate_index-Placed m (w ∷ vs) i e zero v f = ground arith
  validate_index-Placed m (w ∷ vs) i e (suc c) v f =
      ground (arith, validate_index-Placed m vs (i + 1) (ground arith) c v f)

  Placed-validate_index :
      (m : GoMap.GoMap V ℕ) (vs : List V) (i : ℕ) → Placed m vs i → validate_index m vs i ≡ true
  unfolding validate_index Placed
  Placed-validate_index m [] i h = refl
  Placed-validate_index m (w ∷ vs) i h =
      let rest = Placed-validate_index m vs (i + 1) (λ c v f. ground (arith, h (suc c) v f)) in
      ground (arith, h 0 w refl)

-- From `i` on, no child is below its parent.
OrderedFrom : List ℤ → ℕ → Type 0
OrderedFrom a i = (c : ℕ) → 0 < c → c < length a → i ≤ parent c → prio a (parent c) ≤ℤ prio a c

below_parent-ok :
    (a : List ℤ) (child i : ℕ)
    → i < length a
    → below_parent a child i
      ≡ ok (if ltb child (length a) then ltb_ℤ (prio a child) (prio a i) else false)
unfolding below_parent
below_parent-ok a child i h = elim (Bool-cases (ltb child (length a))) [
  | inl e ↦ rw (e, get_elem?-prio a child (ltb→lt _ _ e), get_elem?-prio a i h) refl
  | inr e ↦ rw e refl
]

validate_heap-OrderedFrom :
    (a : List ℤ) (rounds i : ℕ)
    → rounds + i ≡ length a
    → Returns (λ b. (b ≡ true) ↔ OrderedFrom a i) (validate_heap a rounds i)
unfolding validate_heap OrderedFrom
validate_heap-OrderedFrom a zero i e = returns (λ _ c p q r. absurd (omega arith), λ _. refl)
validate_heap-OrderedFrom a (suc rounds) i e =
    let ih = validate_heap-OrderedFrom a rounds (i + 1) (omega arith) in
    let hi : i < length a = omega arith in
    rw (below_parent-ok a (2 * i + 1) i hi, below_parent-ok a (2 * i + 2) i hi)
      (Returns-if
        (if ltb (2 * i + 1) (length a) then ltb_ℤ (prio a (2 * i + 1)) (prio a i) else false)
        (λ l. returns (λ f. cc, λ o. absurd (ground (arith, o (2 * i + 1)))))
        (λ l.
          Returns-if
            (if ltb (2 * i + 2) (length a) then ltb_ℤ (prio a (2 * i + 2)) (prio a i) else false)
            (λ r. returns (λ f. cc, λ o. absurd (ground (arith, o (2 * i + 2)))))
            (λ r. Returns-map ih λ b (to, from). (
              λ f c p q x. step c p q x l r (to f),
              λ o. from (λ c p q x. o c p q (omega arith)),
            ))))
  where
    step :
        (c : ℕ)
        → 0 < c
        → c < length a
        → i ≤ parent c
        → (if ltb (2 * i + 1) (length a) then ltb_ℤ (prio a (2 * i + 1)) (prio a i) else false)
          ≡ false
        → (if ltb (2 * i + 2) (length a) then ltb_ℤ (prio a (2 * i + 2)) (prio a i) else false)
          ≡ false
        → OrderedFrom a (i + 1)
        → prio a (parent c) ≤ℤ prio a c
    step c p q x l r o = elim place [
      | inl further ↦ o c p q further
      | inr (inl left) ↦ ground arith
      | inr (inr right) ↦ ground arith
    ]
      where
        place : (i + 1 ≤ parent c) ⊎ ((c ≡ 2 * i + 1) ⊎ (c ≡ 2 * i + 2))
        place = omega arith

module _ {V : Type 0} (dec : Discrete V) where
  accepted :
      (q : PriorityQueue V)
      → length q.priorities ≡ length q.values
      → GoMap.size dec q.index_map ≡ length q.priorities
      → validate_index dec q.index_map q.values 0 ≡ true
      → OrderedFrom q.priorities 0
      → IsValid dec q
  unfolding OrderedFrom Placed
  accepted q p s v o = record {
    table = record {
      paired = p;
      index =
          IsIndex-of_placed dec q.values q.index_map
            (λ c j e. rw (zero-add c) at (validate_index-Placed dec q.index_map q.values 0 v c j e))
            (s ∙ p);
    };
    heap = λ c x y. o c x y (omega arith);
  }

  placed : (q : PriorityQueue V) → IsValid dec q → validate_index dec q.index_map q.values 0 ≡ true
  unfolding Placed
  placed q x =
      Placed-validate_index dec q.index_map q.values 0
        (λ c v e. rw (zero-add c) (x.table.index.found v c e))

  -- Validate never panics, and accepts exactly the queues that are in order.
  pub validate-IsValid :
      (q : PriorityQueue V) → Returns (λ b. (b ≡ true) ↔ IsValid dec q) (validate dec q)
  unfolding validate OrderedFrom
  validate-IsValid q =
      Returns-if (length q.priorities == length q.values)
        (λ p.
          Returns-if (GoMap.size dec q.index_map == length q.priorities)
            (λ s.
              Returns-if (validate_index dec q.index_map q.values 0)
                (λ v.
                  Returns-map
                    (validate_heap-OrderedFrom q.priorities (length q.priorities) 0 (omega arith))
                    λ b (to, from). (
                      λ t. accepted q (==→eq _ _ p) (==→eq _ _ s) v (to t),
                      λ x. from (λ c y z w. x.heap c y z),
                    ))
                (λ v. returns (λ x. cc, λ x. absurd (ground (arith, placed q x)))))
            (λ s.
              returns
                (λ x. cc, λ x. absurd (ground (arith, x.table.paired, x.table.index.counted)))))
        (λ p. returns (λ x. cc, λ x. absurd (ground (arith, x.table.paired))))

  pub IsValid_of_validate : (q : PriorityQueue V) → validate dec q ≡ ok true → IsValid dec q
  IsValid_of_validate q e = let (b, f, i) = Returns-inv (validate-IsValid q) in i.0 (ground arith)

lt-pow : (n : ℕ) → n < 2 ^ n
lt-pow zero = omega arith
lt-pow (suc n) = omega (arith, lt-pow n, pow-suc 2 n)

height_loop-Returns :
    (fuel n height : ℕ)
    → n < fuel + height
    → (2 ^ (height - 1)) ≤ n
    → 0 < height
    → Returns (λ r. (2 ^ (r - 1) ≤ n) × (n < 2 ^ r)) (height_loop fuel n height)
unfolding height_loop
height_loop-Returns zero n height f low p = absurd (omega (arith, lt-pow (height - 1)))
height_loop-Returns (suc fuel) n height f low p =
    let back : 2 ^ height ≤ n → 2 ^ (height + 1 - 1) ≤ n =
      λ h. let e : height + 1 - 1 ≡ height = omega arith in rw e h in
    Returns-if (leb (2 ^ height) n)
      (λ more.
        height_loop-Returns fuel n (height + 1) (omega arith) (back (ground arith)) (omega arith))
      (λ done. returns (low, ground arith))

-- Stats counts the levels of the tree: the height `r` of a queue of `n` elements, if there are any,
-- is such that 2 ^ (r - 1) ≤ n < 2 ^ r.
pub heap_height_bounds :
    (n : ℕ) → 0 < n → Returns (λ r. (2 ^ (r - 1) ≤ n) × (n < 2 ^ r)) (heap_height n)
unfolding heap_height
heap_height_bounds n h =
    Returns-if (ltb 0 n)
      (λ p. height_loop-Returns (n + 1) n 1 (omega arith) (omega arith) (omega arith))
      λ p. absurd (ground arith)
