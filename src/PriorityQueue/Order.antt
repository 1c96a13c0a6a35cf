-- ===== src/PriorityQueue/Order.antt =====
-- The heap order of a slice of priorities, and a slice that is ordered but for one position.
use scalability_engineering.Prelude.{
  ℕ, zero, suc, ◌≡◌, ◌≢◌, ◌<◌, none, some, List, [], ◌∷◌, ◌++◌, length, get_elem?, set, take, swap,
  ◌==◌, if◌then◌else◌, ℤ, pos, ◌≤ℤ◌, ◌<ℤ◌, arith, get_elem?-some, ℕ_discrete, get_elem?-set,
  get_elem?-swap, length-swap, get_elem?-concat, get_elem?-take, length-set,
}
use scalability_engineering.PriorityQueue.{parent}

-- The priority at a position, 0 past the end.
abbrev pub prio : List ℤ → ℕ → ℤ
prio a i = elim (get_elem? a i) [ none ↦ pos 0 | some p ↦ p ]

pub get_elem?-prio : (a : List ℤ) (i : ℕ) → i < length a → get_elem? a i ≡ some (prio a i)
get_elem?-prio a i h = let (p, e) = get_elem?-some a i h in ground arith

pub prio-set :
    (a : List ℤ) (i : ℕ) (p : ℤ) (c : ℕ)
    → i < length a
    → prio (set a i p) c ≡ (if i == c then p else prio a c)
prio-set a i p c h = ground (arith, get_elem?-set a i c p h)

pub prio-swap :
    (a : List ℤ) (i j : ℕ)
    → i < length a
    → j < length a
    → (c : ℕ)
    → prio (swap a i j) c ≡ (if j == c then prio a i else if i == c then prio a j else prio a c)
prio-swap a i j hi hj c = ground (arith, get_elem?-swap a i j hi hj c)

pub prio-concat :
    (a : List ℤ) (p : ℤ) (c : ℕ) → prio (a ++ p ∷ []) c ≡ (if length a == c then p else prio a c)
prio-concat a p c = ground (arith, get_elem?-concat a p c)

pub prio-take : (n : ℕ) (a : List ℤ) (c : ℕ) → c < n → prio (take n a) c ≡ prio a c
prio-take n a c h = ground (arith, get_elem?-take n a c)

-- No element is less than its parent.
abbrev pub IsHeap : List ℤ → Type 0
IsHeap a = (c : ℕ) → 0 < c → c < length a → prio a (parent c) ≤ℤ prio a c

-- The order holds away from `i`, and across it.
pub record Hole (a : List ℤ) (i : ℕ) : Type 0 where
  pub inside : i < length a
  pub away : (c : ℕ) → 0 < c → c < length a → c ≢ i → parent c ≢ i → prio a (parent c) ≤ℤ prio a c
  pub across : (c : ℕ) → 0 < c → c < length a → parent c ≡ i → 0 < i → prio a (parent i) ≤ℤ prio a c

-- The element at `i` is not above its children: only the edge to its parent may be wrong.
abbrev pub FitsBelow : List ℤ → ℕ → Type 0
FitsBelow a i = (c : ℕ) → 0 < c → c < length a → parent c ≡ i → prio a i ≤ℤ prio a c

-- The element at `i` is not below its parent: only the edges to its children may be wrong.
abbrev pub FitsAbove : List ℤ → ℕ → Type 0
FitsAbove a i = 0 < i → prio a (parent i) ≤ℤ prio a i

pub Hole-IsHeap : {a : List ℤ} {i : ℕ} → Hole a i → FitsBelow a i → FitsAbove a i → IsHeap a
Hole-IsHeap {a} {i} h below above = λ c p q. elim (ℕ_discrete c i) [
  | yes e ↦ rw e (above (ground arith))
  | no n ↦ elim (ℕ_discrete (parent c) i) [ yes e ↦ rw e (below c p q e) | no m ↦ h.away c p q n m ]
]

-- A write into a heap makes a hole.
pub Hole-set : (a : List ℤ) (i : ℕ) (p : ℤ) → IsHeap a → i < length a → Hole (set a i p) i
Hole-set a i p h q = record {
  inside = omega (arith, length-set a i p);
  away = λ c r s t u.
      ground (arith, prio-set a i p c q, prio-set a i p (parent c) q, h c, length-set a i p);
  across = λ c r s t u.
      ground (arith, prio-set a i p c q, prio-set a i p (parent i) q, h c, h i, length-set a i p);
}

-- One step up: the hole moves to the parent.
module _ {a : List ℤ} {i : ℕ} (h : Hole a i) (p : 0 < i)
    (less : prio a i <ℤ prio a (parent i)) where
  up_at :
      (c : ℕ)
      → prio (swap a i (parent i)) c
        ≡ (if parent i == c then prio a i else if i == c then prio a (parent i) else prio a c)
  up_at = prio-swap a i (parent i) h.inside (omega (arith, h.inside))

  size_up : length (swap a i (parent i)) ≡ length a
  size_up = length-swap a i (parent i) h.inside (omega (arith, h.inside))

  pub Hole-up : FitsBelow a i → Hole (swap a i (parent i)) (parent i)
  Hole-up below = record {
    inside = omega (arith, size_up, h.inside);
    away = λ c q r s t.
        ground (arith, size_up, up_at c, up_at (parent c), h.away c, h.across c, below c);
    across = λ c q r s t.
        ground (arith, size_up, up_at c, up_at (parent (parent i)), h.away c, h.away (parent i));
  }

  pub FitsBelow-up : FitsBelow (swap a i (parent i)) (parent i)
  FitsBelow-up =
      λ c q r s. ground (arith, size_up, up_at c, up_at (parent i), h.away c, h.away (parent i))

-- One step down: the hole moves to a least child.
module _ {a : List ℤ} {i m : ℕ} (h : Hole a i) (inside : m < length a) (child : parent m ≡ i)
    (p : 0 < m) (less : prio a m <ℤ prio a i)
    (least : (c : ℕ) → 0 < c → c < length a → parent c ≡ i → prio a m ≤ℤ prio a c) where
  down_at :
      (c : ℕ)
      → prio (swap a i m) c ≡ (if m == c then prio a i else if i == c then prio a m else prio a c)
  down_at = prio-swap a i m h.inside inside

  size_down : length (swap a i m) ≡ length a
  size_down = length-swap a i m h.inside inside

  pub Hole-down : FitsAbove a i → Hole (swap a i m) m
  Hole-down above = record {
    inside = omega (arith, size_down);
    away = λ c q r s t.
        ground (arith, size_down, down_at c, down_at (parent c), h.away c, least c, h.across m);
    across = λ c q r s t. ground (arith, size_down, down_at c, down_at (parent m), h.away c);
  }

  pub FitsAbove-down : FitsAbove (swap a i m) m
  FitsAbove-down = λ q. ground (arith, down_at m, down_at (parent m))

root_least_below :
    (k : ℕ) (a : List ℤ) (i : ℕ) → IsHeap a → i < k → i < length a → prio a 0 ≤ℤ prio a i
root_least_below zero a i h f p = absurd (omega arith)
root_least_below (suc k) a zero h f p = omega arith
root_least_below (suc k) a (suc i) h f p = omega (
  arith,
  h (suc i) (omega arith) p,
  root_least_below k a (parent (suc i)) h (omega arith) (omega arith),
)

-- The root of a heap is a least element.
pub root_least : (a : List ℤ) (i : ℕ) → IsHeap a → i < length a → prio a 0 ≤ℤ prio a i
root_least a i h p = root_least_below (suc i) a i h (omega arith) p
