-- ===== src/Benchmark/Ring/Window.antt =====
-- The ring buffer is a window on the last values, oldest first.
use native.Mathlib.Nat.{mod-lt, mod-eq_of_lt, mod-eq-sub-mod}
use scalability_engineering.Prelude.{
  ℕ, zero, suc, ◌+◌, ◌-◌, ◌%◌, ◌≡◌, refl, sym, ap, ◌∙◌, ◌<◌, ◌≤◌, true, false, some, List, [], ◌∷◌,
  ◌++◌, length, get_elem?, set, get_elem?-set, get_elem?-some, get_elem?-concat, length-concat,
  length-set, ltb, ◌==◌, if◌then◌else◌, ℤ, Returns, returns, arith, dec_lt, ℕ_discrete,
}
use scalability_engineering.Benchmark.Ring.{RingBuffer, add, new_ring_buffer, zeros}

-- The reference: a list of at most `capacity` values, to which a value is added at the end; the
-- first one leaves if there is no room.
unfoldable pub drop_first : List ℤ → List ℤ
drop_first [] = []
drop_first (x ∷ xs) = xs

unfoldable pub push : ℕ → List ℤ → ℤ → List ℤ
unfolding drop_first
push capacity xs value = (if ltb (length xs) capacity then xs else drop_first xs) ++ value ∷ []

pub record Holds (rb : RingBuffer) (xs : List ℤ) : Type 0 where
  pub stored : length rb.slots ≡ rb.capacity
  pub head_inside : rb.head < rb.capacity
  pub bounded : rb.size ≤ rb.capacity
  pub sized : length xs ≡ rb.size
  pub window :
      (i : ℕ)
      → i < rb.size
      → get_elem? rb.slots ((rb.head + i + rb.capacity - rb.size) % rb.capacity) ≡ get_elem? xs i

mod_once : (n m : ℕ) → n < m + m → 0 < m → n % m ≡ (if ltb n m then n else n - m)
mod_once n m h p = elim (dec_lt n m) [
  | yes q ↦ mod-eq_of_lt q ∙ ground arith
  | no q ↦ mod-eq-sub-mod (omega arith) ∙ mod-eq_of_lt (omega arith) ∙ ground arith
]

get_elem?-drop_first : (xs : List ℤ) (i : ℕ) → get_elem? (drop_first xs) i ≡ get_elem? xs (suc i)
unfolding drop_first
get_elem?-drop_first [] i = refl
get_elem?-drop_first (x ∷ xs) i = refl

length-drop_first : (xs : List ℤ) → length (drop_first xs) ≡ length xs - 1
unfolding drop_first
length-drop_first [] = refl
length-drop_first (x ∷ xs) = omega arith

length-zeros : (n : ℕ) → length (zeros n) ≡ n
unfolding zeros
length-zeros zero = refl
length-zeros (suc n) = ap suc (length-zeros n)

pub new_ring_buffer-Holds : (capacity : ℕ) → 0 < capacity → Holds (new_ring_buffer capacity) []
unfolding new_ring_buffer
new_ring_buffer-Holds capacity h = record {
  stored = length-zeros capacity;
  head_inside = h;
  bounded = omega arith;
  sized = refl;
  window = λ i p. absurd (omega arith);
}

-- Where the i-th of `size` values is, without the remainder.
unfoldable place : (head size capacity i : ℕ) → ℕ
place head size capacity i =
    if ltb (head + i) size then head + i + capacity - size else head + i - size

place_lem :
    (head size capacity i : ℕ)
    → head < capacity
    → size ≤ capacity
    → i < size
    → (head + i + capacity - size) % capacity ≡ place head size capacity i
unfolding place
place_lem head size capacity i p q r =
    mod_once (head + i + capacity - size) capacity (omega arith) (omega arith) ∙ ground arith

module _ (rb : RingBuffer) (xs : List ℤ) (h : Holds rb xs) (value : ℤ) where
  window_place :
      (i : ℕ)
      → i < rb.size
      → get_elem? rb.slots (place rb.head rb.size rb.capacity i) ≡ get_elem? xs i
  window_place i p =
      sym (
        ap (get_elem? rb.slots) (place_lem rb.head rb.size rb.capacity i h.head_inside h.bounded p))
      ∙ h.window i p

  next : ℕ
  next = (rb.head + 1) % rb.capacity

  next_lem : next ≡ (if ltb (rb.head + 1) rb.capacity then rb.head + 1 else 0)
  unfolding next
  next_lem =
      mod_once (rb.head + 1) rb.capacity (omega (arith, h.head_inside))
        (omega (arith, h.head_inside))
      ∙ ground (arith, h.head_inside)

  next-lt : next < rb.capacity
  unfolding next
  next-lt = mod-lt (rb.head + 1) (omega (arith, h.head_inside))

  written :
      (j : ℕ)
      → get_elem? (set rb.slots rb.head value) j
        ≡ (if rb.head == j then some value else get_elem? rb.slots j)
  written j = get_elem?-set rb.slots rb.head j value (omega (arith, h.stored, h.head_inside))

  grown_window :
      (i : ℕ)
      → rb.size < rb.capacity
      → i < rb.size + 1
      → get_elem? (set rb.slots rb.head value) (place next (rb.size + 1) rb.capacity i)
        ≡ get_elem? (xs ++ value ∷ []) i
  unfolding place
  grown_window i room p = elim (ℕ_discrete i rb.size) [
    | yes q ↦ ground (
      arith,
      next_lem,
      written rb.head,
      get_elem?-concat xs value i,
      h.sized,
      h.head_inside,
      h.bounded,
    )
    | no q ↦
        let same : place next (rb.size + 1) rb.capacity i ≡ place rb.head rb.size rb.capacity i =
          ground (arith, next_lem, h.head_inside, h.bounded) in
        let apart : (rb.head == place rb.head rb.size rb.capacity i) ≡ false =
          ground (arith, h.head_inside, h.bounded) in
        ap (get_elem? (set rb.slots rb.head value)) same
        ∙ written (place rb.head rb.size rb.capacity i)
        ∙ ground (arith, window_place i, get_elem?-concat xs value i, h.sized)
  ]

  shifted_window :
      (i : ℕ)
      → rb.size ≡ rb.capacity
      → i < rb.size
      → get_elem? (set rb.slots rb.head value) (place next rb.size rb.capacity i)
        ≡ get_elem? (drop_first xs ++ value ∷ []) i
  unfolding place
  shifted_window i full p = elim (ℕ_discrete (i + 1) rb.size) [
    | yes q ↦ ground (
      arith,
      next_lem,
      written rb.head,
      get_elem?-concat (drop_first xs) value i,
      length-drop_first xs,
      h.sized,
      h.head_inside,
    )
    | no q ↦
        let same : place next rb.size rb.capacity i ≡ place rb.head rb.size rb.capacity (suc i) =
          ground (arith, next_lem, h.head_inside) in
        let apart : (rb.head == place rb.head rb.size rb.capacity (suc i)) ≡ false =
          ground (arith, h.head_inside) in
        ap (get_elem? (set rb.slots rb.head value)) same
        ∙ written (place rb.head rb.size rb.capacity (suc i))
        ∙ ground (
          arith,
          window_place (suc i),
          get_elem?-concat (drop_first xs) value i,
          get_elem?-drop_first xs i,
          length-drop_first xs,
          h.sized,
        )
  ]

  -- With room left, the window grows at its new end.
  grown :
      rb.size < rb.capacity
      → Returns (λ r. (r.capacity ≡ rb.capacity) × Holds r (xs ++ value ∷ [])) (add rb value)
  unfolding add next
  grown room =
      let (old, e) = get_elem?-some rb.slots rb.head (omega (arith, h.stored, h.head_inside)) in
      let t : ltb rb.size rb.capacity ≡ true = ground arith in
      rw (e, t)
        (returns (
          refl,
          record {
            stored = length-set rb.slots rb.head value ∙ h.stored;
            head_inside = next-lt;
            bounded = omega arith;
            sized = omega (arith, length-concat xs value, h.sized);
            window = λ i p.
                ap (get_elem? (set rb.slots rb.head value))
                  (place_lem next (rb.size + 1) rb.capacity i next-lt (omega arith) p)
                ∙ grown_window i room p;
          },
        ))

  -- In a full buffer, the oldest value makes room.
  shifted :
      rb.size ≡ rb.capacity
      → Returns
          (λ r. (r.capacity ≡ rb.capacity) × Holds r (drop_first xs ++ value ∷ []))
          (add rb value)
  unfolding add next
  shifted full =
      let (old, e) = get_elem?-some rb.slots rb.head (omega (arith, h.stored, h.head_inside)) in
      let t : ltb rb.size rb.capacity ≡ false = ground arith in
      rw (e, t)
        (returns (
          refl,
          record {
            stored = length-set rb.slots rb.head value ∙ h.stored;
            head_inside = next-lt;
            bounded = omega arith;
            sized = omega (
              arith,
              length-concat (drop_first xs) value,
              length-drop_first xs,
              h.sized,
              h.head_inside,
            );
            window = λ i p.
                ap (get_elem? (set rb.slots rb.head value))
                  (place_lem next rb.size rb.capacity i next-lt h.bounded p)
                ∙ shifted_window i full p;
          },
        ))

pub add-Holds :
    (rb : RingBuffer) (xs : List ℤ) (value : ℤ)
    → Holds rb xs
    → Returns (λ r. (r.capacity ≡ rb.capacity) × Holds r (push rb.capacity xs value)) (add rb value)
unfolding push
add-Holds rb xs value h = elim (dec_lt rb.size rb.capacity) [
  | yes room ↦
      let t : ltb (length xs) rb.capacity ≡ true = ground (arith, h.sized) in
      rw (t) (grown rb xs h value room)
  | no full ↦
      let t : ltb (length xs) rb.capacity ≡ false = ground (arith, h.sized) in
      rw (t) (shifted rb xs h value (omega (arith, h.bounded)))
]
