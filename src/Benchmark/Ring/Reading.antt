-- ===== src/Benchmark/Ring/Reading.antt =====
-- What GetAll returns, and what a run of Add leaves to it.
use mathlib.Core.Path.{subst}
use mathlib.Core.List.{append-nil, append_assoc}
use scalability_engineering.Prelude.{
  true, false, ◌++◌, sym, length-concat, dec_lt, ltb, ℕ, zero, suc, ◌+◌, ◌-◌, ◌≡◌, refl, ap, ◌∙◌,
  ◌<◌, ◌≤◌, some, List, [], ◌∷◌, Run, ok, ◌>>=◌, length, get_elem?, get_elem?-some, ◌==◌, ℤ,
  Returns, returns, Returns-bind, Returns-map, Returns-inv, arith, Bool-cases, inl, inr,
}
use scalability_engineering.Benchmark.Ring.{RingBuffer, add, get_all, get_all_from, new_ring_buffer}
use scalability_engineering.Benchmark.Ring.Window.{
  Holds, push, drop_first, add-Holds, new_ring_buffer-Holds,
}

skip : ℕ → List ℤ → List ℤ
skip zero xs = xs
skip (suc n) [] = []
skip (suc n) (x ∷ xs) = skip n xs

skip-get_elem? :
    (i : ℕ) (xs : List ℤ) (x : ℤ) → get_elem? xs i ≡ some x → skip i xs ≡ x ∷ skip (suc i) xs
unfolding skip
skip-get_elem? i [] x e = cc
skip-get_elem? zero (y ∷ xs) x e = ap (λ a. a ∷ xs) (some_inj e)
  where
    some_inj : some y ≡ some x → y ≡ x
    some_inj h = cc
skip-get_elem? (suc i) (y ∷ xs) x e = skip-get_elem? i xs x e

skip-length : (i : ℕ) (xs : List ℤ) → length xs ≤ i → skip i xs ≡ []
unfolding skip
skip-length zero [] h = refl
skip-length (suc i) [] h = refl
skip-length zero (x ∷ xs) h = absurd (omega arith)
skip-length (suc i) (x ∷ xs) h = skip-length i xs (omega arith)

reads :
    (rb : RingBuffer) (xs : List ℤ) (rounds i : ℕ)
    → Holds rb xs
    → rounds + i ≡ rb.size
    → get_all_from rb rounds i ≡ ok (skip i xs)
unfolding get_all_from
reads rb xs zero i h e = ap ok (sym (skip-length i xs (omega (arith, h.sized))))
reads rb xs (suc rounds) i h e =
    let (x, there) = get_elem?-some xs i (omega (arith, h.sized)) in
    rw (h.window i (omega arith), there, reads rb xs rounds (i + 1) h (omega arith))
      (ap ok (ap (λ k. x ∷ skip k xs) (omega arith) ∙ sym (skip-get_elem? i xs x there)))

pub get_all-Holds : (rb : RingBuffer) (xs : List ℤ) → Holds rb xs → get_all rb ≡ ok xs
unfolding get_all skip
get_all-Holds rb xs h = elim (Bool-cases (rb.size == 0)) [
  | inl e ↦ rw (e) (ap ok (sym (skip-length 0 xs (ground (arith, h.sized)))))
  | inr e ↦ rw (e) (reads rb xs rb.size 0 h (omega arith))
]

-- The reference: the last `n` values of a list, or all if there are fewer.
unfoldable pub recent : ℕ → List ℤ → List ℤ
unfolding skip
recent n xs = skip (length xs - n) xs

-- A run of Add.
unfoldable pub add_all : RingBuffer → List ℤ → Run RingBuffer
add_all rb [] = ok rb
add_all rb (value ∷ values) = do next ← add rb value; add_all next values

skip-concat :
    (i : ℕ) (xs : List ℤ) (x : ℤ) → i ≤ length xs → skip i (xs ++ x ∷ []) ≡ skip i xs ++ x ∷ []
unfolding skip
skip-concat zero xs x h = refl
skip-concat (suc i) [] x h = absurd (omega arith)
skip-concat (suc i) (y ∷ xs) x h = skip-concat i xs x (omega arith)

drop_first-skip : (i : ℕ) (xs : List ℤ) → drop_first (skip i xs) ≡ skip (suc i) xs
unfolding skip drop_first
drop_first-skip zero [] = refl
drop_first-skip zero (x ∷ xs) = refl
drop_first-skip (suc i) [] = refl
drop_first-skip (suc i) (x ∷ xs) = drop_first-skip i xs

length-skip : (i : ℕ) (xs : List ℤ) → length (skip i xs) ≡ length xs - i
unfolding skip
length-skip zero xs = omega arith
length-skip (suc i) [] = omega arith
length-skip (suc i) (x ∷ xs) = length-skip i xs ∙ omega arith

push-recent :
    (capacity : ℕ) (xs : List ℤ) (x : ℤ)
    → 0 < capacity
    → push capacity (recent capacity xs) x ≡ recent capacity (xs ++ x ∷ [])
unfolding push recent
push-recent capacity xs x p = elim (dec_lt (length xs) capacity) [
  | yes q ↦
      let start : length (xs ++ x ∷ []) - capacity ≡ length xs - capacity =
        omega (arith, length-concat xs x) in
      let t : ltb (length (skip (length xs - capacity) xs)) capacity ≡ true =
        ground (arith, length-skip (length xs - capacity) xs) in
      rw (t, start) (sym (skip-concat (length xs - capacity) xs x (omega arith)))
  | no q ↦
      let start : length (xs ++ x ∷ []) - capacity ≡ suc (length xs - capacity) =
        omega (arith, length-concat xs x) in
      let t : ltb (length (skip (length xs - capacity) xs)) capacity ≡ false =
        ground (arith, length-skip (length xs - capacity) xs) in
      rw (t, start, drop_first-skip (length xs - capacity) xs)
        (sym (skip-concat (suc (length xs - capacity)) xs x (omega arith)))
]

recent-nil : (n : ℕ) → recent n [] ≡ []
unfolding recent
recent-nil n = skip-length (0 - n) [] (omega arith)

-- The buffer has this capacity, and holds the recent ones of the values that were added.
pub record Recalls (capacity : ℕ) (seen : List ℤ) (rb : RingBuffer) : Type 0 where
  pub positive : 0 < capacity
  pub sized : rb.capacity ≡ capacity
  pub holds : Holds rb (recent capacity seen)

pub new_ring_buffer-Recalls :
    (capacity : ℕ) → 0 < capacity → Recalls capacity [] (new_ring_buffer capacity)
unfolding new_ring_buffer
new_ring_buffer-Recalls capacity p = record {
  positive = p;
  sized = refl;
  holds =
      subst (Holds (new_ring_buffer capacity)) (sym (recent-nil capacity))
        (new_ring_buffer-Holds capacity p);
}

pub add-Recalls :
    (rb : RingBuffer) (capacity : ℕ) (seen : List ℤ) (value : ℤ)
    → Recalls capacity seen rb
    → Returns (Recalls capacity (seen ++ value ∷ [])) (add rb value)
add-Recalls rb capacity seen value h =
    Returns-map (add-Holds rb (recent capacity seen) value h.holds) λ r known. record {
      positive = h.positive;
      sized = known.0 ∙ h.sized;
      holds =
          subst (Holds r)
            (ap (λ k. push k (recent capacity seen) value) h.sized
              ∙ push-recent capacity seen value h.positive)
            known.1;
    }

add_all-Recalls :
    (rb : RingBuffer) (capacity : ℕ) (seen values : List ℤ)
    → Recalls capacity seen rb
    → Returns (Recalls capacity (seen ++ values)) (add_all rb values)
unfolding add_all
add_all-Recalls rb capacity seen [] h =
    returns (subst (λ l. Recalls capacity l rb) (sym (append-nil seen)) h)
add_all-Recalls rb capacity seen (value ∷ values) h =
    Returns-bind (add-Recalls rb capacity seen value h) λ r known.
      Returns-map (add_all-Recalls r capacity (seen ++ value ∷ []) values known)
        λ r' held. subst (λ l. Recalls capacity l r') (append_assoc seen (value ∷ []) values) held

pub get_all-Recalls :
    (rb : RingBuffer) (capacity : ℕ) (seen : List ℤ)
    → Recalls capacity seen rb
    → get_all rb ≡ ok (recent capacity seen)
get_all-Recalls rb capacity seen h = get_all-Holds rb (recent capacity seen) h.holds

-- After a run of Add on a new buffer of positive capacity, none of which panics, GetAll returns the
-- last values that were added, as many as the capacity and oldest first, or all of them if there
-- are fewer.
pub get_all-add_all :
    (capacity : ℕ) (values : List ℤ)
    → 0 < capacity
    → (add_all (new_ring_buffer capacity) values >>= get_all) ≡ ok (recent capacity values)
get_all-add_all capacity values p =
    let (r, e, held) = Returns-inv (
      add_all-Recalls (new_ring_buffer capacity) capacity [] values
        (new_ring_buffer-Recalls capacity p)) in
    rw (e) (get_all-Recalls r capacity values held)
