-- ===== src/PriorityQueue/Subset.antt =====
-- GetRandomSubset and fastRand.
pub mod Rejection
pub mod Reservoir
use scalability_engineering.Prelude.{
  ℕ, zero, suc, ◌+◌, ◌-◌, ◌||◌, ◌≡◌, refl, sym, ap, ◌∙◌, Bool, true, false, ◌&&◌, Option, none,
  some, List, [], ◌∷◌, ◌++◌, Run, ok, out_of_fuel, ◌↔◌, ◌⊎◌, ◌%◌, leb, pos_part, ◌>>=◌, or_panic,
  arith, ite, Option-cases, inl, inr, Returns, returns, Returns-bind, Returns-map, Returns-inv,
  length, get_elem?-some, get_elem?-lt, get_elem?-none, length-set, length-concat, length-take, ◌≢◌,
  ℕ_discrete, ◌<◌, ◌≤◌, get_elem?, set, take, ℤ, pos, ◌≤ℤ◌, ◌<ℤ◌, ◌+ℤ◌, ltb_ℤ, leb_ℤ, ◌*◌, ◌/◌,
  ◌==◌, ltb, if◌then◌else◌, Returns-if, get_elem?-swap, length-swap, Bool-cases, ltb→lt, ==→eq,
}
use scalability_engineering.Prelude.GoMap
use scalability_engineering.Index.{find, IsIndex, IsIndex-empty, lookup-lt}
use scalability_engineering.Index.Grow.{IsIndex-concat, find-concat, find-set}
use scalability_engineering.Index.Shrink.{
  IsIndex-take, find-take, IsIndex-take-set, find-take-set, lookup-insert-delete,
  size-insert-delete,
}
use scalability_engineering.PriorityQueue.{
  PriorityQueue, parent, heapify_up, heapify_down, insert, view, IsTable, size, extract_root,
  extract_min, extract_min_bulk, remove, remove_at, peek, get_priority, contains,
}
use scalability_engineering.PriorityQueue.Order.{
  prio, get_elem?-prio, prio-set, prio-concat, prio-take, IsHeap, Hole, FitsBelow, FitsAbove,
  Hole-IsHeap, Hole-set, root_least,
}
use scalability_engineering.PriorityQueue.Sift.{
  SameTable, Sifted, IsValid, heapify_up-Sifted, heapify_down-Sifted,
}

-- What fastRand takes from outside: the time in nanoseconds at its k-th call, and what
-- `rand.New(rand.NewSource(seed)).Int()` returns, which is not negative.
pub record Random : Type 0 where
  pub clock : ℕ → ℤ
  pub first_int : ℤ → ℕ

-- The k-th call, on a queue of so many values.
unfoldable pub fast_rand : Random → ℕ → ℕ → ℕ
fast_rand R count k = R.first_int (R.clock k +ℤ pos count)

-- The test against the values that are already selected.
unfoldable pub selected : {V : Type 0} → Discrete V → List V → V → Bool
selected dec [] v = false
selected dec (r ∷ rs) v = elim (dec v r) [ yes _ ↦ true | no _ ↦ selected dec rs v ]

-- `draws k` is what the k-th call of fastRand returns.
module _ {V : Type 0} (dec : Discrete V) (draws : ℕ → ℕ) (values : List V) where
  -- Draws until the value is not yet selected: it, and the number of draws so far.
  unfoldable pub draw_loop : ℕ → ℕ → List V → Run (V × ℕ)
  unfolding selected
  draw_loop zero k result = out_of_fuel
  draw_loop (suc fuel) k result =
      let again = draw_loop fuel (k + 1) result in
      do
        v ← or_panic (get_elem? values (draws k % length values))
        if selected dec result v then again else ok (v, k + 1)

  -- The outer loop of rejection sampling, for the elements still to select.
  unfoldable pub select_loop : ℕ → ℕ → ℕ → List V → Run (List V)
  unfolding draw_loop
  select_loop fuel zero k result = ok result
  select_loop fuel (suc rounds) k result = do
    (v, k') ← draw_loop fuel k result
    select_loop fuel rounds k' (result ++ v ∷ [])

  -- The loop of reservoir sampling: the rounds left, the draws so far, and `i`.
  unfoldable pub reservoir_loop : ℕ → ℕ → ℕ → List V → Run (List V)
  reservoir_loop zero k i result = ok result
  reservoir_loop (suc rounds) k i result =
      let j = draws k % (i + 1) in
      let replaced : Run (List V) = do v ← or_panic (get_elem? values i); ok (set result j v)
      in do
        result' ← if ltb j (length result) then replaced else ok result
        reservoir_loop rounds (k + 1) (i + 1) result'

-- `fuel` bounds the draws for one element.
unfoldable pub get_random_subset :
    {V : Type 0} → Discrete V → ℕ → Random → PriorityQueue V → ℤ → Run (List V)
unfolding select_loop reservoir_loop
get_random_subset dec fuel R q n =
    let count = length q.values in
    let draws = fast_rand R count in
    if leb_ℤ n (pos 0) || count == 0
    then ok []
    else if leb count (pos_part n)
    then ok q.values
    else if leb (pos_part n) (count / 2)
    then select_loop dec draws q.values fuel (pos_part n) 0 []
    else reservoir_loop dec draws q.values (count - pos_part n) 0 (pos_part n)
        (take (pos_part n) q.values)
