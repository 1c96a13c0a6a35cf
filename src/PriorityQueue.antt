-- ===== src/PriorityQueue.antt =====
-- The type PriorityQueue of shared/priority_queue.go and its operations, for priorities of type
-- int64, the one that the programs use. Each exported operation holds the mutex to its end, so it
-- is one step. A result `(p, v, true)` is `some (p, v)`, `(zero, zero, false)` is `none`, and an
-- index out of range is a panic.
pub mod Sift
pub mod Order
pub mod Empty
pub mod Update
pub mod Extract
pub mod Remove
pub mod Sorted
pub mod Validate
pub mod Subset
pub mod Entries
use scalability_engineering.Prelude.{
  ℕ, zero, suc, ◌+◌, ◌-◌, ◌*◌, ◌/◌, ◌^◌, ◌≡◌, Bool, true, false, not, Option, none, some, List, [],
  ◌∷◌, ◌++◌, Run, ok, out_of_fuel, ◌>>=◌, or_panic, length, get_elem?, set, take, ◌==◌, ltb, leb,
  if◌then◌else◌, ℤ, ltb_ℤ, leb_ℤ,
}
use scalability_engineering.Prelude.GoMap
use scalability_engineering.Prelude.GoMap.{GoMap}
use scalability_engineering.Index.{find, IsIndex}

pub record PriorityQueue (V : Type 0) : Type 0 where
  pub priorities : List ℤ
  pub values : List V
  pub index_map : GoMap V ℕ

abbrev pub parent : ℕ → ℕ
parent i = (i - 1) / 2

module _ {V : Type 0} where
  unfoldable pub new_priority_queue : PriorityQueue V
  new_priority_queue = record { priorities = []; values = []; index_map = GoMap.empty }

  -- `pq.priorities[i]`
  abbrev pub priority_at : PriorityQueue V → ℕ → Run ℤ
  priority_at q i = or_panic (get_elem? q.priorities i)

  abbrev pub value_at : PriorityQueue V → ℕ → Run V
  value_at q i = or_panic (get_elem? q.values i)

  unfoldable pub peek : PriorityQueue V → Run (Option (ℤ × V))
  peek q =
      if length q.priorities == 0
      then ok none
      else (do p ← priority_at q 0; v ← value_at q 0; ok (some (p, v)))

  -- A negative index is not in the range either.
  unfoldable pub get : PriorityQueue V → ℕ → Run (Option (ℤ × V))
  get q index =
      if leb (length q.priorities) index
      then ok none
      else (do p ← priority_at q index; v ← value_at q index; ok (some (p, v)))

  unfoldable pub get_priority_at : PriorityQueue V → ℕ → Run (Option ℤ)
  get_priority_at q index =
      if leb (length q.priorities) index then ok none else (do p ← priority_at q index; ok (some p))

  unfoldable pub get_value_at : PriorityQueue V → ℕ → Run (Option V)
  get_value_at q index =
      if leb (length q.values) index then ok none else (do v ← value_at q index; ok (some v))

  unfoldable pub size : PriorityQueue V → ℕ
  size q = length q.priorities

  unfoldable pub is_empty : PriorityQueue V → Bool
  unfolding size
  is_empty q = size q == 0

  unfoldable pub clear : PriorityQueue V → PriorityQueue V
  clear q = record { priorities = []; values = []; index_map = GoMap.empty }

  unfoldable pub to_slices : PriorityQueue V → List ℤ × List V
  to_slices q = (q.priorities, q.values)

  -- One test of heapifyDown: the child if it exists and is less.
  unfoldable pub lesser : PriorityQueue V → ℕ → ℕ → Run ℕ
  lesser q child smallest =
      if ltb child (length q.priorities)
      then (do
        a ← priority_at q child
        b ← priority_at q smallest
        ok (if ltb_ℤ a b then child else smallest))
      else ok smallest

module _ {V : Type 0} (dec : Discrete V) where
  -- The two values are read back after the exchange, as the source does.
  unfoldable pub swap : PriorityQueue V → ℕ → ℕ → Run (PriorityQueue V)
  swap q i j = do
    pi ← priority_at q i
    pj ← priority_at q j
    vi ← value_at q i
    vj ← value_at q j
    let values = set (set q.values i vj) j vi
    xi ← or_panic (get_elem? values i)
    xj ← or_panic (get_elem? values j)
    ok (record {
      priorities = set (set q.priorities i pj) j pi;
      values = values;
      index_map = GoMap.insert dec xj j (GoMap.insert dec xi i q.index_map);
    })

  unfoldable pub heapify_up_loop : ℕ → PriorityQueue V → ℕ → Run (PriorityQueue V)
  heapify_up_loop zero q index = out_of_fuel
  heapify_up_loop (suc fuel) q index =
      let climb = swap q index (parent index) >>= λ q'. heapify_up_loop fuel q' (parent index) in
      let test : Run (PriorityQueue V) = do
        p ← priority_at q index
        above ← priority_at q (parent index)
        if leb_ℤ above p then ok q else climb
      in if ltb 0 index then test else ok q

  unfoldable pub heapify_up : PriorityQueue V → ℕ → Run (PriorityQueue V)
  unfolding heapify_up_loop
  heapify_up q index = heapify_up_loop (index + 1) q index

  unfoldable pub heapify_down_loop : ℕ → PriorityQueue V → ℕ → Run (PriorityQueue V)
  heapify_down_loop zero q index = out_of_fuel
  heapify_down_loop (suc fuel) q index = do
    left ← lesser q (2 * index + 1) index
    smallest ← lesser q (2 * index + 2) left
    let sink = swap q index smallest >>= λ q'. heapify_down_loop fuel q' smallest
    if smallest == index then ok q else sink

  unfoldable pub heapify_down : PriorityQueue V → ℕ → Run (PriorityQueue V)
  unfolding heapify_down_loop
  heapify_down q index = heapify_down_loop (length q.priorities + 1) q index

  -- true: added; false: the priority was updated.
  unfoldable pub insert : PriorityQueue V → ℤ → V → Run (PriorityQueue V × Bool)
  insert q priority value = elim (GoMap.lookup dec value q.index_map) [
    | some index ↦ do
      old ← priority_at q index
      let written = record q { priorities = set q.priorities index priority }
      q' ←
          if ltb_ℤ priority old
          then heapify_up written index
          else if ltb_ℤ old priority
          then heapify_down written index
          else ok written
      ok (q', false)
    | none ↦ do
      let index = length q.priorities
      q' ←
          heapify_up
            (record {
              priorities = q.priorities ++ priority ∷ [];
              values = q.values ++ value ∷ [];
              index_map = GoMap.insert dec value index q.index_map;
            })
            index
      ok (q', true)
  ]

  -- ExtractMin of a queue that is not empty, from the removal of the root's value on.
  unfoldable pub extract_root : PriorityQueue V → Run (PriorityQueue V × Option (ℤ × V))
  extract_root q = do
    min_priority ← priority_at q 0
    min_value ← value_at q 0
    let deleted = GoMap.delete dec min_value q.index_map
    let last = length q.priorities - 1
    let replace : Run (PriorityQueue V) = do
      last_priority ← priority_at q last
      last_value ← value_at q last
      heapify_down
          (record {
            priorities = take last (set q.priorities 0 last_priority);
            values = take last (set q.values 0 last_value);
            index_map = GoMap.insert dec last_value 0 deleted;
          })
          0
    q' ←
        if last == 0
        then ok (record { priorities = []; values = []; index_map = deleted })
        else replace
    ok (q', some (min_priority, min_value))

  unfoldable pub extract_min : PriorityQueue V → Run (PriorityQueue V × Option (ℤ × V))
  unfolding extract_root
  extract_min q = if length q.priorities == 0 then ok (q, none) else extract_root q

  unfoldable pub extract_min_bulk : PriorityQueue V → ℕ → Run (PriorityQueue V)
  unfolding extract_min
  extract_min_bulk q zero = ok q
  extract_min_bulk q (suc m) = do
    (q', r) ← extract_min q
    elim r [ none ↦ ok q' | some _ ↦ extract_min_bulk q' m ]

  unfoldable pub contains : PriorityQueue V → V → Bool
  contains q value = elim (GoMap.lookup dec value q.index_map) [ none ↦ false | some _ ↦ true ]

  unfoldable pub get_priority : PriorityQueue V → V → Run (Option ℤ)
  get_priority q value = elim (GoMap.lookup dec value q.index_map) [
    | none ↦ ok none
    | some index ↦ do p ← priority_at q index; ok (some p)
  ]

  -- The end of Remove: up if the element is less than its parent, else down.
  unfoldable pub restore_at : PriorityQueue V → ℕ → Run (PriorityQueue V)
  restore_at q index =
      let test : Run Bool = do
        p ← priority_at q index
        above ← priority_at q (parent index)
        ok (ltb_ℤ p above)
      in do
        rise ← if ltb 0 index then test else ok false
        if rise then heapify_up q index else heapify_down q index

  -- Remove of a value at `index`, from the deletion on.
  unfoldable pub remove_at : PriorityQueue V → V → ℕ → Run (PriorityQueue V)
  remove_at q value index =
      let deleted = GoMap.delete dec value q.index_map in
      let last = length q.priorities - 1 in
      let replace : Run (PriorityQueue V) = do
        last_priority ← priority_at q last
        last_value ← value_at q last
        restore_at
            (record {
              priorities = take last (set q.priorities index last_priority);
              values = take last (set q.values index last_value);
              index_map = GoMap.insert dec last_value index deleted;
            })
            index
      in if index == last
        then ok (record {
          priorities = take last q.priorities;
          values = take last q.values;
          index_map = deleted;
        })
        else replace

  unfoldable pub remove : PriorityQueue V → V → Run (PriorityQueue V × Bool)
  unfolding remove_at
  remove q value = elim (GoMap.lookup dec value q.index_map) [
    | none ↦ ok (q, false)
    | some index ↦ do q' ← remove_at q value index; ok (q', true)
  ]

  -- What the queue stands for: the priority of each value in it.
  abbrev pub view : PriorityQueue V → V → Option ℤ
  view q = find dec q.index_map q.priorities

  -- The slices have one length, and `index_map` says where each value stands.
  pub record IsTable (q : PriorityQueue V) : Type 0 where
    pub paired : length q.priorities ≡ length q.values
    pub index : IsIndex dec q.values q.index_map
