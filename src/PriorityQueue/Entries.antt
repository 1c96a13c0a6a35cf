-- ===== src/PriorityQueue/Entries.antt =====
-- GetSortedEntries of shared/priority_queue.go.
use scalability_engineering.Prelude.{
  ℕ, ◌≡◌, sym, ◌∙◌, ap, ◌≤◌, some, List, Run, ok, ◌>>=◌, length, get_elem?, ℤ, ◌≤ℤ◌, arith, Returns,
  returns, Returns-bind, Option-cases, inl, inr,
}
use scalability_engineering.Prelude.GoMap.{lookup}
use scalability_engineering.Prelude.Sorting.{SortsBy}
use scalability_engineering.HashMap.{Entry}
use scalability_engineering.HashMap.Listing.{pair_at, ListedFrom, entries_from-Listed}
use scalability_engineering.HashMap.{entries_from}
use scalability_engineering.PriorityQueue.{PriorityQueue, view}
use scalability_engineering.PriorityQueue.Sift.{IsValid}

module _ {V : Type 0} where
  -- `sort` is sort.Slice by priority; the loop over the two slices is that of HashMap's Entries.
  unfoldable pub get_sorted_entries :
      (List (Entry ℤ V) → List (Entry ℤ V)) → PriorityQueue V → Run (List (Entry ℤ V))
  get_sorted_entries sort q = do
    entries ← entries_from q.priorities q.values (length q.priorities) 0
    ok (sort entries)

module _ {V : Type 0} (dec : Discrete V) where
  -- The queue's values with their priorities, in ascending order of priority.
  pub record Ascends (q : PriorityQueue V) (es : List (Entry ℤ V)) : Type 0 where
    pub sized : length es ≡ length q.priorities
    pub ascending :
        (i j : ℕ) (e f : Entry ℤ V)
        → i ≤ j
        → get_elem? es i ≡ some e
        → get_elem? es j ≡ some f
        → e.key ≤ℤ f.key
    pub sound : (i : ℕ) (e : Entry ℤ V) → get_elem? es i ≡ some e → view dec q e.value ≡ some e.key
    pub complete :
        (v : V) (p : ℤ)
        → view dec q v ≡ some p
        → (i : ℕ) × (get_elem? es i ≡ some (record { key = p; value = v }))

  module _ (q : PriorityQueue V) (valid : IsValid dec q) (es : List (Entry ℤ V))
      (l : ListedFrom q.priorities q.values (length q.priorities) 0 es) where
    listed_at : (i : ℕ) → get_elem? es i ≡ pair_at q.priorities q.values i
    listed_at i = l.1 i ∙ ap (pair_at q.priorities q.values) (omega arith)

    listed_view :
        (i : ℕ) (e : Entry ℤ V) → get_elem? es i ≡ some e → view dec q e.value ≡ some e.key
    listed_view i e h = elim (Option-cases (get_elem? q.priorities i)) [
      | inl f ↦ absurd (ground (arith, listed_at i))
      | inr (p, f) ↦ elim (Option-cases (get_elem? q.values i)) [
        | inl g ↦ absurd (ground (arith, listed_at i))
        | inr (v, g) ↦ ground (arith, listed_at i, valid.table.index.found v i g)
      ]
    ]

    view_listed :
        (v : V) (p : ℤ)
        → view dec q v ≡ some p
        → (i : ℕ) × (get_elem? es i ≡ some (record { key = p; value = v }))
    view_listed v p h = elim (Option-cases (lookup dec v q.index_map)) [
      | inl f ↦ absurd (ground arith)
      | inr (i, f) ↦ (i, ground (arith, listed_at i, valid.table.index.inside v i f))
    ]

  -- GetSortedEntries on a valid queue does not panic; it lists each value with its priority, nothing
  -- else, as many entries as the queue has values, in ascending order of priority, if sort.Slice
  -- sorts.
  pub get_sorted_entries-Ascends :
      (sort : List (Entry ℤ V) → List (Entry ℤ V)) (q : PriorityQueue V)
      → SortsBy (λ e. e.key) sort
      → IsValid dec q
      → Returns (Ascends q) (get_sorted_entries sort q)
  unfolding get_sorted_entries
  get_sorted_entries-Ascends sort q sorts valid =
      Returns-bind
        (entries_from-Listed q.priorities q.values (length q.priorities) 0 (sym valid.table.paired)
          (omega arith))
        λ es l. returns (record {
          sized = sorts.kept_length es ∙ l.0;
          ascending = sorts.ascending es;
          sound = λ i e h. let (j, f) = sorts.kept es i e h in listed_view q valid es l j e f;
          complete = λ v p h. let (j, f) = view_listed q valid es l v p h in sorts.found es j _ f;
        })
