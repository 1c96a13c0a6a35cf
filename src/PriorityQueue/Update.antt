-- ===== src/PriorityQueue/Update.antt =====
-- Insert.
use scalability_engineering.Prelude.{
  ℕ, ◌+◌, ◌≡◌, ◌∙◌, Bool, true, false, none, some, [], ◌∷◌, ◌++◌, arith, ite, Option-cases, inl,
  inr, Returns, returns, Returns-bind, length, get_elem?-some, length-set, length-concat, ◌<◌, set,
  ℤ, ◌≤ℤ◌, ◌<ℤ◌, ltb_ℤ, ◌==◌, if◌then◌else◌, Returns-if,
}
use scalability_engineering.Prelude.GoMap
use scalability_engineering.Index.{lookup-lt}
use scalability_engineering.Index.Grow.{IsIndex-concat, find-concat, find-set}
use scalability_engineering.PriorityQueue.{PriorityQueue, parent, insert, view, IsTable, size}
use scalability_engineering.PriorityQueue.Order.{
  prio, get_elem?-prio, prio-set, prio-concat, IsHeap, Hole, FitsBelow, FitsAbove, Hole-set,
}
use scalability_engineering.PriorityQueue.Sift.{
  Sifted, IsValid, same_self, heapify_up-Sifted, heapify_down-Sifted,
}

module _ {V : Type 0} (dec : Discrete V) where
  -- `r` is the queue with `p` as the priority of `v`, and whether `v` is new.
  pub record Inserted (q : PriorityQueue V) (p : ℤ) (v : V) (r : PriorityQueue V × Bool)
      : Type 0 where
    pub valid : IsValid dec r.0
    pub added : r.1 ≡ elim (view dec q v) [ none ↦ true | some _ ↦ false ]
    pub after : (w : V) → view dec r.0 w ≡ ite (dec v w) (some p) (view dec q w)
    pub sized : size r.0 ≡ size q + (if r.1 then 1 else 0)

  module _ (q : PriorityQueue V) (valid : IsValid dec q) (p : ℤ) (v : V) where
    t : IsTable dec q
    t = valid.table

    -- The queue in which Insert has written the priority.
    abbrev written : ℕ → PriorityQueue V
    written i = record q { priorities = set q.priorities i p }

    written-IsTable : (i : ℕ) → IsTable dec (written i)
    written-IsTable i = record {
      paired = omega (arith, t.paired, length-set q.priorities i p);
      index = t.index;
    }

    -- The queue in which Insert has appended the value.
    abbrev grown : PriorityQueue V
    grown = record {
      priorities = q.priorities ++ p ∷ [];
      values = q.values ++ v ∷ [];
      index_map = GoMap.insert dec v (length q.priorities) q.index_map;
    }

    grown-IsTable : GoMap.lookup dec v q.index_map ≡ none → IsTable dec grown
    grown-IsTable e = record {
      paired = omega (arith, t.paired, length-concat q.priorities p, length-concat q.values v);
      index = rw t.paired (IsIndex-concat dec t.index q.priorities t.paired v e);
    }

    grown-Hole : Hole grown.priorities (length q.priorities)
    grown-Hole = record {
      inside = omega (arith, length-concat q.priorities p);
      away = λ c r s x y. ground (
        arith,
        length-concat q.priorities p,
        valid.heap c,
        prio-concat q.priorities p c,
        prio-concat q.priorities p (parent c),
      );
      across = λ c r s x y. absurd (omega (arith, length-concat q.priorities p));
    }

    grown_end : FitsBelow grown.priorities (length q.priorities)
    grown_end = λ c r s x. absurd (omega (arith, length-concat q.priorities p))

    appended :
        GoMap.lookup dec v q.index_map ≡ none
        → (q' : PriorityQueue V) → Sifted dec grown q'
        → Inserted q p v (q', true)
    unfolding size
    appended e q' s = record {
      valid = record { table = s.same.table; heap = s.heap };
      added = ground arith;
      after = λ w.
          s.same.viewed w ∙ rw t.paired (find-concat dec t.index q.priorities t.paired v e p w);
      sized = omega (arith, s.same.sized, length-concat q.priorities p);
    }

    module _ (i : ℕ) (e : GoMap.lookup dec v q.index_map ≡ some i) where
      inside : i < length q.priorities
      inside = omega (arith, t.paired, lookup-lt dec t.index v i e)

      at : (c : ℕ) → prio (set q.priorities i p) c ≡ (if i == c then p else prio q.priorities c)
      at c = prio-set q.priorities i p c inside

      updated : (q' : PriorityQueue V) → Sifted dec (written i) q' → Inserted q p v (q', false)
      unfolding size
      updated q' s = record {
        valid = record { table = s.same.table; heap = s.heap };
        added = ground (arith, get_elem?-some q.priorities i inside);
        after = λ w. s.same.viewed w ∙ find-set dec t.index q.priorities t.paired v i p w e;
        sized = omega (arith, s.same.sized, length-set q.priorities i p);
      }

      lower : p <ℤ prio q.priorities i → FitsBelow (set q.priorities i p) i
      lower less = λ c r s x. ground (arith, at c, at i, valid.heap c, length-set q.priorities i p)

      higher : prio q.priorities i ≤ℤ p → FitsAbove (set q.priorities i p) i
      higher less = λ r. ground (arith, inside, at i, at (parent i), valid.heap i)

      same_priority :
          prio q.priorities i ≤ℤ p → p ≤ℤ prio q.priorities i → IsHeap (set q.priorities i p)
      same_priority a b =
          λ c r s. ground (arith, at c, at (parent c), valid.heap c, length-set q.priorities i p)

    -- Insert on a valid queue ends without a panic and leaves a valid queue: the value has the new
    -- priority, all other values keep theirs, and the result says whether the value is new.
    pub insert-Inserted : Returns (Inserted q p v) (insert dec q p v)
    unfolding insert
    insert-Inserted = elim (Option-cases (GoMap.lookup dec v q.index_map)) [
      | inl e ↦
          rw (e, insert)
            (Returns-bind
              (heapify_up-Sifted dec grown (length q.priorities) (grown-IsTable e) grown-Hole
                grown_end)
              λ q' s. returns (appended e q' s))
      | inr (i, e) ↦
          rw (e, insert, get_elem?-prio q.priorities i (inside i e))
            (Returns-bind
              (Returns-if (ltb_ℤ p (prio q.priorities i))
                (λ less.
                  heapify_up-Sifted dec (written i) i (written-IsTable i)
                    (Hole-set _ i p valid.heap (inside i e)) (lower i e (ground arith)))
                (λ more.
                  Returns-if (ltb_ℤ (prio q.priorities i) p)
                    (λ less.
                      heapify_down-Sifted dec (written i) i (written-IsTable i)
                        (Hole-set _ i p valid.heap (inside i e)) (higher i e (ground arith)))
                    (λ equal. returns (record {
                      same = same_self dec (written i) (written-IsTable i);
                      heap = same_priority i e (ground arith) (ground arith);
                    }))))
              λ q' s. returns (updated i e q' s))
    ]
