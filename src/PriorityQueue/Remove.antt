-- ===== src/PriorityQueue/Remove.antt =====
-- Remove.
use scalability_engineering.Prelude.{
  ℕ, suc, ◌+◌, ◌-◌, ◌≡◌, sym, ◌∙◌, Bool, true, false, none, some, arith, ite, Option-cases, inl,
  inr, Returns, returns, Returns-bind, Returns-map, length, get_elem?-some, length-set, length-take,
  ◌≢◌, ◌<◌, get_elem?, set, take, ℤ, ltb_ℤ, ◌==◌, ltb, if◌then◌else◌, Returns-if, Bool-cases, ==→eq,
}
use scalability_engineering.Prelude.GoMap
use scalability_engineering.Index.{lookup-lt}
use scalability_engineering.Index.Shrink.{
  IsIndex-take, find-take, IsIndex-take-set, find-take-set, lookup-insert-delete,
  size-insert-delete,
}
use scalability_engineering.PriorityQueue.{
  PriorityQueue, parent, view, IsTable, size, remove, remove_at, restore_at,
}
use scalability_engineering.PriorityQueue.Order.{prio, get_elem?-prio, prio-set, prio-take, Hole}
use scalability_engineering.PriorityQueue.Sift.{
  Sifted, IsValid, heapify_up-Sifted, heapify_down-Sifted,
}

module _ {V : Type 0} (dec : Discrete V) where
  -- `r` is the queue without `v`, and whether `v` was in it.
  pub record Taken (q : PriorityQueue V) (v : V) (r : PriorityQueue V × Bool) : Type 0 where
    pub valid : IsValid dec r.0
    pub found : r.1 ≡ elim (view dec q v) [ none ↦ false | some _ ↦ true ]
    pub after : (w : V) → view dec r.0 w ≡ ite (dec v w) none (view dec q w)
    pub sized : size r.0 + (if r.1 then 1 else 0) ≡ size q

  -- `r` is in order, and stands for `q` without `v`.
  pub record Without (q : PriorityQueue V) (v : V) (r : PriorityQueue V) : Type 0 where
    pub valid : IsValid dec r
    pub after : (w : V) → view dec r w ≡ ite (dec v w) none (view dec q w)
    pub sized : length r.priorities + 1 ≡ length q.priorities

  -- What is left was there before.
  pub Without-kept :
      {q r : PriorityQueue V} {v : V}
      → Without q v r
      → (u : V) (s : ℤ) → view dec r u ≡ some s
      → view dec q u ≡ some s
  Without-kept {v} w u s e = elim (dec v u) [
    | yes x ↦ absurd (ground (arith, w.after u))
    | no x ↦ ground (arith, w.after u)
  ]

  module _ (q : PriorityQueue V) (valid : IsValid dec q) (v : V) (i n : ℕ)
      (e : GoMap.lookup dec v q.index_map ≡ some i) (size_eq : length q.priorities ≡ suc n) where
    t : IsTable dec q
    t = valid.table

    keys_size : length q.values ≡ suc n
    keys_size = sym t.paired ∙ size_eq

    -- The last element is cut off.
    abbrev pub cut : PriorityQueue V
    cut = record {
      priorities = take n q.priorities;
      values = take n q.values;
      index_map = GoMap.delete dec v q.index_map;
    }

    pub cut-Without : i ≡ n → Without q v cut
    cut-Without p =
        let at : GoMap.lookup dec v q.index_map ≡ some n = rw (← p) e in
        record {
          valid = record {
            table = record {
              paired =
                  omega
                    (arith, size_eq, keys_size, length-take n q.priorities, length-take n q.values);
              index = IsIndex-take dec t.index q.priorities t.paired n keys_size v at;
            };
            heap = λ c r s. ground (
              arith,
              length-take n q.priorities,
              prio-take n q.priorities c,
              prio-take n q.priorities (parent c),
              valid.heap c,
            );
          };
          after = find-take dec t.index q.priorities t.paired n keys_size v at;
          sized = omega (arith, length-take n q.priorities);
        }

    module _ (inner : i ≢ n) (l : V) (p : ℤ) (el : get_elem? q.values n ≡ some l)
        (ep : get_elem? q.priorities n ≡ some p) where
      -- The last element stands in the place of the removed one.
      abbrev pub moved : PriorityQueue V
      moved = record {
        priorities = take n (set q.priorities i p);
        values = take n (set q.values i l);
        index_map = GoMap.insert dec l i (GoMap.delete dec v q.index_map);
      }

      inside : i < n
      inside = omega (arith, keys_size, lookup-lt dec t.index v i e)

      moved_size : length moved.priorities ≡ n
      moved_size =
          omega (arith, length-take n (set q.priorities i p), length-set q.priorities i p, size_eq)

      pub moved-at :
          (c : ℕ) → c < n → prio moved.priorities c ≡ (if i == c then p else prio q.priorities c)
      moved-at c h =
          ground (arith, inside, prio-take n (set q.priorities i p) c, prio-set q.priorities i p c)

      other : l ≢ v
      other r = inner (ground (arith, t.index.found l n el))

      looked :
          (w : V)
          → GoMap.lookup dec w moved.index_map
            ≡ ite (dec v w) none (ite (dec l w) (some i) (GoMap.lookup dec w q.index_map))
      looked = lookup-insert-delete dec t.index q.priorities t.paired n keys_size v i e l other

      shrunk : GoMap.size dec moved.index_map + 1 ≡ GoMap.size dec q.index_map
      shrunk =
          size-insert-delete dec t.index q.priorities t.paired n keys_size v i e l other n
            (t.index.found l n el)

      pub moved-IsTable : IsTable dec moved
      moved-IsTable = record {
        paired = omega (
          arith,
          moved_size,
          keys_size,
          length-take n (set q.values i l),
          length-set q.values i l,
        );
        index =
            IsIndex-take-set dec t.index q.priorities t.paired n keys_size v i e inner l el _ looked
              shrunk;
      }

      pub moved-Hole : Hole moved.priorities i
      moved-Hole = record {
        inside = omega (arith, moved_size, inside);
        away =
            λ c r s x y. ground (arith, moved_size, moved-at c, moved-at (parent c), valid.heap c);
        across = λ c r s x y. ground (
          arith,
          moved_size,
          inside,
          moved-at c,
          moved-at (parent i),
          valid.heap c,
          valid.heap i,
        );
      }

      pub moved-Without : (r : PriorityQueue V) → Sifted dec moved r → Without q v r
      moved-Without r s = record {
        valid = record { table = s.same.table; heap = s.heap };
        after = λ w.
            s.same.viewed w
            ∙ find-take-set dec t.index q.priorities t.paired n keys_size v i e inner l el _ looked
                shrunk p ep w;
        sized = omega (arith, s.same.sized, moved_size);
      }

  restore_at-Sifted :
      (q : PriorityQueue V) (i : ℕ)
      → IsTable dec q
      → Hole q.priorities i
      → Returns (Sifted dec q) (restore_at dec q i)
  unfolding restore_at
  restore_at-Sifted q i t h =
      let reach : parent i < length q.priorities = omega (arith, h.inside) in
      rw (get_elem?-prio q.priorities i h.inside, get_elem?-prio q.priorities (parent i) reach)
        (elim (Bool-cases (ltb 0 i)) [
          | inl some_parent ↦ rw some_parent (
              Returns-if (ltb_ℤ (prio q.priorities i) (prio q.priorities (parent i)))
                (λ less. heapify_up-Sifted dec q i t h λ c r s x. ground (arith, h.across c))
                (λ more. heapify_down-Sifted dec q i t h (ground arith)))
          | inr root ↦ rw root (heapify_down-Sifted dec q i t h (ground arith))
        ])

  remove_at-Without :
      (q : PriorityQueue V) (valid : IsValid dec q) (v : V) (i : ℕ)
      → GoMap.lookup dec v q.index_map ≡ some i
      → Returns (Without q v) (remove_at dec q v i)
  unfolding remove_at
  remove_at-Without q valid v i e =
      let n = length q.priorities - 1 in
      let size_eq : length q.priorities ≡ suc n =
        omega (arith, valid.table.paired, lookup-lt dec valid.table.index v i e) in
      Returns-if (i == n) (λ p. returns (cut-Without q valid v i n e size_eq (==→eq i n p)))
        (λ r.
          let inner : i ≢ n = ground arith in
          let (l, el) = get_elem?-some q.values n (omega (arith, valid.table.paired)) in
          let (p, ep) = get_elem?-some q.priorities n (omega arith) in
          rw (el, ep)
            (Returns-map
              (restore_at-Sifted _ i (moved-IsTable q valid v i n e size_eq inner l p el ep)
                (moved-Hole q valid v i n e size_eq inner l p el ep))
              (moved-Without q valid v i n e size_eq inner l p el ep)))

  -- Remove on a valid queue ends without a panic and leaves a valid queue: the value is gone, all
  -- other values keep their priorities, and the result says whether the value was there.
  pub remove-Taken :
      (q : PriorityQueue V) (v : V) → IsValid dec q → Returns (Taken q v) (remove dec q v)
  unfolding remove size
  remove-Taken q v valid = elim (Option-cases (GoMap.lookup dec v q.index_map)) [
    | inl e ↦
        rw (e, remove)
          (returns (record {
            valid = valid;
            found = ground arith;
            after = λ w. ground arith;
            sized = omega arith;
          }))
    | inr (i, e) ↦
        let (p, ep) =
          get_elem?-some q.priorities i
            (omega (arith, valid.table.paired, lookup-lt dec valid.table.index v i e)) in
        rw (e, remove)
          (Returns-bind (remove_at-Without q valid v i e) λ r s.
            returns
              (record { valid = s.valid; found = ground arith; after = s.after; sized = s.sized }))
  ]
