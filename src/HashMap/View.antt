-- ===== src/HashMap/View.antt =====
-- Put, Get, Remove, Clear and PutAll against the partial function that the map stands for.
use scalability_engineering.Prelude.{
  ℕ, suc, ◌+◌, ◌-◌, ◌≡◌, refl, true, false, Option, none, some, ok, arith, ite, Option-cases, inl,
  inr, Returns, returns, length, get_elem?-some, length-set, length-concat, length-take, ◌≢◌,
  ℕ_discrete, get_elem?, set, take,
}
use scalability_engineering.Prelude.GoMap.{lookup, insert}
use scalability_engineering.Index.{lookup-lt}
use scalability_engineering.Index.Grow.{IsIndex-concat, find-concat, find-set}
use scalability_engineering.Index.Shrink.{
  IsIndex-take, find-take, IsIndex-take-set, find-take-set, lookup-delete-insert,
  size-delete-insert,
}
use scalability_engineering.HashMap.{
  HashMap, size, put, get, contains_key, vacate, remove, IsValid, view,
}

module _ {K V : Type 0} (dec : Discrete K) where
  -- What is not an entry stays as it was.
  pub record SameRest (h h' : HashMap K V) : Type 0 where
    pub persistence : h'.persistence ≡ h.persistence
    pub pending : h'.pending ≡ h.pending
    pub stopped : h'.stopped ≡ h.stopped
    pub version : h'.current_version ≡ h.current_version

  -- `r` is the map with `value` at `key`, and what stood there.
  pub record Stored (h : HashMap K V) (key : K) (value : V) (r : HashMap K V × Option V)
      : Type 0 where
    pub valid : IsValid dec r.0
    pub previous : r.1 ≡ view dec h key
    pub after : (j : K) → view dec r.0 j ≡ ite (dec key j) (some value) (view dec h j)
    pub sized : length r.0.keys + elim r.1 [ none ↦ 0 | some _ ↦ 1 ] ≡ length h.keys + 1
    pub rest : SameRest h r.0

  pub record Removed (h : HashMap K V) (key : K) (r : HashMap K V × Option V) : Type 0 where
    pub valid : IsValid dec r.0
    pub previous : r.1 ≡ view dec h key
    pub after : (j : K) → view dec r.0 j ≡ ite (dec key j) none (view dec h j)
    pub sized : length r.0.keys + elim r.1 [ none ↦ 0 | some _ ↦ 1 ] ≡ length h.keys
    pub rest : SameRest h r.0

  module _ (h : HashMap K V) (v : IsValid dec h) where
    value_at :
        (key : K) (i : ℕ)
        → lookup dec key h.index_map ≡ some i
        → (a : V) × (get_elem? h.values i ≡ some a)
    value_at key i e =
        get_elem?-some h.values i (omega (arith, v.paired, lookup-lt dec v.index key i e))

    -- Put never panics on a valid map. It stores the value at the key, keeps all other keys, and
    -- returns what stood at the key before.
    pub put-Stored : (key : K) (value : V) → Returns (Stored h key value) (put dec h key value)
    unfolding put
    put-Stored key value = elim (Option-cases (lookup dec key h.index_map)) [
      | inl e ↦
          rw (e, put)
            (returns (record {
              valid = record {
                paired =
                    omega (arith, v.paired, length-concat h.values value, length-concat h.keys key);
                index = IsIndex-concat dec v.index h.values v.paired key e;
              };
              previous = ground arith;
              after = find-concat dec v.index h.values v.paired key e value;
              sized = omega (arith, length-concat h.keys key);
              rest = record { persistence = refl; pending = refl; stopped = refl; version = refl };
            }))
      | inr (i, e) ↦
          let (a, ea) = value_at key i e in
          rw (e, put, ea)
            (returns (record {
              valid = record {
                paired = omega (arith, v.paired, length-set h.values i value);
                index = v.index;
              };
              previous = ground arith;
              after = λ j. find-set dec v.index h.values v.paired key i value j e;
              sized = refl;
              rest = record { persistence = refl; pending = refl; stopped = refl; version = refl };
            }))
    ]

    -- Get never panics on a valid map, and returns what stands at the key.
    pub get-view : (key : K) → get dec h key ≡ ok (view dec h key)
    unfolding get
    get-view key = elim (Option-cases (lookup dec key h.index_map)) [
      | inl e ↦ ground arith
      | inr (i, e) ↦ let (a, ea) = value_at key i e in ground arith
    ]

    pub contains_key_iff :
        (key : K) → contains_key dec h key ≡ elim (view dec h key) [ none ↦ false | some _ ↦ true ]
    unfolding contains_key
    contains_key_iff key = elim (Option-cases (lookup dec key h.index_map)) [
      | inl e ↦ ground arith
      | inr (i, e) ↦ let (a, ea) = value_at key i e in ground arith
    ]

    vacate_last :
        (i : ℕ)
        → i ≡ length h.keys - 1
        → vacate dec h i ≡ ok (record h { keys = take i h.keys; values = take i h.values })
    unfolding vacate
    vacate_last i p = ground arith

    vacate_inner :
        (i n : ℕ) (l : K) (a : V)
        → length h.keys ≡ suc n
        → i ≢ n
        → get_elem? h.keys n ≡ some l
        → get_elem? h.values n ≡ some a
        → vacate dec h i
          ≡ ok (record h {
            keys = take n (set h.keys i l);
            values = take n (set h.values i a);
            index_map = insert dec l i h.index_map;
          })
    unfolding vacate
    vacate_inner i n l a size inner el ea =
        let e : length h.keys - 1 ≡ n = omega arith in rw (e, el, ea) (ground arith)

    -- Remove never panics on a valid map. It removes the key, keeps all other keys though one of
    -- them may change its place, and returns what stood at the key.
    pub remove-Removed : (key : K) → Returns (Removed h key) (remove dec h key)
    unfolding remove
    remove-Removed key = elim (Option-cases (lookup dec key h.index_map)) [
      | inl e ↦
          rw (e, remove)
            (returns (record {
              valid = v;
              previous = ground arith;
              after = λ j. ground arith;
              sized = omega arith;
              rest = record { persistence = refl; pending = refl; stopped = refl; version = refl };
            }))
      | inr (i, e) ↦
          let n = length h.keys - 1 in
          let size : length h.keys ≡ suc n = omega (arith, lookup-lt dec v.index key i e) in
          let (a, ea) = value_at key i e in
          elim (ℕ_discrete i n) [
            | yes p ↦
                let at : lookup dec key h.index_map ≡ some n = rw (← p) e in
                rw (e, remove, ea, vacate_last i p)
                  (returns (record {
                    valid = record {
                      paired =
                          omega (arith, v.paired, length-take i h.values, length-take i h.keys);
                      index = rw p (IsIndex-take dec v.index h.values v.paired n size key at);
                    };
                    previous = ground arith;
                    after = rw p (find-take dec v.index h.values v.paired n size key at);
                    sized = omega (arith, length-take i h.keys);
                    rest = record {
                      persistence = refl;
                      pending = refl;
                      stopped = refl;
                      version = refl;
                    };
                  }))
            | no q ↦
                let (l, el) = get_elem?-some h.keys n (omega arith) in
                let (b, eb) = get_elem?-some h.values n (omega (arith, v.paired)) in
                let other : l ≢ key = λ r. q (ground (arith, v.index.found l n el)) in
                let m = insert dec l i h.index_map in
                let looked =
                  lookup-delete-insert dec v.index h.values v.paired n size key i e l other in
                let sized =
                  size-delete-insert dec v.index h.values v.paired n size key i e l other n
                    (v.index.found l n el) in
                rw (e, remove, ea, vacate_inner i n l b size q el eb)
                  (returns (record {
                    valid = record {
                      paired = omega (
                        arith,
                        v.paired,
                        length-take n (set h.values i b),
                        length-take n (set h.keys i l),
                        length-set h.values i b,
                        length-set h.keys i l,
                      );
                      index =
                          IsIndex-take-set dec v.index h.values v.paired n size key i e q l el _
                            looked sized;
                    };
                    previous = ground arith;
                    after =
                        find-take-set dec v.index h.values v.paired n size key i e q l el _ looked
                          sized b eb;
                    sized = omega (arith, length-take n (set h.keys i l), length-set h.keys i l);
                    rest = record {
                      persistence = refl;
                      pending = refl;
                      stopped = refl;
                      version = refl;
                    };
                  }))
          ]
    ]
