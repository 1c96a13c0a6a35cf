-- ===== src/HashMap/Listing.antt =====
-- Entries and the random draws.
use native.Mathlib.Nat.{add-zero, zero-add}
use scalability_engineering.Prelude.{
  ℕ, zero, suc, ◌+◌, ◌≡◌, refl, sym, ap, ◌∙◌, Option, none, some, List, ◌∷◌, arith, Option-cases,
  inl, inr, Returns, returns, Returns-bind, Returns-map, length, get_elem?-some, get_elem?-none,
  ◌≢◌, ◌<◌, ◌≤◌, get_elem?, ◌==◌, if◌then◌else◌, Bool-cases,
}
use scalability_engineering.Prelude.GoMap.{lookup}
use scalability_engineering.Index.{lookup-lt, place_unique}
use scalability_engineering.HashMap.{
  HashMap, Entry, size, IsValid, view, entries_from, entries, random_entry, random_entries,
}

-- The entry at a position of two parallel slices.
abbrev pub pair_at : {K V : Type 0} → List K → List V → ℕ → Option (Entry K V)
pair_at keys values i = elim (get_elem? keys i) [
  | none ↦ none
  | some k ↦ elim (get_elem? values i) [
    | none ↦ none
    | some a ↦ some (record { key = k; value = a })
  ]
]

pair_at-some :
    {K V : Type 0} (keys : List K) (values : List V) (i : ℕ) (k : K) (a : V)
    → get_elem? keys i ≡ some k
    → get_elem? values i ≡ some a
    → pair_at keys values i ≡ some (record { key = k; value = a })
pair_at-some keys values i k a ek ea = ground arith

pair_at-none :
    {K V : Type 0} (keys : List K) (values : List V) (i : ℕ)
    → length keys ≤ i
    → pair_at keys values i ≡ none
pair_at-none keys values i h = ground (arith, get_elem?-none keys i h)

abbrev pub ListedFrom : {K V : Type 0} → List K → List V → ℕ → ℕ → List (Entry K V) → Type 0
ListedFrom keys values rounds i es =
    (length es ≡ rounds) × ((j : ℕ) → get_elem? es j ≡ pair_at keys values (i + j))

ListedFrom-cons :
    {K V : Type 0} (keys : List K) (values : List V) (rounds i : ℕ) (k : K) (a : V)
    → get_elem? keys i ≡ some k
    → get_elem? values i ≡ some a
    → (es : List (Entry K V)) → ListedFrom keys values rounds (i + 1) es
    → ListedFrom keys values (suc rounds) i (record { key = k; value = a } ∷ es)
ListedFrom-cons keys values rounds i k a ek ea es l = (ap suc l.0, at)
  where
    at : (j : ℕ) → get_elem? (record { key = k; value = a } ∷ es) j ≡ pair_at keys values (i + j)
    at zero = rw (add-zero i) (sym (pair_at-some keys values i k a ek ea))
    at (suc j) = let e : i + suc j ≡ i + 1 + j = omega arith in rw e (l.1 j)

pub entries_from-Listed :
    {K V : Type 0} (keys : List K) (values : List V) (rounds i : ℕ)
    → length values ≡ length keys
    → rounds + i ≡ length keys
    → Returns (ListedFrom keys values rounds i) (entries_from keys values rounds i)
unfolding entries_from
entries_from-Listed keys values zero i p q =
    returns (refl, λ j. sym (pair_at-none keys values (i + j) (omega arith)))
entries_from-Listed keys values (suc rounds) i p q =
    let (k, ek) = get_elem?-some keys i (omega arith) in
    let (a, ea) = get_elem?-some values i (omega arith) in
    rw (ek, ea)
      (Returns-bind (entries_from-Listed keys values rounds (i + 1) p (omega arith))
        λ es l. returns (ListedFrom-cons keys values rounds i k a ek ea es l))

module _ {K V : Type 0} (dec : Discrete K) where
  -- `es` lists the bindings of the map: as many as it has keys, each of them, nothing else, and
  -- no key twice.
  pub record Lists (h : HashMap K V) (es : List (Entry K V)) : Type 0 where
    pub sized : length es ≡ size h
    pub sound : (i : ℕ) (e : Entry K V) → get_elem? es i ≡ some e → view dec h e.key ≡ some e.value
    pub complete :
        (k : K) (a : V)
        → view dec h k ≡ some a
        → (i : ℕ) × (get_elem? es i ≡ some (record { key = k; value = a }))
    pub distinct :
        (i j : ℕ) (e f : Entry K V)
        → get_elem? es i ≡ some e
        → get_elem? es j ≡ some f
        → e.key ≡ f.key
        → i ≡ j

  module _ (h : HashMap K V) (v : IsValid dec h) where
    abbrev At : ℕ → Entry K V → Type 0
    At i e = (get_elem? h.keys i ≡ some e.key) × (get_elem? h.values i ≡ some e.value)

    pair_at-At : (i : ℕ) (e : Entry K V) → pair_at h.keys h.values i ≡ some e → At i e
    pair_at-At i e p = elim (Option-cases (get_elem? h.keys i)) [
      | inl n ↦ ground arith
      | inr (k, ek) ↦ elim (Option-cases (get_elem? h.values i)) [
        | inl n ↦ ground arith
        | inr (a, ea) ↦ ground arith
      ]
    ]

    Listed-Lists :
        (es : List (Entry K V)) → ListedFrom h.keys h.values (length h.keys) 0 es → Lists h es
    unfolding size
    Listed-Lists es l = record {
      sized = l.0;
      sound = λ i e p. let at = at_place i e p in ground (arith, v.index.found e.key i at.0, at.1);
      complete = λ k a p. elim (Option-cases (lookup dec k h.index_map)) [
        | inl n ↦ absurd (ground arith)
        | inr (i, n) ↦ (
          i,
          l.1 i
              ∙ rw (zero-add i)
                  (pair_at-some h.keys h.values i k a (v.index.inside k i n) (ground arith)),
        )
      ];
      distinct = λ i j e f p q r.
          place_unique dec v.index f.key i j (rw r at (at_place i e p).0) (at_place j f q).0;
    }
      where
        at_place : (i : ℕ) (e : Entry K V) → get_elem? es i ≡ some e → At i e
        at_place i e p = pair_at-At i e (rw (zero-add i) at (sym (l.1 i) ∙ p))

    -- Entries never panics on a valid map, and lists its bindings.
    pub entries-Lists : Returns (Lists h) (entries h)
    unfolding entries
    entries-Lists =
        Returns-map (entries_from-Listed h.keys h.values (length h.keys) 0 v.paired (omega arith))
          Listed-Lists

    view_nonempty : (k : K) (a : V) → view dec h k ≡ some a → size h ≢ 0
    unfolding size
    view_nonempty k a e = elim (Option-cases (lookup dec k h.index_map)) [
      | inl n ↦ absurd (ground arith)
      | inr (i, n) ↦ λ z. absurd (omega (arith, lookup-lt dec v.index k i n))
    ]

    -- What a random draw may return: nothing from the empty map only, else a binding.
    abbrev pub Drawn : Option (K × V) → Type 0
    Drawn none = size h ≡ 0
    Drawn (some (k, a)) = view dec h k ≡ some a

    -- RandomEntry never panics on a valid map, if the generator's Intn stays below its bound.
    pub random_entry-Drawn :
        (intn : ℕ → ℕ) → ((n : ℕ) → 0 < n → intn n < n) → Returns Drawn (random_entry intn h)
    unfolding random_entry size
    random_entry-Drawn intn below = elim (Bool-cases (length h.keys == 0)) [
      | inl e ↦ rw (e, random_entry) (returns (ground arith))
      | inr e ↦
          let lt = below (length h.keys) (ground arith) in
          let (k, ek) = get_elem?-some h.keys (intn (length h.keys)) lt in
          let (a, ea) =
            get_elem?-some h.values (intn (length h.keys)) (omega (arith, v.paired, lt)) in
          rw (e, random_entry, ek, ea) (returns (ground (arith, v.index.found k _ ek)))
    ]

    abbrev AllDrawn : ℕ → List (Entry K V) → Type 0
    AllDrawn n es =
        (length es ≡ (if size h == 0 then 0 else n))
        × ((i : ℕ) (e : Entry K V) → get_elem? es i ≡ some e → view dec h e.key ≡ some e.value)

    add-Drawn :
        (drawn : Option (K × V))
        → Drawn drawn
        → (n : ℕ) (rest : List (Entry K V)) → AllDrawn n rest
        → AllDrawn
            (suc n)
            (elim drawn [ none ↦ rest | some (k, a) ↦ record { key = k; value = a } ∷ rest ])
    add-Drawn none d n rest r = (ground arith, r.1)
    add-Drawn (some (k, a)) d n rest r = (ground (arith, nonempty), at)
      where
        nonempty : size h ≢ 0
        nonempty = view_nonempty k a d

        at :
            (i : ℕ) (e : Entry K V)
            → get_elem? (record { key = k; value = a } ∷ rest) i ≡ some e
            → view dec h e.key ≡ some e.value
        at zero e p = ground arith
        at (suc i) e p = r.1 i e p

    -- RandomEntries never panics on a valid map: it returns no entry if the map is empty, else as
    -- many as asked for, each of them a binding of the map.
    pub random_entries-Drawn :
        (intns : ℕ → ℕ → ℕ) (n : ℕ)
        → ((i m : ℕ) → 0 < m → intns i m < m)
        → Returns
            (λ es.
              (length es ≡ (if size h == 0 then 0 else n))
              × ((i : ℕ) (e : Entry K V)
                  → get_elem? es i ≡ some e
                  → view dec h e.key ≡ some e.value))
            (random_entries intns h n)
    unfolding random_entries
    random_entries-Drawn intns zero below = returns (ground arith, λ i e p. cc)
    random_entries-Drawn intns (suc n) below =
        Returns-bind (random_entry-Drawn (intns zero) (below zero)) λ drawn d.
          Returns-bind (random_entries-Drawn (λ i. intns (suc i)) n (λ i. below (suc i)))
            λ rest r. returns (add-Drawn drawn d n rest r)
