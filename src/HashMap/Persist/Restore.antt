-- ===== src/HashMap/Persist/Restore.antt =====
-- What LoadFromDisk restores.
use native.Mathlib.Nat.{zero-add}
use scalability_engineering.Prelude.{
  ℕ, zero, suc, ◌+◌, ◌≡◌, ◌≢◌, refl, sym, ap, ◌∙◌, Bool, true, false, none, some, List, [], ◌∷◌,
  arith, inl, inr, map, length, get_elem?, Option-cases, Returns, returns, Returns-bind, ℤ,
}
use scalability_engineering.Prelude.GoMap.{
  GoMap, empty, insert, lookup, size, lookup-insert, size-insert_new,
}
use scalability_engineering.Index.{Distinct, IsIndex}
use scalability_engineering.Index.Count.{IsIndex-of_placed, search_place, Distinct-tail}
use scalability_engineering.HashMap.{HashMap, Entry, IsValid, view}
use scalability_engineering.HashMap.Listing.{Lists, entries-Lists}
use scalability_engineering.HashMap.Persist.{
  Disk, Snapshot, create_snapshot, restore_index, load_from_disk, persist_snapshot, attempts,
  rounds_of,
}
use scalability_engineering.HashMap.Persist.Atomic.{IsDisk, Written, attempts-Written}

module _ {K V : Type 0} where
  abbrev keys_of : List (Entry K V) → List K
  keys_of = map (λ e. e.key)

  abbrev values_of : List (Entry K V) → List V
  values_of = map (λ e. e.value)

  length-map :
      {B : Type 0} (f : Entry K V → B) (es : List (Entry K V)) → length (map f es) ≡ length es
  length-map f [] = refl
  length-map f (e ∷ es) = ap suc (length-map f es)

  get_elem?-map :
      {B : Type 0} (f : Entry K V → B) (es : List (Entry K V)) (i : ℕ) (e : Entry K V)
      → get_elem? es i ≡ some e
      → get_elem? (map f es) i ≡ some (f e)
  get_elem?-map f [] i e h = absurd (ground arith)
  get_elem?-map f (d ∷ es) zero e h = ground arith
  get_elem?-map f (d ∷ es) (suc i) e h = get_elem?-map f es i e h

  get_elem?-map_inv :
      {B : Type 0} (f : Entry K V → B) (es : List (Entry K V)) (i : ℕ) (b : B)
      → get_elem? (map f es) i ≡ some b
      → (e : Entry K V) × (get_elem? es i ≡ some e) × (f e ≡ b)
  get_elem?-map_inv f [] i b h = absurd (ground arith)
  get_elem?-map_inv f (d ∷ es) zero b h = (d, refl, ground arith)
  get_elem?-map_inv f (d ∷ es) (suc i) b h = get_elem?-map_inv f es i b h

  module _ (dec : Discrete K) where
    restore-other :
        (es : List (Entry K V)) (i : ℕ) (m : GoMap K ℕ) (k : K)
        → ((c : ℕ) → get_elem? (keys_of es) c ≢ some k)
        → lookup dec k (restore_index dec es i m) ≡ lookup dec k m
    unfolding restore_index
    restore-other [] i m k out = refl
    restore-other (e ∷ es) i m k out =
        let other : e.key ≢ k = λ p. out 0 (ap some p) in
        restore-other es (i + 1) (insert dec e.key i m) k (λ c. out (suc c))
        ∙ ground (arith, lookup-insert dec e.key k i m)

    restore-placed :
        (es : List (Entry K V)) (i : ℕ) (m : GoMap K ℕ)
        → Distinct (keys_of es)
        → (c : ℕ) (k : K) → get_elem? (keys_of es) c ≡ some k
        → lookup dec k (restore_index dec es i m) ≡ some (i + c)
    unfolding restore_index
    restore-placed [] i m d c k h = absurd (ground arith)
    restore-placed (e ∷ es) i m d zero k h =
        restore-other es (i + 1) (insert dec e.key i m) k
          (λ c f. absurd (omega (arith, d 0 (suc c) k h f)))
        ∙ ground (arith, lookup-insert dec e.key k i m)
    restore-placed (e ∷ es) i m d (suc c) k h =
        restore-placed es (i + 1) (insert dec e.key i m) (Distinct-tail dec e.key (keys_of es) d) c
          k h
        ∙ ap some (omega arith)

    restore-size :
        (es : List (Entry K V)) (i : ℕ) (m : GoMap K ℕ)
        → Distinct (keys_of es)
        → ((c : ℕ) (k : K) → get_elem? (keys_of es) c ≡ some k → lookup dec k m ≡ none)
        → size dec (restore_index dec es i m) ≡ size dec m + length es
    unfolding restore_index
    restore-size [] i m d fresh = omega arith
    restore-size (e ∷ es) i m d fresh =
        let rest =
          restore-size es (i + 1) (insert dec e.key i m) (Distinct-tail dec e.key (keys_of es) d)
            λ c k h.
              let other : e.key ≢ k = λ p. absurd (omega (arith, d 0 (suc c) k (ap some p) h)) in
              ground (arith, lookup-insert dec e.key k i m, fresh (suc c) k h) in
        omega (arith, rest, size-insert_new dec e.key i m (fresh 0 e.key refl))

    Lists-Distinct :
        (h : HashMap K V) (es : List (Entry K V)) → Lists dec h es → Distinct (keys_of es)
    Lists-Distinct h es l i j k p q =
        let (a, ea, ka) = get_elem?-map_inv (λ e. e.key) es i k p in
        let (b, eb, kb) = get_elem?-map_inv (λ e. e.key) es j k q in
        l.distinct i j a b ea eb (ka ∙ sym kb)

    -- The loaded map: a valid map of the bindings that `es` lists.
    restored-IsIndex :
        (es : List (Entry K V))
        → Distinct (keys_of es)
        → IsIndex dec (keys_of es) (restore_index dec es 0 empty)
    unfolding lookup size
    restored-IsIndex es d =
        IsIndex-of_placed dec (keys_of es) (restore_index dec es 0 empty)
          (λ c k h. restore-placed es 0 empty d c k h ∙ ap some (zero-add c))
          (omega (arith, restore-size es 0 empty d (λ c k h. refl), length-map (λ e. e.key) es))

    restored-view :
        (h : HashMap K V) (es : List (Entry K V)) (k : K)
        → Lists dec h es
        → elim (lookup dec k (restore_index dec es 0 empty)) [
          | none ↦ none
          | some i ↦ get_elem? (values_of es) i
        ]
          ≡ view dec h k
    unfolding lookup
    restored-view h es k l = elim (search_place dec k (keys_of es)) [
      | inl (c, e) ↦
          let (b, eb, kb) = get_elem?-map_inv (λ e. e.key) es c k e in
          let placed =
            restore-placed es 0 empty (Lists-Distinct h es l) c k e ∙ ap some (zero-add c) in
          rw placed
            (get_elem?-map (λ e. e.value) es c b eb ∙ sym (l.sound c b eb) ∙ ap (view dec h) kb)
      | inr out ↦ elim (Option-cases (view dec h k)) [
        | inl n ↦ rw (restore-other es 0 empty k out, n) refl
        | inr (a, n) ↦
            let (i, p) = l.complete k a n in absurd (out i (get_elem?-map (λ e. e.key) es i _ p))
      ]
    ]

    -- What LoadFromDisk makes of `g`, when the file holds a snapshot of `h`: the bindings of `h`,
    -- the version of the snapshot, and the persistence settings of `g`.
    pub record Reloaded (h g r : HashMap K V) : Type 0 where
      pub valid : IsValid dec r
      pub same_view : (k : K) → view dec r k ≡ view dec h k
      pub version : r.current_version ≡ h.current_version + 1
      pub persistence : r.persistence ≡ g.persistence

    pub record Saved {F : Type 0} (D : Disk F (Snapshot K V)) (f' : F) (h g : HashMap K V)
        : Type 0 where
      pub loaded : HashMap K V
      pub loads : load_from_disk dec D f' h.persistence.file_path g ≡ some loaded
      pub reloaded : Reloaded h g loaded

    load-Reloaded :
        {F : Type 0} (D : Disk F (Snapshot K V)) (f' : F) (h g : HashMap K V) (s : Snapshot K V)
        → Lists dec h s.entries
        → s.version ≡ h.current_version + 1
        → D.read f' h.persistence.file_path ≡ some s
        → Saved D f' h g
    unfolding load_from_disk
    load-Reloaded D f' h g s l n e = record {
      loaded = record g {
        index_map = restore_index dec s.entries 0 empty;
        keys = keys_of s.entries;
        values = values_of s.entries;
        current_version = s.version;
      };
      loads = rw (load_from_disk, e) refl;
      reloaded = record {
        valid = record {
          paired = length-map (λ e. e.value) s.entries ∙ sym (length-map (λ e. e.key) s.entries);
          index = restored-IsIndex s.entries (Lists-Distinct h s.entries l);
        };
        same_view = λ k. restored-view h s.entries k l;
        version = n;
        persistence = refl;
      };
    }

    -- After persistSnapshot of `h`, by the flag that it returns.
    abbrev pub Persisted :
        {F : Type 0}
        → Disk F (Snapshot K V)
        → F
        → HashMap K V
        → HashMap K V
        → F × HashMap K V × Bool
        → Type 0
    Persisted D f h g (f', h', true) = Saved D f' h g
    Persisted D f h g (f', h', false) =
        D.read f' h.persistence.file_path ≡ D.read f h.persistence.file_path

    Written-Persisted :
        {F : Type 0} (D : Disk F (Snapshot K V)) (I : IsDisk D) (f : F) (h g h' : HashMap K V)
        (s : Snapshot K V) (f' : F) (done : Bool)
        → Lists dec h s.entries
        → s.version ≡ h.current_version + 1
        → Written D I f h.persistence.file_path s (f', done)
        → Persisted D f h g (f', h', done)
    Written-Persisted D I f h g h' s f' true l n w = load-Reloaded D f' h g s l n w.target
    Written-Persisted D I f h g h' s f' false l n w = w.target

    -- On a disk that does what IsDisk says, persistSnapshot of a valid map ends. If an attempt
    -- succeeded, loading the file into any map gives the same bindings, at a version that is one
    -- higher; if none did, the file is as before.
    pub persist_snapshot-Persisted :
        {F : Type 0} (D : Disk F (Snapshot K V))
        → IsDisk D
        → (f : F) (h g : HashMap K V) (now : ℤ) → IsValid dec h
        → Returns (Persisted D f h g) (persist_snapshot D f h now)
    unfolding persist_snapshot create_snapshot
    persist_snapshot-Persisted D I f h g now v =
        Returns-bind
          (Returns-bind {Q = λ c. (c.1.version ≡ h.current_version + 1) × Lists dec h c.1.entries}
            (entries-Lists dec h v) λ es l. returns (refl, l))
          λ (h', s) l.
            let n = rounds_of h.persistence.max_retries in
            let r = attempts D n 0 f h.persistence.file_path s in
            returns (
              Written-Persisted D I f h g h' s r.0 r.1 l.1 l.0
                (attempts-Written D I n 0 f h.persistence.file_path s))
