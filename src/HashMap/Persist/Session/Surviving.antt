-- ===== src/HashMap/Persist/Session/Surviving.antt =====
-- What persistenceWorker of shared/hashset.go leaves in the file, whatever happens to the map.
use mathlib.Core.Path.{subst}
use scalability_engineering.Prelude.{
  ◌≡◌, refl, sym, ap, ◌∙◌, Bool, true, false, not, ◌&&◌, ◌||◌, arith, ℕ, Returns-if, List, [], ◌∷◌,
  ok, ◌⊎◌, inl, inr, ◌+◌, Returns, returns, Returns-inv, Returns-bind, Returns-map, Allows, allows,
  Allows-after, Allows-bind, Returns-and, ℤ,
}
use scalability_engineering.HashMap
use scalability_engineering.HashMap.{HashMap, IsValid, view}
use scalability_engineering.HashMap.View.{put-Stored, remove-Removed}
use scalability_engineering.HashMap.Bulk.{clear-IsValid}
use scalability_engineering.HashMap.Persist.{
  Disk, Snapshot, load_from_disk, persist_snapshot, create_snapshot, serve_trigger, close,
}
use scalability_engineering.HashMap.Persist.Atomic.{IsDisk}
use scalability_engineering.HashMap.Persist.Restore.{Saved, Persisted, persist_snapshot-Persisted}
use scalability_engineering.HashMap.Persist.Session.{
  Event, puts, removes, ticks, triggered, clears, closes, works, handle, handle_all, Passed,
}

module _ {K V : Type 0} (dec : Discrete K) {F : Type 0} (D : Disk F (Snapshot K V)) where
  -- Saved looks at the file only.
  Saved-same :
      {f f' : F} {h g : HashMap K V}
      → D.read f' h.persistence.file_path ≡ D.read f h.persistence.file_path
      → Saved dec D f h g
      → Saved dec D f' h g
  unfolding load_from_disk
  Saved-same e s = record {
    loaded = s.loaded;
    loads = rw (load_from_disk, e) s.loads;
    reloaded = s.reloaded;
  }

  abbrev is_close : Event K V → Bool
  is_close (closes now) = true
  is_close _ = false

  -- Close is called at most once, and not if it was before: a second call closes a closed channel.
  abbrev pub closes_once : Bool → List (Event K V) → Bool
  closes_once stopped [] = true
  closes_once stopped (e ∷ es) =
      not (stopped && is_close e) && closes_once (stopped || is_close e) es

  -- What one event comes to: the file is as before, or holds the bindings of the map before it.
  record Handled (f : F) (h g : HashMap K V) (e : Event K V) (r : F × HashMap K V) : Type 0 where
    pub valid : IsValid dec r.1
    pub persistence : r.1.persistence ≡ h.persistence
    pub closed : (r.1.stopped && not (is_close e || h.stopped)) ≡ false
    pub file :
        (D.read r.0 h.persistence.file_path ≡ D.read f h.persistence.file_path)
        ⊎ Saved dec D r.0 h g

  -- The map after persistSnapshot: only its version is another.
  persist_snapshot-map :
      (f : F) (h : HashMap K V) (now : ℤ)
      → Allows
          (λ r. r.1 ≡ record h { current_version = h.current_version + 1 })
          (persist_snapshot D f h now)
  unfolding persist_snapshot create_snapshot
  persist_snapshot-map f h now =
      Allows-bind {Q = λ c. c.0 ≡ record h { current_version = h.current_version + 1 }}
        (Allows-after (HashMap.entries h) λ es. allows refl) λ c e. allows e

  module _ (I : IsDisk D) where
    persist-Handled :
        (f : F) (h g : HashMap K V) (e : Event K V) (now : ℤ)
        → IsValid dec h
        → Returns (λ r. Handled f h g e (r.0, r.1)) (persist_snapshot D f h now)
    persist-Handled f h g e now v =
        Returns-map
          (Returns-and (persist_snapshot-Persisted dec D I f h g now v)
            (persist_snapshot-map f h now))
          λ (f', h', done) (p, same). record {
            valid = subst (IsValid dec) (sym same) (record { paired = v.paired; index = v.index });
            persistence = ap (λ m. m.persistence) same;
            closed = ground (arith, ap (λ m. m.stopped) same);
            file = by_flag f' h' done p;
          }
      where
        by_flag :
            (f' : F) (h' : HashMap K V) (done : Bool)
            → Persisted dec D f h g (f', h', done)
            → (D.read f' h.persistence.file_path ≡ D.read f h.persistence.file_path)
              ⊎ Saved dec D f' h g
        by_flag f' h' true p = inr p
        by_flag f' h' false p = inl p

    -- Saved does not look at the fields of the worker.
    Saved-worker :
        (f' : F) (h g : HashMap K V) (n : ℕ) (b : Bool)
        → Saved dec D f' (record h { pending = n; stopped = b }) g
        → Saved dec D f' h g
    Saved-worker f' h g n b s = record {
      loaded = s.loaded;
      loads = s.loads;
      reloaded = record {
        valid = s.reloaded.valid;
        same_view = s.reloaded.same_view;
        version = s.reloaded.version;
        persistence = s.reloaded.persistence;
      };
    }

    -- A turn that starts with other fields of the worker.
    turned :
        (f : F) (h g : HashMap K V) (e : Event K V) (n : ℕ) (b : Bool) (now : ℤ)
        → IsValid dec h
        → (b && not (is_close e || h.stopped)) ≡ false
        → Returns
            (λ r. Handled f h g e (r.0, r.1))
            (persist_snapshot D f (record h { pending = n; stopped = b }) now)
    turned f h g e n b now v c =
        Returns-map
          (persist-Handled f (record h { pending = n; stopped = b }) g e now
            (record { paired = v.paired; index = v.index }))
          λ r s. record {
            valid = s.valid;
            persistence = s.persistence;
            closed = ground (arith, s.closed);
            file = elim s.file [ inl p ↦ inl p | inr saved ↦ inr (Saved-worker r.0 h g n b saved) ];
          }

    unchanged_Handled :
        (f : F) (h g : HashMap K V) (e : Event K V) → IsValid dec h → Handled f h g e (f, h)
    unchanged_Handled f h g e v = record {
      valid = v;
      persistence = refl;
      closed = ground arith;
      file = inl refl;
    }

    handle-Handled :
        (f : F) (h g : HashMap K V) (e : Event K V)
        → IsValid dec h
        → (h.stopped && is_close e) ≡ false
        → Returns (Handled f h g e) (handle dec D f h e)
    unfolding handle serve_trigger close HashMap.clear
    handle-Handled f h g (puts key value) v once =
        Returns-bind (put-Stored dec h v key value) λ r s. returns (record {
          valid = s.valid;
          persistence = s.rest.persistence;
          closed = ground (arith, s.rest.stopped);
          file = inl refl;
        })
    handle-Handled f h g (removes key) v once = Returns-bind (remove-Removed dec h v key) λ r s.
        returns (record {
          valid = s.valid;
          persistence = s.rest.persistence;
          closed = ground (arith, s.rest.stopped);
          file = inl refl;
        })
    handle-Handled f h g clears v once = returns (record {
      valid = clear-IsValid dec h;
      persistence = refl;
      closed = ground arith;
      file = inl refl;
    })
    handle-Handled f h g (ticks now) v once =
        Returns-if (works dec D h)
          (λ _. Returns-bind (persist-Handled f h g (ticks now) now v) λ r s. returns s)
          (λ _. returns (unchanged_Handled f h g (ticks now) v))
    handle-Handled f h g (triggered now) v once =
        Returns-if (works dec D h)
          (λ _.
            Returns-bind (turned f h g (triggered now) 0 h.stopped now v (ground arith))
              λ r s. returns s)
          (λ _. returns (unchanged_Handled f h g (triggered now) v))
    handle-Handled f h g (closes now) v once =
        Returns-bind
          (Returns-if {Post = λ r. Handled f h g (closes now) (r.0, r.1)} h.persistence.enabled
            (λ _.
              Returns-if h.stopped (λ s. absurd (ground arith))
                λ _. turned f h g (closes now) h.pending true now v (ground arith))
            (λ _. returns (unchanged_Handled f h g (closes now) v)))
          λ r s. returns s

    -- The file is as at first, or holds the bindings that the map had at some time.
    pub record Durable (f : F) (h g : HashMap K V) (es : List (Event K V)) (r : F × HashMap K V)
        : Type 0 where
      pub valid : IsValid dec r.1
      pub file :
          (D.read r.0 h.persistence.file_path ≡ D.read f h.persistence.file_path)
          ⊎ ((t : HashMap K V) × Passed dec D f h es t
              × (t.persistence ≡ h.persistence)
              × Saved dec D r.0 t g)

    carried :
        {f f' : F} {h h' g : HashMap K V} {e : Event K V} {es : List (Event K V)}
        (r : F × HashMap K V)
        → handle dec D f h e ≡ ok (f', h')
        → Handled f h g e (f', h')
        → Durable f' h' g es r
        → Durable f h g (e ∷ es) r
    carried {f} {f'} {h} {h'} {g} {e} {es} r step s d = record {
      valid = d.valid;
      file = elim d.file [
        | inl q ↦ unchanged (subst same_file s.persistence q) s.file
        | inr (t, passed, p, saved) ↦ inr (t, Passed.later step passed, p ∙ s.persistence, saved)
      ];
    }
      where
        same_file : HashMap.PersistenceConfig → Type 0
        same_file c = D.read r.0 c.file_path ≡ D.read f' c.file_path

        unchanged :
            same_file h.persistence
            → (D.read f' h.persistence.file_path ≡ D.read f h.persistence.file_path)
              ⊎ Saved dec D f' h g
            → (D.read r.0 h.persistence.file_path ≡ D.read f h.persistence.file_path)
              ⊎ ((t : HashMap K V) × Passed dec D f h (e ∷ es) t
                  × (t.persistence ≡ h.persistence)
                  × Saved dec D r.0 t g)
        unchanged q (inl p) = inl (q ∙ p)
        unchanged q (inr saved) = inr (h, Passed.at_start, refl, Saved-same q saved)

    -- From a valid map, every sequence of Put, Remove, Clear, Close, and turns of the worker, with at
    -- most one Close in all, ends without a panic, on a disk that does what IsDisk says, whatever fails
    -- on it. After it the map is valid, and the snapshot file is as at first, or loading it into any
    -- map gives the bindings that the map had before one of the events.
    pub handle_all-Durable :
        (f : F) (h g : HashMap K V) (es : List (Event K V))
        → IsValid dec h
        → closes_once h.stopped es ≡ true
        → Returns (Durable f h g es) (handle_all dec D f h es)
    unfolding handle_all
    handle_all-Durable f h g es v once = all f h g h.stopped es v (ground arith) once
      where
        all :
            (f : F) (h g : HashMap K V) (stopped : Bool) (es : List (Event K V))
            → IsValid dec h
            → (h.stopped && not stopped) ≡ false
            → closes_once stopped es ≡ true
            → Returns (Durable f h g es) (handle_all dec D f h es)
        all f h g stopped [] v now once = returns (record { valid = v; file = inl refl })
        all f h g stopped (e ∷ es) v now once =
            let ((f', h'), step, s) = Returns-inv (handle-Handled f h g e v (ground arith)) in
            rw (handle_all, step)
              (Returns-map
                (all f' h' g (stopped || is_close e) es s.valid (ground (arith, s.closed))
                  (ground arith))
                λ r d. carried r step s d)
