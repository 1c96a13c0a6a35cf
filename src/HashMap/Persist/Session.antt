-- ===== src/HashMap/Persist/Session.antt =====
-- persistenceWorker of shared/hashset.go between the operations of others: its turns after a tick,
-- after a trigger, and after Close, which is the last, each as one step, and Put, Remove and Clear in
-- any order with them.
pub mod Surviving
use mathlib.Core.Path.{subst}
use scalability_engineering.Prelude.{
  ◌≡◌, refl, sym, ap, ◌∙◌, Bool, true, false, not, ◌&&◌, ◌||◌, if◌then◌else◌, arith, ℕ, Returns-if,
  List, [], ◌∷◌, Run, ok, ◌>>=◌, ◌⊎◌, inl, inr, ◌+◌, Returns, returns, Returns-inv, Returns-bind,
  Returns-map, Allows, allows, Allows-after, Allows-bind, Returns-and, ℤ,
}
use scalability_engineering.HashMap
use scalability_engineering.HashMap.{HashMap, IsValid, view}
use scalability_engineering.HashMap.View.{put-Stored, remove-Removed}
use scalability_engineering.HashMap.Bulk.{clear-IsValid}
use scalability_engineering.HashMap.Persist.{
  Disk, Snapshot, load_from_disk, persist_snapshot, create_snapshot, serve_trigger, close,
}
use scalability_engineering.HashMap.Persist.Atomic.{IsDisk}
use scalability_engineering.HashMap.Persist.Restore.{Saved, Persisted, persist_snapshot-Persisted}

-- What happens to a map: an operation, or a turn of the worker at a time. `closes` is Close with the
-- turn that it waits for.
pub data Event (K V : Type 0) : Type 0 where
  puts : K → V → Event K V
  removes : K → Event K V
  ticks : ℤ → Event K V
  triggered : ℤ → Event K V
  clears : Event K V
  closes : ℤ → Event K V

module _ {K V : Type 0} (dec : Discrete K) {F : Type 0} (D : Disk F (Snapshot K V)) where
  -- Whether there is a worker: none without persistence, and none after Close.
  unfoldable pub works : HashMap K V → Bool
  works h = h.persistence.enabled && not h.stopped

  unfoldable pub handle : F → HashMap K V → Event K V → Run (F × HashMap K V)
  unfolding serve_trigger works close
  handle f h (puts key value) = do (h', _) ← HashMap.put dec h key value; ok (f, h')
  handle f h (removes key) = do (h', _) ← HashMap.remove dec h key; ok (f, h')
  handle f h clears = ok (f, HashMap.clear h)
  handle f h (ticks now) =
      let turn : Run (F × HashMap K V) = do (f', h', _) ← persist_snapshot D f h now; ok (f', h')
      in if works h then turn else ok (f, h)
  handle f h (triggered now) =
      let turn : Run (F × HashMap K V) = do (f', h', _) ← serve_trigger D f h now; ok (f', h')
      in if works h then turn else ok (f, h)
  handle f h (closes now) = do (f', h', _) ← close D f h now; ok (f', h')

  unfoldable pub handle_all : F → HashMap K V → List (Event K V) → Run (F × HashMap K V)
  unfolding handle
  handle_all f h [] = ok (f, h)
  handle_all f h (e ∷ es) = do (f', h') ← handle f h e; handle_all f' h' es

  -- `t` is the map before one of the events, or after the last.
  pub data Passed : F → HashMap K V → List (Event K V) → HashMap K V → Type 0 where
    at_start : {f : F} {h : HashMap K V} {es : List (Event K V)} → Passed f h es h
    later :
        {f f' : F} {h h' t : HashMap K V} {e : Event K V} {es : List (Event K V)}
        → handle f h e ≡ ok (f', h')
        → Passed f' h' es t
        → Passed f h (e ∷ es) t
