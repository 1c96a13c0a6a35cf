-- ===== src/HashMap.antt =====
-- The type HashMap of shared/hashset.go and the operations on its entries. Each operation holds the
-- map's mutex to its end, so it is one step. A result `(v, true)` is `some v`, `(zero, false)` is
-- `none`, and an index out of range is a panic.
pub mod View
pub mod Bulk
pub mod Listing
pub mod Iterating
pub mod Persist
pub mod Slices
use scalability_engineering.Prelude.{
  ℕ, zero, suc, ◌+◌, ◌-◌, ◌≡◌, Bool, true, false, Option, none, some, List, [], ◌∷◌, ◌++◌, Run, ok,
  ◌>>=◌, or_panic, length, get_elem?, set, take, ◌==◌, ltb, if◌then◌else◌, ℤ, String,
}
use scalability_engineering.Prelude.GoMap.{GoMap, empty, lookup, insert, delete}
use scalability_engineering.Index.{find, IsIndex}

pub record Entry (K V : Type 0) : Type 0 where
  pub key : K
  pub value : V

pub record PersistenceConfig : Type 0 where
  pub enabled : Bool
  pub file_path : String
  -- in nanoseconds
  pub snapshot_interval : ℤ
  pub max_retries : ℤ

-- The hasher is never called and has no field here. `pending` counts what `persistChan` holds, and
-- `stopped` says that `stopChan` is closed.
pub record HashMap (K V : Type 0) : Type 0 where
  pub index_map : GoMap K ℕ
  pub keys : List K
  pub values : List V
  pub persistence : PersistenceConfig
  pub pending : ℕ
  pub stopped : Bool
  pub current_version : ℕ

pub record Iterator (K V : Type 0) : Type 0 where
  pub hash_map : HashMap K V
  pub entries : List (Entry K V)
  pub index : ℕ

module _ {K V : Type 0} where
  unfoldable pub size : HashMap K V → ℕ
  size h = length h.keys

  unfoldable pub is_empty : HashMap K V → Bool
  unfolding size
  is_empty h = size h == 0

  unfoldable pub clear : HashMap K V → HashMap K V
  clear h = record h { index_map = empty; keys = []; values = [] }

  -- The loop of Entries: the rounds left, and `i`.
  unfoldable pub entries_from : List K → List V → ℕ → ℕ → Run (List (Entry K V))
  entries_from keys values zero i = ok []
  entries_from keys values (suc rounds) i = do
    k ← or_panic (get_elem? keys i)
    v ← or_panic (get_elem? values i)
    rest ← entries_from keys values rounds (i + 1)
    ok (record { key = k; value = v } ∷ rest)

  unfoldable pub entries : HashMap K V → Run (List (Entry K V))
  unfolding entries_from
  entries h = entries_from h.keys h.values (length h.keys) 0

  -- `intn` is the generator's `Intn`.
  unfoldable pub random_entry : (ℕ → ℕ) → HashMap K V → Run (Option (K × V))
  random_entry intn h = if length h.keys == 0 then ok none else do
    let index = intn (length h.keys)
    k ← or_panic (get_elem? h.keys index)
    v ← or_panic (get_elem? h.values index)
    ok (some (k, v))

  unfoldable pub random_key : (ℕ → ℕ) → HashMap K V → Run (Option K)
  random_key intn h =
      if length h.keys == 0
      then ok none
      else do k ← or_panic (get_elem? h.keys (intn (length h.keys))); ok (some k)

  unfoldable pub random_value : (ℕ → ℕ) → HashMap K V → Run (Option V)
  random_value intn h =
      if length h.values == 0
      then ok none
      else do v ← or_panic (get_elem? h.values (intn (length h.values))); ok (some v)

  -- Round `i` of the loop draws from `intns i`.
  unfoldable pub random_entries : (ℕ → ℕ → ℕ) → HashMap K V → ℕ → Run (List (Entry K V))
  unfolding random_entry
  random_entries intns h zero = ok []
  random_entries intns h (suc n) = do
    drawn ← random_entry (intns zero) h
    rest ← random_entries (λ i. intns (suc i)) h n
    ok (elim drawn [ none ↦ rest | some (k, v) ↦ record { key = k; value = v } ∷ rest ])

  unfoldable pub new_iterator : HashMap K V → Run (Iterator K V)
  unfolding entries
  new_iterator h = do es ← entries h; ok (record { hash_map = h; entries = es; index = 0 })

  unfoldable pub has_next : Iterator K V → Bool
  has_next it = ltb it.index (length it.entries)

  unfoldable pub next : Iterator K V → Run (Iterator K V × Option (Entry K V))
  unfolding has_next
  next it =
      if has_next it
      then (do
        e ← or_panic (get_elem? it.entries it.index)
        ok (record it { index = it.index + 1 }, some e))
      else ok (it, none)

module _ {K V : Type 0} (dec : Discrete K) where
  unfoldable pub put : HashMap K V → K → V → Run (HashMap K V × Option V)
  put h key value = elim (lookup dec key h.index_map) [
    | some index ↦ do
      old ← or_panic (get_elem? h.values index)
      ok (record h { values = set h.values index value }, some old)
    | none ↦ ok (
      record h {
        keys = h.keys ++ key ∷ [];
        values = h.values ++ value ∷ [];
        index_map = insert dec key (length h.keys) h.index_map;
      },
      none,
    )
  ]

  unfoldable pub get : HashMap K V → K → Run (Option V)
  get h key = elim (lookup dec key h.index_map) [
    | none ↦ ok none
    | some index ↦ do v ← or_panic (get_elem? h.values index); ok (some v)
  ]

  unfoldable pub contains_key : HashMap K V → K → Bool
  contains_key h key = elim (lookup dec key h.index_map) [ none ↦ false | some _ ↦ true ]

  -- The slices and the map of Remove before `delete`.
  vacate : HashMap K V → ℕ → Run (HashMap K V)
  vacate h index =
      let last = length h.keys - 1 in
      if index == last
      then ok (record h { keys = take last h.keys; values = take last h.values })
      else do
        last_key ← or_panic (get_elem? h.keys last)
        last_value ← or_panic (get_elem? h.values last)
        ok (record h {
          keys = take last (set h.keys index last_key);
          values = take last (set h.values index last_value);
          index_map = insert dec last_key index h.index_map;
        })

  unfoldable pub remove : HashMap K V → K → Run (HashMap K V × Option V)
  unfolding vacate
  remove h key = elim (lookup dec key h.index_map) [
    | none ↦ ok (h, none)
    | some index ↦ do
      removed ← or_panic (get_elem? h.values index)
      h' ← vacate h index
      ok (record h' { index_map = delete dec key h'.index_map }, some removed)
  ]

  -- The count of keys that were there.
  unfoldable pub put_all : HashMap K V → List (Entry K V) → Run (HashMap K V × ℕ)
  unfolding put
  put_all h [] = ok (h, 0)
  put_all h (e ∷ es) = do
    (h', old) ← put h e.key e.value
    (h'', updated) ← put_all h' es
    ok (h'', elim old [ none ↦ updated | some _ ↦ suc updated ])

  unfoldable pub contains_all_keys : HashMap K V → List K → Bool
  unfolding contains_key
  contains_all_keys h [] = true
  contains_all_keys h (k ∷ ks) = if contains_key h k then contains_all_keys h ks else false

  -- The slices have one length, and `index_map` says where each key stands.
  pub record IsValid (h : HashMap K V) : Type 0 where
    pub paired : length h.values ≡ length h.keys
    pub index : IsIndex dec h.keys h.index_map

  -- What the map stands for: a partial function of the keys.
  abbrev pub view : HashMap K V → K → Option V
  view h = find dec h.index_map h.values
