-- ===== src/Tests/Maps.antt =====
-- A map of two entries, and the theorems on HashMap at it.
use scalability_engineering.Prelude.{
  ite, ◌<◌, zero, ℕ, suc, ◌+◌, ◌≡◌, refl, true, false, Option, none, some, List, [], ◌∷◌, String,
  string_discrete, Returns, pos, ok, length, arith,
}
use scalability_engineering.Prelude.GoMap.{GoMap, empty, insert, lookup}
use scalability_engineering.Index.{IsIndex, IsIndex-empty}
use scalability_engineering.Index.Grow.{IsIndex-concat}
use scalability_engineering.HashMap
use scalability_engineering.HashMap.{HashMap, Entry, PersistenceConfig}
use scalability_engineering.HashMap.View
use scalability_engineering.HashMap.Iterating
use scalability_engineering.HashMap.Persist.{
  Disk, Snapshot, persist_snapshot, write_snapshot_to_disk,
}
use scalability_engineering.HashMap.Persist.Atomic
use scalability_engineering.HashMap.Persist.Restore

abbrev pub saved : PersistenceConfig
saved = record {
  enabled = true;
  file_path = "data";
  snapshot_interval = pos 5;
  max_retries = pos 2;
}

abbrev pub two_index : GoMap String ℕ
two_index = insert string_discrete "b" 1 (insert string_discrete "a" 0 empty)

-- "a" with 10 and "b" with 20.
abbrev pub two : HashMap String ℕ
two = record {
  index_map = two_index;
  keys = "a" ∷ "b" ∷ [];
  values = 10 ∷ 20 ∷ [];
  persistence = saved;
  pending = 0;
  stopped = false;
  current_version = 4;
}

two-IsIndex : IsIndex string_discrete ("a" ∷ "b" ∷ []) two_index
unfolding lookup insert string_discrete
two-IsIndex =
    IsIndex-concat {A = ℕ} string_discrete
      (IsIndex-concat {A = ℕ} string_discrete (IsIndex-empty string_discrete) [] refl "a" refl)
      (0 ∷ []) refl "b" refl

pub two-IsValid : HashMap.IsValid string_discrete two
two-IsValid = record { paired = refl; index = two-IsIndex }

put-Stored_example :
    Returns
      (HashMap.View.Stored string_discrete two "b" 21)
      (HashMap.put string_discrete two "b" 21)
put-Stored_example = HashMap.View.put-Stored string_discrete two two-IsValid "b" 21

get-view_example : HashMap.get string_discrete two "a" ≡ ok (HashMap.view string_discrete two "a")
get-view_example = HashMap.View.get-view string_discrete two two-IsValid "a"

remove-Removed_example :
    Returns (HashMap.View.Removed string_discrete two "a") (HashMap.remove string_discrete two "a")
remove-Removed_example = HashMap.View.remove-Removed string_discrete two two-IsValid "a"

abbrev more : List (Entry String ℕ)
more = record { key = "a"; value = 11 } ∷ record { key = "c"; value = 30 } ∷ []

last : (n : ℕ) → ℕ
last zero = 0
last (suc n) = n

last_below : (n : ℕ) → 0 < n → last n < n
unfolding last
last_below zero h = omega arith
last_below (suc n) h = omega arith

abbrev two_entries : List (Entry String ℕ)
two_entries = record { key = "a"; value = 10 } ∷ record { key = "b"; value = 20 } ∷ []

abbrev two_iterator : HashMap.Iterator String ℕ
two_iterator = record { hash_map = two; entries = two_entries; index = 0 }

lists_two : HashMap.entries two ≡ ok two_entries
unfolding HashMap.entries
lists_two = refl

iterates_two : HashMap.new_iterator two ≡ ok two_iterator
unfolding HashMap.new_iterator
iterates_two = refl

drain-new_iterator_example :
    HashMap.Iterating.drain (length two_entries + 1) two_iterator ≡ ok two_entries
drain-new_iterator_example =
    HashMap.Iterating.drain-new_iterator two two_entries two_iterator lists_two iterates_two

-- A disk on which every call succeeds; a file that was just created holds no snapshot.
abbrev pub Files : Type 0 → Type 0
Files S = String → Option S

module _ {S : Type 0} where
  store : Files S → String → Option S → Files S
  store f p o q = ite (string_discrete p q) o (f q)

  unfoldable pub disk : Disk (Files S) S
  unfolding store
  disk = record {
    dir = λ p. "/";
    mkdir_all = λ f d. (f, true);
    create = λ f p. (store f p none, true);
    encode = λ f p s. (store f p (some s), true);
    sync = λ f p. (f, true);
    close = λ f p. f;
    rename = λ f p q. (store (store f p none) q (f p), true);
    remove = λ f p. store f p none;
    read = λ f p. f p;
  }

  pub disk-IsDisk : HashMap.Persist.Atomic.IsDisk disk
  unfolding disk
  disk-IsDisk = record {
    mkdir_all-read = λ f d p. refl;
    create-read = λ f p q n. ground arith;
    encode-read = λ f p q s n. ground arith;
    encode-same = λ f p s x y. ground arith;
    sync-read = λ f p q n. refl;
    sync-same = λ f p x. refl;
    close-read = λ f p q. refl;
    remove-read = λ f p q n. ground arith;
    rename-moved = λ f p q x. ground arith;
    rename-failed = λ f p q r x. absurd (ground arith);
    rename-read = λ f p q r x y. ground arith;
  }

abbrev pub no_files : {S : Type 0} → Files S
no_files p = none

write_snapshot_to_disk-Written_example :
    HashMap.Persist.Atomic.Written {S = ℕ} disk disk-IsDisk no_files "data" 7
      (write_snapshot_to_disk disk no_files "data" 7)
write_snapshot_to_disk-Written_example =
    HashMap.Persist.Atomic.write_snapshot_to_disk-Written {S = ℕ} disk disk-IsDisk no_files "data" 7

persist_snapshot-Persisted_example :
    Returns
      (HashMap.Persist.Restore.Persisted string_discrete disk no_files two two)
      (persist_snapshot disk no_files two (pos 100))
persist_snapshot-Persisted_example =
    HashMap.Persist.Restore.persist_snapshot-Persisted string_discrete disk disk-IsDisk no_files two
      two (pos 100) two-IsValid

abbrev day : List (HashMap.Persist.Session.Event String ℕ)
day =
    HashMap.Persist.Session.ticks (pos 100)
    ∷ HashMap.Persist.Session.puts "c" 3
    ∷ HashMap.Persist.Session.triggered (pos 110)
    ∷ HashMap.Persist.Session.removes "a"
    ∷ HashMap.Persist.Session.closes (pos 120)
    ∷ HashMap.Persist.Session.clears
    ∷ []

handle_all-Durable_example :
    Returns
      (HashMap.Persist.Session.Surviving.Durable string_discrete disk disk-IsDisk no_files two two
        day)
      (HashMap.Persist.Session.handle_all string_discrete disk no_files two day)
handle_all-Durable_example =
    HashMap.Persist.Session.Surviving.handle_all-Durable string_discrete disk disk-IsDisk no_files
      two two day two-IsValid refl
