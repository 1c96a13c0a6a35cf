-- ===== src/HashMap/Persist.antt =====
-- Snapshots of a HashMap on disk: CreateSnapshot, persistSnapshot, writeSnapshotToDisk and
-- LoadFromDisk, with EnablePersistence, TriggerSnapshot and Close. The file system is not part of
-- the program: `Disk` holds the calls that the code makes of `os`, `filepath` and `json`.
use scalability_engineering.Prelude.{
  ℕ, zero, suc, ◌+◌, ◌*◌, ◌^◌, ◌≡◌, ◌≢◌, refl, Bool, true, false, Option, none, some, List, [], ◌∷◌,
  Run, ok, panic, ◌>>=◌, if◌then◌else◌, ℤ, pos, negsuc, eqb_ℤ, String, ◌==◌, length, map,
}
use Prim.Native.String.{◌++◌}
use scalability_engineering.Prelude.GoMap.{GoMap, empty, insert}
use scalability_engineering.HashMap.{HashMap, Entry, PersistenceConfig, entries}
pub mod Atomic
pub mod Restore
pub mod Session

pub record Snapshot (K V : Type 0) : Type 0 where
  pub version : ℕ
  -- in nanoseconds
  pub timestamp : ℤ
  pub entries : List (Entry K V)

-- What the code uses of the file system `F`: `read` is os.Open with a JSON decoder, `encode` a JSON
-- encoder on the open file. A flag says whether the call returned no error.
pub record Disk (F S : Type 0) : Type 0 where
  pub dir : String → String
  pub mkdir_all : F → String → F × Bool
  pub create : F → String → F × Bool
  pub encode : F → String → S → F × Bool
  pub sync : F → String → F × Bool
  pub close : F → String → F
  pub rename : F → String → String → F × Bool
  pub remove : F → String → F
  pub read : F → String → Option S

unfoldable pub temp_of : String → String
temp_of path = path ++ ".tmp"

module _ {F S : Type 0} (D : Disk F S) where
  -- The end of writeSnapshotToDisk, after `file.Close`; the deferred call closes the file again.
  unfoldable pub publish : F → String → String → F × Bool
  publish f temp_file path =
      let renamed = D.rename f temp_file path in
      if renamed.1
      then (D.close renamed.0 temp_file, true)
      else (D.close (D.remove renamed.0 temp_file) temp_file, false)

  -- writeSnapshotToDisk from the encoder on.
  unfoldable pub fill : F → String → String → S → F × Bool
  unfolding publish
  fill f temp_file path snapshot =
      let encoded = D.encode f temp_file snapshot in
      let synced = D.sync encoded.0 temp_file in
      if encoded.1
      then (if synced.1
          then publish (D.close synced.0 temp_file) temp_file path
          else (D.close (D.remove synced.0 temp_file) temp_file, false))
      else (D.close (D.remove encoded.0 temp_file) temp_file, false)

  unfoldable pub write_snapshot_to_disk : F → String → S → F × Bool
  unfolding fill temp_of
  write_snapshot_to_disk f path snapshot =
      let made = D.mkdir_all f (D.dir path) in
      let created = D.create made.0 (temp_of path) in
      if made.1
      then (if created.1 then fill created.0 (temp_of path) path snapshot else (created.0, false))
      else (made.0, false)

  -- The attempts left, and `attempt`: the disk, whether one succeeded, and the seconds slept.
  unfoldable pub attempts : ℕ → ℕ → F → String → S → F × Bool × ℕ
  unfolding write_snapshot_to_disk
  attempts zero attempt f path snapshot = (f, false, 0)
  attempts (suc left) attempt f path snapshot =
      let written = write_snapshot_to_disk f path snapshot in
      let rest = attempts left (attempt + 1) written.0 path snapshot in
      let pause = if left == 0 then 0 else 2 ^ attempt in
      if written.1 then (written.0, true, 0) else (rest.0, rest.1, pause + rest.2)

-- How often `attempt < MaxRetries` holds, from 0 on.
unfoldable pub rounds_of : ℤ → ℕ
rounds_of (pos n) = n
rounds_of (negsuc _) = 0

module _ {K V : Type 0} where
  -- `persistChan` has room for one, and the worker starts.
  unfoldable pub enable_persistence : HashMap K V → PersistenceConfig → Option (HashMap K V)
  enable_persistence h config =
      let retries = if eqb_ℤ config.max_retries (pos 0) then pos 3 else config.max_retries in
      let interval =
        if eqb_ℤ config.snapshot_interval (pos 0)
        then pos (30 * 10 ^ 9)
        else config.snapshot_interval in
      if h.persistence.enabled
      then none
      else some (record h {
        persistence = record config { max_retries = retries; snapshot_interval = interval };
        pending = 0;
        stopped = false;
      })

  unfoldable pub create_snapshot : HashMap K V → ℤ → Run (HashMap K V × Snapshot K V)
  create_snapshot h now = do
    es ← entries h
    let version = h.current_version + 1
    ok (
      record h { current_version = version },
      record { version = version; timestamp = now; entries = es },
    )

  -- `none` for either of the two errors.
  unfoldable pub trigger_snapshot : HashMap K V → Option (HashMap K V)
  trigger_snapshot h =
      let room = if h.pending == 0 then some (record h { pending = 1 }) else none in
      if h.persistence.enabled then room else none

  -- The flag says whether an attempt succeeded.
  unfoldable pub persist_snapshot :
      {F : Type 0} → Disk F (Snapshot K V) → F → HashMap K V → ℤ → Run (F × HashMap K V × Bool)
  unfolding create_snapshot attempts rounds_of
  persist_snapshot D f h now = do
    (h', snapshot) ← create_snapshot h now
    let r = attempts D (rounds_of h.persistence.max_retries) 0 f h.persistence.file_path snapshot
    ok (r.0, h', r.1)

  -- The loop of LoadFromDisk over the entries, from `idx` on.
  unfoldable pub restore_index : Discrete K → List (Entry K V) → ℕ → GoMap K ℕ → GoMap K ℕ
  restore_index dec [] idx m = m
  restore_index dec (e ∷ es) idx m = restore_index dec es (idx + 1) (insert dec e.key idx m)

  -- `none` if the file cannot be opened or decoded.
  unfoldable pub load_from_disk :
      {F : Type 0}
      → Discrete K
      → Disk F (Snapshot K V)
      → F
      → String
      → HashMap K V
      → Option (HashMap K V)
  unfolding restore_index
  load_from_disk dec D f path h = elim (D.read f path) [
    | none ↦ none
    | some snapshot ↦ some (record h {
      index_map = restore_index dec snapshot.entries 0 empty;
      keys = map (λ e. e.key) snapshot.entries;
      values = map (λ e. e.value) snapshot.entries;
      current_version = snapshot.version;
    })
  ]

  -- One turn of persistenceWorker after a trigger.
  unfoldable pub serve_trigger :
      {F : Type 0} → Disk F (Snapshot K V) → F → HashMap K V → ℤ → Run (F × HashMap K V × Bool)
  unfolding persist_snapshot
  serve_trigger D f h now = persist_snapshot D f (record h { pending = 0 }) now

  -- `close` of a channel that is closed already panics; the worker writes a last snapshot.
  unfoldable pub close :
      {F : Type 0} → Disk F (Snapshot K V) → F → HashMap K V → ℤ → Run (F × HashMap K V × Bool)
  unfolding persist_snapshot
  close D f h now =
      let last = persist_snapshot D f (record h { stopped = true }) now in
      if h.persistence.enabled then (if h.stopped then panic else last) else ok (f, h, false)
