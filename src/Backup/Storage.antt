-- ===== src/Backup/Storage.antt =====
-- The storage of snapshots (internal/backup/storage.go) on a file system that is a state: the files by
-- path, the index of the storage, and whether its directories are there. JSON gives back the index
-- that was saved. `Faults` says which calls of the operating system fail.
pub mod Root
use claude_hooks.Common.{ℕ, Bool, true, false, not, ◌++◌, Option, none, some, if◌then◌else◌}
use claude_hooks.Common.Text.{Text, codes}
use claude_hooks.Common.Map.{Map, lookup, insert, delete}
use claude_hooks.Common.Result.{Result, ok, err}
use claude_hooks.Backup.{
  SnapshotIndex, BackupError, new_snapshot_index, snapshot_not_found, read_failed,
  load_index_failed, save_failed, save_index_failed, storage_not_initialized, delete_failed,
  mkdir_failed,
}

pub record Files : Type 0 where
  pub contents : Map Text
  pub index_file : Option SnapshotIndex
  pub initialized : Bool

pub record Faults : Type 0 where
  pub read_faults : Text → Bool
  pub write_faults : Text → Bool
  pub delete_faults : Text → Bool
  pub index_read_fault : Bool
  pub index_write_fault : Bool
  pub mkdir_fault : Bool

-- The path of a snapshot below the directory of the storage.
abbrev pub snapshot_path : Text → Text → Text
snapshot_path dir filename = dir ++ codes "/" ++ filename

unfoldable pub save : Faults → Text → Text → Text → Files → Result BackupError (Text × Files)
unfolding insert
save f dir filename data_ fs =
    if not fs.initialized
    then err storage_not_initialized
    else if f.write_faults (snapshot_path dir filename)
    then err save_failed
    else ok (
      snapshot_path dir filename,
      record fs { contents = insert (snapshot_path dir filename) data_ fs.contents },
    )

abbrev pub loaded : Bool → Option Text → Result BackupError Text
loaded fault none = err snapshot_not_found
loaded true (some data_) = err read_failed
loaded false (some data_) = ok data_

unfoldable pub load : Faults → Text → Files → Result BackupError Text
unfolding lookup
load f path fs = loaded (f.read_faults path) (lookup path fs.contents)

abbrev pub removed : Bool → Option Text → Text → Files → Result BackupError Files
removed fault none path fs = err snapshot_not_found
removed true (some data_) path fs = err delete_failed
removed false (some data_) path fs = ok (record fs { contents = delete path fs.contents })

unfoldable pub delete_file : Faults → Text → Files → Result BackupError Files
unfolding lookup delete
delete_file f path fs = removed (f.delete_faults path) (lookup path fs.contents) path fs

unfoldable pub save_index : Faults → SnapshotIndex → Files → Result BackupError Files
save_index f idx fs =
    if f.index_write_fault then err save_index_failed else ok (record fs { index_file = some idx })

-- A missing index is a new one.
unfoldable pub load_index : Faults → ℕ → Files → Result BackupError SnapshotIndex
load_index f now fs = elim fs.index_file [
  | none ↦ ok (new_snapshot_index now)
  | some idx ↦ if f.index_read_fault then err load_index_failed else ok idx
]

abbrev pub after_save : Files → Result BackupError Files → Files × Option BackupError
after_save fs (ok saved) = (saved, none)
after_save fs (err e) = (fs, some e)

abbrev pub first_index : Faults → ℕ → Option SnapshotIndex → Files → Files × Option BackupError
first_index f now none fs = after_save fs (save_index f (new_snapshot_index now) fs)
first_index f now (some idx) fs = (fs, none)

-- The directories stay where saving the first index fails.
unfoldable pub initialize : Faults → ℕ → Files → Files × Option BackupError
initialize f now fs =
    if f.mkdir_fault
    then (fs, some mkdir_failed)
    else first_index f now fs.index_file (record fs { initialized = true })
