-- ===== src/Backup.antt =====
-- Snapshots of configuration files and their index (internal/backup/snapshot.go). SHA-256 in
-- hexadecimal is a parameter. The index is a map, so its lists are in the map's order.
pub mod Manager
pub mod Prune
pub mod Restore
pub mod Retention
pub mod Storage
mod Tests
use claude_hooks.Common.{
  ℕ, suc, Bool, List, [], ◌∷◌, ◌++◌, Option, none, some, if◌then◌else◌, take, select,
}
use claude_hooks.Common.Text.{Text, codes, text_eq, digits}
use claude_hooks.Common.Map.{Map, lookup, insert, delete}
use claude_hooks.Common.Result.{Result, ok, err}

pub data StorageType : Type 0 where
  full_type patch_type : StorageType

pub data ConfigType : Type 0 where
  global_type project_type : ConfigType

pub data Trigger : Type 0 where
  manual automatic before_init migration : Trigger

pub record SnapshotMetadata : Type 0 where
  pub user : Text
  pub hostname : Text
  pub metadata_command : Text
  pub config_hash : Text
  pub tag : Text
  pub metadata_description : Text

-- Times are nanoseconds, sizes bytes.
pub record Snapshot : Type 0 where
  pub id : Text
  pub sequence_num : ℕ
  pub timestamp : ℕ
  pub config_path : Text
  pub config_type : ConfigType
  pub trigger : Trigger
  pub storage_type : StorageType
  pub storage_path : Text
  pub size : ℕ
  pub checksum : Text
  pub chain_id : Text
  pub base_snapshot_id : Text
  pub patch_from : Text
  pub metadata : SnapshotMetadata

pub record SnapshotIndex : Type 0 where
  pub version : ℕ
  pub updated : ℕ
  pub snapshots : Map Snapshot

pub data BackupError : Type 0 where
  snapshot_not_found backup_disabled config_file_not_found read_failed init_failed load_index_failed
        save_failed save_index_failed not_implemented target_path_required checksum_mismatch
        mkdir_failed write_failed storage_not_initialized delete_failed invalid_max_backups
        invalid_max_age invalid_max_size :
      BackupError

abbrev pub is_full : Snapshot → Bool
is_full s = elim s.storage_type [ full_type ↦ Bool.true | patch_type ↦ Bool.false ]

abbrev pub is_patch : Snapshot → Bool
is_patch s = elim s.storage_type [ full_type ↦ Bool.false | patch_type ↦ Bool.true ]

-- The first 16 digits of the hash of the time and the content's hash.
unfoldable pub generate_snapshot_id : (Text → Text) → ℕ → Text → Text
unfolding digits
generate_snapshot_id sha256_hex t content_hash =
    take 16 (sha256_hex (digits (suc t) t ++ codes "-" ++ content_hash))

abbrev pub new_snapshot_index : ℕ → SnapshotIndex
new_snapshot_index now = record { version = 1; updated = now; snapshots = [] }

unfoldable pub add_snapshot : ℕ → Snapshot → SnapshotIndex → SnapshotIndex
unfolding insert
add_snapshot now s idx = record idx { updated = now; snapshots = insert s.id s idx.snapshots }

abbrev or_not_found : Option Snapshot → Result BackupError Snapshot
or_not_found none = err snapshot_not_found
or_not_found (some s) = ok s

unfoldable pub get_snapshot : Text → SnapshotIndex → Result BackupError Snapshot
unfolding lookup
get_snapshot i idx = or_not_found (lookup i idx.snapshots)

abbrev delete_found : Option Snapshot → ℕ → Text → SnapshotIndex → Result BackupError SnapshotIndex
delete_found none now i idx = err snapshot_not_found
delete_found (some s) now i idx =
    ok (record idx { updated = now; snapshots = delete i idx.snapshots })

unfoldable pub delete_snapshot : ℕ → Text → SnapshotIndex → Result BackupError SnapshotIndex
unfolding lookup delete
delete_snapshot now i idx = delete_found (lookup i idx.snapshots) now i idx

abbrev pub values : Map Snapshot → List Snapshot
values [] = []
values ((k, s) ∷ m) = s ∷ values m

abbrev pub list_snapshots : SnapshotIndex → List Snapshot
list_snapshots idx = values idx.snapshots

unfoldable pub first_with_hash : Text → List Snapshot → Option Snapshot
unfolding text_eq
first_with_hash h [] = none
first_with_hash h (s ∷ ss) =
    if text_eq s.metadata.config_hash h then some s else first_with_hash h ss

abbrev pub find_by_hash : Text → SnapshotIndex → Option Snapshot
find_by_hash h idx = first_with_hash h (list_snapshots idx)

abbrev pub in_chain : Text → Snapshot → Bool
in_chain c s = text_eq s.chain_id c

unfoldable pub get_chain : Text → SnapshotIndex → List Snapshot
unfolding text_eq
get_chain c idx = select (in_chain c) (list_snapshots idx)
