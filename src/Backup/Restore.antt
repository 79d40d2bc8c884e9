-- ===== src/Backup/Restore.antt =====
-- Restoring and validating snapshots (internal/backup/restore.go and the manager's calls of it).
pub mod RoundTrip
pub mod Safe
use claude_hooks.Common.{
  ℕ, Bool, not, ◌&&◌, List, [], ◌++◌, Option, none, some, if◌then◌else◌, length, is_some,
}
use claude_hooks.Common.Text.{Text, codes, text_eq, is_empty}
use claude_hooks.Common.Map.{lookup, insert}
use claude_hooks.Common.Result.{Result, ok, err, ◌>>=◌}
use claude_hooks.Backup.{
  Snapshot, BackupError, backup_disabled, snapshot_not_found, not_implemented, target_path_required,
  checksum_mismatch, mkdir_failed, write_failed, get_snapshot, is_full, is_patch, manual,
  list_snapshots,
}
use claude_hooks.Backup.Storage.{Files, Faults, load, load_index}
use claude_hooks.Backup.Manager.{
  Manager, State, Clock, AuditEntry, CreateBackupOptions, restore_op, log_audit_entry,
  create_backup,
}

pub record RestoreOptions : Type 0 where
  pub target_path : Text
  pub backup_before_restore : Bool
  pub force : Bool
  pub validate : Bool

pub record RestoreResult : Type 0 where
  pub restored_path : Text
  pub backup_snapshot : Option Snapshot
  pub bytes_restored : ℕ
  pub checksum_verified : Bool

-- The options of the backup of a target.
abbrev pub before_restore : Snapshot → Text → CreateBackupOptions
before_restore s path = record {
  source_path = path;
  created_by = manual;
  given_metadata = record {
    user = [];
    hostname = [];
    metadata_command = [];
    config_hash = [];
    tag = codes "before-restore";
    metadata_description = codes "Automatic backup before restoring snapshot " ++ s.id;
  };
}

module _ (sha256_hex : Text → Text) (m : Manager) (f : Faults) (t : Clock) where
  abbrev pub check_hash : Snapshot → Text → Result BackupError Text
  check_hash s data_ =
      if not (text_eq (sha256_hex data_) s.metadata.config_hash)
      then err checksum_mismatch
      else ok data_

  -- `ValidateSnapshot` of the restorer: a patch is not validated yet.
  unfoldable pub validate_snapshot : Snapshot → Files → Result BackupError Text
  unfolding text_eq
  validate_snapshot s fs = load f s.storage_path fs >>= λ data_.
      check_hash s data_ >>= λ same. if is_patch s then err not_implemented else ok same

  unfoldable pub reconstruct_snapshot : Snapshot → Files → Result BackupError Text
  reconstruct_snapshot s fs = if is_full s then load f s.storage_path fs else err not_implemented

  -- The file is written after its directory is made.
  abbrev pub write_target :
      RestoreOptions
      → Text
      → Option Snapshot
      → Text
      → State
      → State × Result BackupError RestoreResult
  write_target o path backup data_ st =
      if f.mkdir_fault
      then (st, err mkdir_failed)
      else if f.write_faults path
      then (st, err write_failed)
      else (
        record st { files = record st.files { contents = insert path data_ st.files.contents } },
        ok (record {
          restored_path = path;
          backup_snapshot = backup;
          bytes_restored = length data_;
          checksum_verified = o.validate;
        }),
      )

  abbrev pub write_checked :
      RestoreOptions
      → Text
      → Option Snapshot
      → State
      → Result BackupError Text
      → State × Result BackupError RestoreResult
  write_checked o path backup st (err e) = (st, err e)
  write_checked o path backup st (ok data_) = write_target o path backup data_ st

  -- The content, checked again where validation was asked for.
  abbrev pub content_of : RestoreOptions → Snapshot → Files → Result BackupError Text
  content_of o s fs =
      reconstruct_snapshot s fs >>= λ data_. if o.validate then check_hash s data_ else ok data_

  abbrev pub after_backup :
      RestoreOptions
      → Text
      → Snapshot
      → State × Result BackupError Snapshot
      → State × Result BackupError RestoreResult
  after_backup o path s (st, err e) = (st, err e)
  after_backup o path s (st, ok b) = write_checked o path (some b) st (content_of o s st.files)

  -- A backup of a target that is there, if asked for and not forced.
  abbrev pub back_up_first :
      RestoreOptions → Text → Snapshot → State → State × Result BackupError RestoreResult
  back_up_first o path s st =
      if (o.backup_before_restore && not o.force) && is_some (lookup path st.files.contents)
      then after_backup o path s (create_backup sha256_hex m f t (before_restore s path) st)
      else write_checked o path none st (content_of o s st.files)

  abbrev pub validated :
      RestoreOptions
      → Text
      → Snapshot
      → State
      → Result BackupError Text
      → State × Result BackupError RestoreResult
  validated o path s st (err e) = (st, err e)
  validated o path s st (ok data_) = back_up_first o path s st

  -- `RestoreSnapshot` of the restorer, for a snapshot that is not nil.
  unfoldable pub restore_snapshot :
      RestoreOptions → Snapshot → State → State × Result BackupError RestoreResult
  unfolding validate_snapshot reconstruct_snapshot
  restore_snapshot o s st =
      let path = if is_empty o.target_path then s.config_path else o.target_path in
      if is_empty path
      then (st, err target_path_required)
      else if o.validate
      then validated o path s st (validate_snapshot s st.files)
      else back_up_first o path s st

  -- `Get` of the manager.
  unfoldable pub get_by_id : Text → State → Result BackupError Snapshot
  get_by_id i st =
      if not m.enabled
      then err backup_disabled
      else if not st.files.initialized
      then err snapshot_not_found
      else load_index f t.at_load st.files >>= λ idx. get_snapshot i idx

  abbrev pub restore_entry : Text → Text → Option BackupError → AuditEntry
  restore_entry i path e = record {
    logged_at = t.at_log;
    operation = restore_op;
    entry_path = path;
    snapshot_id = i;
    success = not (is_some e);
    entry_error = e;
  }

  abbrev pub restore_logged :
      Text
      → Snapshot
      → State × Result BackupError RestoreResult
      → State × Result BackupError RestoreResult
  restore_logged i s (st, err e) =
      (log_audit_entry m (restore_entry i s.config_path (some e)) st, err e)
  restore_logged i s (st, ok r) =
      (log_audit_entry m (restore_entry i r.restored_path none) st, ok r)

  abbrev pub restore_found :
      Text
      → RestoreOptions
      → State
      → Result BackupError Snapshot
      → State × Result BackupError RestoreResult
  restore_found i o st (err e) = (st, err e)
  restore_found i o st (ok s) = restore_logged i s (restore_snapshot o s st)

  -- `RestoreSnapshot` and `ValidateSnapshot` of the manager.
  unfoldable pub restore_by_id :
      Text → RestoreOptions → State → State × Result BackupError RestoreResult
  unfolding get_by_id restore_snapshot
  restore_by_id i o st =
      if not m.enabled then (st, err backup_disabled) else restore_found i o st (get_by_id i st)

  unfoldable pub validate_by_id : Text → State → Result BackupError Text
  unfolding get_by_id
  validate_by_id i st = get_by_id i st >>= λ s. validate_snapshot s st.files

-- `List` of the manager.
unfoldable pub list_all : Manager → Faults → ℕ → State → Result BackupError (List Snapshot)
list_all m f now st =
    if not m.enabled
    then err backup_disabled
    else if not st.files.initialized
    then ok []
    else load_index f now st.files >>= λ idx. ok (list_snapshots idx)
