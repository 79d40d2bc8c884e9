-- ===== src/Backup/Manager.antt =====
-- The backup manager (internal/backup/manager.go, restore.go). The state is the file system and the
-- audit log; an entry of the log leaves out the user, the host and the extra fields.
pub mod ChainIds
pub mod Effects
pub mod ValidIndex
use claude_hooks.Common.{
  ℕ, suc, ◌+◌, ◌*◌, ◌-◌, ◌==◌, Bool, true, false, not, ◌&&◌, ◌||◌, List, [], ◌∷◌, ◌++◌, Option,
  none, some, if◌then◌else◌, ltb, leb, length, drop, is_some,
}
use claude_hooks.Common.Text.{Text, codes, has_prefix, drop_while, digits, contains}
use claude_hooks.Common.Paths.{parts_of}
use claude_hooks.Common.Map.{lookup}
use claude_hooks.Common.Result.{Result, ok, err}
use claude_hooks.Backup.{
  Snapshot, SnapshotIndex, SnapshotMetadata, Trigger, full_type, ConfigType, global_type,
  project_type, BackupError, backup_disabled, config_file_not_found, read_failed,
  generate_snapshot_id, add_snapshot, list_snapshots, find_by_hash, get_chain,
}
use claude_hooks.Backup.Storage.{Files, Faults, save, save_index, load_index, initialize}

pub data Operation : Type 0 where
  create_op restore_op prune_op : Operation

pub record AuditEntry : Type 0 where
  pub logged_at : ℕ
  pub operation : Operation
  pub entry_path : Text
  pub snapshot_id : Text
  pub success : Bool
  pub entry_error : Option BackupError

-- `enabled` is what `IsEnabled` says of the configuration.
pub record Manager : Type 0 where
  pub snapshots_dir : Text
  pub enabled : Bool
  pub logs : Bool

pub record State : Type 0 where
  pub files : Files
  pub audit : List AuditEntry

pub record CreateBackupOptions : Type 0 where
  pub source_path : Text
  pub created_by : Trigger
  pub given_metadata : SnapshotMetadata

-- The readings of the clock.
pub record Clock : Type 0 where
  pub at_load : ℕ
  pub at_snapshot : ℕ
  pub at_index : ℕ
  pub at_log : ℕ

unfoldable pub log_audit_entry : Manager → AuditEntry → State → State
log_audit_entry m e st = if m.logs then record st { audit = st.audit ++ (e ∷ []) } else st

-- The decimal number at the start of a text; `have` says that a digit was read.
unfoldable pub scan_digits : Bool → ℕ → Text → Option ℕ
scan_digits have n [] = if have then some n else none
scan_digits have n (c ∷ s) =
    let rest = scan_digits true (n * 10 + (c - 48)) s in
    if leb b'0' c && leb c b'9' then rest else if have then some n else none

abbrev pub scan_signed : Text → Option ℕ
scan_signed [] = none
scan_signed (c ∷ s) = if c == b'+' then scan_digits false 0 s else scan_digits false 0 (c ∷ s)

-- `fmt.Sscanf(id, "chain-%d", &n)`; a negative number, which is never the greatest, is `none`.
unfoldable pub scan_chain : Text → Option ℕ
unfolding has_prefix drop_while scan_digits
scan_chain s =
    if has_prefix s (codes "chain-")
    then scan_signed (drop_while (λ c. c == 32 || c == 9) (drop 6 s))
    else none

abbrev pub greater : ℕ → Option ℕ → ℕ
greater n none = n
greater n (some k) = if ltb n k then k else n

unfoldable pub max_chain : ℕ → List Snapshot → ℕ
unfolding scan_chain
max_chain n [] = n
max_chain n (s ∷ ss) = max_chain (greater n (scan_chain s.chain_id)) ss

unfoldable pub chain_text : ℕ → Text
unfolding digits
chain_text n = codes "chain-" ++ digits (suc n) n

abbrev pub next_chain : List Snapshot → Text
next_chain [] = codes "chain-1"
next_chain (s ∷ ss) = chain_text (suc (max_chain 0 (s ∷ ss)))

unfoldable pub generate_chain_id : SnapshotIndex → Text
unfolding max_chain chain_text
generate_chain_id idx = next_chain (list_snapshots idx)

unfoldable pub max_sequence : ℕ → List Snapshot → ℕ
max_sequence n [] = n
max_sequence n (s ∷ ss) = max_sequence (if ltb n s.sequence_num then s.sequence_num else n) ss

abbrev pub next_sequence : List Snapshot → ℕ
next_sequence [] = 1
next_sequence (s ∷ ss) = suc (max_sequence 0 (s ∷ ss))

unfoldable pub get_next_sequence_number : SnapshotIndex → Text → ℕ
unfolding get_chain max_sequence
get_next_sequence_number idx c = next_sequence (get_chain c idx)

unfoldable pub determine_config_type : Text → ConfigType
unfolding parts_of contains
determine_config_type path =
    if contains (parts_of path) (codes ".klaudiush") then project_type else global_type

module _ (sha256_hex : Text → Text) (m : Manager) (f : Faults) (t : Clock) where
  abbrev pub create_snapshot_record :
      CreateBackupOptions → Text → Text → Text → SnapshotIndex → Snapshot
  create_snapshot_record o data_ path content_hash idx = record {
    id = generate_snapshot_id sha256_hex t.at_snapshot content_hash;
    sequence_num = get_next_sequence_number idx (generate_chain_id idx);
    timestamp = t.at_snapshot;
    config_path = o.source_path;
    config_type = determine_config_type o.source_path;
    trigger = o.created_by;
    storage_type = full_type;
    storage_path = path;
    size = length data_;
    checksum = content_hash;
    chain_id = generate_chain_id idx;
    base_snapshot_id = [];
    patch_from = [];
    metadata = record o.given_metadata { config_hash = content_hash };
  }

  abbrev pub create_entry : CreateBackupOptions → Text → Option BackupError → AuditEntry
  create_entry o i e = record {
    logged_at = t.at_log;
    operation = create_op;
    entry_path = o.source_path;
    snapshot_id = i;
    success = not (is_some e);
    entry_error = e;
  }

  -- The end of `saveSnapshotToIndex` and the entry of a success.
  abbrev pub indexed :
      CreateBackupOptions
      → Snapshot
      → State
      → Result BackupError Files
      → State × Result BackupError Snapshot
  indexed o s st (err e) = (log_audit_entry m (create_entry o s.id (some e)) st, err e)
  indexed o s st (ok fs) =
      (log_audit_entry m (create_entry o s.id none) (record st { files = fs }), ok s)

  abbrev pub stored :
      CreateBackupOptions
      → Text
      → Text
      → SnapshotIndex
      → State
      → Result BackupError (Text × Files)
      → State × Result BackupError Snapshot
  stored o data_ content_hash idx st (err e) = (st, err e)
  stored o data_ content_hash idx st (ok (path, fs)) =
      let s = create_snapshot_record o data_ path content_hash idx in
      indexed o s (record st { files = fs }) (save_index f (add_snapshot t.at_index s idx) fs)

  abbrev pub unless_known :
      CreateBackupOptions
      → Text
      → SnapshotIndex
      → State
      → Option Snapshot
      → State × Result BackupError Snapshot
  unless_known o data_ idx st (some existing) = (st, ok existing)
  unless_known o data_ idx st none =
      let content_hash = sha256_hex data_ in
      let name = generate_snapshot_id sha256_hex t.at_snapshot content_hash ++ codes ".full.toml" in
      stored o data_ content_hash idx st (save f m.snapshots_dir name data_ st.files)

  abbrev pub with_index :
      CreateBackupOptions
      → Text
      → State
      → Result BackupError SnapshotIndex
      → State × Result BackupError Snapshot
  with_index o data_ st (err e) = (st, err e)
  with_index o data_ st (ok idx) = unless_known o data_ idx st (find_by_hash (sha256_hex data_) idx)

  abbrev pub ready : State → Files × Option BackupError
  ready st = if not st.files.initialized then initialize f t.at_load st.files else (st.files, none)

  abbrev pub with_storage :
      CreateBackupOptions
      → Text
      → State
      → Files × Option BackupError
      → State × Result BackupError Snapshot
  with_storage o data_ st (fs, some e) = (record st { files = fs }, err e)
  with_storage o data_ st (fs, none) =
      with_index o data_ (record st { files = fs }) (load_index f t.at_load fs)

  abbrev pub with_config :
      CreateBackupOptions → State → Bool → Option Text → State × Result BackupError Snapshot
  with_config o st fault none = (st, err config_file_not_found)
  with_config o st true (some data_) = (st, err read_failed)
  with_config o st false (some data_) = with_storage o data_ st (ready st)

  unfoldable pub create_backup : CreateBackupOptions → State → State × Result BackupError Snapshot
  create_backup o st =
      if not m.enabled
      then (st, err backup_disabled)
      else with_config o st (f.read_faults o.source_path) (lookup o.source_path st.files.contents)
