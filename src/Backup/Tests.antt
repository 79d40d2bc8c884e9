-- ===== src/Backup/Tests.antt =====
-- Backups of one configuration file, with an index of two snapshots; the hash of a text is the text.
use claude_hooks.Common.{ℕ, ◌≤◌, ◌≡◌, refl, true, false, [], ◌∷◌, some, select}
use claude_hooks.Common.Int.{pos}
use claude_hooks.Common.Text.{Text, codes, text_eq}
use claude_hooks.Common.Map.{lookup}
use claude_hooks.Common.Result.{Result, ok}
use claude_hooks.Backup.{
  Snapshot, SnapshotIndex, SnapshotMetadata, manual, full_type, global_type, project_type,
  list_snapshots, first_with_hash,
}
use claude_hooks.Backup.Storage.Root.{FilesystemStorage, StorageError, new_filesystem_storage}
use claude_hooks.Backup.Storage.{Files, snapshot_path}
use claude_hooks.Backup.Retention.{sum_sizes, judged, size_policy, count_policy}
use claude_hooks.Backup.Retention.Size.{size_policy-bound}
use claude_hooks.Backup.Manager.{
  Manager, State, Clock, CreateBackupOptions, determine_config_type, create_backup,
}
use claude_hooks.Backup.Prune.{apply_retention}
use claude_hooks.Backup.Prune.Kept.{Kept, apply_retention-Kept}
use claude_hooks.Backup.Restore.{RestoreOptions, restore_by_id}
use claude_hooks.Backup.Restore.Safe.{Safe}
use claude_hooks.Backup.Restore.RoundTrip.{no_faults, made, restored, restore_by_id-create_backup}

abbrev same_text : Text → Text
same_text s = s

abbrev no_metadata : Text → SnapshotMetadata
no_metadata hash = record {
  user = [];
  hostname = [];
  metadata_command = [];
  config_hash = hash;
  tag = [];
  metadata_description = [];
}

abbrev snapshot_of : Text → Text → ℕ → Text → Snapshot
snapshot_of name c time content = record {
  id = name;
  sequence_num = 1;
  timestamp = time;
  config_path = codes "c";
  config_type = global_type;
  trigger = manual;
  storage_type = full_type;
  storage_path = snapshot_path (codes "s") name;
  size = 3;
  checksum = content;
  chain_id = c;
  base_snapshot_id = [];
  patch_from = [];
  metadata = no_metadata content;
}

abbrev old_snapshot : Snapshot
old_snapshot = snapshot_of (codes "a") (codes "chain-1") 10 (codes "one")

abbrev new_snapshot : Snapshot
new_snapshot = snapshot_of (codes "b") (codes "chain-2") 20 (codes "two")

abbrev two_snapshots : SnapshotIndex
two_snapshots = record {
  version = 1;
  updated = 20;
  snapshots = (codes "a", old_snapshot) ∷ (codes "b", new_snapshot) ∷ [];
}

abbrev test_manager : Manager
test_manager = record { snapshots_dir = codes "s"; enabled = true; logs = true }

abbrev test_clock : Clock
test_clock = record { at_load = 30; at_snapshot = 31; at_index = 32; at_log = 33 }

abbrev stored_files : Files
stored_files = record {
  contents =
      (codes "c", codes "now") ∷ (codes "s/a", codes "one") ∷ (codes "s/b", codes "two") ∷ [];
  index_file = some two_snapshots;
  initialized = true;
}

abbrev test_state : State
test_state = record { files = stored_files; audit = [] }

abbrev backup_options : CreateBackupOptions
backup_options = record {
  source_path = codes "c";
  created_by = manual;
  given_metadata = no_metadata [];
}

abbrev restore_options : RestoreOptions
restore_options = record {
  target_path = codes "c";
  backup_before_restore = false;
  force = false;
  validate = true;
}

abbrev at_40 : Snapshot → ℕ
at_40 s = 40

size_policy-bound_example :
    sum_sizes (
      select
        (λ s. size_policy (pos 4) s (judged (list_snapshots two_snapshots) (λ u. u ∷ []) at_40 s))
        (list_snapshots two_snapshots))
    ≤ 4
size_policy-bound_example = size_policy-bound (list_snapshots two_snapshots) 4 (λ u. u ∷ []) at_40

apply_retention-Kept_example :
    Kept test_manager no_faults test_clock at_40
      (count_policy 1)
      two_snapshots
      test_state
      (apply_retention test_manager no_faults test_clock at_40 (count_policy 1) test_state)
unfolding lookup text_eq
apply_retention-Kept_example =
    apply_retention-Kept test_manager no_faults test_clock at_40 (count_policy 1) two_snapshots
      test_state refl refl refl refl refl (((refl, (refl, tt)), (refl, (refl, tt))))
      (((refl, refl), tt), (tt, tt))

abbrev after_backup_of_c : State
after_backup_of_c =
    (create_backup same_text test_manager no_faults test_clock backup_options test_state).0

abbrev made_of_c : Snapshot
made_of_c = made same_text test_manager test_clock backup_options (codes "now") two_snapshots

restore_by_id-create_backup_example :
    ((create_backup same_text test_manager no_faults test_clock backup_options test_state).1
      ≡ ok made_of_c)
    × ((restore_by_id same_text test_manager no_faults test_clock made_of_c.id restore_options
          after_backup_of_c).1
        ≡ ok (
            restored same_text test_manager test_clock backup_options
              (codes "now")
              two_snapshots
              test_clock
              restore_options
              after_backup_of_c))
    × (lookup
          (codes "c")
          (restore_by_id same_text test_manager no_faults test_clock made_of_c.id restore_options
            after_backup_of_c).0.files.contents
        ≡ some (codes "now"))
unfolding first_with_hash text_eq lookup
restore_by_id-create_backup_example =
    restore_by_id-create_backup same_text test_manager test_clock backup_options (codes "now")
      two_snapshots test_state after_backup_of_c test_clock restore_options refl refl refl refl refl
      (refl, refl, refl) refl refl

-- The configuration in the home directory counts as one of a project.
home_is_project : determine_config_type (codes "/home/u/.klaudiush/config.toml") ≡ project_type
unfolding determine_config_type
home_is_project = refl

abbrev project_storage : Text → Result StorageError FilesystemStorage
project_storage path = new_filesystem_storage (λ p. some p) (codes "/h") project_type path

-- Two projects whose paths differ in a slash and an underscore share one storage.
same_storage : project_storage (codes "/w/my/app") ≡ project_storage (codes "/w/my_app")
unfolding new_filesystem_storage
same_storage = refl
