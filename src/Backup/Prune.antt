-- ===== src/Backup/Prune.antt =====
-- `ApplyRetention` (internal/backup/manager.go): what a policy does not keep is removed from the files
-- and from the index.
pub mod Kept
pub mod Removing
pub mod Loop
use claude_hooks.Common.{
  ℕ, ◌+◌, true, false, not, List, [], ◌∷◌, ◌++◌, Option, none, some, if◌then◌else◌, length, select,
}
use claude_hooks.Common.Text.{Text, contains}
use claude_hooks.Common.Result.{Result, ok, err}
use claude_hooks.Backup.{
  Snapshot, SnapshotIndex, BackupError, backup_disabled, delete_snapshot, list_snapshots, get_chain,
}
use claude_hooks.Backup.Retention.{RetentionPolicy, judged}
use claude_hooks.Backup.Storage.{Files, Faults, delete_file, load_index, save_index}
use claude_hooks.Backup.Manager.{Manager, State, Clock, AuditEntry, prune_op, log_audit_entry}

pub record RetentionResult : Type 0 where
  pub snapshots_removed : ℕ
  pub chains_removed : ℕ
  pub bytes_freed : ℕ
  pub removed_snapshots : List Text

abbrev pub nothing_removed : RetentionResult
nothing_removed = record {
  snapshots_removed = 0;
  chains_removed = 0;
  bytes_freed = 0;
  removed_snapshots = [];
}

-- The variables of the loop that removes.
pub record Removal : Type 0 where
  pub left : SnapshotIndex
  pub left_files : Files
  pub freed : ℕ
  pub removed_ids : List Text

abbrev pub remove_indexed : Snapshot → Files → Result BackupError SnapshotIndex → Removal → Removal
remove_indexed s fs (err e) r = record r { left_files = fs }
remove_indexed s fs (ok idx) r = record {
  left = idx;
  left_files = fs;
  freed = r.freed + s.size;
  removed_ids = r.removed_ids ++ (s.id ∷ []);
}

abbrev pub remove_deleted : ℕ → Snapshot → Result BackupError Files → Removal → Removal
remove_deleted now s (err e) r = r
remove_deleted now s (ok fs) r = remove_indexed s fs (delete_snapshot now s.id r.left) r

-- A snapshot whose file cannot be deleted stays in the index.
unfoldable pub remove_snapshot : Faults → ℕ → Snapshot → Removal → Removal
remove_snapshot f now s r = remove_deleted now s (delete_file f s.storage_path r.left_files) r

unfoldable pub remove_snapshots : Faults → ℕ → List Snapshot → Removal → Removal
unfolding remove_snapshot
remove_snapshots f now [] r = r
remove_snapshots f now (s ∷ ss) r = remove_snapshots f now ss (remove_snapshot f now s r)

-- The chains of the snapshots, each once.
unfoldable pub distinct_chains : List Snapshot → List Text
unfolding contains
distinct_chains [] = []
distinct_chains (s ∷ ss) =
    let rest = distinct_chains ss in if contains rest s.chain_id then rest else s.chain_id ∷ rest

-- `check_time` reads the clock at each snapshot.
module _ (m : Manager) (f : Faults) (t : Clock) (check_time : Snapshot → ℕ) where
  abbrev pub chain_in : SnapshotIndex → Snapshot → List Snapshot
  chain_in idx s = get_chain s.chain_id idx

  unfoldable pub to_remove : RetentionPolicy → SnapshotIndex → List Snapshot
  to_remove policy idx =
      let ss = list_snapshots idx in
      select (λ s. not (policy s (judged ss (chain_in idx) check_time s))) ss

  abbrev pub prune_entry : Option BackupError → AuditEntry
  prune_entry e = record {
    logged_at = t.at_log;
    operation = prune_op;
    entry_path = [];
    snapshot_id = [];
    success = elim e [ none ↦ true | some x ↦ false ];
    entry_error = e;
  }

  abbrev pub result_of : List Snapshot → Removal → RetentionResult
  result_of gone r = record {
    snapshots_removed = length r.removed_ids;
    chains_removed = length (distinct_chains gone);
    bytes_freed = r.freed;
    removed_snapshots = r.removed_ids;
  }

  abbrev pub saved :
      List Snapshot
      → Removal
      → State
      → Result BackupError Files
      → State × Result BackupError RetentionResult
  saved gone r st (err e) = (log_audit_entry m (prune_entry (some e)) st, err e)
  saved gone r st (ok fs) =
      (log_audit_entry m (prune_entry none) (record st { files = fs }), ok (result_of gone r))

  -- The index is saved where a snapshot was removed.
  abbrev pub save_if_removed : List Text → Removal → Result BackupError Files
  save_if_removed [] r = ok r.left_files
  save_if_removed (i ∷ is) r = save_index f r.left r.left_files

  abbrev pub prune :
      List Snapshot → SnapshotIndex → State → State × Result BackupError RetentionResult
  prune gone idx st =
      let r =
        remove_snapshots f t.at_index gone
          (record { left = idx; left_files = st.files; freed = 0; removed_ids = [] }) in
      saved gone r (record st { files = r.left_files }) (save_if_removed r.removed_ids r)

  abbrev pub prune_index :
      RetentionPolicy
      → SnapshotIndex
      → List Snapshot
      → State
      → State × Result BackupError RetentionResult
  prune_index policy idx [] st = (st, ok nothing_removed)
  prune_index policy idx (s ∷ ss) st = prune (to_remove policy idx) idx st

  abbrev pub prune_loaded :
      RetentionPolicy
      → State
      → Result BackupError SnapshotIndex
      → State × Result BackupError RetentionResult
  prune_loaded policy st (err e) = (st, err e)
  prune_loaded policy st (ok idx) = prune_index policy idx (list_snapshots idx) st

  -- A policy that is not nil.
  unfoldable pub apply_retention :
      RetentionPolicy → State → State × Result BackupError RetentionResult
  unfolding to_remove
  apply_retention policy st =
      if not m.enabled
      then (st, err backup_disabled)
      else if not st.files.initialized
      then (st, ok nothing_removed)
      else prune_loaded policy st (load_index f t.at_load st.files)
