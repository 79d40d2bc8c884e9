-- ===== src/Backup/Restore/Safe.antt =====
-- A restore either writes the target with the content that was checked or leaves it as it was
-- (RestoreSnapshot in internal/backup/restore.go).
use claude_hooks.Common.{◌≡◌, true, not, ◌||◌, some}
use claude_hooks.Common.Text.{Text, text_eq}
use claude_hooks.Common.Map.{lookup}
use claude_hooks.Common.Result.{Result, ok, err}
use claude_hooks.Backup.{Snapshot, BackupError}
use claude_hooks.Backup.Storage.{Faults}
use claude_hooks.Backup.Manager.{Manager, State, Clock}
use claude_hooks.Backup.Manager.Effects.{Outside, Untouched}
use claude_hooks.Backup.Restore.{RestoreOptions, RestoreResult}

module _ (sha256_hex : Text → Text) (m : Manager) (f : Faults) (t : Clock) (o : RestoreOptions)
    (s : Snapshot) (path : Text) (st : State) (out : Outside m path st) where
  -- The content has the hash that the snapshot's metadata name, if validation was asked for.
  abbrev pub Checked : Text → Type 0
  Checked data_ = (not o.validate || text_eq (sha256_hex data_) s.metadata.config_hash) ≡ true

  -- What the outcome says of the target.
  abbrev pub Safe : State → Result BackupError RestoreResult → Type 0
  Safe st2 (ok r) = (data_ : Text) × (lookup path st2.files.contents ≡ some data_) × Checked data_
  Safe st2 (err e) = Untouched path st st2

  abbrev OkChecked : Result BackupError Text → Type 0
  OkChecked (ok data_) = Checked data_
  OkChecked (err e) = Unit

  abbrev SafeOut : State × Result BackupError RestoreResult → Type 0
  SafeOut x = Safe x.0 x.1
