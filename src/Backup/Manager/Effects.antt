-- ===== src/Backup/Manager/Effects.antt =====
-- What CreateBackup does to the stored index and to files that are no snapshots
-- (internal/backup/manager.go).
use claude_hooks.Common.{
  ◌≡◌, refl, sym, ◌∙◌, Bool, true, false, not, ◌++◌, Option, none, some, if◌then◌else◌, if_true,
  if_false, Bool-cases, inl, inr,
}
use mathlib.Core.Path.{subst}
use claude_hooks.Common.Text.{Text, codes, text_eq}
use claude_hooks.Common.Map.{lookup, insert, lookup-insert}
use claude_hooks.Common.Result.{Result, ok, err}
use claude_hooks.Backup.{
  Snapshot, SnapshotIndex, BackupError, add_snapshot, new_snapshot_index, find_by_hash,
  generate_snapshot_id, save_index_failed, load_index_failed,
}
use claude_hooks.Backup.Storage.{
  Files, Faults, snapshot_path, save, save_index, load_index, initialize, first_index, after_save,
}
use claude_hooks.Backup.Manager.{
  Manager, State, Clock, AuditEntry, CreateBackupOptions, log_audit_entry, create_entry,
  create_snapshot_record, indexed, stored, unless_known, with_index, ready, with_storage,
  with_config, create_backup,
}
use claude_hooks.Backup.Manager.ValidIndex.{IsValid, add_snapshot-IsValid}

-- A file is as it was.
abbrev pub Untouched : Text → State → State → Type 0
Untouched p st st2 = lookup p st2.files.contents ≡ lookup p st.files.contents

module _ (m : Manager) (p : Text) (st : State) where
  -- The file is no snapshot of the storage.
  abbrev pub Outside : Type 0
  Outside = (name : Text) → text_eq (snapshot_path m.snapshots_dir name) p ≡ false

  abbrev pub Effects : Files → Type 0
  Effects fs =
      (Outside → lookup p fs.contents ≡ lookup p st.files.contents)
      × (IsValid st.files.index_file → IsValid fs.index_file)

  log-Effects :
      (e : AuditEntry) (st2 : State) → Effects st2.files → Effects (log_audit_entry m e st2).files
  unfolding log_audit_entry
  log-Effects e st2 h = elim (Bool-cases m.logs) [
    | inl l ↦ subst (λ (s : State). Effects s.files) (sym (if_true m.logs _ _ l)) h
    | inr l ↦ subst (λ (s : State). Effects s.files) (sym (if_false m.logs _ _ l)) h
  ]

  module _ (sha256_hex : Text → Text) (f : Faults) (t : Clock) (o : CreateBackupOptions) where
    saved-Effects :
        (data_ content_hash path : Text) (idx : SnapshotIndex) (fs : Files)
        → Effects fs
        → (IsValid st.files.index_file → IsValid (some idx))
        → let s = create_snapshot_record sha256_hex m f t o data_ path content_hash idx in
          Effects
            (indexed sha256_hex m f t o s
              (record st { files = fs })
              (save_index f (add_snapshot t.at_index s idx) fs)).0.files
    unfolding save_index
    saved-Effects data_ content_hash path idx fs h v =
        let s = create_snapshot_record sha256_hex m f t o data_ path content_hash idx in
        let st1 : State = record st { files = fs } in
        let fs2 : Files = record fs { index_file = some (add_snapshot t.at_index s idx) } in
        elim (Bool-cases f.index_write_fault) [
          | inl w ↦
              subst (λ x. Effects (indexed sha256_hex m f t o s st1 x).0.files)
                (sym (if_true f.index_write_fault _ _ w))
                (log-Effects (create_entry sha256_hex m f t o s.id (some save_index_failed)) st1 h)
          | inr w ↦
              subst (λ x. Effects (indexed sha256_hex m f t o s st1 x).0.files)
                (sym (if_false f.index_write_fault _ _ w))
                (log-Effects (create_entry sha256_hex m f t o s.id none) (record st { files = fs2 })
                  (h.0, λ u. add_snapshot-IsValid t.at_index s idx refl (v u)))
        ]

    stored-Effects :
        (data_ content_hash name : Text) (idx : SnapshotIndex) (fs : Files)
        → Effects fs
        → (IsValid st.files.index_file → IsValid (some idx))
        → Effects
            (stored sha256_hex m f t o data_ content_hash idx
              (record st { files = fs })
              (save f m.snapshots_dir name data_ fs)).0.files
    unfolding save
    stored-Effects data_ content_hash name idx fs h v =
        let path = snapshot_path m.snapshots_dir name in
        let st1 : State = record st { files = fs } in
        let fs2 : Files = record fs { contents = insert path data_ fs.contents } in
        let P = λ (x : Result BackupError (Text × Files)).
          Effects (stored sha256_hex m f t o data_ content_hash idx st1 x).0.files in
        elim (Bool-cases (not fs.initialized)) [
          | inl n ↦ subst P (sym (if_true (not fs.initialized) _ _ n)) h
          | inr i ↦
              subst P (sym (if_false (not fs.initialized) _ _ i))
                (elim (Bool-cases (f.write_faults path)) [
                  | inl w ↦ subst P (sym (if_true (f.write_faults path) _ _ w)) h
                  | inr w ↦ subst P (sym (if_false (f.write_faults path) _ _ w)) (
                      saved-Effects data_ content_hash path idx fs2
                        (
                          (λ out.
                              lookup-insert path p data_ fs.contents
                              ∙ if_false _ _ _ (out name)
                              ∙ h.0 out),
                          h.1,
                        )
                        v)
                ])
        ]

    unless_known-Effects :
        (data_ : Text) (idx : SnapshotIndex) (fs : Files) (found : Option Snapshot)
        → Effects fs
        → (IsValid st.files.index_file → IsValid (some idx))
        → Effects
            (unless_known sha256_hex m f t o data_ idx (record st { files = fs }) found).0.files
    unless_known-Effects data_ idx fs (some existing) h v = h
    unless_known-Effects data_ idx fs none h v =
        stored-Effects data_ (sha256_hex data_)
          (generate_snapshot_id sha256_hex t.at_snapshot (sha256_hex data_) ++ codes ".full.toml")
          idx fs h v

    -- With the index that is stored, or a new one.
    loaded-Effects :
        (data_ : Text) (fs : Files)
        → Effects fs
        → Effects
            (with_index sha256_hex m f t o data_
              (record st { files = fs })
              (load_index f t.at_load fs)).0.files
    unfolding load_index
    loaded-Effects data_ fs h = go fs.index_file refl
      where
        go :
            (i : Option SnapshotIndex)
            → fs.index_file ≡ i
            → Effects
                (with_index sha256_hex m f t o data_
                  (record st { files = fs })
                  (elim i [
                    | none ↦ ok (new_snapshot_index t.at_load)
                    | some idx ↦ if f.index_read_fault then err load_index_failed else ok idx
                  ])).0.files
        go none e =
            unless_known-Effects data_ (new_snapshot_index t.at_load) fs
              (find_by_hash (sha256_hex data_) (new_snapshot_index t.at_load)) h
              (λ v. ((tt, tt), tt))
        go (some idx) e =
            let P = λ (x : Result BackupError SnapshotIndex).
              Effects (with_index sha256_hex m f t o data_ (record st { files = fs }) x).0.files in
            elim (Bool-cases f.index_read_fault) [
              | inl r ↦ subst P (sym (if_true f.index_read_fault _ _ r)) h
              | inr r ↦ subst P (sym (if_false f.index_read_fault _ _ r)) (
                  unless_known-Effects data_ idx fs (find_by_hash (sha256_hex data_) idx) h
                    (λ v. subst IsValid e (h.1 v)))
            ]

    with_storage-Effects :
        (data_ : Text) (out : Files × Option BackupError)
        → Effects out.0
        → Effects (with_storage sha256_hex m f t o data_ st out).0.files
    with_storage-Effects data_ (fs, some e) h = h
    with_storage-Effects data_ (fs, none) h = loaded-Effects data_ fs h

    first_index-Effects :
        (i : Option SnapshotIndex) (fs : Files)
        → Effects fs
        → Effects (first_index f t.at_load i fs).0
    unfolding save_index
    first_index-Effects (some idx) fs h = h
    first_index-Effects none fs h =
        let P = λ (x : Result BackupError Files). Effects (after_save fs x).0 in
        elim (Bool-cases f.index_write_fault) [
          | inl w ↦ subst P (sym (if_true f.index_write_fault _ _ w)) h
          | inr w ↦ subst P (sym (if_false f.index_write_fault _ _ w)) (h.0, λ v. ((tt, tt), tt))
        ]

    ready-Effects : Effects (ready sha256_hex m f t st).0
    unfolding initialize
    ready-Effects =
        let P = λ (x : Files × Option BackupError). Effects x.0 in
        elim (Bool-cases (not st.files.initialized)) [
          | inr i ↦
              subst P (sym (if_false (not st.files.initialized) _ _ i)) ((λ out. refl), λ v. v)
          | inl n ↦
              subst P (sym (if_true (not st.files.initialized) _ _ n))
                (elim (Bool-cases f.mkdir_fault) [
                  | inl d ↦ subst P (sym (if_true f.mkdir_fault _ _ d)) ((λ out. refl), λ v. v)
                  | inr d ↦ subst P (sym (if_false f.mkdir_fault _ _ d)) (
                      first_index-Effects st.files.index_file
                        (record st.files { initialized = true }) ((λ out. refl), λ v. v))
                ])
        ]

    with_config-Effects :
        (fault : Bool) (found : Option Text)
        → Effects (with_config sha256_hex m f t o st fault found).0.files
    with_config-Effects fault none = ((λ out. refl), λ v. v)
    with_config-Effects true (some data_) = ((λ out. refl), λ v. v)
    with_config-Effects false (some data_) =
        with_storage-Effects data_ (ready sha256_hex m f t st) ready-Effects

    pub create_backup-Effects : Effects (create_backup sha256_hex m f t o st).0.files
    unfolding create_backup
    create_backup-Effects =
        let P = λ (x : State × Result BackupError Snapshot). Effects x.0.files in
        elim (Bool-cases (not m.enabled)) [
          | inl d ↦ subst P (sym (if_true (not m.enabled) _ _ d)) ((λ out. refl), λ v. v)
          | inr d ↦ subst P (sym (if_false (not m.enabled) _ _ d)) (
              with_config-Effects (f.read_faults o.source_path)
                (lookup o.source_path st.files.contents))
        ]
