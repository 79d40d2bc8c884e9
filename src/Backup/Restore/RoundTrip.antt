-- ===== src/Backup/Restore/RoundTrip.antt =====
-- A backup that is made can be restored (internal/backup/manager.go, restore.go).
use claude_hooks.Common.{
  ◌≡◌, refl, ap, ◌∙◌, true, false, not, ◌&&◌, ◌++◌, none, some, is_some, if◌then◌else◌, if_true,
  if_false, Bool-cases, inl, inr, length,
}
use claude_hooks.Common.Text.{Text, codes, text_eq, text_eq_refl, is_empty}
use claude_hooks.Common.Map.{lookup, insert, lookup-insert_self}
use claude_hooks.Common.Result.{ok, ◌>>=◌}
use claude_hooks.Backup.{
  Snapshot, SnapshotIndex, generate_snapshot_id, add_snapshot, get_snapshot, or_not_found,
  find_by_hash,
}
use claude_hooks.Backup.Storage.{Files, Faults, snapshot_path, save, load, loaded}
use claude_hooks.Backup.Manager.{
  Manager, State, Clock, CreateBackupOptions, log_audit_entry, create_entry, create_snapshot_record,
  indexed, stored, unless_known, with_index, with_storage, with_config, create_backup,
}
use claude_hooks.Backup.Prune.Removing.{load_index-read, save_index-saved, log_audit_entry-files}
use claude_hooks.Backup.Restore.{
  RestoreOptions, RestoreResult, check_hash, validate_snapshot, reconstruct_snapshot, content_of,
  write_checked, back_up_first, validated, restore_snapshot, get_by_id, restore_logged,
  restore_found, restore_entry, restore_by_id,
}

-- Every call of the operating system succeeds.
abbrev pub no_faults : Faults
no_faults = record {
  read_faults = λ path. false;
  write_faults = λ path. false;
  delete_faults = λ path. false;
  index_read_fault = false;
  index_write_fault = false;
  mkdir_fault = false;
}

module _ (sha256_hex : Text → Text) (m : Manager) (t : Clock) (o : CreateBackupOptions)
    (data_ : Text) (idx : SnapshotIndex) where
  abbrev content_hash : Text
  content_hash = sha256_hex data_

  abbrev stored_name : Text
  stored_name = generate_snapshot_id sha256_hex t.at_snapshot content_hash ++ codes ".full.toml"

  abbrev stored_path : Text
  stored_path = snapshot_path m.snapshots_dir stored_name

  -- The snapshot that is made of the content.
  abbrev pub made : Snapshot
  made = create_snapshot_record sha256_hex m no_faults t o data_ stored_path content_hash idx

  abbrev files_after : Files → Files
  files_after fs = record fs {
    contents = insert stored_path data_ fs.contents;
    index_file = some (add_snapshot t.at_index made idx);
  }

  abbrev state_after : State → State
  state_after st =
      log_audit_entry m (create_entry sha256_hex m no_faults t o made.id none)
        (record st { files = files_after st.files })

  created :
      (st : State)
      → m.enabled ≡ true
      → st.files.initialized ≡ true
      → st.files.index_file ≡ some idx
      → lookup o.source_path st.files.contents ≡ some data_
      → find_by_hash content_hash idx ≡ none
      → create_backup sha256_hex m no_faults t o st ≡ (state_after st, ok made)
  unfolding create_backup save
  created st en ini e found unknown =
      if_false (not m.enabled) _ _ (ap not en)
      ∙ ap (with_config sha256_hex m no_faults t o st false) found
      ∙ ap (with_storage sha256_hex m no_faults t o data_ st)
          (if_false (not st.files.initialized) _ _ (ap not ini))
      ∙ ap (with_index sha256_hex m no_faults t o data_ st)
          (load_index-read no_faults t.at_load st.files idx e refl)
      ∙ ap (unless_known sha256_hex m no_faults t o data_ idx st) unknown
      ∙ ap (stored sha256_hex m no_faults t o data_ content_hash idx st)
          (if_false (not st.files.initialized) _ _ (ap not ini))
      ∙ ap
          (indexed sha256_hex m no_faults t o made (record st {
            files = record st.files { contents = insert stored_path data_ st.files.contents };
          }))
          (save_index-saved no_faults (add_snapshot t.at_index made idx)
            (record st.files { contents = insert stored_path data_ st.files.contents }) refl)

  module _ (t2 : Clock) (o2 : RestoreOptions) (st2 : State) where
    abbrev restored_to : Text
    restored_to = if is_empty o2.target_path then o.source_path else o2.target_path

    abbrev pub restored : RestoreResult
    restored = record {
      restored_path = restored_to;
      backup_snapshot = none;
      bytes_restored = length data_;
      checksum_verified = o2.validate;
    }

    abbrev state_restored : State
    state_restored = record st2 {
      files = record st2.files { contents = insert restored_to data_ st2.files.contents };
    }

    load-found :
        lookup stored_path st2.files.contents ≡ some data_
        → load no_faults stored_path st2.files ≡ ok data_
    unfolding load
    load-found found = ap (loaded false) found

    check_hash-made : check_hash sha256_hex m no_faults t2 made data_ ≡ ok data_
    check_hash-made =
        if_false (not (text_eq content_hash content_hash)) _ _ (ap not (text_eq_refl content_hash))

    validate_snapshot-made :
        lookup stored_path st2.files.contents ≡ some data_
        → validate_snapshot sha256_hex m no_faults t2 made st2.files ≡ ok data_
    unfolding validate_snapshot
    validate_snapshot-made found = simp (load-found found, check_hash-made)

    content_of-made :
        lookup stored_path st2.files.contents ≡ some data_
        → content_of sha256_hex m no_faults t2 o2 made st2.files ≡ ok data_
    unfolding reconstruct_snapshot
    content_of-made found = elim (Bool-cases o2.validate) [
      | inl y ↦ simp (load-found found, check_hash-made, y)
      | inr n ↦ simp (load-found found, n)
    ]

    back_up_first-made :
        lookup stored_path st2.files.contents ≡ some data_
        → o2.backup_before_restore ≡ false
        → back_up_first sha256_hex m no_faults t2 o2 restored_to made st2
          ≡ (state_restored, ok restored)
    back_up_first-made found b =
        if_false _ _ _
          (ap (λ x. (x && not o2.force) && is_some (lookup restored_to st2.files.contents)) b)
        ∙ ap (write_checked sha256_hex m no_faults t2 o2 restored_to none st2)
            (content_of-made found)

    restore_snapshot-made :
        lookup stored_path st2.files.contents ≡ some data_
        → o2.backup_before_restore ≡ false
        → is_empty restored_to ≡ false
        → restore_snapshot sha256_hex m no_faults t2 o2 made st2 ≡ (state_restored, ok restored)
    unfolding restore_snapshot
    restore_snapshot-made found b p = if_false _ _ _ p ∙ elim (Bool-cases o2.validate) [
      | inl y ↦
          if_true o2.validate _ _ y
          ∙ ap (validated sha256_hex m no_faults t2 o2 restored_to made st2)
              (validate_snapshot-made found)
          ∙ back_up_first-made found b
      | inr n ↦ if_false o2.validate _ _ n ∙ back_up_first-made found b
    ]

    get_by_id-made :
        m.enabled ≡ true
        → st2.files.initialized ≡ true
        → st2.files.index_file ≡ some (add_snapshot t.at_index made idx)
        → get_by_id sha256_hex m no_faults t2 made.id st2 ≡ ok made
    unfolding get_by_id get_snapshot add_snapshot
    get_by_id-made en ini e =
        if_false (not m.enabled) _ _ (ap not en)
        ∙ if_false (not st2.files.initialized) _ _ (ap not ini)
        ∙ ap (λ x. x >>= λ i. get_snapshot made.id i)
            (load_index-read no_faults t2.at_load st2.files (add_snapshot t.at_index made idx) e
              refl)
        ∙ ap or_not_found (lookup-insert_self made.id made idx.snapshots)

    restore_by_id-made :
        m.enabled ≡ true
        → st2.files.initialized ≡ true
        → st2.files.index_file ≡ some (add_snapshot t.at_index made idx)
        → lookup stored_path st2.files.contents ≡ some data_
        → o2.backup_before_restore ≡ false
        → is_empty restored_to ≡ false
        → restore_by_id sha256_hex m no_faults t2 made.id o2 st2
          ≡ restore_logged sha256_hex m no_faults t2 made.id made (state_restored, ok restored)
    unfolding restore_by_id
    restore_by_id-made en ini e found b p =
        if_false (not m.enabled) _ _ (ap not en)
        ∙ ap (restore_found sha256_hex m no_faults t2 made.id o2 st2) (get_by_id-made en ini e)
        ∙ ap (restore_logged sha256_hex m no_faults t2 made.id made)
            (restore_snapshot-made found b p)

  -- The storage is as the backup left it: the index, and the file of the snapshot.
  abbrev pub StorageKept : State → State → Type 0
  StorageKept st1 st2 =
      (st2.files.initialized ≡ st1.files.initialized)
      × (st2.files.index_file ≡ st1.files.index_file)
      × (lookup stored_path st2.files.contents ≡ lookup stored_path st1.files.contents)

  -- Where no call of the operating system fails and the storage is there with an index: a backup of a
  -- content that the index does not have succeeds, and restoring its snapshot by its identifier, later
  -- and in any state with the same storage, to a target that has a name and is not backed up first,
  -- succeeds and puts the content that was backed up into the target.
  pub restore_by_id-create_backup :
      (st st2 : State) (t2 : Clock) (o2 : RestoreOptions)
      → m.enabled ≡ true
      → st.files.initialized ≡ true
      → st.files.index_file ≡ some idx
      → lookup o.source_path st.files.contents ≡ some data_
      → find_by_hash content_hash idx ≡ none
      → StorageKept (create_backup sha256_hex m no_faults t o st).0 st2
      → o2.backup_before_restore ≡ false
      → is_empty (if is_empty o2.target_path then o.source_path else o2.target_path) ≡ false
      → ((create_backup sha256_hex m no_faults t o st).1 ≡ ok made)
        × ((restore_by_id sha256_hex m no_faults t2 made.id o2 st2).1 ≡ ok (restored t2 o2 st2))
        × (lookup
              (if is_empty o2.target_path then o.source_path else o2.target_path)
              (restore_by_id sha256_hex m no_faults t2 made.id o2 st2).0.files.contents
            ≡ some data_)
  restore_by_id-create_backup st st2 t2 o2 en ini e found unknown kept b p =
      let made_so = created st en ini e found unknown in
      let files_made : (create_backup sha256_hex m no_faults t o st).0.files
          ≡ files_after st.files =
        ap (λ x. x.0.files) made_so
        ∙ log_audit_entry-files m (create_entry sha256_hex m no_faults t o made.id none)
            (record st { files = files_after st.files }) in
      let back =
        restore_by_id-made t2 o2 st2 en (kept.0 ∙ ap (λ fs. fs.initialized) files_made ∙ ini)
          (kept.1 ∙ ap (λ fs. fs.index_file) files_made)
          (kept.2
            ∙ ap (λ fs. lookup stored_path fs.contents) files_made
            ∙ lookup-insert_self stored_path data_ st.files.contents)
          b p in
      (
        ap (λ x. x.1) made_so,
        ap (λ x. x.1) back,
        ap (λ x. lookup (restored_to t2 o2 st2) x.0.files.contents) back
            ∙ ap (λ fs. lookup (restored_to t2 o2 st2) fs.contents)
                (log_audit_entry-files m
                  (restore_entry sha256_hex m no_faults t2 made.id (restored_to t2 o2 st2) none)
                  (state_restored t2 o2 st2))
            ∙ lookup-insert_self (restored_to t2 o2 st2) data_ st2.files.contents,
      )
