-- ===== src/Backup/Prune/Kept.antt =====
-- What ApplyRetention leaves in the index (internal/backup/manager.go).
use claude_hooks.Common.{
  ℕ, ◌+◌, ◌≡◌, refl, sym, ap, ◌∙◌, Bool, true, false, not, ◌||◌, List, [], ◌∷◌, Option, none, some,
  if_false, All, select,
}
use mathlib.Core.Path.{subst}
use claude_hooks.Common.Text.{Text}
use claude_hooks.Common.TextLaws.{All-weaken}
use claude_hooks.Common.Map.{lookup}
use claude_hooks.Common.Result.{Result, ok, err}
use claude_hooks.Backup.{Snapshot, SnapshotIndex, BackupError, list_snapshots}
use claude_hooks.Backup.Retention.{RetentionPolicy, sum_sizes, judged}
use claude_hooks.Backup.Storage.{Faults}
use claude_hooks.Backup.Manager.{Manager, State, Clock, log_audit_entry}
use claude_hooks.Backup.Prune.{
  RetentionResult, Removal, remove_snapshots, to_remove, chain_in, saved, save_if_removed,
  prune_entry, result_of, prune_index, prune_loaded, apply_retention,
}
use claude_hooks.Backup.Prune.Loop.{IsIndex, deletable, AllApart, gone_of, remove_snapshots-Removed}
use claude_hooks.Backup.Prune.Removing.{
  remove_snapshots-Same, select-All, select-AllApart, select-cong_on, Goes, Goes-AllApart, own_id,
  not_and_not, plus_zero, log_audit_entry-files, save_index-saved, load_index-read,
}

-- The snapshots of the stored index.
abbrev pub indexed_of : Option SnapshotIndex → List Snapshot
indexed_of none = []
indexed_of (some idx) = list_snapshots idx

abbrev pub indexed_snapshots : State → List Snapshot
indexed_snapshots st = indexed_of st.files.index_file

abbrev pub freed_bytes : Result BackupError RetentionResult → ℕ
freed_bytes (ok r) = r.bytes_freed
freed_bytes (err e) = 0

module _ (m : Manager) (f : Faults) (t : Clock) (check_time : Snapshot → ℕ)
    (policy : RetentionPolicy) (idx : SnapshotIndex) (st : State) where
  -- The policy keeps the snapshot, or its file cannot be deleted.
  abbrev pub stays : Snapshot → Bool
  stays s =
      policy s (judged (list_snapshots idx) (chain_in m f t check_time idx) check_time s)
      || not (deletable f st.files s)

  abbrev pub Kept : State × Result BackupError RetentionResult → Type 0
  Kept out =
      (indexed_snapshots out.0 ≡ select stays (list_snapshots idx))
      × (sum_sizes (indexed_snapshots out.0) + freed_bytes out.1 ≡ sum_sizes (list_snapshots idx))

  abbrev gone : List Snapshot
  gone = to_remove m f t check_time policy idx

  abbrev start : Removal
  start = record { left = idx; left_files = st.files; freed = 0; removed_ids = [] }

  abbrev end : Removal
  end = remove_snapshots f t.at_index gone start

  left-stays :
      IsIndex idx.snapshots
      → AllApart (list_snapshots idx)
      → (list_snapshots end.left ≡ select stays (list_snapshots idx))
        × (sum_sizes (list_snapshots end.left) + end.freed ≡ sum_sizes (list_snapshots idx))
  unfolding to_remove
  left-stays h a =
      let N = λ (s : Snapshot).
        not (policy s (judged (list_snapshots idx) (chain_in m f t check_time idx) check_time s)) in
      let own : All (λ s. lookup s.id idx.snapshots ≡ some s) (list_snapshots idx) =
        own_id idx.snapshots h in
      let loop =
        remove_snapshots-Removed f t.at_index gone start h
          (select-All (λ s. lookup s.id idx.snapshots ≡ some s) N (list_snapshots idx) own)
          (select-AllApart N (list_snapshots idx) a) in
      (
        loop.1
            ∙ select-cong_on (λ u. not (gone_of f st.files gone u)) stays (list_snapshots idx)
                (All-weaken (Goes (deletable f st.files) N (list_snapshots idx))
                  (λ u. not (gone_of f st.files gone u) ≡ stays u)
                  (λ u g. rw g (not_and_not _ (deletable f st.files u))) (list_snapshots idx)
                  (Goes-AllApart (deletable f st.files) N (list_snapshots idx) a)),
        loop.2 ∙ plus_zero (sum_sizes (list_snapshots idx)),
      )

  Kept-from :
      (st2 : State) (r : Result BackupError RetentionResult) (o : Option SnapshotIndex)
      → st2.files.index_file ≡ o
      → indexed_of o ≡ list_snapshots end.left
      → freed_bytes r ≡ end.freed
      → IsIndex idx.snapshots
      → AllApart (list_snapshots idx)
      → Kept (st2, r)
  Kept-from st2 r o e l b h a =
      let same : indexed_snapshots st2 ≡ list_snapshots end.left = ap indexed_of e ∙ l in
      let left = left-stays h a in
      (
        same ∙ left.0,
        ap (λ ss. sum_sizes ss + freed_bytes r) same
            ∙ ap (λ n. sum_sizes (list_snapshots end.left) + n) b
            ∙ left.1,
      )

  -- The end of the operation, by whether an identifier was removed.
  saved-Kept :
      IsIndex idx.snapshots
      → AllApart (list_snapshots idx)
      → st.files.index_file ≡ some idx
      → f.index_write_fault ≡ false
      → (ids : List Text) → end.removed_ids ≡ ids
      → Kept (
          saved m f t check_time gone end
            (record st { files = end.left_files })
            (save_if_removed m f t check_time ids end))
  saved-Kept h a e w [] none_removed =
      let same = remove_snapshots-Same f t.at_index gone start in
      let st2 : State = record st { files = end.left_files } in
      Kept-from (log_audit_entry m (prune_entry m f t check_time none) st2)
        (ok (result_of m f t check_time gone end)) (some idx)
        (ap (λ fs. fs.index_file) (log_audit_entry-files m (prune_entry m f t check_time none) st2)
          ∙ same.0
          ∙ e)
        (ap list_snapshots (sym (same.1 none_removed).0)) refl h a
  saved-Kept h a e w (i ∷ is) some_removed =
      let st1 : State = record st { files = end.left_files } in
      let st2 : State = record st {
        files = record end.left_files { index_file = some end.left };
      } in
      subst (λ x. Kept (saved m f t check_time gone end st1 x))
        (sym (save_index-saved f end.left end.left_files w))
        (Kept-from (log_audit_entry m (prune_entry m f t check_time none) st2)
          (ok (result_of m f t check_time gone end)) (some end.left)
          (ap (λ fs. fs.index_file)
            (log_audit_entry-files m (prune_entry m f t check_time none) st2))
          refl refl h a)

  prune_index-Kept :
      IsIndex idx.snapshots
      → AllApart (list_snapshots idx)
      → st.files.index_file ≡ some idx
      → f.index_write_fault ≡ false
      → (ss : List Snapshot) → list_snapshots idx ≡ ss
      → Kept (prune_index m f t check_time policy idx ss st)
  prune_index-Kept h a e w [] none_there = (
    ap indexed_of e ∙ none_there ∙ sym (ap (select stays) none_there),
    plus_zero _ ∙ ap (λ o. sum_sizes (indexed_of o)) e,
  )
  prune_index-Kept h a e w (s ∷ ss) some_there = saved-Kept h a e w end.removed_ids refl

  -- Where the index is valid and is read and written without a fault, and the snapshots have different
  -- files: afterwards the index holds, in their order, exactly the snapshots that the policy keeps and
  -- those whose file cannot be deleted; their sizes and the bytes freed make up the sizes before.
  pub apply_retention-Kept :
      m.enabled ≡ true
      → st.files.initialized ≡ true
      → st.files.index_file ≡ some idx
      → f.index_read_fault ≡ false
      → f.index_write_fault ≡ false
      → IsIndex idx.snapshots
      → AllApart (list_snapshots idx)
      → Kept (apply_retention m f t check_time policy st)
  unfolding apply_retention
  apply_retention-Kept en ini e rd w h a =
      subst Kept (sym (if_false (not m.enabled) _ _ (ap not en))) (
        subst Kept (sym (if_false (not st.files.initialized) _ _ (ap not ini))) (
          subst (λ x. Kept (prune_loaded m f t check_time policy st x))
            (sym (load_index-read f t.at_load st.files idx e rd))
            (prune_index-Kept h a e w (list_snapshots idx) refl)))
