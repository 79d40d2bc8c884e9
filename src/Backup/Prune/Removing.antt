-- ===== src/Backup/Prune/Removing.antt =====
-- What the loop of ApplyRetention and the storage do to the files and the index
-- (internal/backup/manager.go, storage.go).
use claude_hooks.Common.{
  ℕ, ◌+◌, ◌≡◌, refl, ap, ◌∙◌, Bool, true, false, not, ◌&&◌, ◌||◌, List, [], ◌∷◌, ◌++◌, Option, none,
  some, if◌then◌else◌, if_false, All, any, select, arith, Bool-cases, inl, inr,
}
use claude_hooks.Common.Text.{Text, text_eq, text_eq_iff, text_eq_refl}
use claude_hooks.Common.TextLaws.{All-combine}
use claude_hooks.Common.Map.{Map, lookup}
use claude_hooks.Common.Result.{Result, ok, err}
use claude_hooks.Backup.{
  Snapshot, SnapshotIndex, BackupError, load_index_failed, new_snapshot_index, delete_snapshot,
  values,
}
use claude_hooks.Backup.Retention.Grouping.{IsMap-entries}
use claude_hooks.Backup.Storage.{Files, Faults, removed, delete_file, load_index, save_index}
use claude_hooks.Backup.Manager.{Manager, State, AuditEntry, log_audit_entry}
use claude_hooks.Backup.Prune.{
  Removal, remove_snapshot, remove_snapshots, remove_indexed, remove_deleted,
}
use claude_hooks.Backup.Prune.Loop.{IsIndex, Apart, AllApart}

-- The loop leaves the file of the index alone, and without a removed identifier the index too.
abbrev Same : Removal → Removal → Type 0
Same r q =
    (q.left_files.index_file ≡ r.left_files.index_file)
    × (q.removed_ids ≡ [] → (q.left ≡ r.left) × (r.removed_ids ≡ []))

append-ne_nil : (xs : List Text) (x : Text) → ¬ (xs ++ (x ∷ []) ≡ [])
append-ne_nil [] x e = cc
append-ne_nil (y ∷ xs) x e = cc

module _ (now : ℕ) (s : Snapshot) (r : Removal) where
  indexed-Same :
      (fs : Files) (x : Result BackupError SnapshotIndex)
      → fs.index_file ≡ r.left_files.index_file
      → Same r (remove_indexed s fs x r)
  indexed-Same fs (err e) same = (same, λ h. (refl, h))
  indexed-Same fs (ok idx) same = (same, λ h. absurd (append-ne_nil r.removed_ids s.id h))

  deleted-Same :
      (fault : Bool) (o : Option Text)
      → Same r (remove_deleted now s (removed fault o s.storage_path r.left_files) r)
  deleted-Same fault none = (refl, λ h. (refl, h))
  deleted-Same true (some data_) = (refl, λ h. (refl, h))
  deleted-Same false (some data_) = indexed-Same _ (delete_snapshot now s.id r.left) refl

pub remove_snapshots-Same :
    (f : Faults) (now : ℕ) (gone : List Snapshot) (r : Removal)
    → Same r (remove_snapshots f now gone r)
unfolding remove_snapshots delete_file
remove_snapshots-Same f now [] r = (refl, λ h. (refl, h))
remove_snapshots-Same f now (s ∷ ss) r =
    let later = remove_snapshots-Same f now ss (remove_snapshot f now s r) in
    let first =
      deleted-Same now s r (f.delete_faults s.storage_path)
        (lookup s.storage_path r.left_files.contents) in
    (later.0 ∙ first.0, λ h. let q = later.1 h in (q.0 ∙ (first.1 q.1).0, (first.1 q.1).1))

values-All {ℓ} : (P : Snapshot → Type ℓ) (m : Map Snapshot) → All (λ e. P e.1) m → All P (values m)
values-All P [] h = tt
values-All P ((k, s) ∷ m) h = (h.0, values-All P m h.1)

pub select-All {ℓ} :
    {A : Type 0} (P : A → Type ℓ) (p : A → Bool) (xs : List A) → All P xs → All P (select p xs)
select-All P p [] h = tt
select-All P p (x ∷ xs) h = elim (Bool-cases (p x)) [
  | inl e ↦ rw e (h.0, select-All P p xs h.1)
  | inr e ↦ rw e (select-All P p xs h.1)
]

pub select-AllApart :
    (p : Snapshot → Bool) (ss : List Snapshot) → AllApart ss → AllApart (select p ss)
select-AllApart p [] h = tt
select-AllApart p (s ∷ ss) h = elim (Bool-cases (p s)) [
  | inl e ↦ rw e (select-All (Apart s) p ss h.0, select-AllApart p ss h.1)
  | inr e ↦ rw e (select-AllApart p ss h.1)
]

pub select-cong_on :
    {A : Type 0} (p q : A → Bool) (xs : List A)
    → All (λ x. p x ≡ q x) xs
    → select p xs ≡ select q xs
select-cong_on p q [] h = refl
select-cong_on p q (x ∷ xs) h = rw (h.0, select-cong_on p q xs h.1) refl

module _ (D N : Snapshot → Bool) where
  -- A snapshot among others is gone where it is to go and can be deleted.
  abbrev pub Goes : List Snapshot → Snapshot → Type 0
  Goes ss u = any (λ s. D s && text_eq s.id u.id) (select N ss) ≡ (N u && D u)

  none_same :
      (t : Snapshot) (ss : List Snapshot)
      → All (Apart t) ss
      → any (λ s. D s && text_eq s.id t.id) (select N ss) ≡ false
  none_same t [] h = refl
  none_same t (s ∷ ss) h =
      ground (arith, none_same t ss h.1, h.0.0, text_eq_iff t.id s.id, text_eq_iff s.id t.id)

  pub Goes-AllApart : (ss : List Snapshot) → AllApart ss → All (Goes ss) ss
  Goes-AllApart [] h = tt
  Goes-AllApart (t ∷ ss) h = (
    ground (arith, none_same t ss h.0, text_eq_refl t.id),
    All-combine (Apart t) (Goes ss) (Goes (t ∷ ss)) (λ u a g. ground (arith, a.0, g)) ss h.0
        (Goes-AllApart ss h.1),
  )

pub own_id : (m : Map Snapshot) → IsIndex m → All (λ s. lookup s.id m ≡ some s) (values m)
own_id m h =
    values-All (λ s. lookup s.id m ≡ some s) m
      (All-combine (λ e. lookup e.0 m ≡ some e.1) (λ e. e.1.id ≡ e.0)
        (λ e. lookup e.1.id m ≡ some e.1) (λ e found same. ap (λ k. lookup k m) same ∙ found) m
        (IsMap-entries m h.0) h.1)

pub not_and_not : (b d : Bool) → not (not b && d) ≡ (b || not d)
not_and_not true d = refl
not_and_not false d = refl

pub or_false : (b : Bool) → (b || false) ≡ b
or_false true = refl
or_false false = refl

pub plus_zero : (n : ℕ) → n + 0 ≡ n
plus_zero n = omega arith

pub log_audit_entry-files :
    (m : Manager) (e : AuditEntry) (st : State) → (log_audit_entry m e st).files ≡ st.files
unfolding log_audit_entry
log_audit_entry-files m e st = elim (Bool-cases m.logs) [
  | inl l ↦ rw (l) refl
  | inr l ↦ rw (l) refl
]

pub save_index-saved :
    (f : Faults) (idx : SnapshotIndex) (fs : Files)
    → f.index_write_fault ≡ false
    → save_index f idx fs ≡ ok (record fs { index_file = some idx })
unfolding save_index
save_index-saved f idx fs w = if_false _ _ _ w

pub load_index-read :
    (f : Faults) (now : ℕ) (fs : Files) (idx : SnapshotIndex)
    → fs.index_file ≡ some idx
    → f.index_read_fault ≡ false
    → load_index f now fs ≡ ok idx
unfolding load_index
load_index-read f now fs idx e r = read fs.index_file e
  where
    read :
        (o : Option SnapshotIndex)
        → o ≡ some idx
        → (elim o [
          | none ↦ ok (new_snapshot_index now)
          | some i ↦ if f.index_read_fault then err load_index_failed else ok i
        ])
          ≡ ok idx
    read none o = cc
    read (some i) o = let same : i ≡ idx = cc in if_false _ _ _ r ∙ ap (λ j. ok j) same
