-- ===== src/Backup/Prune/Loop.antt =====
-- The loop of ApplyRetention that removes snapshots (internal/backup/manager.go): what is left of the
-- index and of the files.
use claude_hooks.Common.{
  ℕ, ◌+◌, ◌≡◌, refl, sym, ap, ◌∙◌, Bool, true, false, not, ◌&&◌, ◌||◌, List, [], ◌∷◌, none, some,
  if_false, All, any, select, is_some, arith, Bool-cases, Option-cases, inl, inr,
}
use mathlib.Core.Path.{subst}
use claude_hooks.Common.Text.{Text, text_eq, text_eq_iff}
use claude_hooks.Common.TextLaws.{All-weaken, All-combine}
use claude_hooks.Common.Map.{Map, lookup, delete, lookup-delete, IsMap, delete-IsMap}
use claude_hooks.Backup.{Snapshot, delete_snapshot, values}
use claude_hooks.Backup.Retention.{sum_sizes}
use claude_hooks.Backup.Storage.{Files, Faults, delete_file}
use claude_hooks.Backup.Prune.{Removal, remove_snapshot, remove_snapshots}

-- A map of snapshots under their identifiers, each once.
abbrev pub IsIndex : Map Snapshot → Type 0
IsIndex m = IsMap m × All (λ e. e.1.id ≡ e.0) m

-- The file of the snapshot is there and can be deleted.
abbrev pub deletable : Faults → Files → Snapshot → Bool
deletable f fs s =
    not (f.delete_faults s.storage_path) && is_some (lookup s.storage_path fs.contents)

delete-missing : {V : Type 0} (k : Text) (m : Map V) → lookup k m ≡ none → delete k m ≡ m
unfolding lookup delete
delete-missing k [] h = refl
delete-missing k ((j, v) ∷ m) h = ground (arith, delete-missing k m, h)

-- Without the snapshot of an identifier.
values-delete :
    (k : Text) (m : Map Snapshot)
    → All (λ e. e.1.id ≡ e.0) m
    → values (delete k m) ≡ select (λ u. not (text_eq k u.id)) (values m)
unfolding delete
values-delete k [] h = refl
values-delete k ((j, s) ∷ m) h =
    ground (arith, values-delete k m h.1, h.0, text_eq_iff j k, text_eq_iff k s.id)

sum_sizes-delete :
    (k : Text) (m : Map Snapshot) (s : Snapshot)
    → IsMap m
    → lookup k m ≡ some s
    → sum_sizes (values (delete k m)) + s.size ≡ sum_sizes (values m)
unfolding lookup delete
sum_sizes-delete k [] s h e = ground arith
sum_sizes-delete k ((j, u) ∷ m) s h e = elim (Bool-cases (text_eq j k)) [
  | inl y ↦
      let missing : lookup k m ≡ none =
        subst (λ i. lookup i m ≡ none) ((text_eq_iff j k).0 y) h.0 in
      let found : some u ≡ some s = rw y at e in
      let same : u ≡ s = cc in rw (y, delete-missing k m missing, same) (omega arith)
  | inr n ↦ rw n (ground (arith, sum_sizes-delete k m s h.1 (rw n at e)))
]

delete-ids :
    (k : Text) (m : Map Snapshot) → All (λ e. e.1.id ≡ e.0) m → All (λ e. e.1.id ≡ e.0) (delete k m)
unfolding delete
delete-ids k [] h = tt
delete-ids k ((j, s) ∷ m) h = elim (Bool-cases (text_eq j k)) [
  | inl y ↦ rw y (delete-ids k m h.1)
  | inr n ↦ rw n (h.0, delete-ids k m h.1)
]

-- What holds before a snapshot is removed.
abbrev pub Ready : Snapshot → Removal → Type 0
Ready s r = IsIndex r.left.snapshots × (lookup s.id r.left.snapshots ≡ some s)

-- The snapshots that are left, where one is taken away if its file can be deleted.
abbrev pub without : Bool → Snapshot → List Snapshot → List Snapshot
without gone s us = select (λ u. not (gone && text_eq s.id u.id)) us

select-all : {A : Type 0} (p : A → Bool) (xs : List A) → ((x : A) → p x ≡ true) → select p xs ≡ xs
select-all p [] h = refl
select-all p (x ∷ xs) h = rw (h x, select-all p xs h) refl

select-select :
    {A : Type 0} (p q : A → Bool) (xs : List A)
    → select p (select q xs) ≡ select (λ x. q x && p x) xs
select-select p q [] = refl
select-select p q (x ∷ xs) = ground (arith, select-select p q xs)

select-cong :
    {A : Type 0} (p q : A → Bool) (xs : List A) → ((x : A) → p x ≡ q x) → select p xs ≡ select q xs
select-cong p q [] h = refl
select-cong p q (x ∷ xs) h = rw (h x, select-cong p q xs h) refl

-- One step of the loop.
abbrev pub Stepped : Faults → Snapshot → Removal → Removal → Type 0
Stepped f s r q =
    IsIndex q.left.snapshots
    × (values q.left.snapshots ≡ without (deletable f r.left_files s) s (values r.left.snapshots))
    × (sum_sizes (values q.left.snapshots) + q.freed
        ≡ sum_sizes (values r.left.snapshots) + r.freed)

remove_snapshot-Stepped :
    (f : Faults) (now : ℕ) (s : Snapshot) (r : Removal)
    → Ready s r
    → Stepped f s r (remove_snapshot f now s r)
unfolding remove_snapshot delete_file delete_snapshot
remove_snapshot-Stepped f now s r h =
    elim (Option-cases (lookup s.storage_path r.left_files.contents)) [
      | inl none_there ↦ rw none_there (h.0, sym (select-all _ _ (λ u. ground arith)), refl)
      | inr (data_, there) ↦ elim (Bool-cases (f.delete_faults s.storage_path)) [
        | inl fault ↦ rw (there, fault) (h.0, sym (select-all _ _ (λ u. refl)), refl)
        | inr fine ↦
            rw (there, fine, h.1)
              (
                (delete-IsMap s.id r.left.snapshots h.0.0, delete-ids s.id r.left.snapshots h.0.1),
                values-delete s.id r.left.snapshots h.0.1,
                omega (arith, sum_sizes-delete s.id r.left.snapshots s h.0.0 h.1),
              )
      ]
    ]

-- Other snapshots and their files are where they were.
abbrev pub Apart : Snapshot → Snapshot → Type 0
Apart s u = (text_eq s.id u.id ≡ false) × (text_eq s.storage_path u.storage_path ≡ false)

remove_snapshot-others :
    (f : Faults) (now : ℕ) (s : Snapshot) (r : Removal)
    → lookup s.id r.left.snapshots ≡ some s
    → (u : Snapshot) → Apart s u
    → (lookup u.id (remove_snapshot f now s r).left.snapshots ≡ lookup u.id r.left.snapshots)
      × (lookup u.storage_path (remove_snapshot f now s r).left_files.contents
          ≡ lookup u.storage_path r.left_files.contents)
unfolding remove_snapshot delete_file delete_snapshot
remove_snapshot-others f now s r h u a =
    elim (Option-cases (lookup s.storage_path r.left_files.contents)) [
      | inl none_there ↦ rw none_there (refl, refl)
      | inr (data_, there) ↦ elim (Bool-cases (f.delete_faults s.storage_path)) [
        | inl fault ↦ rw (there, fault) (refl, refl)
        | inr fine ↦
            rw (there, fine, h)
              (
                lookup-delete s.id u.id r.left.snapshots ∙ if_false _ _ _ a.0,
                lookup-delete s.storage_path u.storage_path r.left_files.contents
                    ∙ if_false _ _ _ a.1,
              )
      ]
    ]

abbrev pub AllApart : List Snapshot → Type 0
AllApart [] = Unit
AllApart (s ∷ ss) = All (Apart s) ss × AllApart ss

-- The snapshot of an identifier is gone: one of those to remove has it and could be deleted.
abbrev pub gone_of : Faults → Files → List Snapshot → Snapshot → Bool
gone_of f fs gone u = any (λ s. deletable f fs s && text_eq s.id u.id) gone

any-cong :
    {A : Type 0} (p q : A → Bool) (xs : List A) → All (λ x. p x ≡ q x) xs → any p xs ≡ any q xs
any-cong p q [] h = refl
any-cong p q (x ∷ xs) h = rw (h.0, any-cong p q xs h.1) refl

not_or : (a b : Bool) → (not a && not b) ≡ not (a || b)
not_or true b = refl
not_or false b = refl

-- What is left at the end of the loop.
abbrev pub Removed : Faults → List Snapshot → Removal → Removal → Type 0
Removed f gone r q =
    IsIndex q.left.snapshots
    × (values q.left.snapshots
        ≡ select (λ u. not (gone_of f r.left_files gone u)) (values r.left.snapshots))
    × (sum_sizes (values q.left.snapshots) + q.freed
        ≡ sum_sizes (values r.left.snapshots) + r.freed)

pub remove_snapshots-Removed :
    (f : Faults) (now : ℕ) (gone : List Snapshot) (r : Removal)
    → IsIndex r.left.snapshots
    → All (λ s. lookup s.id r.left.snapshots ≡ some s) gone
    → AllApart gone
    → Removed f gone r (remove_snapshots f now gone r)
unfolding remove_snapshots
remove_snapshots-Removed f now [] r h l a = (h, sym (select-all _ _ (λ u. refl)), refl)
remove_snapshots-Removed f now (s ∷ ss) r h l a =
    let q = remove_snapshot f now s r in
    let step = remove_snapshot-Stepped f now s r (h, l.0) in
    let found : All (λ u. lookup u.id q.left.snapshots ≡ some u) ss =
      All-combine (Apart s) (λ u. lookup u.id r.left.snapshots ≡ some u)
        (λ u. lookup u.id q.left.snapshots ≡ some u)
        (λ u p e. (remove_snapshot-others f now s r l.0 u p).0 ∙ e) ss a.0 l.1 in
    let same : (u : Snapshot) → gone_of f q.left_files ss u ≡ gone_of f r.left_files ss u = λ u.
      any-cong (λ v. deletable f q.left_files v && text_eq v.id u.id)
        (λ v. deletable f r.left_files v && text_eq v.id u.id) ss
        (All-weaken (Apart s)
          (λ v.
            (deletable f q.left_files v && text_eq v.id u.id)
            ≡ (deletable f r.left_files v && text_eq v.id u.id))
          (λ v p.
            ap (λ o. (not (f.delete_faults v.storage_path) && is_some o) && text_eq v.id u.id)
              (remove_snapshot-others f now s r l.0 v p).1)
          ss a.0) in
    let rest = remove_snapshots-Removed f now ss q step.0 found a.1 in
    (
      rest.0,
      rest.1
          ∙ ap (select (λ u. not (gone_of f q.left_files ss u))) step.1
          ∙ select-select (λ u. not (gone_of f q.left_files ss u))
              (λ u. not (deletable f r.left_files s && text_eq s.id u.id)) (values r.left.snapshots)
          ∙ select-cong _ _ _ (λ u.
            ap (λ b. not (deletable f r.left_files s && text_eq s.id u.id) && not b) (same u)
            ∙ not_or _ _),
      rest.2 ∙ step.2,
    )
