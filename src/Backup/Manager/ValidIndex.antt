-- ===== src/Backup/Manager/ValidIndex.antt =====
-- The index stays valid when a snapshot is added (internal/backup/snapshot.go, manager.go).
use claude_hooks.Common.{
  ℕ, ◌≡◌, refl, sym, false, List, [], ◌∷◌, Option, none, some, All, arith, Bool-cases, inl, inr,
}
use mathlib.Core.Path.{subst}
use claude_hooks.Common.Text.{Text, text_eq, text_eq_iff}
use claude_hooks.Common.TextLaws.{All-weaken}
use claude_hooks.Common.Map.{Map, insert, insert-IsMap}
use claude_hooks.Backup.{Snapshot, SnapshotIndex, values, list_snapshots, add_snapshot}
use claude_hooks.Backup.Manager.{generate_chain_id}
use claude_hooks.Backup.Manager.ChainIds.{generate_chain_id-new}
use claude_hooks.Backup.Prune.Loop.{IsIndex}

-- No two snapshots share a chain.
abbrev OwnChains : List Snapshot → Type 0
OwnChains [] = Unit
OwnChains (s ∷ ss) = All (λ u. text_eq s.chain_id u.chain_id ≡ false) ss × OwnChains ss

abbrev pub IsValid : Option SnapshotIndex → Type 0
IsValid none = Unit
IsValid (some idx) = IsIndex idx.snapshots × OwnChains (list_snapshots idx)

insert-All {ℓ} :
    (P : Snapshot → Type ℓ) (k : Text) (s : Snapshot) (m : Map Snapshot)
    → P s
    → All P (values m)
    → All P (values (insert k s m))
unfolding insert
insert-All P k s [] p h = (p, tt)
insert-All P k s ((j, u) ∷ m) p h = elim (Bool-cases (text_eq j k)) [
  | inl y ↦ rw y (p, h.1)
  | inr n ↦ rw n (h.0, insert-All P k s m p h.1)
]

differ-sym : (c : Text) (s : Snapshot) → text_eq s.chain_id c ≡ false → text_eq c s.chain_id ≡ false
differ-sym c s h = ground (arith, text_eq_iff s.chain_id c, text_eq_iff c s.chain_id, h)

insert-OwnChains :
    (k : Text) (s : Snapshot) (m : Map Snapshot)
    → All (λ u. text_eq u.chain_id s.chain_id ≡ false) (values m)
    → OwnChains (values m)
    → OwnChains (values (insert k s m))
unfolding insert
insert-OwnChains k s [] n h = (tt, tt)
insert-OwnChains k s ((j, u) ∷ m) n h = elim (Bool-cases (text_eq j k)) [
  | inl y ↦ rw y (
    All-weaken (λ v. text_eq v.chain_id s.chain_id ≡ false)
        (λ v. text_eq s.chain_id v.chain_id ≡ false) (λ v. differ-sym s.chain_id v) (values m) n.1,
    h.1,
  )
  | inr z ↦ rw z (
    insert-All (λ v. text_eq u.chain_id v.chain_id ≡ false) k s m n.0 h.0,
    insert-OwnChains k s m n.1 h.1,
  )
]

insert-ids :
    (s : Snapshot) (m : Map Snapshot)
    → All (λ e. e.1.id ≡ e.0) m
    → All (λ e. e.1.id ≡ e.0) (insert s.id s m)
unfolding insert
insert-ids s [] h = (refl, tt)
insert-ids s ((j, u) ∷ m) h = elim (Bool-cases (text_eq j s.id)) [
  | inl y ↦ rw y (sym ((text_eq_iff j s.id).0 y), h.1)
  | inr n ↦ rw n (h.0, insert-ids s m h.1)
]

pub add_snapshot-IsValid :
    (now : ℕ) (s : Snapshot) (idx : SnapshotIndex)
    → s.chain_id ≡ generate_chain_id idx
    → IsValid (some idx)
    → IsValid (some (add_snapshot now s idx))
unfolding add_snapshot
add_snapshot-IsValid now s idx e h = (
  (insert-IsMap s.id s idx.snapshots h.0.0, insert-ids s idx.snapshots h.0.1),
  insert-OwnChains s.id s idx.snapshots
      (subst (λ c. All (λ u. text_eq u.chain_id c ≡ false) (list_snapshots idx)) (sym e)
        (generate_chain_id-new idx))
      h.1,
)
