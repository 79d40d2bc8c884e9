-- ===== src/Backup/Retention.antt =====
-- Retention policies (internal/backup/retention.go). A chain is the list of its snapshots; the
-- chains of a list stand in the order in which they first occur, and sorting is by insertion.
pub mod Grouping
pub mod Size
use claude_hooks.Common.{
  ℕ, ◌+◌, Bool, true, false, not, List, [], ◌∷◌, ◌++◌, if◌then◌else◌, ltb, take, get_or,
}
use claude_hooks.Common.Int.{ℤ, pos, ◌-ℤ◌, leb_ℤ}
use claude_hooks.Common.Text.{Text, contains}
use claude_hooks.Common.Map.{Map, lookup, insert}
use claude_hooks.Common.Result.{Result, ok, err}
use claude_hooks.Backup.{
  Snapshot, BackupError, invalid_max_backups, invalid_max_age, invalid_max_size,
}

pub record RetentionContext : Type 0 where
  pub all_snapshots : List Snapshot
  pub chain : List Snapshot
  pub total_size : ℤ
  pub now : ℕ

-- The interface `RetentionPolicy`.
abbrev pub RetentionPolicy : Type 0
RetentionPolicy = Snapshot → RetentionContext → Bool

abbrev pub Chain : Type 0
Chain = Text × List Snapshot

unfoldable pub group_onto : Map (List Snapshot) → List Snapshot → Map (List Snapshot)
unfolding lookup insert
group_onto chains [] = chains
group_onto chains (s ∷ ss) =
    group_onto (insert s.chain_id (get_or (lookup s.chain_id chains) [] ++ (s ∷ [])) chains) ss

unfoldable pub group_by_chain : List Snapshot → Map (List Snapshot)
unfolding group_onto
group_by_chain ss = group_onto [] ss

-- The timestamp of the oldest snapshot; that of the zero snapshot for an empty list.
unfoldable pub oldest_from : ℕ → List Snapshot → ℕ
oldest_from t [] = t
oldest_from t (s ∷ ss) = oldest_from (if ltb s.timestamp t then s.timestamp else t) ss

abbrev pub oldest_time : List Snapshot → ℕ
oldest_time [] = 0
oldest_time (s ∷ ss) = oldest_from s.timestamp ss

unfoldable pub newest_from : ℕ → List Snapshot → ℕ
newest_from t [] = t
newest_from t (s ∷ ss) = newest_from (if ltb t s.timestamp then s.timestamp else t) ss

abbrev pub newest_time : List Snapshot → ℕ
newest_time [] = 0
newest_time (s ∷ ss) = newest_from s.timestamp ss

-- `less` of two chains lets the first stand before the second.
unfoldable pub place_chain : (Chain → Chain → Bool) → Chain → List Chain → List Chain
place_chain less c [] = c ∷ []
place_chain less c (d ∷ ds) =
    let rest = place_chain less c ds in if less d c then d ∷ rest else c ∷ d ∷ ds

unfoldable pub sort_chains : (Chain → Chain → Bool) → List Chain → List Chain
unfolding place_chain
sort_chains less [] = []
sort_chains less (c ∷ cs) = place_chain less c (sort_chains less cs)

abbrev pub newer : Chain → Chain → Bool
newer c d = ltb (newest_time d.1) (newest_time c.1)

abbrev pub older : Chain → Chain → Bool
older c d = ltb (oldest_time c.1) (oldest_time d.1)

abbrev pub chain_ids : List Chain → List Text
chain_ids [] = []
chain_ids (c ∷ cs) = c.0 ∷ chain_ids cs

unfoldable pub keep_chains : ℕ → List Snapshot → List Text
unfolding sort_chains group_by_chain
keep_chains max_backups ss = chain_ids (take max_backups (sort_chains newer (group_by_chain ss)))

-- `MaxBackups` is positive.
unfoldable pub count_policy : ℕ → RetentionPolicy
unfolding keep_chains contains
count_policy max_backups s ctx = contains (keep_chains max_backups ctx.all_snapshots) s.chain_id

unfoldable pub age_policy : ℤ → RetentionPolicy
unfolding oldest_from
age_policy max_age s ctx = leb_ℤ (pos ctx.now -ℤ pos (oldest_time ctx.chain)) max_age

abbrev pub sum_sizes : List Snapshot → ℕ
sum_sizes [] = 0
sum_sizes (s ∷ ss) = s.size + sum_sizes ss

-- The contexts in which the snapshots of a list are judged.
abbrev pub judged :
    List Snapshot → (Snapshot → List Snapshot) → (Snapshot → ℕ) → Snapshot → RetentionContext
judged ss chain_of now s = record {
  all_snapshots = ss;
  chain = chain_of s;
  total_size = pos (sum_sizes ss);
  now = now s;
}

-- The oldest chains, up to where the rest is within the limit.
unfoldable pub remove_chains : ℤ → ℤ → List Chain → List Text
remove_chains max_size current [] = []
remove_chains max_size current (c ∷ cs) =
    let rest = remove_chains max_size (current -ℤ pos (sum_sizes c.1)) cs in
    if leb_ℤ current max_size then [] else c.0 ∷ rest

unfoldable pub removed_chains : ℤ → RetentionContext → List Text
unfolding remove_chains sort_chains group_by_chain
removed_chains max_size ctx =
    remove_chains max_size ctx.total_size (sort_chains older (group_by_chain ctx.all_snapshots))

unfoldable pub size_policy : ℤ → RetentionPolicy
unfolding removed_chains contains
size_policy max_size s ctx =
    if leb_ℤ ctx.total_size max_size
    then true
    else not (contains (removed_chains max_size ctx) s.chain_id)

-- All the policies agree to keep the snapshot.
unfoldable pub composite_policy : List RetentionPolicy → RetentionPolicy
composite_policy [] s ctx = true
composite_policy (p ∷ ps) s ctx = if not (p s ctx) then false else composite_policy ps s ctx

-- The constructors of the policies.
abbrev pub new_count_policy : ℤ → Result BackupError ℤ
new_count_policy n = if leb_ℤ n (pos 0) then err invalid_max_backups else ok n

abbrev pub new_age_policy : ℤ → Result BackupError ℤ
new_age_policy d = if leb_ℤ d (pos 0) then err invalid_max_age else ok d

abbrev pub new_size_policy : ℤ → Result BackupError ℤ
new_size_policy n = if leb_ℤ n (pos 0) then err invalid_max_size else ok n
