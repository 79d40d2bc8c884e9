-- ===== src/Backup/Retention/Size.antt =====
-- What the size policy keeps is within its limit (SizeRetentionPolicy in
-- internal/backup/retention.go).
use claude_hooks.Common.{
  ℕ, ◌+◌, ◌≤◌, ◌≡◌, refl, sym, ap, ◌∙◌, Bool, true, false, not, ◌||◌, List, [], ◌∷◌, none, some,
  All, any, select, get_or, is_some, arith, Bool-cases, inl, inr,
}
use claude_hooks.Common.Int.{pos, ◌-ℤ◌, leb_ℤ}
use claude_hooks.Common.Text.{Text, text_eq, text_eq_iff, text_eq_refl, contains}
use claude_hooks.Common.TextLaws.{All-weaken}
use claude_hooks.Common.Map.{lookup, IsMap}
use claude_hooks.Backup.{Snapshot, in_chain}
use claude_hooks.Backup.Retention.{
  Chain, group_by_chain, sort_chains, sum_sizes, remove_chains, removed_chains, size_policy, older,
  judged,
}
use claude_hooks.Backup.Retention.Grouping.{
  group_onto-IsMap, lookup-group_onto, is_some-group_onto, IsMap-entries, sort_chains-All,
  lookup-sort_chains, sort_chains-IsMap,
}

-- The size of the snapshots whose chain is not gone.
abbrev size_left : (Text → Bool) → List Snapshot → ℕ
size_left gone ss = sum_sizes (select (λ s. not (gone s.chain_id)) ss)

abbrev chain_size : Text → List Snapshot → ℕ
chain_size c ss = sum_sizes (select (in_chain c) ss)

-- A chain that is not gone leaves with its whole size.
size_left-chain :
    (gone : Text → Bool) (c : Text) (ss : List Snapshot)
    → gone c ≡ false
    → size_left gone ss ≡ size_left (λ k. gone k || text_eq c k) ss + chain_size c ss
size_left-chain gone c [] h = refl
size_left-chain gone c (s ∷ ss) h =
    ground (arith, size_left-chain gone c ss h, text_eq_iff c s.chain_id, text_eq_iff s.chain_id c)

size_left-none :
    (gone : Text → Bool) (ss : List Snapshot)
    → All (λ s. gone s.chain_id ≡ true) ss
    → size_left gone ss ≡ 0
size_left-none gone [] h = refl
size_left-none gone (s ∷ ss) h = ground (arith, h.0, size_left-none gone ss h.1)

size_left-cong :
    (p q : Text → Bool) (ss : List Snapshot)
    → ((k : Text) → p k ≡ q k)
    → size_left p ss ≡ size_left q ss
size_left-cong p q [] e = refl
size_left-cong p q (s ∷ ss) e = ground (arith, e s.chain_id, size_left-cong p q ss e)

subtract_pos : (a b : ℕ) → pos (a + b) -ℤ pos b ≡ pos a
unfolding ◌-ℤ◌
subtract_pos a b = ground arith

module _ (all : List Snapshot) (max : ℕ) where
  -- The chain of an entry has the size of the snapshots in it.
  abbrev Measured : Chain → Type 0
  Measured c = sum_sizes c.1 ≡ chain_size c.0 all

  -- Every snapshot is gone or in a chain that is still to come.
  abbrev Covered : (Text → Bool) → List Chain → Type 0
  Covered gone cs = All (λ s. (gone s.chain_id || is_some (lookup s.chain_id cs)) ≡ true) all

  abbrev removed : ℕ → List Chain → List Text
  removed current cs = remove_chains (pos max) (pos current) cs

  Covered-All :
      (gone : Text → Bool) → Covered gone [] → All (λ s. (gone s.chain_id || false) ≡ true) all
  unfolding lookup
  Covered-All gone v = v

  more_gone :
      (gone : Text → Bool) (c : Text) (X : List Text)
      → size_left (λ k. (gone k || text_eq c k) || contains X k) all ≤ max
      → size_left (λ k. gone k || contains (c ∷ X) k) all ≤ max
  unfolding contains
  more_gone gone c X h =
      rw
        (size_left-cong (λ k. gone k || (text_eq c k || contains X k))
          (λ k. (gone k || text_eq c k) || contains X k) all (λ k. ground arith))
        h

  still_there :
      (gone : Text → Bool) (c : Text) (cs : List Chain)
      → lookup c cs ≡ none
      → All (λ d. gone d.0 ≡ false) cs
      → All (λ d. (gone d.0 || text_eq c d.0) ≡ false) cs
  unfolding lookup
  still_there gone c [] e g = tt
  still_there gone c (d ∷ cs) e g =
      ground (arith, text_eq_iff d.0 c, text_eq_iff c d.0, still_there gone c cs, g)

  Covered-still :
      (gone : Text → Bool) (c : Chain) (cs : List Chain)
      → Covered gone (c ∷ cs)
      → Covered (λ k. gone k || text_eq c.0 k) cs
  unfolding lookup
  Covered-still gone c cs v =
      All-weaken (λ s. (gone s.chain_id || is_some (lookup s.chain_id (c ∷ cs))) ≡ true)
        (λ s.
          ((gone s.chain_id || text_eq c.0 s.chain_id) || is_some (lookup s.chain_id cs)) ≡ true)
        (λ s h. ground (arith, h)) all v

  remove_chains-left :
      (cs : List Chain) (gone : Text → Bool) (current : ℕ)
      → IsMap cs
      → All (λ c. gone c.0 ≡ false) cs
      → All Measured cs
      → Covered gone cs
      → size_left gone all ≡ current
      → size_left (λ k. gone k || contains (removed current cs) k) all ≤ max
  unfolding remove_chains contains
  remove_chains-left [] gone current m g z v e =
      rw (size_left-none (λ k. gone k || false) all (Covered-All gone v)) (omega arith)
  remove_chains-left (c ∷ cs) gone current m g z v e =
      let next = λ (k : Text). gone k || text_eq c.0 k in
      let left = size_left next all in
      let whole : current ≡ left + sum_sizes c.1 =
        sym e ∙ size_left-chain gone c.0 all g.0 ∙ ap (λ n. left + n) (sym z.0) in
      let after : pos current -ℤ pos (sum_sizes c.1) ≡ pos left =
        ap (λ n. pos n -ℤ pos (sum_sizes c.1)) whole ∙ subtract_pos left (sum_sizes c.1) in
      elim (Bool-cases (leb_ℤ (pos current) (pos max))) [
        | inl within ↦ rw within (
            rw (size_left-cong (λ k. gone k || false) gone all (λ k. ground arith), e)
              (ground (arith, within)))
        | inr above ↦
            rw (above, after)
              (more_gone gone c.0 (removed left cs) (
                remove_chains-left cs next left m.1 (still_there gone c.0 cs m.0 g.1) z.1
                  (Covered-still gone c cs v) refl))
      ]

any-own_chain : (ss : List Snapshot) → All (λ s. any (in_chain s.chain_id) ss ≡ true) ss
any-own_chain [] = tt
any-own_chain (t ∷ ss) = (
  rw (text_eq_refl t.chain_id),
  All-weaken (λ s. any (in_chain s.chain_id) ss ≡ true)
      (λ s. any (in_chain s.chain_id) (t ∷ ss) ≡ true) (λ s h. ground (arith, h)) ss
      (any-own_chain ss),
)

sum_sizes-select :
    (p : Snapshot → Bool) (ss : List Snapshot) → sum_sizes (select p ss) ≤ sum_sizes ss
sum_sizes-select p [] = omega arith
sum_sizes-select p (s ∷ ss) = ground (arith, sum_sizes-select p ss)

all_left : (ss : List Snapshot) → size_left (λ k. false) ss ≡ sum_sizes ss
all_left [] = refl
all_left (s ∷ ss) = ap (λ n. s.size + n) (all_left ss)

module _ (ss : List Snapshot) where
  chains-IsMap : IsMap (group_by_chain ss)
  unfolding group_by_chain
  chains-IsMap = group_onto-IsMap [] ss tt

  chains-Measured : (max : ℕ) → All (Measured ss max) (sort_chains older (group_by_chain ss))
  unfolding group_by_chain
  chains-Measured max = sort_chains-All older (Measured ss max) (group_by_chain ss) (
      All-weaken (λ e. lookup e.0 (group_by_chain ss) ≡ some e.1) (Measured ss max)
        (λ e h. ap sum_sizes (ap (λ o. get_or o []) (sym h) ∙ lookup-group_onto e.0 [] ss))
        (group_by_chain ss) (IsMap-entries (group_by_chain ss) chains-IsMap))

  chains-Covered : (max : ℕ) → Covered ss max (λ k. false) (sort_chains older (group_by_chain ss))
  unfolding group_by_chain
  chains-Covered max =
      All-weaken (λ s. any (in_chain s.chain_id) ss ≡ true)
        (λ s. is_some (lookup s.chain_id (sort_chains older (group_by_chain ss))) ≡ true)
        (λ s h.
          lookup-sort_chains older s.chain_id (group_by_chain ss)
          ∙ is_some-group_onto s.chain_id [] ss
          ∙ h)
        ss (any-own_chain ss)

  none_gone : (cs : List Chain) → All (λ c. false ≡ false) cs
  none_gone [] = tt
  none_gone (c ∷ cs) = (refl, none_gone cs)

  -- The snapshots that the size policy keeps have together no more than its limit.
  pub size_policy-bound :
      (max : ℕ) (chain_of : Snapshot → List Snapshot) (now : Snapshot → ℕ)
      → sum_sizes (select (λ s. size_policy (pos max) s (judged ss chain_of now s)) ss) ≤ max
  unfolding size_policy removed_chains
  size_policy-bound max chain_of now = elim (Bool-cases (leb_ℤ (pos (sum_sizes ss)) (pos max))) [
    | inl within ↦ rw within (ground (arith, within, sum_sizes-select (λ s. true) ss))
    | inr above ↦ rw above (
        remove_chains-left ss max (sort_chains older (group_by_chain ss)) (λ k. false)
          (sum_sizes ss) (sort_chains-IsMap older (group_by_chain ss) chains-IsMap)
          (none_gone (sort_chains older (group_by_chain ss))) (chains-Measured max)
          (chains-Covered max) (all_left ss))
  ]
