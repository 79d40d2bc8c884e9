-- ===== src/Backup/Retention/Grouping.antt =====
-- What grouping and sorting chains does (groupByChain in internal/backup/retention.go).
use claude_hooks.Common.{
  ◌≡◌, refl, sym, ap, ◌∙◌, Bool, ◌||◌, List, [], ◌∷◌, ◌++◌, none, some, All, any, select, get_or,
  is_some, arith, Bool-cases, inl, inr,
}
use mathlib.Core.List.{append-nil, append_assoc}
use claude_hooks.Common.Text.{Text, text_eq, text_eq_iff, text_eq_refl}
use claude_hooks.Common.TextLaws.{All-weaken}
use claude_hooks.Common.Map.{Map, lookup, insert, lookup-insert, insert-IsMap, IsMap}
use claude_hooks.Backup.{Snapshot, in_chain}
use claude_hooks.Backup.Retention.{Chain, group_onto, place_chain, sort_chains}

pub group_onto-IsMap :
    (m : Map (List Snapshot)) (ss : List Snapshot) → IsMap m → IsMap (group_onto m ss)
unfolding group_onto
group_onto-IsMap m [] h = h
group_onto-IsMap m (s ∷ ss) h =
    let new = get_or (lookup s.chain_id m) [] ++ (s ∷ []) in
    group_onto-IsMap (insert s.chain_id new m) ss (insert-IsMap s.chain_id new m h)

-- The chain of an identifier: what was there, then the snapshots that belong to it.
pub lookup-group_onto :
    (c : Text) (m : Map (List Snapshot)) (ss : List Snapshot)
    → get_or (lookup c (group_onto m ss)) [] ≡ get_or (lookup c m) [] ++ select (in_chain c) ss
unfolding group_onto
lookup-group_onto c m [] = sym (append-nil _)
lookup-group_onto c m (s ∷ ss) =
    let old = get_or (lookup s.chain_id m) [] in
    lookup-group_onto c (insert s.chain_id (old ++ (s ∷ [])) m) ss
    ∙ (elim (Bool-cases (text_eq s.chain_id c)) [
      | inl e ↦
          rw (lookup-insert s.chain_id c (old ++ (s ∷ [])) m, e)
            (append_assoc old (s ∷ []) (select (in_chain c) ss)
              ∙ ap (λ k. get_or (lookup k m) [] ++ (s ∷ select (in_chain c) ss))
                  ((text_eq_iff s.chain_id c).0 e))
      | inr e ↦ rw (lookup-insert s.chain_id c (old ++ (s ∷ [])) m, e) refl
    ])

-- The chains that are there: those that were, and those of the snapshots.
pub is_some-group_onto :
    (c : Text) (m : Map (List Snapshot)) (ss : List Snapshot)
    → is_some (lookup c (group_onto m ss)) ≡ (is_some (lookup c m) || any (in_chain c) ss)
unfolding group_onto
is_some-group_onto c m [] = ground arith
is_some-group_onto c m (s ∷ ss) =
    let new = get_or (lookup s.chain_id m) [] ++ (s ∷ []) in
    ground
      (arith, is_some-group_onto c (insert s.chain_id new m) ss, lookup-insert s.chain_id c new m)

-- Every entry of a map is the one that its key finds.
pub IsMap-entries : {V : Type 0} (m : Map V) → IsMap m → All (λ e. lookup e.0 m ≡ some e.1) m
unfolding lookup
IsMap-entries [] h = tt
IsMap-entries (e ∷ m) h = (
  rw (text_eq_refl e.0) refl,
  All-weaken (λ d. lookup d.0 m ≡ some d.1) (λ d. lookup d.0 (e ∷ m) ≡ some d.1)
      (λ d found. ground (arith, text_eq_iff e.0 d.0, found, h.0)) m (IsMap-entries m h.1),
)

-- Sorting keeps what holds of every chain, and which chains there are.
module _ (less : Chain → Chain → Bool) where
  place_chain-All {ℓ} :
      (P : Chain → Type ℓ) (c : Chain) (cs : List Chain)
      → P c
      → All P cs
      → All P (place_chain less c cs)
  unfolding place_chain
  place_chain-All P c [] p h = (p, tt)
  place_chain-All P c (d ∷ ds) p h = elim (Bool-cases (less d c)) [
    | inl e ↦ rw e (h.0, place_chain-All P c ds p h.1)
    | inr e ↦ rw e (p, h)
  ]

  pub sort_chains-All {ℓ} :
      (P : Chain → Type ℓ) (cs : List Chain) → All P cs → All P (sort_chains less cs)
  unfolding sort_chains
  sort_chains-All P [] h = tt
  sort_chains-All P (c ∷ cs) h =
      place_chain-All P c (sort_chains less cs) h.0 (sort_chains-All P cs h.1)

  lookup-place_chain :
      (k : Text) (c : Chain) (cs : List Chain)
      → is_some (lookup k (place_chain less c cs)) ≡ (text_eq c.0 k || is_some (lookup k cs))
  unfolding lookup place_chain
  lookup-place_chain k c [] = ground arith
  lookup-place_chain k c (d ∷ ds) = ground (arith, lookup-place_chain k c ds)

  pub lookup-sort_chains :
      (k : Text) (cs : List Chain)
      → is_some (lookup k (sort_chains less cs)) ≡ is_some (lookup k cs)
  unfolding lookup sort_chains
  lookup-sort_chains k [] = refl
  lookup-sort_chains k (c ∷ cs) =
      ground (arith, lookup-place_chain k c (sort_chains less cs), lookup-sort_chains k cs)

  place_chain-IsMap :
      (c : Chain) (cs : List Chain)
      → IsMap cs
      → lookup c.0 cs ≡ none
      → IsMap (place_chain less c cs)
  unfolding lookup place_chain
  place_chain-IsMap c [] h e = (refl, tt)
  place_chain-IsMap c (d ∷ ds) h e = ground (
    arith,
    lookup-place_chain d.0 c ds,
    place_chain-IsMap c ds h.1,
    text_eq_iff d.0 c.0,
    text_eq_iff c.0 d.0,
  )

  pub sort_chains-IsMap : (cs : List Chain) → IsMap cs → IsMap (sort_chains less cs)
  unfolding sort_chains
  sort_chains-IsMap [] h = tt
  sort_chains-IsMap (c ∷ cs) h =
      place_chain-IsMap c (sort_chains less cs) (sort_chains-IsMap cs h.1)
        (ground (arith, lookup-sort_chains c.0 cs, h.0))
