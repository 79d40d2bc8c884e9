-- ===== src/Backup/Manager/ChainIds.antt =====
-- A new snapshot gets a chain that no snapshot has (generateChainID in internal/backup/manager.go):
-- the number of a chain is read back as it was printed.
use claude_hooks.Common.{
  ℕ, zero, suc, ◌+◌, ◌*◌, ◌-◌, ◌/◌, ◌%◌, ◌≤◌, ◌<◌, ◌≡◌, refl, ap, ◌∙◌, true, false, ◌&&◌, ◌||◌,
  ◌==◌, List, [], ◌∷◌, ◌++◌, Option, none, some, All, leb, ltb, arith, Bool-cases, inl, inr,
}
use claude_hooks.Common.Text.{Text, is_empty, text_eq, text_eq_iff, digits, has_prefix, drop_while}
use claude_hooks.Common.TextLaws.{All-append, All-weaken}
use claude_hooks.Backup.{Snapshot, SnapshotIndex, list_snapshots}
use claude_hooks.Backup.Manager.{
  scan_digits, scan_signed, scan_chain, greater, max_chain, chain_text, next_chain,
  generate_chain_id,
}

abbrev Digit : ℕ → Type 0
Digit c = (leb b'0' c && leb c b'9') ≡ true

abbrev value_onto : ℕ → Text → ℕ
value_onto n [] = n
value_onto n (c ∷ s) = value_onto (n * 10 + (c - 48)) s

scan_digits-value : (n : ℕ) (s : Text) → All Digit s → scan_digits true n s ≡ some (value_onto n s)
unfolding scan_digits
scan_digits-value n [] h = refl
scan_digits-value n (c ∷ s) h = rw h.0 (scan_digits-value (n * 10 + (c - 48)) s h.1)

value_onto-append :
    (n : ℕ) (s : Text) (c : ℕ) → value_onto n (s ++ (c ∷ [])) ≡ value_onto n s * 10 + (c - 48)
value_onto-append n [] c = refl
value_onto-append n (d ∷ s) c = value_onto-append (n * 10 + (d - 48)) s c

digits-Digit : (fuel n : ℕ) → All Digit (digits fuel n)
unfolding digits
digits-Digit zero n = tt
digits-Digit (suc fuel) n = elim (Bool-cases (ltb n 10)) [
  | inl small ↦ rw small (ground (arith, small), tt)
  | inr large ↦ rw large (
      All-append Digit (digits fuel (n / 10)) ((48 + n % 10) ∷ []) (digits-Digit fuel (n / 10))
        (ground arith, tt))
]

value_onto-digits : (fuel n : ℕ) → n < fuel → value_onto 0 (digits fuel n) ≡ n
unfolding digits
value_onto-digits zero n h = omega arith
value_onto-digits (suc fuel) n h = elim (Bool-cases (ltb n 10)) [
  | inl small ↦ rw small (omega arith)
  | inr large ↦
      rw
        (
          large,
          value_onto-append 0 (digits fuel (n / 10)) (48 + n % 10),
          value_onto-digits fuel (n / 10) (ground (arith, large)),
        )
        (omega arith)
]

digits-ne_nil : (fuel n : ℕ) → is_empty (digits (suc fuel) n) ≡ false
unfolding digits
digits-ne_nil fuel n = elim (Bool-cases (ltb n 10)) [
  | inl small ↦ rw small refl
  | inr large ↦ rw large (append-ne_nil (digits fuel (n / 10)) (48 + n % 10))
]
  where
    append-ne_nil : (s : Text) (c : ℕ) → is_empty (s ++ (c ∷ [])) ≡ false
    append-ne_nil [] c = refl
    append-ne_nil (d ∷ s) c = refl

scan_signed-digits :
    (s : Text)
    → All Digit s
    → is_empty s ≡ false
    → scan_signed (drop_while (λ c. c == 32 || c == 9) s) ≡ some (value_onto 0 s)
unfolding scan_digits drop_while
scan_signed-digits [] h e = ground arith
scan_signed-digits (c ∷ s) h e =
    let no_blank : (c == 32 || c == 9) ≡ false = ground (arith, h.0) in
    let no_sign : (c == b'+') ≡ false = ground (arith, h.0) in
    rw (no_blank, no_sign, h.0) (scan_digits-value (0 * 10 + (c - 48)) s h.1)

scan_chain-chain_text : (n : ℕ) → scan_chain (chain_text n) ≡ some n
unfolding scan_chain chain_text has_prefix
scan_chain-chain_text n =
    scan_signed-digits (digits (suc n) n) (digits-Digit (suc n) n) (digits-ne_nil n n)
    ∙ ap (λ k. some k) (value_onto-digits (suc n) n (omega arith))

greater-le : (n : ℕ) (o : Option ℕ) → n ≤ greater n o
greater-le n none = omega arith
greater-le n (some k) = ground arith

max_chain-le : (n : ℕ) (ss : List Snapshot) → n ≤ max_chain n ss
unfolding max_chain
max_chain-le n [] = omega arith
max_chain-le n (s ∷ ss) =
    let o = scan_chain s.chain_id in omega (arith, greater-le n o, max_chain-le (greater n o) ss)

-- The number of every chain is at most the greatest.
abbrev Below : ℕ → Snapshot → Type 0
Below n s = (k : ℕ) → scan_chain s.chain_id ≡ some k → k ≤ n

max_chain-Below : (n : ℕ) (ss : List Snapshot) → All (Below (max_chain n ss)) ss
unfolding max_chain
max_chain-Below n [] = tt
max_chain-Below n (s ∷ ss) = (
  (λ k e. rw e (ground (arith, max_chain-le (greater n (some k)) ss))),
  max_chain-Below (greater n (scan_chain s.chain_id)) ss,
)

next_chain-new : (ss : List Snapshot) → All (λ s. text_eq s.chain_id (next_chain ss) ≡ false) ss
next_chain-new [] = tt
next_chain-new (s ∷ ss) =
    let top = max_chain 0 (s ∷ ss) in
    All-weaken (Below top) (λ u. text_eq u.chain_id (chain_text (suc top)) ≡ false)
      (λ u below. elim (Bool-cases (text_eq u.chain_id (chain_text (suc top)))) [
        | inl y ↦
            let number : scan_chain u.chain_id ≡ some (suc top) =
              ap scan_chain ((text_eq_iff u.chain_id (chain_text (suc top))).0 y)
              ∙ scan_chain-chain_text (suc top) in
            let too_big = below (suc top) number in absurd (omega arith)
        | inr k ↦ k
      ])
      (s ∷ ss) (max_chain-Below 0 (s ∷ ss))

-- The chain of a new snapshot is the chain of no snapshot in the index.
pub generate_chain_id-new :
    (idx : SnapshotIndex)
    → All (λ s. text_eq s.chain_id (generate_chain_id idx) ≡ false) (list_snapshots idx)
unfolding generate_chain_id
generate_chain_id-new idx = next_chain-new (list_snapshots idx)
