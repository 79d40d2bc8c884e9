-- ===== src/GitValidators/CommitContent/Attribution.antt =====
-- Which messages count as attributed to an assistant (containsClaudeAIAttribution in
-- internal/validators/git/commit_rules.go).
use claude_hooks.Common.{◌≡◌, refl, ap, ◌∙◌, Bool, true, false, not, ◌||◌, if◌then◌else◌, any}
use claude_hooks.Common.Text.{Text, codes, contains_text, to_lower}
use claude_hooks.GitValidators.CommitContent.{
  ai_patterns, legitimate_patterns, has_claude_link, contains_claude_ai_attribution,
}

if-same : (b : Bool) → (if b then false else false) ≡ false
if-same true = refl
if-same false = refl

if-or : (b x : Bool) → (if b then true else x) ≡ (b || x)
if-or true x = refl
if-or false x = refl

no_matter :
    (a b c : Bool) → (if a then false else if b then false else if c then false else false) ≡ false
no_matter true b c = refl
no_matter false true c = refl
no_matter false false c = if-same c

or_no : (b : Bool) → (b || false) ≡ b
or_no true = refl
or_no false = refl

-- A message counts as attributed exactly when it has one of the fixed phrases or a link, whatever
-- the case: the references that are meant to be legitimate make no difference.
pub contains_claude_ai_attribution-has_claude_link :
    (message : Text)
    → contains_claude_ai_attribution message ≡ (
        any (λ p. contains_text (to_lower message) p) ai_patterns
        || has_claude_link (to_lower message))
unfolding contains_claude_ai_attribution
contains_claude_ai_attribution-has_claude_link message =
    let lower = to_lower message in
    let phrase = any (λ p. contains_text lower p) ai_patterns in
    if-or phrase _
    ∙ ap (λ b. phrase || b)
        (if-or (has_claude_link lower) _
          ∙ ap (λ b. has_claude_link lower || b)
              (no_matter (not (contains_text lower (codes "claude")))
                (any (λ p. contains_text lower p) legitimate_patterns)
                (contains_text message (codes "CLAUDE")))
          ∙ or_no (has_claude_link lower))
