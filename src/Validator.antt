-- ===== src/Validator.antt =====
-- Validation results and references (internal/validator/validator.go, reference.go). The table of
-- suggestions is a parameter, `suggest`.
pub mod Reference
pub mod Registry
pub mod Chains
mod Tests
use claude_hooks.Common.{Bool, true, false, [], if◌then◌else◌}
use claude_hooks.Common.Text.{Text, codes}
use claude_hooks.Common.Map.{Map, insert}
use claude_hooks.Hook.{Context}

pub data Category : Type 0 where
  cpu io git : Category

abbrev pub category_string : Category → Text
category_string cpu = codes "CPU"
category_string io = codes "IO"
category_string git = codes "Git"

-- `details` is a map; nil is the empty one.
pub record ValidationResult : Type 0 where
  pub passed : Bool
  pub message : Text
  pub details : Map Text
  pub should_block : Bool
  pub reference : Text
  pub fix_hint : Text

abbrev pub plain_result : Bool → Text → Map Text → Bool → ValidationResult
plain_result p msg ds block = record {
  passed = p;
  message = msg;
  details = ds;
  should_block = block;
  reference = [];
  fix_hint = [];
}

abbrev pub pass : ValidationResult
pass = plain_result true [] [] false

abbrev pub pass_with_message : Text → ValidationResult
pass_with_message msg = plain_result true msg [] false

abbrev pub fail : Text → ValidationResult
fail msg = plain_result false msg [] true

abbrev pub fail_with_details : Text → Map Text → ValidationResult
fail_with_details msg ds = plain_result false msg ds true

abbrev pub warn : Text → ValidationResult
warn msg = plain_result false msg [] false

abbrev pub warn_with_details : Text → Map Text → ValidationResult
warn_with_details msg ds = plain_result false msg ds false

abbrev pub fail_with_ref : (Text → Text) → Text → Text → ValidationResult
fail_with_ref suggest ref msg = record (fail msg) { reference = ref; fix_hint = suggest ref }

abbrev pub warn_with_ref : (Text → Text) → Text → Text → ValidationResult
warn_with_ref suggest ref msg = record (warn msg) { reference = ref; fix_hint = suggest ref }

unfoldable pub add_detail : Text → Text → ValidationResult → ValidationResult
unfolding insert
add_detail key value r = record r { details = insert key value r.details }

abbrev pub result_string : ValidationResult → Text
result_string r =
    if r.passed then codes "PASS" else if r.should_block then codes "BLOCK" else codes "WARN"

-- A validator is a function of the hook context: what it reads of its surroundings is fixed.
pub record Validator : Type 0 where
  pub validator_name : Text
  pub validate : Context → ValidationResult
  pub category : Category
