-- ===== src/Hook.antt =====
-- The hook invocation that every component works on (pkg/hook/context.go). Tool inputs that no
-- model reads as JSON stay texts.
use claude_hooks.Common.{ℕ, Bool, not, ◌||◌, List, ◌==◌, if◌then◌else◌}
use claude_hooks.Common.Text.{Text, is_empty}

pub data EventType : Type 0 where
  unknown_event pre_tool_use post_tool_use notification : EventType

pub data ToolType : Type 0 where
  unknown_tool bash write edit multi_edit grep read glob : ToolType

-- The `iota` values, by which Go compares the constants.
abbrev pub event_code : EventType → ℕ
event_code unknown_event = 0
event_code pre_tool_use = 1
event_code post_tool_use = 2
event_code notification = 3

abbrev pub tool_code : ToolType → ℕ
tool_code unknown_tool = 0
tool_code bash = 1
tool_code write = 2
tool_code edit = 3
tool_code multi_edit = 4
tool_code grep = 5
tool_code read = 6
tool_code glob = 7

abbrev pub event_eq : EventType → EventType → Bool
event_eq a b = event_code a == event_code b

abbrev pub tool_eq : ToolType → ToolType → Bool
tool_eq a b = tool_code a == tool_code b

pub record ToolInput : Type 0 where
  pub command : Text
  pub file_path : Text
  pub path : Text
  pub content : Text
  pub old_string : Text
  pub new_string : Text
  pub pattern_text : Text
  pub additional : List (Text × Text)

pub record Context : Type 0 where
  pub event_type : EventType
  pub tool_name : ToolType
  pub tool_input : ToolInput
  pub notification_type : Text
  pub raw_json : Text
  pub session_id : Text
  pub tool_use_id : Text
  pub transcript_path : Text

abbrev pub get_command : Context → Text
get_command c = c.tool_input.command

abbrev pub get_file_path : Context → Text
get_file_path c =
    if not (is_empty c.tool_input.file_path) then c.tool_input.file_path else c.tool_input.path

abbrev pub get_content : Context → Text
get_content c = c.tool_input.content

abbrev pub is_bash_tool : Context → Bool
is_bash_tool c = tool_eq c.tool_name bash

abbrev pub is_file_tool : Context → Bool
is_file_tool c =
    tool_eq c.tool_name write || tool_eq c.tool_name edit || tool_eq c.tool_name multi_edit

abbrev pub has_session_id : Context → Bool
has_session_id c = not (is_empty c.session_id)
