-- ===== src/Completion/Contract.antt =====
-- completion_requirements.go: the client's promises that a response is checked against.
use lite2api.Common.{
  ℕ, String, Bool, true, false, not, ◌&&◌, ◌||◌, List, Option, none, some, contains, ◌==◌,
  if◌then◌else◌,
}

abbrev pub max_completion_choices : ℕ
max_completion_choices = 128

abbrev pub max_completion_tools : ℕ
max_completion_tools = 128

-- 1 << 20
abbrev pub max_completion_arguments : ℕ
max_completion_arguments = 1_048_576

-- `tool_names` is the set of a map, or none for a nil map. The two counts are never negative.
pub record CompletionRequirements : Type 0 where
  pub expected_choices : ℕ
  pub tool_mode : String
  pub tool_name : String
  pub tool_names : Option (List String)
  pub max_tool_calls : ℕ

unfoldable pub accepts_tool : CompletionRequirements → String → Bool
accepts_tool r name =
    if r.tool_mode == "none" || name == "" || not (r.tool_name == "") && not (r.tool_name == name)
    then false
    else elim (r.tool_names) [ none ↦ true | some names ↦ contains names name ]
