-- ===== src/Manager/Labels.antt =====
-- rust/session-core/src/manager.rs: the free functions over texts, directories and options.
pub mod Names
use slight.Base.{
  ℕ, String, List, [], ◌∷◌, Option, none, some, Bool, true, false, if◌then◌else◌, unwrap_or,
  or_else,
}
use slight.Base.Text.{◌==◌, ◌++◌, trim, is_empty, strip_prefix, take_chars}
use slight.Acp.Kinds.{AgentKind, claude_code, codex, fake, custom, as_str}
use slight.Acp.Metadata.{
  AcpConfigCategory, mode, model, model_config, thought_level, other, AcpConfigOption,
  AcpConfigKind, select, boolean,
}
use slight.Types.Request.{CreateSessionRequest}
use slight.Manager.State.{Platform}

unfoldable pub agent_kind_from_str : String → AgentKind
agent_kind_from_str agent =
    if agent == "claude_code"
    then claude_code
    else if agent == "codex"
    then codex
    else if agent == "fake"
    then fake
    else custom agent

unfoldable pub normalized_working_directory_label : String → String
normalized_working_directory_label label =
    let trimmed = trim label in if is_empty trimmed then "~" else trimmed

-- `Path::join`: an absolute path replaces the base, and a separator is put in where it lacks one.
ends_with_slash : String → Bool
ends_with_slash String.[] = false
ends_with_slash (String.◌∷◌ c String.[]) = String.◌∷◌ c String.[] == "/"
ends_with_slash (String.◌∷◌ c (String.◌∷◌ d s)) = ends_with_slash (String.◌∷◌ d s)

unfoldable pub join : String → String → String
unfolding ends_with_slash
join base relative = elim (strip_prefix "/" relative) [
  | some _ ↦ relative
  | none ↦
      if is_empty base
      then relative
      else if ends_with_slash base
      then base ++ relative
      else base ++ ("/" ++ relative)
]

module _ (P : Platform) where
  unfoldable pub home_directory : String
  home_directory = unwrap_or (or_else P.home P.current_dir) "."

  unfoldable pub resolve_working_directory : String → String
  resolve_working_directory label =
      if label == "~" then home_directory else elim (strip_prefix "~/" label) [
        | some relative ↦ join home_directory relative
        | none ↦ label
      ]

  nonempty : String → Option String
  nonempty branch = if is_empty branch then none else some branch

  -- No branch where git did not run, failed, or printed something else than UTF-8 or nothing.
  unfoldable pub detect_git_branch : String → ℕ → Option String
  unfolding nonempty
  detect_git_branch directory moment = elim (P.git_branch directory moment) [
    | none ↦ none
    | some (false, out) ↦ none
    | some (true, none) ↦ none
    | some (true, some out) ↦ nonempty (trim out)
  ]

unfoldable pub same_category : AcpConfigCategory → AcpConfigCategory → Bool
same_category mode mode = true
same_category model model = true
same_category model_config model_config = true
same_category thought_level thought_level = true
same_category (other a) (other b) = a == b
same_category _ _ = false

in_category : Option AcpConfigCategory → AcpConfigCategory → Bool
in_category none category = false
in_category (some c) category = same_category c category

selected_value : AcpConfigKind → Option String
selected_value (select current_value_id groups) = some current_value_id
selected_value (boolean current_value) = none

-- The current value of the first option of the category that has one.
unfoldable pub current_config_value : List AcpConfigOption → AcpConfigCategory → Option String
unfolding in_category selected_value same_category
current_config_value [] category = none
current_config_value (option ∷ rest) category =
    let later = current_config_value rest category in
    if in_category option.category category
    then or_else (selected_value option.kind) later
    else later

agent_title : AgentKind → String
agent_title agent = as_str agent ++ " session"

prompt_title : AgentKind → Option String → String
prompt_title agent none = agent_title agent
prompt_title agent (some prompt) =
    let trimmed = trim prompt in
    if is_empty trimmed then agent_title agent else take_chars 40 trimmed

unfoldable pub default_title : CreateSessionRequest → String
unfolding prompt_title agent_title
default_title request = prompt_title request.agent request.initial_prompt

-- The title of an imported session.
unfoldable pub import_title : AgentKind → Option String → String
unfolding agent_title
import_title agent none = agent_title agent
import_title agent (some title) = if is_empty (trim title) then agent_title agent else title
