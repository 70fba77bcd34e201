-- ===== src/Acp/Adapter.antt =====
-- rust/acp-adapters/src/lib.rs: the registry of agent adapters.
use slight.Base.{
  ℕ, String, List, [], ◌∷◌, ◌++◌, map, Option, none, some, Bool, false, true, if◌then◌else◌,
}
use slight.Base.Text.{◌==◌}
use slight.Base.Exec.{Result}
use slight.Acp.External.{Externals}
use slight.Acp.Kinds.{AgentKind, claude_code, codex, fake, custom, AgentDescriptor, AcpError}

pub record AgentLaunchConfig : Type 0 where
  pub working_directory : Option String
  pub environment : List (String × String)
  pub initial_prompt : Option String
  pub raw_args : List String

-- `AgentLaunchConfig::default()`.
abbrev pub default_launch : AgentLaunchConfig
default_launch = record {
  working_directory = none;
  environment = [];
  initial_prompt = none;
  raw_args = [];
}

-- The trait `AgentAdapter`. A launch starts a process, so it is told the moment at which it is made.
pub record AgentAdapter (X : Externals) : Type 0 where
  pub kind : AgentKind
  pub descriptor : AgentDescriptor
  pub spawn_session : AgentLaunchConfig → ℕ → Result X.Connection AcpError
  pub is_available : Bool

-- The derived `PartialEq`.
unfoldable pub same_kind : AgentKind → AgentKind → Bool
same_kind claude_code claude_code = true
same_kind codex codex = true
same_kind fake fake = true
same_kind (custom a) (custom b) = a == b
same_kind _ _ = false

abbrev pub AdapterRegistry : Externals → Type 0
AdapterRegistry X = List (AgentAdapter X)

module _ {X : Externals} where
  pub register : AdapterRegistry X → AgentAdapter X → AdapterRegistry X
  register adapters adapter = adapters ++ adapter ∷ []

  unfoldable pub get : AdapterRegistry X → AgentKind → Option (AgentAdapter X)
  unfolding same_kind
  get [] kind = none
  get (adapter ∷ rest) kind = if same_kind adapter.kind kind then some adapter else get rest kind

  pub kinds : AdapterRegistry X → List AgentKind
  kinds adapters = map (λ a. a.kind) adapters

  pub available_kinds : AdapterRegistry X → List AgentKind
  available_kinds [] = []
  available_kinds (adapter ∷ rest) =
      let later = available_kinds rest in
      if adapter.is_available then adapter.kind ∷ later else later
