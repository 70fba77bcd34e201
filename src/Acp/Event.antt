-- ===== src/Acp/Event.antt =====
-- rust/acp-types/src/session.rs: the events of an agent session and the interface `AcpSession`.
use slight.Base.{ℕ, String, List, Option, Bool}
use slight.Base.Int.{ℤ}
use slight.Base.Exec.{Result}
use slight.Acp.External.{Externals}
use slight.Acp.Kinds.{MessageRole, PermissionRequest, DiagnosticLevel, AcpError}
use slight.Acp.Content.{NormalizedContent, ToolCallUpdate}
use slight.Acp.Metadata.{
  AuthMethodSummary, AcpConfigOption, AcpSessionInfoUpdate, AcpUsage, SessionMetadata,
  ListedSessionSummary, PlanSummary, AvailableCommandSummary,
}

pub data AgentEvent (X : Externals) : Type 0 where
  message : MessageRole → NormalizedContent → AgentEvent X
  thought : NormalizedContent → AgentEvent X
  tool_call : ToolCallUpdate X → AgentEvent X
  plan : PlanSummary → AgentEvent X
  available_commands : List AvailableCommandSummary → AgentEvent X
  config_options : List AcpConfigOption → AgentEvent X
  session_info : AcpSessionInfoUpdate → AgentEvent X
  usage : AcpUsage X → AgentEvent X
  mode : String → AgentEvent X
  permission_request : PermissionRequest → AgentEvent X
  diagnostics : DiagnosticLevel → String → AgentEvent X
  turn_ended : X.StopReason → AgentEvent X
  exited : Option ℤ → String → AgentEvent X
  failed : String → AgentEvent X

-- `protocol_version` is a `u16`.
pub record InitializeSummary (X : Externals) : Type 0 where
  pub protocol_version : ℕ
  pub agent_name : Option String
  pub agent_title : Option String
  pub agent_version : Option String
  pub agent_capabilities : X.AgentCapabilities
  pub auth_methods : List AuthMethodSummary

pub record ListedSessionPage : Type 0 where
  pub sessions : List ListedSessionSummary
  pub next_cursor : Option String

-- The trait `AcpSession`. A method on `&mut self` gives the connection back beside its result.
pub record AcpSession (X : Externals) : Type 0 where
  pub initialize :
      X.Connection → String → String → Result (InitializeSummary X) AcpError × X.Connection
  pub new_session : X.Connection → String → Result SessionMetadata AcpError × X.Connection
  pub list_sessions :
      X.Connection
      → Option String
      → Option String
      → Result ListedSessionPage AcpError × X.Connection
  pub load_session : X.Connection → String → String → Result SessionMetadata AcpError × X.Connection
  pub resume_session :
      X.Connection → String → String → Result SessionMetadata AcpError × X.Connection
  pub prompt : X.Connection → String → Result Unit AcpError × X.Connection
  pub cancel : X.Connection → Result Unit AcpError × X.Connection
  pub respond_permission : X.Connection → String → Result Unit AcpError × X.Connection
  pub set_mode : X.Connection → String → Result Unit AcpError × X.Connection
  pub set_config_option :
      X.Connection → String → String → Result (List AcpConfigOption) AcpError × X.Connection
  pub drain : X.Connection → List (AgentEvent X) × X.Connection
  pub is_running : X.Connection → Bool × X.Connection
