-- ===== src/Acp/Kinds.antt =====
-- rust/acp-types/src/lib.rs: agents, roles, permissions, diagnostics.
use slight.Base.{String, List, Option}

pub data AgentKind : Type 0 where
  claude_code codex fake : AgentKind
  custom : String → AgentKind

unfoldable pub as_str : AgentKind → String
as_str claude_code = "claude_code"
as_str codex = "codex"
as_str fake = "fake"
as_str (custom name) = name

pub record AgentDescriptor : Type 0 where
  pub kind : AgentKind
  pub display_name : String
  pub version : Option String

pub data MessageRole : Type 0 where
  user assistant system : MessageRole

pub data ToolCallStatus : Type 0 where
  pending in_progress completed failed cancelled : ToolCallStatus

pub data PermissionOptionKind : Type 0 where
  allow allow_always deny deny_always custom : PermissionOptionKind

pub record PermissionOption : Type 0 where
  pub option_id : String
  pub label : String
  pub kind : PermissionOptionKind

pub record PermissionRequest : Type 0 where
  pub permission_id : String
  pub title : String
  pub detail : Option String
  pub tool_call_id : Option String
  pub options : List PermissionOption

pub data DiagnosticLevel : Type 0 where
  debug info warning error : DiagnosticLevel

pub data AcpError : Type 0 where
  message : String → AcpError
