-- ===== src/Types/Payload.antt =====
-- rust/session-core/src/types.rs: the payloads of session events.
use slight.Base.{ℕ, String, List, [], Option, none, false}
use slight.Base.Int.{ℤ}
use slight.Acp.External.{Externals}
use slight.Acp.Kinds.{MessageRole, ToolCallStatus, PermissionOption, DiagnosticLevel}
use slight.Acp.Content.{NormalizedToolContent, ToolLocation}
use slight.Acp.Metadata.{
  AcpConfigOption, AcpCost, AcpModeState, AgentCapabilitiesSummary, AgentMetadataSummary,
  AuthMethodSummary, AvailableCommandSummary, PlanEntrySummary,
}
use slight.Types.Block.{ContentBlock, from_normalized}

pub data SessionStatus : Type 0 where
  idle working waiting_permission exited failed : SessionStatus

pub record StatusPayload : Type 0 where
  pub status : SessionStatus

pub record MessagePayload : Type 0 where
  pub role : MessageRole
  pub text : String
  pub blocks : List ContentBlock

pub data ToolCallContentPayload : Type 0 where
  content : ContentBlock → ToolCallContentPayload
  -- path, old_text, new_text
  diff : String → Option String → String → ToolCallContentPayload
  -- terminal_id
  terminal : String → ToolCallContentPayload

pub from_normalized_tool : String → NormalizedToolContent → ToolCallContentPayload
from_normalized_tool id (NormalizedToolContent.content block) =
    ToolCallContentPayload.content (from_normalized id block)
from_normalized_tool id (NormalizedToolContent.diff d) =
    ToolCallContentPayload.diff d.path d.old_text d.new_text
from_normalized_tool id (NormalizedToolContent.terminal t) =
    ToolCallContentPayload.terminal t.terminal_id

pub record ToolCallLocationPayload : Type 0 where
  pub path : String
  pub line : Option ℕ

pub from_location : ToolLocation → ToolCallLocationPayload
from_location l = record { path = l.path; line = l.line }

pub record ToolCallPayload (X : Externals) : Type 0 where
  pub id : String
  pub title : String
  pub kind : Option String
  pub status : ToolCallStatus
  pub detail : Option String
  pub content : List ToolCallContentPayload
  pub locations : List ToolCallLocationPayload
  pub raw_input : Option X.Value
  pub raw_output : Option X.Value

pub record PermissionRequestPayload : Type 0 where
  pub id : String
  pub title : String
  pub detail : Option String
  pub tool_call_id : Option String
  pub options : List PermissionOption

pub record PermissionResolvedPayload : Type 0 where
  pub id : String
  pub option_id : String

-- `code` is an `i32`.
pub record ExitPayload : Type 0 where
  pub code : Option ℤ
  pub reason : String

pub record DiagnosticsPayload : Type 0 where
  pub level : DiagnosticLevel
  pub message : String

pub record TurnEndedPayload : Type 0 where
  pub stop_reason : String
  pub reasoning_started_at_ms : Option ℤ
  pub reasoning_ended_at_ms : Option ℤ

pub record PlanPayload : Type 0 where
  pub entries : List PlanEntrySummary

pub record ModePayload : Type 0 where
  pub current_mode_id : String

pub record CommandsPayload : Type 0 where
  pub commands : List AvailableCommandSummary

pub record ConfigOptionsPayload : Type 0 where
  pub options : List AcpConfigOption

pub record SessionInfoPayload : Type 0 where
  pub title : Option String
  pub updated_at : Option String

pub record UsagePayload (X : Externals) : Type 0 where
  pub used : ℕ
  pub size : ℕ
  pub cost : Option (AcpCost X)

pub record SessionAcpMetadata : Type 0 where
  pub protocol_version : ℕ
  pub agent : AgentMetadataSummary
  pub auth_methods : List AuthMethodSummary
  pub capabilities : AgentCapabilitiesSummary
  pub modes : Option AcpModeState
  pub config_options : List AcpConfigOption

-- `SessionAcpMetadata::default()`.
abbrev pub default_metadata : SessionAcpMetadata
default_metadata = record {
  protocol_version = 0;
  agent = record { name = none; title = none; version = none };
  auth_methods = [];
  capabilities = record {
    load_session = false;
    prompt_image = false;
    prompt_audio = false;
    prompt_embedded_context = false;
    mcp_http = false;
    mcp_sse = false;
    session_list = false;
    session_resume = false;
    session_close = false;
    session_delete = false;
    session_additional_directories = false;
  };
  modes = none;
  config_options = [];
}
