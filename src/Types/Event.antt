-- ===== src/Types/Event.antt =====
-- rust/session-core/src/types.rs: session summaries and sequenced events.
use slight.Base.{ℕ, String, List, Option, Bool}
use slight.Base.Int.{ℤ}
use slight.Acp.External.{Externals}
use slight.Acp.Kinds.{AgentDescriptor}
use slight.Types.Payload.{
  SessionStatus, StatusPayload, MessagePayload, ToolCallPayload, PermissionRequestPayload,
  PermissionResolvedPayload, ExitPayload, DiagnosticsPayload, TurnEndedPayload, PlanPayload,
  ModePayload, CommandsPayload, ConfigOptionsPayload, SessionInfoPayload, UsagePayload,
  SessionAcpMetadata,
}

pub data SessionRecoveryState : Type 0 where
  live recovered : SessionRecoveryState
  stale unavailable : String → SessionRecoveryState

-- `last_sequence` is a `u64`.
pub record SessionSummary : Type 0 where
  pub id : String
  pub title : String
  pub agent : String
  pub model : Option String
  pub effort : Option String
  pub working_directory_label : String
  pub git_branch : Option String
  pub status : SessionStatus
  pub created_at_ms : ℤ
  pub last_activity_at_ms : ℤ
  pub last_sequence : ℕ
  pub recovery : SessionRecoveryState
  pub archived : Bool

pub record SnapshotPayload : Type 0 where
  pub summary : SessionSummary
  pub pending_permission : Option PermissionRequestPayload

pub data SessionEvent (X : Externals) : Type 0 where
  status : StatusPayload → SessionEvent X
  message : MessagePayload → SessionEvent X
  tool_call : ToolCallPayload X → SessionEvent X
  plan : PlanPayload → SessionEvent X
  mode : ModePayload → SessionEvent X
  commands : CommandsPayload → SessionEvent X
  config_options : ConfigOptionsPayload → SessionEvent X
  session_info : SessionInfoPayload → SessionEvent X
  usage : UsagePayload X → SessionEvent X
  turn_ended : TurnEndedPayload → SessionEvent X
  permission_request : PermissionRequestPayload → SessionEvent X
  permission_resolved : PermissionResolvedPayload → SessionEvent X
  exit : ExitPayload → SessionEvent X
  diagnostics : DiagnosticsPayload → SessionEvent X
  snapshot : SnapshotPayload → SessionEvent X

pub name : {X : Externals} → SessionEvent X → String
name (status _) = "session.status"
name (message _) = "session.message"
name (tool_call _) = "session.tool_call"
name (plan _) = "session.plan"
name (mode _) = "session.mode"
name (commands _) = "session.commands"
name (config_options _) = "session.config_options"
name (session_info _) = "session.info"
name (usage _) = "session.usage"
name (turn_ended _) = "session.turn_ended"
name (permission_request _) = "session.permission_request"
name (permission_resolved _) = "session.permission_resolved"
name (exit _) = "session.exit"
name (diagnostics _) = "session.diagnostics"
name (snapshot _) = "session.snapshot"

-- `sequence` is a `u64`.
pub record SequencedEvent (X : Externals) : Type 0 where
  pub sequence : ℕ
  pub timestamp_ms : ℤ
  pub event : SessionEvent X

pub record SessionDetail (X : Externals) : Type 0 where
  pub summary : SessionSummary
  pub agent : AgentDescriptor
  pub agent_session_id : Option String
  pub acp : SessionAcpMetadata
  pub running : Bool
  pub pending_permission : Option PermissionRequestPayload
  pub recent_events : List (SequencedEvent X)
