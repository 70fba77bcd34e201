-- ===== src/Gateway/Protocol/Results.antt =====
-- rust/gateway-protocol/src/dto.rs, admin.rs and commands.rs: what the acknowledgements carry.
use slight.Base.{ℕ, String, List, Option, some, Bool}
use slight.Acp.External.{Externals}
use slight.Acp.Kinds.{AgentDescriptor, as_str}
use slight.Acp.Metadata.{ListedSessionSummary, AcpConfigOption}
use slight.Types.Payload.{SessionStatus, SessionAcpMetadata}
use slight.Types.Event.{SessionSummary, SessionRecoveryState}
use slight.Gateway.Protocol.Frames.{GatewayEvent, ServerCapabilities}
use slight.Gateway.Protocol.Time.{rfc3339_from_ms}

pub record SessionSummaryDto : Type 0 where
  pub id : String
  pub title : String
  pub agent : String
  pub model : Option String
  pub effort : Option String
  pub working_directory_label : String
  pub git_branch : Option String
  pub status : SessionStatus
  pub created_at : Option String
  pub last_activity_at : Option String
  pub last_sequence : ℕ
  pub recovery : SessionRecoveryState
  pub archived : Bool

unfoldable pub summary_dto : SessionSummary → SessionSummaryDto
summary_dto s = record {
  id = s.id;
  title = s.title;
  agent = s.agent;
  model = s.model;
  effort = s.effort;
  working_directory_label = s.working_directory_label;
  git_branch = s.git_branch;
  status = s.status;
  created_at = some (rfc3339_from_ms s.created_at_ms);
  last_activity_at = some (rfc3339_from_ms s.last_activity_at_ms);
  last_sequence = s.last_sequence;
  recovery = s.recovery;
  archived = s.archived;
}

pub record AgentDescriptorDto : Type 0 where
  pub kind : String
  pub display_name : String
  pub version : Option String

pub descriptor_dto : AgentDescriptor → AgentDescriptorDto
descriptor_dto d = record {
  kind = as_str d.kind;
  display_name = d.display_name;
  version = d.version;
}

pub record AgentSessionSummaryDto : Type 0 where
  pub agent : String
  pub agent_session_id : String
  pub cwd : String
  pub additional_directories : List String
  pub title : Option String
  pub updated_at : Option String

pub from_listed : String → ListedSessionSummary → AgentSessionSummaryDto
from_listed agent listed = record {
  agent = agent;
  agent_session_id = listed.agent_session_id;
  cwd = listed.cwd;
  additional_directories = listed.additional_directories;
  title = listed.title;
  updated_at = listed.updated_at;
}

pub record SessionListResult : Type 0 where
  pub sessions : List SessionSummaryDto

pub record SessionWorkingDirectoriesResult : Type 0 where
  pub paths : List String

pub record AgentSessionsListResult : Type 0 where
  pub sessions : List AgentSessionSummaryDto
  pub next_cursor : Option String

pub record ImportAgentSessionResult : Type 0 where
  pub session : SessionSummaryDto

pub record SessionCreateResult : Type 0 where
  pub session : SessionSummaryDto

pub record SessionRenameResult : Type 0 where
  pub session : SessionSummaryDto

pub record SessionArchiveResult : Type 0 where
  pub session : SessionSummaryDto

pub record SessionAttachResult (X : Externals) : Type 0 where
  pub session : SessionSummaryDto
  pub replayed : List (GatewayEvent X)
  pub latest_sequence : ℕ
  pub oldest_available_sequence : Option ℕ
  pub resync_required : Bool

pub record SessionHistoryResult (X : Externals) : Type 0 where
  pub session : SessionSummaryDto
  pub events : List (GatewayEvent X)
  pub latest_sequence : ℕ
  pub oldest_available_sequence : Option ℕ
  pub has_more : Bool

pub record SessionInspectResult (X : Externals) : Type 0 where
  pub session : SessionSummaryDto
  pub agent : AgentDescriptorDto
  pub acp : SessionAcpMetadata
  pub running : Bool
  pub pending_permission : Option X.Value
  pub recent_events : List (GatewayEvent X)

pub data HostRunState : Type 0 where
  stopped starting running stopping failed : HostRunState

pub record AgentCatalogEntry : Type 0 where
  pub id : String
  pub display_name : String
  pub version : Option String
  pub available : Bool
  pub config_options : List AcpConfigOption

pub record HostStatusResult : Type 0 where
  pub state : HostRunState
  pub host_name : String
  pub server_id : String
  pub server_version : String
  pub protocol_version : ℕ
  pub listener : Option String
  pub session_count : ℕ
  pub active_session_count : ℕ
  pub paired_device_count : ℕ
  pub uptime_ms : ℕ
  pub supported_agents : List String
  pub agent_catalog : List AgentCatalogEntry

pub record HostLifecycleResult : Type 0 where
  pub state : HostRunState
  pub message : Option String

pub record SessionDiagnosticsDto : Type 0 where
  pub session_id : String
  pub status : String
  pub agent : String
  pub last_sequence : ℕ
  pub event_count : ℕ
  pub running : Bool

pub record LogEntryDto : Type 0 where
  pub timestamp : String
  pub level : String
  pub message : String

pub record HostDiagnosticsResult : Type 0 where
  pub server_version : String
  pub protocol_version : ℕ
  pub log_level : String
  pub sessions : List SessionDiagnosticsDto
  pub recent_logs : List LogEntryDto
  pub capabilities : ServerCapabilities

pub record PairingCreateResult : Type 0 where
  pub pairing_id : String
  pub code : String
  pub label : String
  pub expires_at : String
  pub qr_payload : String

pub record PairingSummaryDto : Type 0 where
  pub pairing_id : String
  pub code : String
  pub label : String
  pub expires_at : String
  pub consumed : Bool

pub record PairingListResult : Type 0 where
  pub pairings : List PairingSummaryDto

pub record DeviceSummaryDto : Type 0 where
  pub device_id : String
  pub label : String
  pub created_at : String
  pub last_seen_at : String
  pub revoked : Bool

pub record DeviceListResult : Type 0 where
  pub devices : List DeviceSummaryDto

pub record DeviceRevokeResult : Type 0 where
  pub device : DeviceSummaryDto

-- The results that the server serializes into an acknowledgement.
pub data GatewayResult (X : Externals) : Type 0 where
  session_list : SessionListResult → GatewayResult X
  working_directories : SessionWorkingDirectoriesResult → GatewayResult X
  session_create : SessionCreateResult → GatewayResult X
  agent_sessions_list : AgentSessionsListResult → GatewayResult X
  import_agent_session : ImportAgentSessionResult → GatewayResult X
  session_attach : SessionAttachResult X → GatewayResult X
  session_history : SessionHistoryResult X → GatewayResult X
  session_rename : SessionRenameResult → GatewayResult X
  session_archive : SessionArchiveResult → GatewayResult X
  session_inspect : SessionInspectResult X → GatewayResult X
  host_status : HostStatusResult → GatewayResult X
  host_lifecycle : HostLifecycleResult → GatewayResult X
  host_diagnostics : HostDiagnosticsResult → GatewayResult X
  pairing_create : PairingCreateResult → GatewayResult X
  pairing_list : PairingListResult → GatewayResult X
  device_list : DeviceListResult → GatewayResult X
  device_revoke : DeviceRevokeResult → GatewayResult X
