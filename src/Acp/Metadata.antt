-- ===== src/Acp/Metadata.antt =====
-- rust/acp-types/src/metadata.rs: capability and session metadata.
use slight.Base.{ℕ, String, List, Option, Bool}
use slight.Acp.External.{Externals}

pub data AuthMethodKind : Type 0 where
  agent terminal : AuthMethodKind

pub record AuthMethodSummary : Type 0 where
  pub id : String
  pub name : String
  pub description : Option String
  pub kind : AuthMethodKind

pub record AgentCapabilitiesSummary : Type 0 where
  pub load_session : Bool
  pub prompt_image : Bool
  pub prompt_audio : Bool
  pub prompt_embedded_context : Bool
  pub mcp_http : Bool
  pub mcp_sse : Bool
  pub session_list : Bool
  pub session_resume : Bool
  pub session_close : Bool
  pub session_delete : Bool
  pub session_additional_directories : Bool

pub record AcpMode : Type 0 where
  pub id : String
  pub name : String
  pub description : Option String

pub record AcpModeState : Type 0 where
  pub current_mode_id : String
  pub available_modes : List AcpMode

pub data AcpConfigCategory : Type 0 where
  mode model model_config thought_level : AcpConfigCategory
  other : String → AcpConfigCategory

pub record AcpConfigChoice : Type 0 where
  pub value_id : String
  pub name : String
  pub description : Option String

pub record AcpConfigGroup : Type 0 where
  pub id : Option String
  pub name : Option String
  pub options : List AcpConfigChoice

pub data AcpConfigKind : Type 0 where
  -- current_value_id, groups
  select : String → List AcpConfigGroup → AcpConfigKind
  -- current_value
  boolean : Bool → AcpConfigKind

pub record AcpConfigOption : Type 0 where
  pub id : String
  pub name : String
  pub description : Option String
  pub category : Option AcpConfigCategory
  pub kind : AcpConfigKind

pub record AcpSessionInfoUpdate : Type 0 where
  pub title : Option (Option String)
  pub updated_at : Option (Option String)

pub record AcpCost (X : Externals) : Type 0 where
  pub amount : X.Float
  pub currency : String

-- `used` and `size` are `u64`.
pub record AcpUsage (X : Externals) : Type 0 where
  pub used : ℕ
  pub size : ℕ
  pub cost : Option (AcpCost X)

pub record AgentMetadataSummary : Type 0 where
  pub name : Option String
  pub title : Option String
  pub version : Option String

pub record SessionMetadata : Type 0 where
  pub agent_session_id : String
  pub modes : Option AcpModeState
  pub config_options : List AcpConfigOption

pub record ListedSessionSummary : Type 0 where
  pub agent_session_id : String
  pub cwd : String
  pub additional_directories : List String
  pub title : Option String
  pub updated_at : Option String

pub record PlanEntrySummary : Type 0 where
  pub content : String
  pub priority : String
  pub status : String

pub record PlanSummary : Type 0 where
  pub entries : List PlanEntrySummary

pub record AvailableCommandSummary : Type 0 where
  pub name : String
  pub description : String
  pub input_hint : Option String
