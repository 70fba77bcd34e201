-- ===== src/Manager/State.antt =====
-- rust/session-core/src/manager.rs: the state behind the manager's lock, and what it takes from
-- outside.
use slight.Base.{ℕ, String, List, Option, Bool}
use slight.Base.Int.{ℤ}
use slight.Base.HashMap.{HashMap}
use slight.Base.Exec.{Result, Exec}
use slight.Acp.External.{Externals}
use slight.Acp.Kinds.{AgentDescriptor}
use slight.Acp.Metadata.{AcpModeState, AcpConfigOption, SessionMetadata}
use slight.Acp.Event.{InitializeSummary, AcpSession}
use slight.Acp.Adapter.{AdapterRegistry}
use slight.Types.Payload.{PermissionRequestPayload}
use slight.Types.Event.{SessionSummary, SequencedEvent}
use slight.Types.Request.{SessionError}
use slight.Store.Rows.{SessionStore}

pub data SessionOrigin : Type 0 where
  new load resume : SessionOrigin

pub origin_as_str : SessionOrigin → String
origin_as_str new = "new"
origin_as_str load = "loaded"
origin_as_str resume = "resumed"

pub record Session (X : Externals) : Type 0 where
  pub summary : SessionSummary
  pub descriptor : AgentDescriptor
  pub initialize : InitializeSummary X
  pub connection : X.Connection
  pub agent_session_id : Option String
  pub origin : SessionOrigin
  pub resolved_working_directory : String
  pub modes : Option AcpModeState
  pub config_options : List AcpConfigOption
  pub journal : List (SequencedEvent X)
  pub pending_permission : Option PermissionRequestPayload
  pub running : Bool
  pub exit_reported : Bool
  pub reasoning_started_at_ms : Option ℤ
  pub reasoning_ended_at_ms : Option ℤ

pub record RecoveredSession (X : Externals) : Type 0 where
  pub summary : SessionSummary
  pub descriptor : AgentDescriptor
  pub agent_session_id : Option String
  pub journal : List (SequencedEvent X)

-- A subscriber is the list of the events sent into its channel, oldest first. `moment` counts the
-- observations of the world outside (clock readings, random ids, launched processes).
pub record Inner (X : Externals) : Type 0 where
  pub adapters : AdapterRegistry X
  pub store : X.Store
  pub sessions : HashMap (Session X)
  pub subscribers : HashMap (List (List (SequencedEvent X)))
  pub journal_limit : ℕ
  pub recovered : HashMap (RecoveredSession X)
  pub moment : ℕ

pub record PersistedSession : Type 0 where
  pub summary : SessionSummary
  pub origin : SessionOrigin
  pub agent_session_id : Option String
  pub resolved_working_directory : String

pub data OpenKind : Type 0 where
  new : OpenKind
  load resume : String → OpenKind

pub record RehydratedSession (X : Externals) : Type 0 where
  pub descriptor : AgentDescriptor
  pub initialize : InitializeSummary X
  pub connection : X.Connection
  pub session_metadata : SessionMetadata

-- serde_json at the types that the manager stores, and the object access of `archive_session`:
-- `get_field` is `as_object_mut` and `get_mut`, `insert_field` is `as_object_mut` and `insert`.
pub record Json (X : Externals) : Type 0 where
  pub null : X.Value
  pub bool : Bool → X.Value
  pub event_to_value : SequencedEvent X → Option X.Value
  pub event_from_value : X.Value → Option (SequencedEvent X)
  pub record_to_value : PersistedSession → Option X.Value
  pub record_from_value : X.Value → Result PersistedSession String
  pub get_field : X.Value → String → Option X.Value
  pub insert_field : X.Value → String → X.Value → Option X.Value

-- The getters of the ACP schema that the code reads. `stop_reason_value` is the string of the
-- reason's serialized form, `stop_reason_debug` its `Debug` form.
pub record Schema (X : Externals) : Type 0 where
  pub load_session : X.AgentCapabilities → Bool
  pub prompt_image : X.AgentCapabilities → Bool
  pub prompt_audio : X.AgentCapabilities → Bool
  pub prompt_embedded_context : X.AgentCapabilities → Bool
  pub mcp_http : X.AgentCapabilities → Bool
  pub mcp_sse : X.AgentCapabilities → Bool
  pub list_is_some : X.AgentCapabilities → Bool
  pub resume_is_some : X.AgentCapabilities → Bool
  pub close_is_some : X.AgentCapabilities → Bool
  pub delete_is_some : X.AgentCapabilities → Bool
  pub additional_directories_is_some : X.AgentCapabilities → Bool
  pub is_end_turn : X.StopReason → Bool
  pub stop_reason_value : X.StopReason → Option String
  pub stop_reason_debug : X.StopReason → String

-- `now_ms` and `new_uuid` at a moment; the environment's directories; `git_branch`, the exit
-- success and the decoded output of `git -C DIR branch --show-current`, if it ran.
pub record Platform : Type 0 where
  pub now_ms : ℕ → ℤ
  pub new_uuid : ℕ → String
  pub home : Option String
  pub current_dir : Option String
  pub git_branch : String → ℕ → Option (Bool × Option String)

pub record System (X : Externals) : Type 0 where
  pub agents : AcpSession X
  pub rows : SessionStore X
  pub json : Json X
  pub schema : Schema X
  pub platform : Platform

-- A method on `&mut Inner` that returns a `Result`.
abbrev pub M : Externals → Type 0 → Type 0
M X A = Exec (Inner X) SessionError A
