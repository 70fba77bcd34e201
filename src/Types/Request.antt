-- ===== src/Types/Request.antt =====
-- rust/session-core/src/types.rs: requests, results and errors.
use slight.Base.{ℕ, String, List, Option, Bool}
use slight.Acp.External.{Externals}
use slight.Acp.Kinds.{AgentKind, AcpError}
use slight.Store.Rows.{StoreError}
use slight.Types.Event.{SessionSummary, SequencedEvent}

pub record CreateSessionRequest : Type 0 where
  pub agent : AgentKind
  pub model : Option String
  pub effort : Option String
  pub working_directory_label : String
  pub initial_prompt : Option String

pub data SessionRecovery : Type 0 where
  load resume : SessionRecovery

pub record ImportSessionRequest : Type 0 where
  pub agent : AgentKind
  pub agent_session_id : String
  pub working_directory_label : String
  pub recovery : SessionRecovery
  pub title : Option String

pub record AttachResult (X : Externals) : Type 0 where
  pub summary : SessionSummary
  pub replayed : List (SequencedEvent X)
  pub latest_sequence : ℕ
  pub oldest_available_sequence : Option ℕ
  pub resync_required : Bool

pub record HistoryResult (X : Externals) : Type 0 where
  pub summary : SessionSummary
  pub events : List (SequencedEvent X)
  pub latest_sequence : ℕ
  pub oldest_available_sequence : Option ℕ
  pub has_more : Bool

pub data SessionError : Type 0 where
  unknown_agent unknown_session not_running : String → SessionError
  empty_title : SessionError
  unsupported_capability : String → SessionError
  no_pending_permission : String → SessionError
  -- session_id, expected, actual
  permission_mismatch : String → String → String → SessionError
  agent : AcpError → SessionError
  store : StoreError → SessionError
