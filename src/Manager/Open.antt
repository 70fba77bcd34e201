-- ===== src/Manager/Open.antt =====
-- rust/session-core/src/manager.rs: opening a session, and listing those of an agent.
use slight.Base.{String, [], Option, none, some, true, false, if◌then◌else◌, or_else, unwrap_or}
use slight.Base.HashMap.{get, insert}
use slight.Base.Exec.{Result, ok_or, map_err, pure, raise, lift, modify, stateful, ◌>>=◌, ◌>>◌}
use slight.Acp.External.{Externals}
use slight.Acp.Kinds.{AgentKind, as_str, AgentDescriptor, AcpError}
use slight.Acp.Metadata.{SessionMetadata, model}
use slight.Acp.Event.{InitializeSummary, ListedSessionPage}
use slight.Acp.Adapter.{AgentAdapter, AgentLaunchConfig, default_launch}
use slight.Acp.Adapter
use slight.Types.Payload.{idle}
use slight.Types.Event.{SessionSummary, live}
use slight.Types.Request.{
  unknown_agent, unsupported_capability, agent, CreateSessionRequest, ImportSessionRequest,
  SessionRecovery,
}
use slight.Manager.State.{Session, SessionOrigin, OpenKind, System, M}
use slight.Manager.Steps.{observe, persist_session, append}
use slight.Manager.Turns.{status_event, send_prompt}
use slight.Manager.Pump.{pump_all}
use slight.Manager.Labels.{
  normalized_working_directory_label, resolve_working_directory, detect_git_branch,
  current_config_value, default_title, import_title,
}

-- `env!("CARGO_PKG_NAME")` and `env!("CARGO_PKG_VERSION")` of session-core.
abbrev pub pkg_name : String
pkg_name = "session-core"

abbrev pub pkg_version : String
pkg_version = "0.1.0"

import_kind : SessionRecovery → String → OpenKind
import_kind SessionRecovery.load native_id = OpenKind.load native_id
import_kind SessionRecovery.resume native_id = OpenKind.resume native_id

import_origin : SessionRecovery → SessionOrigin
import_origin SessionRecovery.load = SessionOrigin.load
import_origin SessionRecovery.resume = SessionOrigin.resume

module _ {X : Externals} where
  -- The agent's own name and version replace those of the adapter.
  unfoldable pub negotiated : AgentDescriptor → InitializeSummary X → AgentDescriptor
  negotiated d initialize = record d {
    display_name = unwrap_or initialize.agent_name d.display_name;
    version = or_else initialize.agent_version d.version;
  }

  -- The session that `open_session` stores.
  unfoldable pub fresh_session :
      SessionSummary
      → AgentDescriptor
      → InitializeSummary X
      → X.Connection
      → SessionMetadata
      → SessionOrigin
      → String
      → Session X
  fresh_session summary descriptor initialize c metadata origin directory = record {
    summary = summary;
    descriptor = descriptor;
    initialize = initialize;
    connection = c;
    agent_session_id = some metadata.agent_session_id;
    origin = origin;
    resolved_working_directory = directory;
    modes = metadata.modes;
    config_options = metadata.config_options;
    journal = [];
    pending_permission = none;
    running = true;
    exit_reported = false;
    reasoning_started_at_ms = none;
    reasoning_ended_at_ms = none;
  }

  unfoldable pub insert_session : String → Session X → M X (Unit {0})
  insert_session id session = modify λ i. record i { sessions = insert i.sessions id session }

  unfoldable pub find_adapter : AgentKind → M X (AgentAdapter X)
  find_adapter kind i = lift (ok_or (Adapter.get i.adapters kind) (unknown_agent (as_str kind))) i

  -- An adapter's result, or a connection's before the session is stored.
  unfoldable pub from_agent : {A : Type 0} → Result A AcpError → M X A
  from_agent r = lift (map_err agent r)

module _ {X : Externals} (S : System X) where
  unfoldable pub spawn : AgentAdapter X → AgentLaunchConfig → M X X.Connection
  spawn adapter launch = do r ← observe (λ m. adapter.spawn_session launch m); from_agent r

  handshake : X.Connection → Result (InitializeSummary X) AcpError × X.Connection
  handshake c = S.agents.initialize c pkg_name pkg_version

  unfoldable pub list_agent_sessions :
      AgentKind → Option String → Option String → M X ListedSessionPage
  unfolding handshake
  list_agent_sessions kind cwd cursor = do
    adapter ← find_adapter kind
    c ← spawn adapter (record default_launch { working_directory = cwd })
    initialize ← from_agent (handshake c).0
    if S.schema.list_is_some initialize.agent_capabilities
        then from_agent (S.agents.list_sessions (handshake c).1 cwd cursor).0
        else raise (unsupported_capability "session/list")

  -- `session/new`, `session/load` or `session/resume`, with the capability each wants.
  unfoldable pub bind_session :
      OpenKind → InitializeSummary X → X.Connection → String → M X (SessionMetadata × X.Connection)
  bind_session OpenKind.new initialize c cwd = do
    metadata ← from_agent (S.agents.new_session c cwd).0
    pure (metadata, (S.agents.new_session c cwd).1)
  bind_session (OpenKind.load native_id) initialize c cwd =
      if S.schema.load_session initialize.agent_capabilities
      then (do
        metadata ← from_agent (S.agents.load_session c native_id cwd).0
        pure (metadata, (S.agents.load_session c native_id cwd).1))
      else raise (unsupported_capability "session/load")
  bind_session (OpenKind.resume native_id) initialize c cwd =
      if S.schema.resume_is_some initialize.agent_capabilities
      then (do
        metadata ← from_agent (S.agents.resume_session c native_id cwd).0
        pure (metadata, (S.agents.resume_session c native_id cwd).1))
      else raise (unsupported_capability "session/resume")

  unfoldable pub send_initial : String → Option String → M X (Unit {0})
  send_initial id none = pure tt
  send_initial id (some prompt) = do send_prompt S id prompt; stateful (pump_all S); pure tt

  -- The summary of a session, or the given one where the session is missing.
  unfoldable pub summary_or : String → SessionSummary → M X SessionSummary
  summary_or id summary i = elim (get i.sessions id) [
    | none ↦ pure summary i
    | some session ↦ pure session.summary i
  ]

  unfoldable pub open_session :
      AgentKind
      → String
      → String
      → Option String
      → Option String
      → Option String
      → OpenKind
      → SessionOrigin
      → M X SessionSummary
  unfolding handshake
  open_session kind label title requested_model effort initial_prompt open_kind origin = do
    adapter ← find_adapter kind
    let directory_label = normalized_working_directory_label label
    let directory = resolve_working_directory S.platform directory_label
    c ← spawn adapter (record default_launch {
      working_directory = some directory;
      initial_prompt = initial_prompt;
    })
    id ← observe S.platform.new_uuid
    initialize ← from_agent (handshake c).0
    bound ← bind_session open_kind initialize (handshake c).1 directory
    now ← observe S.platform.now_ms
    branch ← observe (detect_git_branch S.platform directory)
    let summary : SessionSummary = record {
      id = id;
      title = title;
      agent = as_str kind;
      model = or_else requested_model (current_config_value bound.0.config_options model);
      effort = effort;
      working_directory_label = directory_label;
      git_branch = branch;
      status = idle;
      created_at_ms = now;
      last_activity_at_ms = now;
      last_sequence = 0;
      recovery = live;
      archived = false;
    }
    insert_session id (
        fresh_session summary (negotiated adapter.descriptor initialize) initialize bound.1 bound.0
          origin directory)
    persist_session S id
    append S id (status_event idle)
    send_initial id initial_prompt
    summary_or id summary

  unfoldable pub create_session : CreateSessionRequest → M X SessionSummary
  create_session request =
      open_session request.agent request.working_directory_label (default_title request)
        request.model request.effort request.initial_prompt OpenKind.new SessionOrigin.new

  unfoldable pub import_session : ImportSessionRequest → M X SessionSummary
  unfolding import_kind import_origin
  import_session request = do
    summary ←
        open_session request.agent request.working_directory_label
          (import_title request.agent request.title) none none none
          (import_kind request.recovery request.agent_session_id) (import_origin request.recovery)
    stateful (pump_all S)
    summary_or summary.id summary
