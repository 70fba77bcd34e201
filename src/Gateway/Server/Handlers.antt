-- ===== src/Gateway/Server/Handlers.antt =====
-- rust/gateway-server/src/server.rs: the arms of `dispatch`.
use mathlib.Core.Option
use slight.Base.{
  ℕ, String, List, [], ◌∷◌, Option, none, some, map, unwrap_or, max, take, if◌then◌else◌,
}
use slight.Base.Text.{◌++◌, ◌==◌}
use slight.Base.HashMap.{insert, remove}
use slight.Base.Exec.{Result, ok, err, ok_or, map_err, pure, lift, stateful, ◌>>=◌, ◌>>◌}
use slight.Acp.External.{Externals}
use slight.Acp.Kinds.{AgentKind, claude_code, codex, fake, custom, as_str, AcpError}
use slight.Acp.Metadata.{ListedSessionSummary}
use slight.Types.Event.{SequencedEvent}
use slight.Types.Request.{
  SessionError, unknown_session, unknown_agent, unsupported_capability, not_running, empty_title,
  no_pending_permission, permission_mismatch, agent, store, AttachResult,
}
use slight.Store.Rows.{StoreError}
use slight.Manager.Turns.{rename_session, archive_session, set_mode, set_config_option}
use slight.Manager.Replay.{attach, history, subscribe}
use slight.Manager.Labels.{resolve_working_directory}
use slight.Manager.Open.{create_session, import_session, list_agent_sessions}
use slight.Manager.Listing.{
  list_sessions, imported_agent_session_ids, workspace_paths, inspect_session, contains,
}
use slight.Manager.Api.{send_input, cancel_input, answer_permission}
use slight.Gateway.Protocol.Frames.{GatewayCommand, GatewayEvent}
use slight.Gateway.Protocol.Errors.{ProtocolError, internal, invalid_params, invalid_frame}
use slight.Gateway.Protocol.Results.{
  GatewayResult, HostLifecycleResult, summary_dto, descriptor_dto, from_listed,
}
use slight.Gateway.Protocol.Events.{gateway_event}
use slight.Gateway.Server.State.{
  Gateway, G, ConnState, on_manager, reading, on_host, asking_host, meanwhile, on_connection,
}

unfoldable pub parse_agent : String → AgentKind
parse_agent value =
    if value == "claude_code"
    then claude_code
    else if value == "codex"
    then codex
    else if value == "fake"
    then fake
    else custom value

unfoldable pub acp_text : AcpError → String
acp_text (AcpError.message text) = text

unfoldable pub store_text : StoreError → String
store_text (StoreError.not_found s) = "session not found: " ++ s
store_text (StoreError.serialization s) = "serialization error: " ++ s
store_text (StoreError.other s) = "store error: " ++ s

unfoldable pub session_error : SessionError → ProtocolError
session_error (unknown_session id) = ProtocolError.unknown_session id
session_error (unknown_agent name) = invalid_params ("unknown agent: " ++ name)
session_error (not_running id) = invalid_frame ("session is not running: " ++ id)
session_error empty_title = invalid_params "session title must not be empty"
session_error (unsupported_capability c) = ProtocolError.unsupported_capability c
session_error (no_pending_permission id) =
    invalid_frame ("no pending permission for session: " ++ id)
session_error (permission_mismatch id expected actual) =
    invalid_frame ("permission mismatch for session: " ++ id)
session_error (agent e) = internal (acp_text e)
session_error (store e) = internal (store_text e)

-- The two kinds of acknowledgement.
pub data Reply (X : Externals) : Type 0 where
  unit : Reply X
  body : GatewayResult X → Reply X

module _ {X : Externals} where
  -- A new receiver takes the place of the connection's old one.
  unfoldable pub keep_receiver : String → Result ℕ ProtocolError → ConnState X → ConnState X
  keep_receiver id (ok place) c = record c {
    subscriptions = insert c.subscriptions id (record { place = place; received = 0 });
  }
  keep_receiver id (err e) c = c

  -- `if let Some(session_id) = command.session_id { … }`
  unfoldable pub detached : Option String → ConnState X → ConnState X
  detached none c = c
  detached (some id) c = record c { subscriptions = remove c.subscriptions id }

module _ {X : Externals} {H : Type 0} (g : Gateway X H) where
  -- `let Some(session_id) = command.session_id.clone() else { … }`
  unfoldable pub session_required : GatewayCommand X → G X H String
  session_required command = lift (ok_or command.session_id (invalid_params "session_id required"))

  -- `command.params_as()`, and with a default where that fails.
  unfoldable pub params_as :
      {T : Type 0} → (X.Value → Result T String) → GatewayCommand X → Result T ProtocolError
  params_as decode command =
      map_err invalid_params (decode (unwrap_or command.params g.system.json.null))

  unfoldable pub params_required :
      {T : Type 0} → (X.Value → Result T String) → GatewayCommand X → G X H T
  unfolding params_as
  params_required decode command = lift (params_as decode command)

  unfoldable pub params_or : {T : Type 0} → (X.Value → Result T String) → T → GatewayCommand X → T
  unfolding params_as
  params_or decode default command = elim (params_as decode command) [
    | ok params ↦ params
    | err e ↦ default
  ]

  abbrev session_event : String → SequencedEvent X → GatewayEvent X
  session_event = gateway_event g.json.payload

  unfoldable pub list_command : G X H (Reply X)
  list_command = do
    sessions ← reading list_sessions
    pure (body (GatewayResult.session_list (record { sessions = map summary_dto sessions })))

  unfoldable pub working_directories_command : G X H (Reply X)
  working_directories_command = do
    paths ← on_manager session_error (stateful (workspace_paths g.system 20))
    pure (body (GatewayResult.working_directories (record { paths = paths })))

  unfoldable pub create_command : GatewayCommand X → G X H (Reply X)
  create_command command = do
    params ← params_required g.json.create_session command
    summary ← on_manager session_error (
        create_session g.system (record {
          agent = parse_agent params.agent;
          model = params.model;
          effort = params.effort;
          working_directory_label = params.working_directory_label;
          initial_prompt = params.initial_prompt;
        }))
    pure (body (GatewayResult.session_create (record { session = summary_dto summary })))

  -- The sessions of an agent that have not been imported.
  unfoldable pub not_imported : List String → List ListedSessionSummary → List ListedSessionSummary
  not_imported imported [] = []
  not_imported imported (listed ∷ rest) =
      let later = not_imported imported rest in
      if contains listed.agent_session_id imported then later else listed ∷ later

  unfoldable pub agent_sessions_command : GatewayCommand X → G X H (Reply X)
  agent_sessions_command command = do
    params ← params_required g.json.agent_sessions_list command
    let kind = parse_agent params.agent
    let cwd =
        Option.map (resolve_working_directory g.system.platform) params.working_directory_label
    page ← on_manager session_error (list_agent_sessions g.system kind cwd params.cursor)
    meanwhile g.others
    imported ← reading (imported_agent_session_ids kind)
    pure (
        body (
          GatewayResult.agent_sessions_list (record {
            sessions = map (from_listed (as_str kind)) (not_imported imported page.sessions);
            next_cursor = page.next_cursor;
          })))

  unfoldable pub import_command : GatewayCommand X → G X H (Reply X)
  import_command command = do
    params ← params_required g.json.import_agent_session command
    summary ← on_manager session_error (
        import_session g.system (record {
          agent = parse_agent params.agent;
          agent_session_id = params.agent_session_id;
          working_directory_label = params.working_directory_label;
          recovery = params.recovery;
          title = params.title;
        }))
    pure (body (GatewayResult.import_agent_session (record { session = summary_dto summary })))

  -- `if let Ok(receiver) = subscribe(id) { … }`
  unfoldable pub try_subscribe : String → G X H (Unit {0})
  unfolding keep_receiver
  try_subscribe id w =
      let r = on_manager session_error (subscribe id) w in on_connection (keep_receiver id r.0) r.1

  -- The two arms that attach: the result, and a new subscription.
  unfoldable pub attach_and_subscribe : GatewayCommand X → G X H (AttachResult X)
  attach_and_subscribe command = do
    id ← session_required command
    let params = params_or g.json.attach_session (record { after_sequence = none }) command
    found ← reading (attach id params.after_sequence)
    result ← lift (map_err session_error found)
    meanwhile g.others
    try_subscribe id
    pure result

  abbrev attached : AttachResult X → List (GatewayEvent X) → GatewayResult X
  attached result replayed = GatewayResult.session_attach (record {
    session = summary_dto result.summary;
    replayed = replayed;
    latest_sequence = result.latest_sequence;
    oldest_available_sequence = result.oldest_available_sequence;
    resync_required = result.resync_required;
  })

  unfoldable pub attach_command : GatewayCommand X → G X H (Reply X)
  attach_command command = do
    result ← attach_and_subscribe command
    pure (body (attached result []))

  unfoldable pub max_replay_events : ℕ
  max_replay_events = max (unwrap_or g.config.capabilities.max_replay_events 256) 1

  unfoldable pub replay_command : GatewayCommand X → G X H (Reply X)
  unfolding max_replay_events
  replay_command command = do
    id ← session_required command
    result ← attach_and_subscribe command
    pure (body (attached result (map (session_event id) (take max_replay_events result.replayed))))

  unfoldable pub history_command : GatewayCommand X → G X H (Reply X)
  history_command command = do
    id ← session_required command
    let params =
        params_or g.json.session_history (record { before_sequence = none; limit = none }) command
    found ← reading (history id params.before_sequence (unwrap_or params.limit 200))
    result ← lift (map_err session_error found)
    pure (
        body (
          GatewayResult.session_history (record {
            session = summary_dto result.summary;
            events = map (session_event id) result.events;
            latest_sequence = result.latest_sequence;
            oldest_available_sequence = result.oldest_available_sequence;
            has_more = result.has_more;
          })))

  unfoldable pub detach_command : GatewayCommand X → G X H (Reply X)
  unfolding detached
  detach_command command = do on_connection (detached command.session_id); pure unit

  unfoldable pub input_command : GatewayCommand X → G X H (Reply X)
  input_command command = do
    id ← session_required command
    params ← params_required g.json.send_input command
    on_manager session_error (send_input g.system id params.text)
    pure unit

  unfoldable pub cancel_command : GatewayCommand X → G X H (Reply X)
  cancel_command command = do
    id ← session_required command
    on_manager session_error (cancel_input g.system id)
    pure unit

  unfoldable pub rename_command : GatewayCommand X → G X H (Reply X)
  rename_command command = do
    id ← session_required command
    params ← params_required g.json.rename_session command
    summary ← on_manager session_error (rename_session g.system id params.title)
    pure (body (GatewayResult.session_rename (record { session = summary_dto summary })))

  unfoldable pub archive_command : GatewayCommand X → G X H (Reply X)
  archive_command command = do
    id ← session_required command
    params ← params_required g.json.archive_session command
    summary ← on_manager session_error (archive_session g.system id params.archived)
    pure (body (GatewayResult.session_archive (record { session = summary_dto summary })))

  unfoldable pub set_mode_command : GatewayCommand X → G X H (Reply X)
  set_mode_command command = do
    id ← session_required command
    params ← params_required g.json.set_session_mode command
    on_manager session_error (set_mode g.system id params.mode_id)
    pure unit

  unfoldable pub set_config_option_command : GatewayCommand X → G X H (Reply X)
  set_config_option_command command = do
    id ← session_required command
    params ← params_required g.json.set_session_config_option command
    on_manager session_error (set_config_option g.system id params.config_id params.value_id)
    pure unit

  unfoldable pub permission_command : GatewayCommand X → G X H (Reply X)
  permission_command command = do
    id ← session_required command
    params ← params_required g.json.respond_permission command
    on_manager session_error (answer_permission g.system id params.permission_id params.option_id)
    pure unit

  unfoldable pub inspect_command : GatewayCommand X → G X H (Reply X)
  inspect_command command = do
    id ← session_required command
    found ← reading (inspect_session g.system id)
    detail ← lift (map_err session_error found)
    pure (
        body (
          GatewayResult.session_inspect (record {
            session = summary_dto detail.summary;
            agent = descriptor_dto detail.agent;
            acp = detail.acp;
            running = detail.running;
            pending_permission = Option.bind detail.pending_permission g.json.permission_to_value;
            recent_events = map (session_event id) detail.recent_events;
          })))

  unfoldable pub status_command : G X H (Reply X)
  status_command = do
    status ← asking_host g.admin.status
    pure (body (GatewayResult.host_status status))

  unfoldable pub lifecycle_command :
      (H → Result HostLifecycleResult ProtocolError × H) → G X H (Reply X)
  lifecycle_command request = do
    result ← on_host request
    pure (body (GatewayResult.host_lifecycle result))

  unfoldable pub diagnostics_command : G X H (Reply X)
  diagnostics_command = do
    diagnostics ← asking_host g.admin.diagnostics
    pure (body (GatewayResult.host_diagnostics diagnostics))

  unfoldable pub pairing_create_command : GatewayCommand X → G X H (Reply X)
  pairing_create_command command = do
    let params = params_or g.json.begin_pairing (record { label = "paired device" }) command
    result ← on_host (λ h. g.admin.begin_pairing h params.label)
    pure (body (GatewayResult.pairing_create result))

  unfoldable pub pairing_list_command : G X H (Reply X)
  pairing_list_command = do
    result ← on_host g.admin.list_pairings
    pure (body (GatewayResult.pairing_list result))

  unfoldable pub device_list_command : G X H (Reply X)
  device_list_command = do
    result ← on_host g.admin.list_devices
    pure (body (GatewayResult.device_list result))

  unfoldable pub device_revoke_command : GatewayCommand X → G X H (Reply X)
  device_revoke_command command = do
    params ← params_required g.json.revoke_device command
    result ← on_host (λ h. g.admin.revoke_device h params.device_id)
    pure (body (GatewayResult.device_revoke result))
