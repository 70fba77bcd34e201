-- ===== src/Gateway/Server/Dispatch.antt =====
-- rust/gateway-server/src/server.rs: what the server does with one frame, and
-- rust/gateway-server/src/transport.rs: the decoding of a payload.
use slight.Base.{
  ℕ, suc, String, List, [], ◌∷◌, ◌++◌, ltb, Option, none, some, is_some, length, if◌then◌else◌,
}
use slight.Base.HashMap.{contains_key, insert, remove}
use slight.Base.Exec.{Result, ok, err, raise}
use slight.Acp.External.{Externals}
use slight.Gateway.Protocol.Frames.{
  ClientHello, ServerWelcome, GatewayCommand, Frame, protocol_version, ack_of_value, ack_unit,
  ack_of_error,
}
use slight.Gateway.Protocol.Errors.{ProtocolError, error_body}
use slight.Gateway.Protocol.Commands.{CommandName, parse_name}
use slight.Gateway.Server.State.{Gateway, G, Shared, ConnState}
use slight.Gateway.Server.Handlers.{
  Reply, unit, body, list_command, working_directories_command, create_command,
  agent_sessions_command, import_command, attach_command, replay_command, history_command,
  detach_command, input_command, cancel_command, rename_command, archive_command, set_mode_command,
  set_config_option_command, permission_command, inspect_command, status_command, lifecycle_command,
  diagnostics_command, pairing_create_command, pairing_list_command, device_list_command,
  device_revoke_command,
}

abbrev pub completed_command_limit : ℕ
completed_command_limit = 256

module _ {X : Externals} where
  -- `while order.len() > COMPLETED_COMMAND_LIMIT { … }`
  unfoldable pub forget_oldest : List String → ConnState X → ConnState X
  forget_oldest [] c = record c { completed_command_order = [] }
  forget_oldest (oldest ∷ order) c =
      let later =
        forget_oldest order
          (record c { completed_commands = remove c.completed_commands oldest }) in
      if ltb completed_command_limit (length (oldest ∷ order))
      then later
      else record c { completed_command_order = oldest ∷ order }

  unfoldable pub remember_command : String → Frame X → ConnState X → ConnState X
  unfolding forget_oldest
  remember_command request_id response c =
      if contains_key c.completed_commands request_id
      then c
      else forget_oldest (c.completed_command_order ++ request_id ∷ [])
          (record c { completed_commands = insert c.completed_commands request_id response })

  unfoldable pub ack_error : String → ProtocolError → Frame X
  ack_error request_id e = Frame.ack (ack_of_error request_id (error_body e))

module _ {X : Externals} {H : Type 0} (g : Gateway X H) where
  -- The arm of a command.
  unfoldable pub handle : CommandName → GatewayCommand X → G X H (Reply X)
  handle CommandName.session_list command = list_command g
  handle CommandName.session_working_directories command = working_directories_command g
  handle CommandName.session_create command = create_command g command
  handle CommandName.agent_sessions_list command = agent_sessions_command g command
  handle CommandName.agent_session_import command = import_command g command
  handle CommandName.session_attach command = attach_command g command
  handle CommandName.session_resume command = attach_command g command
  handle CommandName.events_replay command = replay_command g command
  handle CommandName.session_history command = history_command g command
  handle CommandName.session_detach command = detach_command g command
  handle CommandName.session_input command = input_command g command
  handle CommandName.session_cancel command = cancel_command g command
  handle CommandName.session_rename command = rename_command g command
  handle CommandName.session_archive command = archive_command g command
  handle CommandName.session_set_mode command = set_mode_command g command
  handle CommandName.session_set_config_option command = set_config_option_command g command
  handle CommandName.session_permission_respond command = permission_command g command
  handle CommandName.session_inspect command = inspect_command g command
  handle CommandName.host_status command = status_command g
  handle CommandName.host_start command = lifecycle_command g g.admin.request_start
  handle CommandName.host_stop command = lifecycle_command g g.admin.request_stop
  handle CommandName.host_shutdown command = lifecycle_command g g.admin.request_stop
  handle CommandName.host_restart command = lifecycle_command g g.admin.request_restart
  handle CommandName.host_diagnostics command = diagnostics_command g
  handle CommandName.host_configuration command = status_command g
  handle CommandName.pairing_create command = pairing_create_command g command
  handle CommandName.pairing_list command = pairing_list_command g
  handle CommandName.device_list command = device_list_command g
  handle CommandName.device_revoke command = device_revoke_command g command

  -- The arm that a text names, and the last arm.
  unfoldable pub handle_named : Option CommandName → GatewayCommand X → G X H (Reply X)
  unfolding handle
  handle_named none command = raise (ProtocolError.unsupported_command command.command)
  handle_named (some name) command = handle name command

  -- The acknowledgement of what an arm gave.
  unfoldable pub reply_frame : String → Result (Reply X) ProtocolError → Frame X
  reply_frame request_id (ok unit) = Frame.ack (ack_unit g.system.json.null request_id)
  reply_frame request_id (ok (body r)) =
      Frame.ack (ack_of_value request_id (g.json.result_to_value r))
  reply_frame request_id (err e) = ack_error request_id e

  unfoldable pub dispatch : GatewayCommand X → Shared X H → Frame X × Shared X H
  unfolding handle_named reply_frame
  dispatch command w =
      let r = handle_named (parse_name command.command) command w in
      (reply_frame command.request_id r.0, r.1)

  -- The id is drawn at the moment of the manager's clock, which moves on.
  unfoldable pub build_welcome : ClientHello → Shared X H → ServerWelcome × Shared X H
  build_welcome hello w = (
    record {
      protocol_version = protocol_version;
      connection_id = g.system.platform.new_uuid w.sessions.moment;
      server_name = g.config.server_name;
      server_version = g.config.server_version;
      host_id = some g.config.host_id;
      capabilities = g.config.capabilities;
      heartbeat_interval_ms = g.config.heartbeat_interval_ms;
      resync_required = is_some hello.resume;
      resync_reason = elim hello.resume [ none ↦ none | some _ ↦ some "attach_required" ];
    },
    record w { sessions = record w.sessions { moment = suc w.sessions.moment } },
  )
