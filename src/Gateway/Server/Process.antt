-- ===== src/Gateway/Server/Process.antt =====
-- rust/gateway-server/src/server.rs: `process_frame` and `dispatch_incoming`, and
-- rust/gateway-server/src/transport.rs: the decoding of a payload.
use slight.Base.{ℕ, eqb, String, List, Option, none, some, unwrap_or, if◌then◌else◌, true}
use slight.Base.Text.{◌++◌}
use slight.Base.HashMap.{get}
use slight.Base.Exec.{Result, ok, err, map_err}
use slight.Acp.External.{Externals}
use slight.Gateway.Protocol.Frames.{
  ClientHello, GatewayCommand, Frame, protocol_version, frame_type,
}
use slight.Gateway.Protocol.Errors.{
  ProtocolError, malformed_frame, invalid_version, unauthenticated, invalid_frame, to_wire,
}
use slight.Gateway.Server.Auth.{AuthContext, all_scopes, authorize}
use slight.Gateway.Server.State.{Gateway, Shared, push}
use slight.Gateway.Server.Dispatch.{remember_command, ack_error, dispatch, build_welcome}

module _ {X : Externals} {H : Type 0} where
  -- The two steps that follow a command's answer: it is remembered, and queued.
  unfoldable pub answer : String → Frame X → Shared X H → Shared X H
  answer request_id frame w =
      push frame (record w { connection = remember_command request_id frame w.connection })

module _ {X : Externals} {H : Type 0} (g : Gateway X H) where
  unfoldable pub error_frame : ProtocolError → Frame X
  error_frame e = Frame.error (to_wire e none)

  -- What `authenticate` gave.
  unfoldable pub welcomed : ClientHello → Result AuthContext ProtocolError → Shared X H → Shared X H
  unfolding error_frame build_welcome
  welcomed hello (ok context) w =
      let c = record w.connection { welcome_sent = true; authed = some context } in
      let (welcome, w') = build_welcome g hello (record w { connection = c }) in
      push (Frame.welcome welcome) w'
  welcomed hello (err e) w = push (error_frame e) w

  unfoldable pub process_hello : ClientHello → Shared X H → Shared X H
  unfolding welcomed error_frame
  process_hello hello w =
      if eqb hello.protocol_version protocol_version
      then welcomed hello (g.admin.authenticate w.host hello).0
          (record w { host = (g.admin.authenticate w.host hello).1 })
      else push (error_frame (invalid_version hello.protocol_version protocol_version)) w

  -- A command that is allowed, or refused.
  unfoldable pub authorized :
      GatewayCommand X → Result (Unit {0}) ProtocolError → Shared X H → Shared X H
  unfolding answer
  authorized command (ok _) w =
      let (frame, w') = dispatch g command w in answer command.request_id frame w'
  authorized command (err e) w = answer command.request_id (ack_error command.request_id e) w

  -- A command whose id is new, or whose answer is remembered.
  unfoldable pub fresh_or_repeated : GatewayCommand X → Option (Frame X) → Shared X H → Shared X H
  unfolding authorized
  fresh_or_repeated command (some frame) w = push frame w
  fresh_or_repeated command none w =
      let context =
        unwrap_or w.connection.authed (all_scopes "unauthenticated" "unauthenticated") in
      authorized command (authorize context command.command) w

  unfoldable pub process_command : GatewayCommand X → Shared X H → Shared X H
  unfolding fresh_or_repeated
  process_command command w =
      if w.connection.welcome_sent
      then fresh_or_repeated command (get w.connection.completed_commands command.request_id) w
      else push (ack_error command.request_id (unauthenticated "hello required")) w

  unfoldable pub unexpected : Frame X → Shared X H → Shared X H
  unfolding error_frame
  unexpected frame w =
      push (error_frame (invalid_frame ("unexpected frame: " ++ frame_type frame))) w

  unfoldable pub process_frame : Frame X → Shared X H → Shared X H
  unfolding process_hello process_command unexpected
  process_frame (Frame.hello hello) w = process_hello hello w
  process_frame (Frame.command command) w = process_command command w
  process_frame (Frame.ping ping) w =
      push (Frame.pong (record { protocol_version = protocol_version; nonce = ping.nonce })) w
  process_frame (Frame.pong _) w = w
  process_frame (Frame.welcome f) w = unexpected (Frame.welcome f) w
  process_frame (Frame.ack f) w = unexpected (Frame.ack f) w
  process_frame (Frame.event f) w = unexpected (Frame.event f) w
  process_frame (Frame.resync_required f) w = unexpected (Frame.resync_required f) w
  process_frame (Frame.error f) w = unexpected (Frame.error f) w

  unfoldable pub decode_text : String → Result (Frame X) ProtocolError
  decode_text text = map_err malformed_frame (g.json.decode_frame text)

  unfoldable pub decode_payload : List ℕ → Result (Frame X) ProtocolError
  unfolding decode_text
  decode_payload payload = elim (g.json.from_utf8 payload) [
    | ok text ↦ decode_text text
    | err e ↦ err (malformed_frame ("websocket payload is not valid utf-8: " ++ e))
  ]

  unfoldable pub dispatch_incoming : List ℕ → Shared X H → Shared X H
  unfolding decode_payload process_frame error_frame
  dispatch_incoming payload w = elim (decode_payload payload) [
    | ok frame ↦ process_frame frame w
    | err e ↦ push (error_frame e) w
  ]
