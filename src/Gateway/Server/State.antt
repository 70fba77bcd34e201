-- ===== src/Gateway/Server/State.antt =====
-- rust/gateway-server/src/server.rs, admin.rs and auth.rs: what a connection works on.
use slight.Base.{ℕ, String, List, [], ◌∷◌, ◌++◌, Option, none, Bool, false}
use slight.Base.HashMap.{HashMap, empty}
use slight.Base.Exec.{Result, Exec, ok, map_err, gets, modify}
use slight.Acp.External.{Externals}
use slight.Types.Payload.{PermissionRequestPayload}
use slight.Types.Event.{SessionEvent}
use slight.Types.Request.{SessionError}
use slight.Manager.State.{Inner, System, M}
use slight.Gateway.Protocol.Frames.{ClientHello, ServerCapabilities, Frame}
use slight.Gateway.Protocol.Errors.{ProtocolError}
use slight.Gateway.Protocol.Commands.{
  CreateSessionParams, AttachSessionParams, SessionHistoryParams, AgentSessionsListParams,
  ImportAgentSessionParams, SendInputParams, RenameSessionParams, ArchiveSessionParams,
  SetSessionModeParams, SetSessionConfigOptionParams, RespondPermissionParams, BeginPairingParams,
  RevokeDeviceParams,
}
use slight.Gateway.Protocol.Results.{
  GatewayResult, HostStatusResult, HostDiagnosticsResult, HostLifecycleResult, PairingCreateResult,
  PairingListResult, DeviceListResult, DeviceRevokeResult,
}
use slight.Gateway.Server.Auth.{AuthContext}

-- Without the logger.
pub record GatewayConfig : Type 0 where
  pub server_name : String
  pub server_version : String
  pub host_id : String
  pub capabilities : ServerCapabilities
  pub heartbeat_interval_ms : Option ℕ

-- The traits `HostAdmin` and `Authenticator`, over the state of the host behind them.
pub record HostAdmin (H : Type 0) : Type 0 where
  pub authenticate : H → ClientHello → Result AuthContext ProtocolError × H
  pub status : H → HostStatusResult × H
  pub diagnostics : H → HostDiagnosticsResult × H
  pub request_start : H → Result HostLifecycleResult ProtocolError × H
  pub request_stop : H → Result HostLifecycleResult ProtocolError × H
  pub request_restart : H → Result HostLifecycleResult ProtocolError × H
  pub begin_pairing : H → String → Result PairingCreateResult ProtocolError × H
  pub list_pairings : H → Result PairingListResult ProtocolError × H
  pub list_devices : H → Result DeviceListResult ProtocolError × H
  pub revoke_device : H → String → Result DeviceRevokeResult ProtocolError × H

-- serde_json at the types of the protocol; an error is its text.
pub record GatewayJson (X : Externals) : Type 0 where
  pub result_to_value : GatewayResult X → Option X.Value
  pub payload : SessionEvent X → X.Value
  pub permission_to_value : PermissionRequestPayload → Option X.Value
  pub from_utf8 : List ℕ → Result String String
  pub encode_frame : Frame X → Result String String
  pub decode_frame : String → Result (Frame X) String
  pub create_session : X.Value → Result CreateSessionParams String
  pub attach_session : X.Value → Result AttachSessionParams String
  pub session_history : X.Value → Result SessionHistoryParams String
  pub agent_sessions_list : X.Value → Result AgentSessionsListParams String
  pub import_agent_session : X.Value → Result ImportAgentSessionParams String
  pub send_input : X.Value → Result SendInputParams String
  pub rename_session : X.Value → Result RenameSessionParams String
  pub archive_session : X.Value → Result ArchiveSessionParams String
  pub set_session_mode : X.Value → Result SetSessionModeParams String
  pub set_session_config_option : X.Value → Result SetSessionConfigOptionParams String
  pub respond_permission : X.Value → Result RespondPermissionParams String
  pub begin_pairing : X.Value → Result BeginPairingParams String
  pub revoke_device : X.Value → Result RevokeDeviceParams String

-- The receiving end of a channel: its place among the channels of its session, and how many of the
-- events sent into it have been received.
pub record Receiver : Type 0 where
  pub place : ℕ
  pub received : ℕ

pub record ConnState (X : Externals) : Type 0 where
  pub authed : Option AuthContext
  pub welcome_sent : Bool
  pub subscriptions : HashMap Receiver
  pub completed_commands : HashMap (Frame X)
  pub completed_command_order : List String

-- The state of a new connection.
abbrev pub new_connection : {X : Externals} → ConnState X
new_connection = record {
  authed = none;
  welcome_sent = false;
  subscriptions = empty;
  completed_commands = empty;
  completed_command_order = [];
}

-- What one connection's thread sees: the session manager and the host, which it shares, its own
-- state, and the frames that wait to be written.
pub record Shared (X : Externals) (H : Type 0) : Type 0 where
  pub sessions : Inner X
  pub host : H
  pub connection : ConnState X
  pub outbound : List (Frame X)

-- `others` is what other threads do to the manager where a handler takes its lock a second time.
pub record Gateway (X : Externals) (H : Type 0) : Type 0 where
  pub system : System X
  pub admin : HostAdmin H
  pub json : GatewayJson X
  pub config : GatewayConfig
  pub others : Inner X → Inner X

-- A handler of a command, which may return early with an error.
abbrev pub G : Externals → Type 0 → Type 0 → Type 0
G X H A = Exec (Shared X H) ProtocolError A

module _ {X : Externals} {H : Type 0} where
  -- A method of the manager, its error mapped.
  unfoldable pub on_manager : {A : Type 0} → (SessionError → ProtocolError) → M X A → G X H A
  on_manager f m w = (map_err f (m w.sessions).0, record w { sessions = (m w.sessions).1 })

  unfoldable pub reading : {A : Type 0} → (Inner X → A) → G X H A
  reading f = gets λ w. f w.sessions

  -- A call of the host, its error kept.
  unfoldable pub on_host : {A : Type 0} → (H → Result A ProtocolError × H) → G X H A
  on_host f w = ((f w.host).0, record w { host = (f w.host).1 })

  unfoldable pub asking_host : {A : Type 0} → (H → A × H) → G X H A
  asking_host f w = (ok (f w.host).0, record w { host = (f w.host).1 })

  -- Between two locks.
  unfoldable pub meanwhile : (Inner X → Inner X) → G X H (Unit {0})
  meanwhile others = modify λ w. record w { sessions = others w.sessions }

  unfoldable pub on_connection : (ConnState X → ConnState X) → G X H (Unit {0})
  on_connection f = modify λ w. record w { connection = f w.connection }

  abbrev pub push : Frame X → Shared X H → Shared X H
  push frame w = record w { outbound = w.outbound ++ frame ∷ [] }
