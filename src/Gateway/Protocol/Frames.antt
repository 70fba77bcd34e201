-- ===== src/Gateway/Protocol/Frames.antt =====
-- rust/gateway-protocol/src/frames.rs: the frames. Numbers are `u32`, `u64` and `usize`.
use slight.Base.{ℕ, String, Option, none, some, Bool, true, false}
use slight.Acp.External.{Externals}

abbrev pub protocol_version : ℕ
protocol_version = 1

pub record ResumeRequest : Type 0 where
  pub session_id : Option String
  pub last_event_sequence : Option ℕ

pub record ClientHello : Type 0 where
  pub protocol_version : ℕ
  pub client_id : String
  pub client_name : String
  pub client_version : String
  pub device_id : Option String
  pub credential : Option String
  pub resume : Option ResumeRequest

pub record ServerCapabilities : Type 0 where
  pub supports_replay : Bool
  pub max_replay_events : Option ℕ
  pub max_event_journal : Option ℕ
  pub supports_raw_acp : Bool
  pub permission_options : Bool
  pub host_admin : Bool

-- `ServerCapabilities::default()`.
abbrev pub default_capabilities : ServerCapabilities
default_capabilities = record {
  supports_replay = true;
  max_replay_events = none;
  max_event_journal = none;
  supports_raw_acp = false;
  permission_options = true;
  host_admin = true;
}

pub record ServerWelcome : Type 0 where
  pub protocol_version : ℕ
  pub connection_id : String
  pub server_name : String
  pub server_version : String
  pub host_id : Option String
  pub capabilities : ServerCapabilities
  pub heartbeat_interval_ms : Option ℕ
  pub resync_required : Bool
  pub resync_reason : Option String

pub record GatewayCommand (X : Externals) : Type 0 where
  pub protocol_version : ℕ
  pub request_id : String
  pub command : String
  pub session_id : Option String
  pub params : Option X.Value

pub record GatewayErrorBody : Type 0 where
  pub code : String
  pub message : String
  pub retryable : Bool

pub record GatewayAck (X : Externals) : Type 0 where
  pub protocol_version : ℕ
  pub request_id : String
  pub ok : Bool
  pub result : Option X.Value
  pub error : Option GatewayErrorBody

pub record GatewayEvent (X : Externals) : Type 0 where
  pub protocol_version : ℕ
  pub session_id : String
  pub sequence : ℕ
  pub event : String
  pub at : Option String
  pub payload : Option X.Value

pub record PingFrame : Type 0 where
  pub protocol_version : ℕ
  pub nonce : String

pub record PongFrame : Type 0 where
  pub protocol_version : ℕ
  pub nonce : String

pub record ResyncRequired : Type 0 where
  pub protocol_version : ℕ
  pub reason : String
  pub session_id : Option String
  pub oldest_available_sequence : Option ℕ

pub record GatewayProtocolError : Type 0 where
  pub protocol_version : ℕ
  pub code : String
  pub message : String
  pub request_id : Option String
  pub retryable : Bool

pub data Frame (X : Externals) : Type 0 where
  hello : ClientHello → Frame X
  welcome : ServerWelcome → Frame X
  command : GatewayCommand X → Frame X
  ack : GatewayAck X → Frame X
  event : GatewayEvent X → Frame X
  ping : PingFrame → Frame X
  pong : PongFrame → Frame X
  resync_required : ResyncRequired → Frame X
  error : GatewayProtocolError → Frame X

unfoldable pub frame_type : {X : Externals} → Frame X → String
frame_type (hello _) = "hello"
frame_type (welcome _) = "welcome"
frame_type (command _) = "command"
frame_type (ack _) = "ack"
frame_type (event _) = "event"
frame_type (ping _) = "ping"
frame_type (pong _) = "pong"
frame_type (resync_required _) = "resync_required"
frame_type (error _) = "error"

module _ {X : Externals} where
  -- `GatewayAck::ok`, with the serialized result.
  unfoldable pub ack_of_value : String → Option X.Value → GatewayAck X
  ack_of_value request_id value = record {
    protocol_version = protocol_version;
    request_id = request_id;
    ok = true;
    result = value;
    error = none;
  }

  -- `GatewayAck::unit`, where `null` is `Value::Null`.
  unfoldable pub ack_unit : X.Value → String → GatewayAck X
  ack_unit null request_id = record {
    protocol_version = protocol_version;
    request_id = request_id;
    ok = true;
    result = some null;
    error = none;
  }

  -- `GatewayAck::error`
  unfoldable pub ack_of_error : String → GatewayErrorBody → GatewayAck X
  ack_of_error request_id body = record {
    protocol_version = protocol_version;
    request_id = request_id;
    ok = false;
    result = none;
    error = some body;
  }
