-- ===== src/Gateway/Protocol/Errors.antt =====
-- rust/gateway-protocol/src/lib.rs: protocol errors, their codes and their wire forms.
use slight.Base.{ℕ, String, Option, Bool, true, false}
use slight.Base.Text.{◌++◌, decimal}
use slight.Gateway.Protocol.Frames.{protocol_version, GatewayErrorBody, GatewayProtocolError}

pub data ProtocolError : Type 0 where
  malformed_frame : String → ProtocolError
  -- requested, supported
  invalid_version : ℕ → ℕ → ProtocolError
  unauthenticated unauthorized unknown_session unsupported_capability : String → ProtocolError
  resync_required unsupported_command invalid_params invalid_frame internal : String → ProtocolError

unfoldable pub error_code : ProtocolError → String
error_code (malformed_frame _) = "malformed_frame"
error_code (invalid_version _ _) = "invalid_version"
error_code (unauthenticated _) = "unauthenticated"
error_code (unauthorized _) = "unauthorized"
error_code (unknown_session _) = "unknown_session"
error_code (unsupported_capability _) = "unsupported_capability"
error_code (resync_required _) = "resync_required"
error_code (unsupported_command _) = "unsupported"
error_code (invalid_params _) = "invalid_params"
error_code (invalid_frame _) = "invalid_command"
error_code (internal _) = "internal"

-- The `Display` of an error.
unfoldable pub error_message : ProtocolError → String
error_message (malformed_frame s) = "malformed frame: " ++ s
error_message (invalid_version requested supported) =
    "unsupported protocol version "
    ++ (decimal requested ++ ("; supported version is " ++ decimal supported))
error_message (unauthenticated s) = "authentication failed: " ++ s
error_message (unauthorized s) = "not authorized: " ++ s
error_message (unknown_session s) = "unknown session: " ++ s
error_message (unsupported_capability s) = "agent does not support " ++ s
error_message (resync_required s) = "resync required: " ++ s
error_message (unsupported_command s) = "unsupported command: " ++ s
error_message (invalid_params s) = "invalid params: " ++ s
error_message (invalid_frame s) = "invalid frame: " ++ s
error_message (internal s) = "internal error: " ++ s

unfoldable pub error_retryable : ProtocolError → Bool
error_retryable (internal _) = true
error_retryable _ = false

unfoldable pub error_body : ProtocolError → GatewayErrorBody
error_body e = record {
  code = error_code e;
  message = error_message e;
  retryable = error_retryable e;
}

unfoldable pub to_wire : ProtocolError → Option String → GatewayProtocolError
to_wire e request_id = record {
  protocol_version = protocol_version;
  code = error_code e;
  message = error_message e;
  request_id = request_id;
  retryable = error_retryable e;
}
