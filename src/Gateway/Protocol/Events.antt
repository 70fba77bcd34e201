-- ===== src/Gateway/Protocol/Events.antt =====
-- rust/gateway-protocol/src/events.rs: the events that clients receive.
use slight.Base.{ℕ, String, none, some}
use slight.Acp.External.{Externals}
use slight.Types.Event.{SequencedEvent, SessionEvent, name}
use slight.Gateway.Protocol.Frames.{protocol_version, GatewayEvent}
use slight.Gateway.Protocol.Time.{rfc3339_from_ms}

module _ {X : Externals} where
  -- `payload` is `SessionEvent::payload`, the serialized payload of an event.
  unfoldable pub gateway_event :
      (SessionEvent X → X.Value) → String → SequencedEvent X → GatewayEvent X
  gateway_event payload session_id sequenced = record {
    protocol_version = protocol_version;
    session_id = session_id;
    sequence = sequenced.sequence;
    event = name sequenced.event;
    at = some (rfc3339_from_ms sequenced.timestamp_ms);
    payload = some (payload sequenced.event);
  }

  -- `latest` is the value `{ "latest_sequence": … }`.
  pub replay_complete : (ℕ → X.Value) → String → ℕ → GatewayEvent X
  replay_complete latest session_id latest_sequence = record {
    protocol_version = protocol_version;
    session_id = session_id;
    sequence = latest_sequence;
    event = "replay.complete";
    at = none;
    payload = some (latest latest_sequence);
  }
