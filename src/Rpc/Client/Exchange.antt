-- ===== src/Rpc/Client/Exchange.antt =====
-- rust/acp-types/src/client.rs: what waiting for a response takes from the agent, message by message.
use slight.Base.{none, some, true, false, ◌≡◌}
use slight.Base.Exec.{Result, ok, err, map_err}
use slight.Rpc.Wire.{
  Peer, Codec, RequestId, AcpMessage, AgentToClientRequest, AgentToClientNotification,
}
use slight.Rpc.Client.{
  ClientError, ClientHandler, Schema, AcpClient, protocol, same_id, next_message, orphan,
}
use slight.Rpc.Client.Receiving.{has_fuel}

module _ {P : Peer} {S : Type 0} (C : Codec P) (M : Schema P) (H : ClientHandler P S) where
  -- A finite exchange that ends with an answer, with the end of the input or with an error of the
  -- program. It has no fuel.
  pub data Exchange (id : RequestId)
      : AcpClient P S → Result P.Value (ClientError P) × AcpClient P S → Type 0 where
    broken :
        (c : AcpClient P S) (e : ClientError P)
        → (next_message C M H c).0 ≡ err e
        → has_fuel e ≡ true
        → Exchange id c (err e, (next_message C M H c).1)
    ended :
        (c : AcpClient P S)
        → (next_message C M H c).0 ≡ ok none
        → Exchange id c (err ClientError.closed, (next_message C M H c).1)
    answered :
        (c : AcpClient P S) (got : RequestId) (outcome : Result P.Value P.Error)
        → (next_message C M H c).0 ≡ ok (some (AcpMessage.response got outcome))
        → same_id got id ≡ true
        → Exchange id c (map_err protocol outcome, (next_message C M H c).1)
    -- The answer to another request is kept.
    other_answered :
        (c : AcpClient P S) (got : RequestId) (outcome : Result P.Value P.Error)
        (r : Result P.Value (ClientError P) × AcpClient P S)
        → (next_message C M H c).0 ≡ ok (some (AcpMessage.response got outcome))
        → same_id got id ≡ false
        → Exchange id (orphan got outcome (next_message C M H c).1) r
        → Exchange id c r
    -- The agent's own requests and notifications are served meanwhile.
    requested :
        (c : AcpClient P S) (asked : RequestId) (request : AgentToClientRequest P)
        (r : Result P.Value (ClientError P) × AcpClient P S)
        → (next_message C M H c).0 ≡ ok (some (AcpMessage.request asked request))
        → Exchange id (next_message C M H c).1 r
        → Exchange id c r
    notified :
        (c : AcpClient P S) (n : AgentToClientNotification P)
        (r : Result P.Value (ClientError P) × AcpClient P S)
        → (next_message C M H c).0 ≡ ok (some (AcpMessage.notification n))
        → Exchange id (next_message C M H c).1 r
        → Exchange id c r
