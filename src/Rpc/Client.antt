-- ===== src/Rpc/Client.antt =====
-- rust/acp-types/src/client.rs: `AcpClient`. The input is what the agent will have written, the
-- output what was written to it.
pub mod Exchange
pub mod Receiving
pub mod Waiting
pub mod Deferred
use slight.Base.{
  ℕ, zero, suc, ◌+◌, ◌%◌, ◌^◌, eqb, String, List, [], ◌∷◌, ◌++◌, Option, none, some, Bool, true,
  false, ◌||◌, length, if◌then◌else◌,
}
use slight.Base.Text.{◌==◌}
use slight.Base.Exec.{Result, ok, err, Exec, map_err, pure, raise, lift, gets, modify, ◌>>=◌, ◌>>◌}
use slight.Rpc.Wire.{
  Peer, Codec, RequestId, WireError, Outgoing, AgentToClientRequest, AgentToClientNotification,
  AcpMessage, encode_line,
}
use slight.Rpc.Transport.{recv_inbound, write_encoded}

pub data ClientError (P : Peer) : Type 0 where
  wire : WireError → ClientError P
  protocol : P.Error → ClientError P
  closed not_initialized out_of_fuel : ClientError P
  unknown_session unsupported_capability decode : String → ClientError P
  unsupported_protocol : ℕ → ClientError P
  unknown_deferred_request : RequestId → ClientError P

pub data HandlerOutcome (P : Peer) : Type 0 where
  respond : Result P.Value P.Error → HandlerOutcome P
  defer : HandlerOutcome P

-- The trait, over the handler's state.
pub record ClientHandler (P : Peer) (S : Type 0) : Type 0 where
  pub handle_request : S → RequestId → AgentToClientRequest P → HandlerOutcome P × S
  pub handle_notification : S → AgentToClientNotification P → S

-- The capabilities that are asked for, and the responses of the schema that the client reads.
pub record AgentCapabilities : Type 0 where
  pub load_session : Bool
  pub resume : Bool
  pub list : Bool

pub record InitializeResponse : Type 0 where
  pub protocol_version : ℕ
  pub agent_capabilities : AgentCapabilities

-- serde_json at the requests and responses; a writer that may fail, over what it has written; the
-- names of the methods.
pub record Schema (P : Peer) : Type 1 where
  pub Response : Type 0
  pub write_all : List ℕ → List ℕ → Option String
  pub initialize : P.Value → Result InitializeResponse String
  pub new_session : P.Value → Result (String × Response) String
  pub response : P.Value → Result Response String
  pub initialize_params : P.Value
  pub new_params : String → P.Value
  pub bound_params : String → String → P.Value
  pub option_params : String → String → String → P.Value
  pub prompt_params : String → String → P.Value
  pub cancel_params : String → P.Value
  pub method : String → String

pub record AcpClient (P : Peer) (S : Type 0) : Type 0 where
  pub input : List ℕ
  pub output : List ℕ
  pub handler : S
  pub next_id : ℕ
  pub initialized : Bool
  pub agent_capabilities : Option AgentCapabilities
  pub sessions : List String
  pub notifications : List (AgentToClientNotification P)
  pub deferred : List RequestId
  pub orphan_responses : List (RequestId × Result P.Value P.Error)

abbrev pub I : Peer → Type 0 → Type 0 → Type 0
I P S A = Exec (AcpClient P S) (ClientError P) A

unfoldable pub same_id : RequestId → RequestId → Bool
same_id RequestId.null RequestId.null = true
same_id RequestId.null (RequestId.number _) = false
same_id RequestId.null (RequestId.str _) = false
same_id (RequestId.number m) (RequestId.number n) = eqb m n
same_id (RequestId.number m) RequestId.null = false
same_id (RequestId.number m) (RequestId.str _) = false
same_id (RequestId.str s) (RequestId.str t) = s == t
same_id (RequestId.str s) RequestId.null = false
same_id (RequestId.str s) (RequestId.number _) = false

-- `HashSet` as a list without repetitions: `contains`, `insert`, `remove`.
unfoldable pub holds_id : RequestId → List RequestId → Bool
holds_id id [] = false
holds_id id (i ∷ ids) = same_id i id || holds_id id ids

unfoldable pub insert_id : RequestId → List RequestId → List RequestId
unfolding holds_id
insert_id id ids = if holds_id id ids then ids else ids ++ id ∷ []

unfoldable pub remove_id : RequestId → List RequestId → List RequestId
remove_id id [] = []
remove_id id (i ∷ ids) = let rest = remove_id id ids in if same_id i id then rest else i ∷ rest

module _ {P : Peer} {S : Type 0} where
  -- `next_id += 1`, on the bits of an `i64`.
  unfoldable pub next_request_id : I P S RequestId
  next_request_id c =
      let n = (c.next_id + 1) % 2 ^ 64 in (ok (RequestId.number n), record c { next_id = n })

  unfoldable pub ensure_initialized : I P S (Unit {0})
  ensure_initialized c = (if c.initialized then ok tt else err not_initialized, c)

  unfoldable pub supports : (AgentCapabilities → Bool) → AcpClient P S → Bool
  supports f c = elim c.agent_capabilities [ none ↦ false | some a ↦ f a ]

  unfoldable pub ensure_supported : (AgentCapabilities → Bool) → String → I P S (Unit {0})
  unfolding supports
  ensure_supported f name c = (if supports f c then ok tt else err (unsupported_capability name), c)

  unfoldable pub take_deferred : RequestId → I P S (Unit {0})
  unfolding holds_id remove_id
  take_deferred id c =
      if holds_id id c.deferred
      then (ok tt, record c { deferred = remove_id id c.deferred })
      else (err (unknown_deferred_request id), c)

  unfoldable pub take_notifications :
      AcpClient P S → List (AgentToClientNotification P) × AcpClient P S
  take_notifications c = (c.notifications, record c { notifications = [] })

  unfoldable pub orphan : RequestId → Result P.Value P.Error → AcpClient P S → AcpClient P S
  orphan id outcome c = record c { orphan_responses = c.orphan_responses ++ (id, outcome) ∷ [] }

module _ {P : Peer} {S : Type 0} (C : Codec P) (M : Schema P) (H : ClientHandler P S) where
  -- `transport.send_raw`
  unfoldable pub send_raw : List ℕ → I P S (Unit {0})
  send_raw frame c = elim (M.write_all c.output (write_encoded frame)) [
    | some text ↦ (err (wire (WireError.io text)), c)
    | none ↦ (ok tt, record c { output = c.output ++ write_encoded frame })
  ]

  -- An encoder of `wire`, and `send_raw`.
  unfoldable pub send : Outgoing P → I P S (Unit {0})
  send message = do frame ← lift (map_err wire (encode_line C message)); send_raw frame

  unfoldable pub defer_id : RequestId → I P S (Unit {0})
  unfolding insert_id
  defer_id id c = (ok tt, record c { deferred = insert_id id c.deferred })

  unfoldable pub handled : RequestId → HandlerOutcome P → I P S (Unit {0})
  unfolding send defer_id
  handled id (respond (ok value)) = send (Outgoing.result id value)
  handled id (respond (err error)) = send (Outgoing.error id error)
  handled id defer = defer_id id

  -- What a message makes the client do.
  unfoldable pub service : AcpMessage P → I P S (Unit {0})
  unfolding handled
  service (AcpMessage.request id request) c =
      let (outcome, h) = H.handle_request c.handler id request in
      handled id outcome (record c { handler = h })
  service (AcpMessage.notification n) c = (
    ok tt,
    record c {
      handler = H.handle_notification c.handler n;
      notifications = c.notifications ++ n ∷ [];
    },
  )
  service (AcpMessage.response id outcome) c = (ok tt, c)

  unfoldable pub received : Option (AcpMessage P) → I P S (Option (AcpMessage P))
  unfolding service
  received none c = (ok none, c)
  received (some message) c = (service message >> pure (some message)) c

  unfoldable pub next_message : I P S (Option (AcpMessage P))
  unfolding received
  next_message c = elim (recv_inbound C c.input) [
    | none ↦ (err out_of_fuel, c)
    | some (err e, rest) ↦ (err (wire e), record c { input = rest })
    | some (ok message, rest) ↦ received message (record c { input = rest })
  ]

  -- The loop: each message takes a byte of the input at least.
  unfoldable pub wait_on : ℕ → RequestId → I P S P.Value
  unfolding orphan
  wait_on zero id c = (err out_of_fuel, c)
  wait_on (suc fuel) id c = elim (next_message c).0 [
    | err e ↦ (err e, (next_message c).1)
    | ok none ↦ (err closed, (next_message c).1)
    | ok (some (AcpMessage.response got outcome)) ↦
        let later = wait_on fuel id (orphan got outcome (next_message c).1) in
        if same_id got id then (map_err protocol outcome, (next_message c).1) else later
    | ok (some (AcpMessage.request _ _)) ↦ wait_on fuel id (next_message c).1
    | ok (some (AcpMessage.notification _)) ↦ wait_on fuel id (next_message c).1
  ]

  unfoldable pub wait_for_response : RequestId → I P S P.Value
  unfolding wait_on
  wait_for_response id c = wait_on (suc (length c.input)) id c

  unfoldable pub request : {A : Type 0} → (P.Value → Result A String) → String → P.Value → I P S A
  unfolding send wait_for_response
  request read method params = do
    id ← next_request_id
    send (Outgoing.request id method params)
    value ← wait_for_response id
    lift (map_err decode (read value))
