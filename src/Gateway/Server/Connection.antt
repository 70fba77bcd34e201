-- ===== src/Gateway/Server/Connection.antt =====
-- rust/gateway-server/src/server.rs: the loop of `handle_connection`, from the accepted socket on,
-- and rust/gateway-server/src/transport.rs: the errors of a socket.
pub mod Served
pub mod Outbound
pub mod Stream
use slight.Base.{
  ℕ, zero, suc, ◌-◌, leb, ltb, String, List, [], ◌∷◌, ◌++◌, Option, none, some, Bool, true, false,
  length, drop, unwrap_or, if◌then◌else◌,
}
use slight.Base.HashMap.{HashMap, get}
use slight.Base.Exec.{Result, ok, err}
use slight.Acp.External.{Externals}
use slight.Types.Event.{SequencedEvent}
use slight.Manager.State.{Inner}
use slight.Gateway.Protocol.Frames.{Frame, protocol_version}
use slight.Gateway.Protocol.Events.{gateway_event}
use slight.Gateway.Server.State.{Gateway, Receiver, ConnState, Shared, new_connection, push}
use slight.Gateway.Server.Process.{dispatch_incoming}

-- `io::ErrorKind`, as far as it is told apart.
pub data ErrorKind : Type 0 where
  would_block timed_out interrupted other_kind : ErrorKind

-- `tungstenite::Error`, likewise.
pub data SocketError : Type 0 where
  io : ErrorKind → SocketError
  connection_closed already_closed other_error : SocketError

unfoldable pub is_would_block : SocketError → Bool
is_would_block (io ErrorKind.would_block) = true
is_would_block (io ErrorKind.timed_out) = true
is_would_block (io ErrorKind.interrupted) = true
is_would_block (io ErrorKind.other_kind) = false
is_would_block SocketError.connection_closed = false
is_would_block SocketError.already_closed = false
is_would_block SocketError.other_error = false

-- `tungstenite::Message`: ping, pong and raw frames are `control`.
pub data Message : Type 0 where
  text binary : List ℕ → Message
  control close : Message

-- A socket of the library, over its state.
pub record Socket (K : Type 0) : Type 0 where
  pub read : K → Result Message SocketError × K
  pub write : K → String → Result (Unit {0}) SocketError × K
  pub flush : K → Result (Unit {0}) SocketError × K

-- How far the writing of the queue came, and the messages that were passed to `Socket.write`.
pub data Progress : Type 0 where
  drained blocked failed : Progress

pub record Written (X : Externals) (K : Type 0) : Type 0 where
  pub written : List String
  pub left : List (Frame X)
  pub progress : Progress
  pub socket : K

-- What the loop of one connection works on; `written` is every message passed to its `write`.
pub record Loop (X : Externals) (H K : Type 0) : Type 0 where
  pub shared : Shared X H
  pub socket : K
  pub last_heartbeat : ℕ
  pub written : List String

-- What one turn of the loop finds: the shutdown flag, the clock when the heartbeat is checked and
-- when it is reset, a random id, and what other threads did to the manager since the last turn.
pub record Turn (X : Externals) : Type 0 where
  pub shutdown : Bool
  pub checked : ℕ
  pub reset : ℕ
  pub nonce : String
  pub others : Inner X → Inner X

module _ {X : Externals} where
  -- A channel that is not there is an empty one.
  unfoldable pub channel_at : ℕ → List (List (SequencedEvent X)) → List (SequencedEvent X)
  channel_at n [] = []
  channel_at zero (channel ∷ channels) = channel
  channel_at (suc n) (channel ∷ channels) = channel_at n channels

  unfoldable pub channel_of : Inner X → String → Receiver → List (SequencedEvent X)
  unfolding channel_at
  channel_of i id r = channel_at r.place (unwrap_or (get i.subscribers id) [])

  -- What `try_recv` gives until it fails.
  unfoldable pub unread : Inner X → String → Receiver → List (SequencedEvent X)
  unfolding channel_of
  unread i id r = drop r.received (channel_of i id r)

  unfoldable pub receive_all : Inner X → String → Receiver → Receiver
  unfolding channel_of
  receive_all i id r = record r { received = length (channel_of i id r) }

module _ {X : Externals} {H : Type 0} (g : Gateway X H) where
  unfoldable pub event_frames : String → List (SequencedEvent X) → List (Frame X)
  event_frames id [] = []
  event_frames id (e ∷ es) = Frame.event (gateway_event g.json.payload id e) ∷ event_frames id es

  -- Over the subscriptions, in the order of the iteration.
  unfoldable pub receive :
      Inner X → List (String × Receiver) → List (Frame X) × List (String × Receiver)
  unfolding event_frames unread receive_all
  receive i [] = ([], [])
  receive i ((id, r) ∷ rest) =
      let (frames, later) = receive i rest in
      (event_frames id (unread i id r) ++ frames, (id, receive_all i id r) ∷ later)

  unfoldable pub drain : Shared X H → Shared X H
  unfolding receive
  drain w =
      let (frames, subscriptions) = receive w.sessions w.connection.subscriptions.entries in
      record w {
        connection = record w.connection { subscriptions = record { entries = subscriptions } };
        outbound = w.outbound ++ frames;
      }

  -- `.filter(|interval| *interval > 0)`
  unfoldable pub heartbeat_interval : Option ℕ
  heartbeat_interval = elim g.config.heartbeat_interval_ms [
    | none ↦ none
    | some interval ↦ if ltb 0 interval then some interval else none
  ]

module _ {X : Externals} {H K : Type 0} (g : Gateway X H) where
  unfoldable pub beat : Turn X → ℕ → Loop X H K → Loop X H K
  beat turn interval l =
      if leb interval (turn.checked - l.last_heartbeat)
      then record l {
        last_heartbeat = turn.reset;
        shared =
            push (Frame.ping (record { protocol_version = protocol_version; nonce = turn.nonce }))
              l.shared;
      }
      else l

  unfoldable pub heartbeat : Turn X → Loop X H K → Loop X H K
  unfolding heartbeat_interval beat
  heartbeat turn l = elim (heartbeat_interval g) [ none ↦ l | some interval ↦ beat turn interval l ]

  module _ (s : Socket K) where
    -- `while let Some(frame) = outbound.pop_front() { … }`: a frame that cannot be encoded is
    -- dropped, and one that would block goes back to the front, although it was passed to the socket.
    unfoldable pub write_all : List (Frame X) → K → Written X K
    write_all [] k = record { written = []; left = []; progress = drained; socket = k }
    write_all (frame ∷ rest) k = elim (g.json.encode_frame frame) [
      | err _ ↦ write_all rest k
      | ok message ↦ elim (s.write k message).0 [
        | ok _ ↦
            let later = write_all rest (s.write k message).1 in
            record later { written = message ∷ later.written }
        | err e ↦
            if is_would_block e
            then record {
              written = message ∷ [];
              left = frame ∷ rest;
              progress = blocked;
              socket = (s.write k message).1;
            }
            else record {
              written = message ∷ [];
              left = rest;
              progress = failed;
              socket = (s.write k message).1;
            }
      ]
    ]

    -- `socket.flush()`, which a blocked queue does not reach.
    unfoldable pub flush_after : Written X K → Progress × K
    flush_after v = elim v.progress [
      | blocked ↦ (blocked, v.socket)
      | p ↦ elim (s.flush v.socket).0 [
        | ok _ ↦ (p, (s.flush v.socket).1)
        | err e ↦ (
          if is_would_block e then elim p [ failed ↦ failed | _ ↦ blocked ] else failed,
          (s.flush v.socket).1,
        )
      ]
    ]

    -- The queue is written and flushed; false where the connection ends.
    unfoldable pub write_queue : Loop X H K → Bool × Loop X H K
    unfolding write_all flush_after
    write_queue l =
        let v = write_all l.shared.outbound l.socket in
        let (p, k) = flush_after v in
        (
          elim p [ failed ↦ false | _ ↦ true ],
          record l {
            shared = record l.shared { outbound = v.left };
            socket = k;
            written = l.written ++ v.written;
          },
        )

    -- What follows a read; false where the loop breaks.
    unfoldable pub take_message : Result Message SocketError → Shared X H → Bool × Shared X H
    take_message (ok (Message.text payload)) w = (true, dispatch_incoming g payload w)
    take_message (ok (Message.binary payload)) w = (true, dispatch_incoming g payload w)
    take_message (ok Message.control) w = (true, w)
    take_message (ok Message.close) w = (false, w)
    take_message (err e) w = (is_would_block e, w)

    -- The rest of a turn, after its read.
    unfoldable pub serve : Turn X → Loop X H K → Bool × Loop X H K
    unfolding drain heartbeat write_queue
    serve turn l = write_queue (heartbeat turn (record l { shared = drain g l.shared }))

    unfoldable pub turn_of : Turn X → Loop X H K → Bool × Loop X H K
    unfolding take_message serve
    turn_of turn l =
        if turn.shutdown
        then (false, l)
        else (let w = record l.shared { sessions = turn.others l.shared.sessions } in
            let (going, w') = take_message (s.read l.socket).0 w in
            let l' = record l { shared = w'; socket = (s.read l.socket).1 } in
            if going then serve turn l' else (false, l'))

    -- The loop, over the turns it takes at most.
    unfoldable pub turns : List (Turn X) → Loop X H K → Bool × Loop X H K
    unfolding turn_of
    turns [] l = (true, l)
    turns (turn ∷ rest) l = elim (turn_of turn l).0 [
      | false ↦ (false, (turn_of turn l).1)
      | true ↦ turns rest (turn_of turn l).1
    ]
