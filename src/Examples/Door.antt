-- ===== src/Examples/Door.antt =====
-- The theorems about the gateway, at a connection to a manager with one session.
use slight.Base.{
  ◌⊎◌, ℕ, zero, suc, ◌↔◌, ◌≡◌, refl, String, List, [], ◌∷◌, ◌++◌, none, some, true, false, arith,
}
use slight.Base.HashMap.{empty, insert, get}
use slight.Base.Exec.{Result, ok, err}
use slight.Types.Payload.{SessionStatus}
use slight.Manager.State.{Inner}
use slight.Manager.Steps.{append}
use slight.Manager.Steps.Append.{stamped}
use slight.Manager.Turns.{status_event}
use slight.Manager.Invariant.{Inv}
use slight.Gateway.Protocol.Frames
use slight.Gateway.Protocol.Frames.{Frame, GatewayCommand, default_capabilities}
use slight.Gateway.Protocol.Errors.{ProtocolError, internal}
use slight.Gateway.Protocol.Results.{HostStatusResult, HostDiagnosticsResult, HostRunState}
use slight.Gateway.Server.Auth.{
  AuthContext, has, authorize, read_sessions, manage_host, required_scope, command_scope, holds,
  same_scope, authorize,
}
use slight.Gateway.Server.Scopes.{documented_scope, authorize-documented_scope}
use slight.Gateway.Protocol.Commands.{CommandName, parse_name, wire_name}
use slight.Gateway.Server.State.{
  Gateway, HostAdmin, GatewayJson, Receiver, Shared, new_connection, push,
}
use slight.Gateway.Server.Process.{process_command, process_frame}
use slight.Gateway.Server.Cache.{Acknowledges, IsCache}
use slight.Gateway.Server.Replies.{IsServed, Replies, process_frame-Replies}
use slight.Gateway.Server.Gates.{
  touched, beyond_queue, any_hello, is_hello, process_all, process_command_once,
  process_command_unauthorized, process_all_before_hello,
}
use slight.Gateway.Server.Connection.{
  Message, SocketError, ErrorKind, channel_at, Socket, Loop, Turn, turns, write_all, unread,
  event_frames, drain, channel_of,
}
use slight.Gateway.Server.Connection.Served.{
  Inv-IsKept, EachKeeps, IsCache-new_connection, turns-IsServed,
}
use slight.Gateway.Server.Connection.Outbound.{Accounts, write_all-Accounts}
use slight.Gateway.Server.Connection.Stream.{IsOpen, drain-append}
use slight.Examples.World.{world, system, Doc, null}
use slight.Examples.Sessions.{manager, manager_get, manager-Inv, one}

abbrev status : HostStatusResult
status = record {
  state = HostRunState.running;
  host_name = "host";
  server_id = "h";
  server_version = "1";
  protocol_version = 1;
  listener = none;
  session_count = 1;
  active_session_count = 1;
  paired_device_count = 0;
  uptime_ms = 5;
  supported_agents = [];
  agent_catalog = [];
}

abbrev diagnostics : HostDiagnosticsResult
diagnostics = record {
  server_version = "1";
  protocol_version = 1;
  log_level = "info";
  sessions = [];
  recent_logs = [];
  capabilities = default_capabilities;
}

abbrev refuse : {A : Type 0} → ℕ → Result A ProtocolError × ℕ
refuse n = (err (internal "no"), n)

-- A host that counts the hellos; a device may read.
abbrev admin : HostAdmin ℕ
admin = record {
  authenticate = λ n hello.
      (ok (record { device_id = "d"; device_label = "d"; scopes = read_sessions ∷ [] }), suc n);
  status = λ n. (status, n);
  diagnostics = λ n. (diagnostics, n);
  request_start = refuse;
  request_stop = refuse;
  request_restart = refuse;
  begin_pairing = λ n label. refuse n;
  list_pairings = refuse;
  list_devices = refuse;
  revoke_device = λ n id. refuse n;
}

abbrev listing : GatewayCommand world
listing = record {
  protocol_version = 1;
  request_id = "r1";
  command = "session.list";
  session_id = none;
  params = none;
}

abbrev undecoded : {T : Type 0} → Doc → Result T String
undecoded v = err "no such field"

abbrev json : GatewayJson world
json = record {
  result_to_value = λ r. some null;
  payload = λ e. null;
  permission_to_value = λ p. some null;
  from_utf8 = λ bytes. ok "text";
  encode_frame = λ f. ok (Frames.frame_type f);
  decode_frame = λ text. ok (Frame.command listing);
  create_session = undecoded;
  attach_session = undecoded;
  session_history = undecoded;
  agent_sessions_list = undecoded;
  import_agent_session = undecoded;
  send_input = undecoded;
  rename_session = undecoded;
  archive_session = undecoded;
  set_session_mode = undecoded;
  set_session_config_option = undecoded;
  respond_permission = undecoded;
  begin_pairing = undecoded;
  revoke_device = undecoded;
}

abbrev gate : Gateway world ℕ
gate = record {
  system = system;
  admin = admin;
  json = json;
  config = record {
    server_name = "slight";
    server_version = "1";
    host_id = "h";
    capabilities = default_capabilities;
    heartbeat_interval_ms = some 1000;
  };
  others = λ i. i;
}

abbrev reader : AuthContext
reader = record { device_id = "d"; device_label = "d"; scopes = read_sessions ∷ [] }

abbrev closed : Shared world ℕ
closed = record { sessions = manager; host = 0; connection = new_connection; outbound = [] }

abbrev let_in : Shared world ℕ
let_in = record closed {
  connection = record new_connection { welcome_sent = true; authed = some reader };
}

let_in-IsCache : IsCache let_in.connection
let_in-IsCache =
    let v = IsCache-new_connection {X = world} in
    record { bounded = v.bounded; listed = v.listed; once = v.once; acks = v.acks }

let_in-IsServed : IsServed Inv let_in
let_in-IsServed = record { sound = manager-Inv; cached = let_in-IsCache }

-- A socket whose peer sends commands and takes one message.
abbrev write_once : ℕ → Result (Unit {0}) SocketError × ℕ
write_once zero = (ok tt, 1)
write_once (suc n) = (err (SocketError.io ErrorKind.would_block), suc n)

abbrev socket : Socket ℕ
socket = record {
  read = λ k. (ok (Message.text []), k);
  write = λ k message. write_once k;
  flush = λ k. (ok tt, k);
}

abbrev turn : Turn world
turn = record { shutdown = false; checked = 0; reset = 0; nonce = "n"; others = λ i. i }

abbrev start : Loop world ℕ ℕ
start = record { shared = let_in; socket = 0; last_heartbeat = 0; written = [] }

untouched : (i : Inner world) → Inv i → Inv i
untouched i v = v

turns-IsServed_example : IsServed Inv (turns gate socket (turn ∷ turn ∷ []) start).1.shared
unfolding EachKeeps
turns-IsServed_example =
    turns-IsServed gate Inv socket (Inv-IsKept gate untouched) (turn ∷ turn ∷ []) start
      (untouched, (untouched, tt)) let_in-IsServed

process_frame-Replies_example :
    let frame = Frame.command listing in
    let w' = process_frame gate frame let_in in
    IsServed Inv w' × Replies frame let_in.outbound w'.outbound
process_frame-Replies_example =
    process_frame-Replies gate Inv (Inv-IsKept gate untouched) (Frame.command listing) let_in
      let_in-IsServed

abbrev again : GatewayCommand world
again = record listing { command = "session.cancel" }

process_command_once_example :
    let w' = process_command gate listing let_in in
    (r : Frame world) × (w'.outbound ≡ let_in.outbound ++ r ∷ [])
    × Acknowledges "r1" r
    × (process_command gate again w' ≡ push r w')
process_command_once_example =
    process_command_once gate listing again let_in refl let_in-IsCache refl

abbrev restart : GatewayCommand world
restart = record listing { command = "host.restart" }

process_command_unauthorized_example :
    touched (process_command gate restart let_in) ≡ touched let_in
unfolding required_scope parse_name command_scope holds same_scope
process_command_unauthorized_example =
    process_command_unauthorized gate restart reader manage_host let_in let_in-IsCache refl refl
      refl

process_all_before_hello_example :
    beyond_queue (process_all gate (Frame.command listing ∷ Frame.command restart ∷ []) closed)
    ≡ beyond_queue closed
unfolding any_hello is_hello
process_all_before_hello_example =
    process_all_before_hello gate (Frame.command listing ∷ Frame.command restart ∷ []) closed refl
      refl

authorize-documented_scope_example :
    ((CommandName.host_restart ≡ CommandName.session_set_config_option)
      × (authorize reader (wire_name CommandName.host_restart) ≡ ok tt))
    ⊎ ((authorize reader (wire_name CommandName.host_restart) ≡ ok tt)
        ↔ (has reader (documented_scope CommandName.host_restart) ≡ true))
authorize-documented_scope_example = authorize-documented_scope reader CommandName.host_restart

abbrev queue : List (Frame world)
queue = Frame.command listing ∷ Frame.command restart ∷ []

write_all-Accounts_example :
    let v = write_all gate socket queue 0 in Accounts gate queue v.progress v.written v.left
write_all-Accounts_example = write_all-Accounts gate socket queue 0

abbrev receiver : Receiver
receiver = record { place = 0; received = 0 }

abbrev subscribed : Shared world ℕ
subscribed = record let_in {
  sessions = record manager { subscribers = insert empty "a" ([] ∷ []) };
  connection = record let_in.connection { subscriptions = insert empty "a" receiver };
}

subscribed-IsOpen : IsOpen subscribed.sessions "a" receiver
unfolding get insert channel_of channel_at
subscribed-IsOpen = record { there = omega arith; behind = omega arith }

drain-append_example :
    let event = status_event SessionStatus.working in
    let i = (append system "a" event subscribed.sessions).1 in
    let e = stamped system one event subscribed.sessions in
    let w' = drain gate (record subscribed { sessions = i }) in
    (before after : List (Frame world)) × (earlier later : List (String × Receiver))
    × (r' : Receiver) × (w'.outbound
        ≡ []
          ++ (before
              ++ (event_frames gate "a" (unread subscribed.sessions "a" receiver ++ e ∷ [])
                  ++ after)))
    × (w'.connection.subscriptions.entries ≡ earlier ++ ("a", r') ∷ later)
    × (r'.place ≡ 0)
    × (unread i "a" r' ≡ [])
unfolding insert
drain-append_example =
    drain-append gate subscribed "a" (status_event SessionStatus.working) one receiver [] []
      manager_get refl subscribed-IsOpen
