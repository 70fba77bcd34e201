-- ===== src/Examples/Agent.antt =====
-- The theorems about the client of an agent, over a codec whose messages are single bytes.
use slight.Base.{ℕ, String, List, [], ◌∷◌, ◌++◌, none, some, true, false, ◌≡◌, refl, arith}
use slight.Base.Members.{among}
use slight.Base.Exec.{Result, ok, err}
use slight.Rpc.Wire.{Peer, Codec, RequestId, View}
use slight.Rpc.Transport.{trim_newlines, write_encoded, read_frame}
use slight.Rpc.Transport.Frames.{single_line, IsRead, read_frame-IsRead, read_frame-write_encoded}
use slight.Rpc.Client.{
  defer, ClientHandler, Schema, AcpClient, unknown_deferred_request, supports, wait_for_response,
}
use slight.Rpc.Client.Exchange.{Exchange}
use slight.Rpc.Client.Receiving.{fueled}
use slight.Rpc.Client.Waiting.{none_for, wait_for_response_lem}
use slight.Rpc.Calls.{
  new_session, list_sessions, load_session, resume_session, set_config_option, prompt,
  respond_result, respond_error,
}
use slight.Rpc.Calls.Gates.{Passes, calls_gated, respond_once}
use slight.Rpc.Handlers.{WireOption, WireOptionKind, RequestPermissionOutcome, select}
use slight.Rpc.Gate.{
  PermissionGateState, new_gate, begin, finish, decide, cancel_gate, wait_once, begins, finishes,
  cancels, waits, Reachable, new, next,
}
use slight.Rpc.Gate.Wakeups.{wakeups_kept}
use slight.Rpc.Gate.Waits.{cancelling, closing, meddle, begin_waits, decide_wakes}
use slight.Rpc.Handlers.Offers.{Selects, select-Selects}

abbrev peer : Peer
peer = record {
  Value = ℕ;
  Error = String;
  RequestPermissionRequest = ℕ;
  SessionNotification = ℕ;
  CancelRequestNotification = ℕ;
}

abbrev codec : Codec peer
codec = record {
  null = 0;
  invalid_utf8 = λ bytes. none;
  from_str = λ bytes. ok 1;
  view = λ v. View.object;
  get = λ v name. none;
  error = λ v. err "no error";
  permission = λ v. ok v;
  update = λ v. ok v;
  cancel_request = λ v. ok v;
  to_vec = λ message. ok (65 ∷ []);
  session_request_permission = "session/request_permission";
  session_update = "session/update";
  cancel_request_method = "$/cancel_request";
}

abbrev schema : Schema peer
schema = record {
  Response = ℕ;
  write_all = λ written frame. none;
  initialize = λ v. err "no";
  new_session = λ v. ok ("s", v);
  response = λ v. ok v;
  initialize_params = 1;
  new_params = λ cwd. 2;
  bound_params = λ id cwd. 3;
  option_params = λ id c o. 4;
  prompt_params = λ id text. 5;
  cancel_params = λ id. 6;
  method = λ name. name;
}

abbrev handler : ClientHandler peer ℕ
handler = record {
  handle_request = λ n id request. (defer, n);
  handle_notification = λ n notification. n;
}

abbrev client : AcpClient peer ℕ
client = record {
  input = 65 ∷ 10 ∷ [];
  output = [];
  handler = 0;
  next_id = 0;
  initialized = false;
  agent_capabilities = none;
  sessions = [];
  notifications = [];
  deferred = RequestId.number 7 ∷ [];
  orphan_responses = [];
}

abbrev ready : AcpClient peer ℕ
ready = record client {
  initialized = true;
  agent_capabilities = some (record { load_session = false; resume = true; list = false });
}

read_frame-IsRead_example : IsRead codec (10 ∷ 65 ∷ 10 ∷ []) (read_frame codec (10 ∷ 65 ∷ 10 ∷ []))
read_frame-IsRead_example = read_frame-IsRead codec (10 ∷ 65 ∷ 10 ∷ [])

read_frame-write_encoded_example :
    read_frame codec (write_encoded (65 ∷ 13 ∷ []) ++ 66 ∷ []) ≡ some (ok (some (65 ∷ [])), 66 ∷ [])
unfolding trim_newlines single_line
read_frame-write_encoded_example =
    read_frame-write_encoded codec (65 ∷ 13 ∷ []) (66 ∷ []) refl refl refl (omega arith)

wait_for_response_lem_example :
    let r = wait_for_response codec schema handler (RequestId.number 1) client in
    (fueled r.0 ≡ true)
    × ((new : List (RequestId × Result ℕ String)) × (r.1.orphan_responses ≡ [] ++ new)
        × (none_for (RequestId.number 1) new ≡ true))
wait_for_response_lem_example =
    wait_for_response_lem codec schema handler (RequestId.number 1) client

respond_once_example :
    let id = RequestId.number 7 in
    let c' = (respond_result codec schema handler id 1 client).1 in
    let c'' = (respond_error codec schema handler id "no" client).1 in
    ((respond_result codec schema handler id 2 c' ≡ (err (unknown_deferred_request id), c'))
      × (respond_error codec schema handler id "late" c' ≡ (err (unknown_deferred_request id), c')))
    × ((respond_result codec schema handler id 2 c'' ≡ (err (unknown_deferred_request id), c''))
        × (respond_error codec schema handler id "late" c''
            ≡ (err (unknown_deferred_request id), c'')))
respond_once_example = respond_once codec schema handler (RequestId.number 7) 1 2 "no" "late" client

calls_gated_example :
    Passes ready (Unit {0}) (new_session codec schema handler "hi" ready)
    × Passes ready
        (supports (λ a. a.list) ready ≡ true)
        (list_sessions codec schema handler 1 ready)
    × Passes ready
        (supports (λ a. a.load_session) ready ≡ true)
        (load_session codec schema handler "s" "hi" ready)
    × Passes ready
        (supports (λ a. a.resume) ready ≡ true)
        (resume_session codec schema handler "s" "hi" ready)
    × Passes ready (Unit {0}) (set_config_option codec schema handler "s" "model" "hi" ready)
    × Passes ready (among "s" ready.sessions ≡ true) (prompt codec schema handler "s" "hi" ready)
calls_gated_example = calls_gated codec schema handler ready "s" "hi" "model" 1

abbrev reject : WireOption
reject = record { option_id = "no"; kind = WireOptionKind.reject_once }

abbrev allow : WireOption
allow = record { option_id = "yes"; kind = WireOptionKind.allow_once }

select-Selects_example :
    Selects (some "maybe") (reject ∷ allow ∷ []) (select (some "maybe") (reject ∷ allow ∷ []))
select-Selects_example = select-Selects (some "maybe") (reject ∷ allow ∷ [])

-- A gate whose first request was cancelled and is over.
abbrev reused : PermissionGateState
reused = finish (cancel_gate (begin new_gate))

reused-Reachable : Reachable reused
reused-Reachable =
    next _ _ (next _ _ (next _ _ new (begins new_gate)) (cancels (begin new_gate)))
      (finishes (cancel_gate (begin new_gate)))

begin_waits_example : (wait_once (begin reused)).0 ≡ none
unfolding begin cancel_gate finish
begin_waits_example = begin_waits reused reused-Reachable refl

-- A gate at which a request is open and the worker sleeps.
abbrev sleeping : PermissionGateState
sleeping = (wait_once (begin new_gate)).1

sleeping-Reachable : Reachable sleeping
sleeping-Reachable = next _ _ (next _ _ new (begins new_gate)) (waits (begin new_gate))

decide_wakes_example :
    let t =
      meddle
        (cancelling ∷ closing ∷ [])
        (decide (RequestPermissionOutcome.selected "yes") sleeping).1 in
    (t.asleep ≡ false) × ((wait_once t).0 ≡ some (RequestPermissionOutcome.selected "yes"))
unfolding begin wait_once
decide_wakes_example =
    decide_wakes (RequestPermissionOutcome.selected "yes") (cancelling ∷ closing ∷ []) sleeping refl

wakeups_kept_example : (wait_once sleeping).0 ≡ none
unfolding begin wait_once
wakeups_kept_example = wakeups_kept sleeping sleeping-Reachable refl
