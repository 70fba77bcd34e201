-- ===== src/Rpc/Calls.antt =====
-- rust/acp-types/src/client.rs: the methods of `AcpClient` that ask an agent for something, and
-- those that answer one of its requests later.
pub mod Gates
use slight.Base.{
  ℕ, eqb, String, List, [], ◌∷◌, ◌++◌, none, some, Bool, true, false, ◌||◌, if◌then◌else◌,
}
use slight.Base.Text.{◌==◌}
use slight.Base.Members.{among}
use slight.Base.Exec.{Result, ok, err, pure, raise, modify, ◌>>=◌, ◌>>◌}
use slight.Rpc.Wire.{Peer, Codec, RequestId, Outgoing}
use slight.Rpc.Client.{
  ClientError, unknown_session, unsupported_protocol, ClientHandler, AgentCapabilities,
  InitializeResponse, Schema, AcpClient, I, ensure_initialized, ensure_supported, take_deferred,
  send, request,
}

-- `HashSet::insert`
unfoldable pub remember : String → List String → List String
remember id ids = if among id ids then ids else ids ++ id ∷ []

module _ {P : Peer} {S : Type 0} where
  unfoldable pub ensure_version : ℕ → I P S (Unit {0})
  ensure_version version c =
      (if eqb version 1 then ok tt else err (unsupported_protocol version), c)

  unfoldable pub ensure_known : String → I P S (Unit {0})
  ensure_known id c = (if among id c.sessions then ok tt else err (unknown_session id), c)

  unfoldable pub add_session : String → I P S (Unit {0})
  unfolding remember
  add_session id c = (ok tt, record c { sessions = remember id c.sessions })

  unfoldable pub record_negotiated : AgentCapabilities → I P S (Unit {0})
  record_negotiated capabilities c =
      (ok tt, record c { initialized = true; agent_capabilities = some capabilities })

module _ {P : Peer} {S : Type 0} (C : Codec P) (M : Schema P) (H : ClientHandler P S) where
  unfoldable pub initialize : I P S InitializeResponse
  unfolding ensure_version record_negotiated
  initialize = do
    response ← request C M H M.initialize (M.method "initialize") M.initialize_params
    ensure_version response.protocol_version
    record_negotiated response.agent_capabilities
    pure response

  unfoldable pub new_session : String → I P S (String × M.Response)
  unfolding ensure_initialized add_session
  new_session cwd = do
    ensure_initialized
    response ← request C M H M.new_session (M.method "session_new") (M.new_params cwd)
    add_session response.0
    pure response

  -- `params` is the serialized request.
  unfoldable pub list_sessions : P.Value → I P S M.Response
  unfolding ensure_initialized ensure_supported
  list_sessions params = do
    ensure_initialized
    ensure_supported (λ a. a.list) "session/list"
    request C M H M.response (M.method "session_list") params

  unfoldable pub load_session : String → String → I P S M.Response
  unfolding ensure_initialized ensure_supported add_session
  load_session id cwd = do
    ensure_initialized
    ensure_supported (λ a. a.load_session) "session/load"
    response ← request C M H M.response (M.method "session_load") (M.bound_params id cwd)
    add_session id
    pure response

  unfoldable pub resume_session : String → String → I P S M.Response
  unfolding ensure_initialized ensure_supported add_session
  resume_session id cwd = do
    ensure_initialized
    ensure_supported (λ a. a.resume) "session/resume"
    response ← request C M H M.response (M.method "session_resume") (M.bound_params id cwd)
    add_session id
    pure response

  unfoldable pub set_config_option : String → String → String → I P S M.Response
  unfolding ensure_initialized
  set_config_option id config_id value_id = do
    ensure_initialized
    request C M H M.response (M.method "session_set_config_option")
        (M.option_params id config_id value_id)

  unfoldable pub prompt : String → String → I P S M.Response
  unfolding ensure_initialized ensure_known
  prompt id text = do
    ensure_initialized
    ensure_known id
    request C M H M.response (M.method "session_prompt") (M.prompt_params id text)

  unfoldable pub notify : String → P.Value → I P S (Unit {0})
  notify method params = send C M H (Outgoing.notification method params)

  unfoldable pub cancel : String → I P S (Unit {0})
  unfolding notify
  cancel id = notify (M.method "session_cancel") (M.cancel_params id)

  -- `respond_permission` too, with the serialized response.
  unfoldable pub respond_result : RequestId → P.Value → I P S (Unit {0})
  unfolding take_deferred
  respond_result id value = do take_deferred id; send C M H (Outgoing.result id value)

  unfoldable pub respond_error : RequestId → P.Error → I P S (Unit {0})
  unfolding take_deferred
  respond_error id error = do take_deferred id; send C M H (Outgoing.error id error)
