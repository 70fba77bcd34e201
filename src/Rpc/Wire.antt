-- ===== src/Rpc/Wire.antt =====
-- rust/acp-types/src/wire.rs: the messages and their classification.
use slight.Base.{ℕ, String, List, [], ◌∷◌, ◌++◌, Option, none, some, unwrap_or, if◌then◌else◌}
use slight.Base.Exec.{Result, ok, err, map_err}
use slight.Base.Text
use slight.Base.Text.{◌==◌}

-- `RequestId` of the schema; an `i64` is its 64 bits.
pub data RequestId : Type 0 where
  null : RequestId
  number : ℕ → RequestId
  str : String → RequestId

-- What a `serde_json::Value` is; a number with `as_i64`.
pub data View : Type 0 where
  null array object other : View
  number : Option ℕ → View
  string : String → View

pub data WireError : Type 0 where
  io json malformed : String → WireError

-- The types of serde_json and the schema.
pub record Peer : Type 1 where
  pub Value : Type 0
  pub Error : Type 0
  pub RequestPermissionRequest : Type 0
  pub SessionNotification : Type 0
  pub CancelRequestNotification : Type 0

pub data Outgoing (P : Peer) : Type 0 where
  request : RequestId → String → P.Value → Outgoing P
  notification : String → P.Value → Outgoing P
  result : RequestId → P.Value → Outgoing P
  error : RequestId → P.Error → Outgoing P

-- serde_json at these types, and the names of the schema. A text is its bytes.
pub record Codec (P : Peer) : Type 0 where
  pub null : P.Value
  pub invalid_utf8 : List ℕ → Option String
  pub from_str : List ℕ → Result P.Value String
  pub view : P.Value → View
  pub get : P.Value → String → Option P.Value
  pub error : P.Value → Result P.Error String
  pub permission : P.Value → Result P.RequestPermissionRequest String
  pub update : P.Value → Result P.SessionNotification String
  pub cancel_request : P.Value → Result P.CancelRequestNotification String
  pub to_vec : Outgoing P → Result (List ℕ) String
  pub session_request_permission : String
  pub session_update : String
  pub cancel_request_method : String

pub data RawMessage (P : Peer) : Type 0 where
  request : RequestId → String → Option P.Value → RawMessage P
  notification : String → Option P.Value → RawMessage P
  response : RequestId → Result P.Value P.Error → RawMessage P

pub data AgentToClientRequest (P : Peer) : Type 0 where
  request_permission : P.RequestPermissionRequest → AgentToClientRequest P
  other : String → Option P.Value → AgentToClientRequest P

pub data AgentToClientNotification (P : Peer) : Type 0 where
  session_update : P.SessionNotification → AgentToClientNotification P
  cancel_request : P.CancelRequestNotification → AgentToClientNotification P
  other : String → Option P.Value → AgentToClientNotification P

pub data AcpMessage (P : Peer) : Type 0 where
  request : RequestId → AgentToClientRequest P → AcpMessage P
  notification : AgentToClientNotification P → AcpMessage P
  response : RequestId → Result P.Value P.Error → AcpMessage P

unfoldable pub parse_request_id : View → Result RequestId WireError
parse_request_id (View.number (some n)) = ok (RequestId.number n)
parse_request_id (View.number none) = err (malformed "request id is not an integer")
parse_request_id (View.string text) = ok (RequestId.str text)
parse_request_id View.null = ok RequestId.null
parse_request_id View.array = err (malformed "request id must be a string, integer, or null")
parse_request_id View.object = err (malformed "request id must be a string, integer, or null")
parse_request_id View.other = err (malformed "request id must be a string, integer, or null")

-- `Value::as_text`, and `filter(|id| !id.is_null())`.
unfoldable pub as_text : View → Option String
as_text (View.string text) = some text
as_text View.null = none
as_text View.array = none
as_text View.object = none
as_text View.other = none
as_text (View.number _) = none

module _ {P : Peer} (C : Codec P) where
  unfoldable pub text_field : P.Value → String → Option String
  unfolding as_text
  text_field fields name = elim (C.get fields name) [ none ↦ none | some v ↦ as_text (C.view v) ]

  unfoldable pub with_method : P.Value → String → Result (RawMessage P) WireError
  unfolding parse_request_id
  with_method fields method =
      let params = C.get fields "params" in
      elim (C.get fields "id") [
        | none ↦ ok (RawMessage.notification method params)
        | some id ↦ elim (C.view id) [
          | View.null ↦ ok (RawMessage.notification method params)
          | v ↦ elim (parse_request_id v) [
            | ok id ↦ ok (RawMessage.request id method params)
            | err e ↦ err e
          ]
        ]
      ]

  unfoldable pub response_of : P.Value → RequestId → Result (RawMessage P) WireError
  response_of fields id = elim (C.get fields "error") [
    | some e ↦ elim (C.error e) [
      | ok fault ↦ ok (RawMessage.response id (err fault))
      | err text ↦ err (json text)
    ]
    | none ↦ ok (RawMessage.response id (ok (unwrap_or (C.get fields "result") C.null)))
  ]

  unfoldable pub without_method : P.Value → Result (RawMessage P) WireError
  unfolding response_of parse_request_id
  without_method fields = elim (C.get fields "id") [
    | none ↦ err (malformed "frame is neither a request, response, nor notification")
    | some id ↦ elim (parse_request_id (C.view id)) [
      | ok id ↦ response_of fields id
      | err e ↦ err e
    ]
  ]

  unfoldable pub classify_object : P.Value → Result (RawMessage P) WireError
  unfolding text_field with_method without_method
  classify_object fields = elim (text_field fields "jsonrpc") [
    | none ↦ err (malformed "missing required jsonrpc field")
    | some version ↦
        if version == "2.0"
        then elim (text_field fields "method") [
          | some method ↦ with_method fields method
          | none ↦ without_method fields
        ]
        else err (malformed (Text.◌++◌ "unsupported jsonrpc version: " version))
  ]

  unfoldable pub classify : List ℕ → Result (RawMessage P) WireError
  unfolding classify_object
  classify line = elim (C.from_str line) [
    | err text ↦ err (json text)
    | ok value ↦ elim (C.view value) [
      | View.object ↦ classify_object value
      | _ ↦ err (malformed "frame is not a JSON object")
    ]
  ]

  unfoldable pub parse_params :
      {T : Type 0} → (P.Value → Result T String) → Option P.Value → String → Result T WireError
  parse_params decode params method =
      map_err
        (λ e. malformed (Text.◌++◌ "invalid params for " (Text.◌++◌ method (Text.◌++◌ ": " e))))
        (decode (unwrap_or params C.null))

  unfoldable pub route_request : String → Option P.Value → Result (AgentToClientRequest P) WireError
  unfolding parse_params
  route_request method params =
      if method == C.session_request_permission
      then elim (parse_params C.permission params method) [
        | ok r ↦ ok (AgentToClientRequest.request_permission r)
        | err e ↦ err e
      ]
      else ok (AgentToClientRequest.other method params)

  unfoldable pub route_notification :
      String → Option P.Value → Result (AgentToClientNotification P) WireError
  unfolding parse_params
  route_notification method params =
      if method == C.session_update
      then elim (parse_params C.update params method) [
        | ok n ↦ ok (AgentToClientNotification.session_update n)
        | err e ↦ err e
      ]
      else if method == C.cancel_request_method
      then elim (parse_params C.cancel_request params method) [
        | ok n ↦ ok (AgentToClientNotification.cancel_request n)
        | err e ↦ err e
      ]
      else ok (AgentToClientNotification.other method params)

  unfoldable pub route : RawMessage P → Result (AcpMessage P) WireError
  unfolding route_request route_notification
  route (RawMessage.response id outcome) = ok (AcpMessage.response id outcome)
  route (RawMessage.notification method params) = elim (route_notification method params) [
    | ok n ↦ ok (AcpMessage.notification n)
    | err e ↦ err e
  ]
  route (RawMessage.request id method params) = elim (route_request method params) [
    | ok r ↦ ok (AcpMessage.request id r)
    | err e ↦ err e
  ]

  unfoldable pub classify_inbound : List ℕ → Result (AcpMessage P) WireError
  unfolding classify route
  classify_inbound line = elim (classify line) [ ok raw ↦ route raw | err e ↦ err e ]

  -- One frame with its newline.
  unfoldable pub encode_line : Outgoing P → Result (List ℕ) WireError
  encode_line message = elim (C.to_vec message) [
    | ok bytes ↦ ok (bytes ++ 10 ∷ [])
    | err text ↦ err (json text)
  ]
