-- ===== src/Lib.antt =====
-- Slight, the host of agent sessions: the Rust crates under rust/ that keep the sessions and serve
-- them to clients.
--
-- The program. `SessionManager` (rust/session-core/src/manager.rs) owns every session of a host.
-- A client's request runs under one lock on `Inner`; it calls the session's agent through the
-- interface `AcpSession` (rust/acp-types/src/session.rs), appends sequenced events to the session's
-- bounded journal, writes rows to a `SessionStore` (rust/session-store/src/lib.rs) and sends the
-- events to the session's subscribers. `pump_all` drains what the agents say. A client that was
-- away attaches with the last sequence number it saw, and pages back with `history`. When the host
-- starts, `SessionManager::new` recovers the stored sessions, by loading or resuming them with
-- their agents where these can. A client is served over a WebSocket: one thread of the gateway
-- (rust/gateway-server/src/server.rs) reads its frames (rust/gateway-protocol), authenticates its
-- hello, authorizes each command, dispatches it to the manager or the host and answers it, drains
-- the subscriptions into a queue, and writes the queue to the socket.
--
-- The files. The agents' vocabulary of rust/acp-types/src/{lib,content,metadata,session}.rs is in
-- Acp/Kinds, Acp/Content, Acp/Metadata and Acp/Event, the registry of rust/acp-adapters/src/lib.rs
-- in Acp/Adapter. The payloads, events, summaries, requests and errors of
-- rust/session-core/src/types.rs are in Types/Block, Types/Payload, Types/Event and Types/Request.
-- The rows and the trait of rust/session-store/src/lib.rs are in Store/Rows, `InMemoryStore` in
-- Store/Memory. Of rust/session-core/src/manager.rs, Manager/State has the structs, Manager/Journal
-- and Manager/Steps `append` and `persist_session`, Manager/Turns the methods of a request
-- (`send_prompt`, `set_mode`, `set_config_option`, `cancel`, `respond_permission`, `rename_session`,
-- `archive_session`), Manager/Events `apply_agent_event` and `ensure_exited`, Manager/Pump
-- `pump_all`, Manager/Replay `attach`, `history` and `subscribe`, Manager/Labels the functions on
-- paths and titles, Manager/Open `open_session`, `create_session`, `import_session` and
-- `list_agent_sessions`, Manager/Listing the listings, Manager/Recover the recovery at the start and
-- Manager/Api the public methods, with a data type of calls and `run` for a sequence of them. The
-- definitions keep the names of the functions; a part of a function that has a name of its own
-- here says which lines it is. Base and its children hold the helpers: lists and tests over the
-- native numbers, strings, `HashMap`, the stable sort, and the state and error monad `Exec`.
--
-- Of rust/gateway-protocol/src, Gateway/Protocol/Frames has frames.rs, Errors lib.rs, Commands the
-- names and parameters of commands.rs, Results its results, dto.rs and admin.rs, Events events.rs and
-- Time time.rs. Of rust/gateway-server/src, Gateway/Server/Auth has auth.rs and `authorize`, State
-- the structs and the trait of admin.rs, Handlers the arms of `dispatch`, Dispatch `dispatch`,
-- `remember_command` and `build_welcome`, Process `process_frame`, and Connection the loop of
-- `handle_connection`; their theorems are in Scopes, Sound, Cache, Answers, Replies, Gates and the
-- children of Connection.
--
-- Of rust/acp-types/src, Rpc/Wire has the classification of wire.rs, Rpc/Transport the frames of
-- transport.rs, Rpc/Client and Rpc/Calls the `AcpClient` of client.rs, its loop and its methods, and
-- Rpc/Handlers the two handlers of client.rs, Rpc/Gate the `PermissionGate` of session.rs as a step
-- relation; their theorems are in the children.
--
-- State and calls. The lock serialises the methods (`workspace_paths` alone takes it twice, first
-- only to read, which is modelled as one call), so the state is one record `Inner` and a run of
-- the program is a list of calls. A method on `&mut Inner` that returns a `Result` is a function of
-- `Inner` that gives a result and the next `Inner`: what was done before an error stays done.
-- Sequence numbers are `u64` of a release build: `next_sequence` is `(n + 1) % 2 ^ 64`, and
-- `saturating_add` stops at `2 ^ 64 - 1`. Times are integers. A `HashMap` is an association list with
-- distinct keys whose order of iteration is that of insertion, which is one of the orders that the
-- code allows. A subscriber is the list of the events sent into its channel; a channel whose
-- receiver is dropped is not distinguished from one that still listens. `moment` counts the
-- observations of the world outside, so that two readings of the clock may differ. The loops of the
-- manager and the gateway run over lists and need no fuel. Reading a frame and waiting for a response
-- run on fuel, one more than the bytes of the input: each step takes a byte at least.
--
-- A connection's thread shares the manager with others. What these do shows in two places: `others`
-- of a `Gateway` is what happens where a handler takes the lock a second time, and `others` of a
-- `Turn` what happened since the last turn of the loop; the theorems ask of both only what they ask
-- of a call. A `Receiver` is the end of a channel: its place among the channels of the session and
-- the number of events received. The queue is a list, its front first; a turn of the loop is a step
-- on a `Loop`, and a connection is served for a list of turns.
--
-- The client of an agent works on the bytes that the agent will have written and on those written to
-- it. `Peer`, `Codec` and `Schema` are serde_json and the types of the protocol's schema; a writer may
-- fail at every frame. The one worker that may sleep on the condition variable of a `PermissionGate` is
-- a flag of its state; it may also wake for no reason. An `i64` id is its 64 bits, a text of the wire its bytes.
--
-- From outside. `Externals` names the types of other crates and processes: JSON values, the schema's
-- capabilities and stop reasons, connections, stores. `System` holds the operations on them as
-- parameters: the agents (`AcpSession`), the store, serde_json at the types that the manager
-- stores, the getters of the schema, the clock, random ids, the environment and git. Nothing is
-- assumed of the agents. `HostAdmin` and `GatewayJson` are the host behind the gateway and serde_json
-- at the types of the protocol, `Socket` the WebSocket library; nothing is assumed of these either. What
-- a socket does with a message whose writing blocks is its own affair: a `Loop` keeps the messages that
-- were passed to it, and the code passes a blocked one again.
-- The instances of Examples/World, Examples/Door and Examples/Agent are concrete and are used by the
-- witnesses.
--
-- Not modelled. `SqliteStore` and its retention, the worker of
-- rust/acp-types/src/session.rs, the adapters that launch processes, the gateway's accept loop,
-- handshakes, timeouts and log, its blocking client, the host service and its command line, the Apple
-- client; `payload()` of an event, which is its serialized form.
pub mod Base
pub mod Acp
pub mod Types
pub mod Store
pub mod Manager
pub mod Gateway
pub mod Rpc
mod Examples
