-- ===== src/Examples/World.antt =====
-- A small world: one agent whose connection is the number of the turns it has been through, a store
-- in memory, and a clock that counts.
use slight.Base.{ℕ, zero, suc, String, List, [], ◌∷◌, Option, none, some, Bool, true, false}
use slight.Base.Int.{pos}
use slight.Base.Exec.{Result, ok, err}
use slight.Acp.External.{Externals}
use slight.Acp.Kinds.{fake, assistant}
use slight.Acp.Content.{NormalizedContent}
use slight.Acp.Metadata.{SessionMetadata}
use slight.Acp.Event.{AgentEvent, InitializeSummary, AcpSession}
use slight.Acp.Adapter.{AdapterRegistry}
use slight.Types.Payload.{idle}
use slight.Types.Event.{SequencedEvent, status}
use slight.Types.Request.{CreateSessionRequest}
use slight.Store.Rows.{SessionStore}
use slight.Store.Memory.{InMemoryStore, new_store}
use slight.Store.Memory
use slight.Manager.State.{PersistedSession, Json, Schema, Platform, System}

pub data Doc : Type 0 where
  null : Doc
  numbered : ℕ → Doc
  row : PersistedSession → Doc

abbrev pub world : Externals
world = record {
  Value = Doc;
  Float = ℕ;
  StopReason = Bool;
  AgentCapabilities = Bool;
  Connection = ℕ;
  Store = InMemoryStore Doc;
}

abbrev metadata : SessionMetadata
metadata = record { agent_session_id = "native"; modes = none; config_options = [] }

abbrev pub hello : InitializeSummary world
hello = record {
  protocol_version = 1;
  agent_name = some "Fake";
  agent_title = none;
  agent_version = none;
  agent_capabilities = true;
  auth_methods = [];
}

-- A prompt makes the agent ask for a permission, and the answer ends its turn.
abbrev asked : List (AgentEvent world)
asked =
    AgentEvent.message assistant (NormalizedContent.text "hi")
    ∷ AgentEvent.permission_request (record {
      permission_id = "p";
      title = "Run";
      detail = none;
      tool_call_id = none;
      options = [];
    })
    ∷ []

abbrev pub drain_turn : ℕ → List (AgentEvent world) × ℕ
drain_turn zero = ([], 0)
drain_turn (suc zero) = (asked, 2)
drain_turn (suc (suc zero)) = ([], 2)
drain_turn (suc (suc (suc n))) = (AgentEvent.turn_ended true ∷ [], 0)

abbrev agents : AcpSession world
agents = record {
  initialize = λ c name version. (ok hello, c);
  new_session = λ c cwd. (ok metadata, c);
  list_sessions = λ c cwd cursor. (ok (record { sessions = []; next_cursor = none }), c);
  load_session = λ c id cwd. (ok metadata, c);
  resume_session = λ c id cwd. (ok metadata, c);
  prompt = λ c text. (ok tt, 1);
  cancel = λ c. (ok tt, 0);
  respond_permission = λ c option_id. (ok tt, 3);
  set_mode = λ c mode_id. (ok tt, c);
  set_config_option = λ c config_id value_id. (ok [], c);
  drain = drain_turn;
  is_running = λ c. (true, c);
}

abbrev rows : SessionStore world
rows = record {
  upsert_session = Memory.upsert_session;
  get_session = Memory.get_session;
  list_sessions = Memory.list_sessions;
  append_event = Memory.append_event;
  events_after = Memory.events_after;
  latest_sequence = Memory.latest_sequence;
}

abbrev pub decode_doc : Doc → Option (SequencedEvent world)
decode_doc null = none
decode_doc (numbered n) =
    some (record { sequence = n; timestamp_ms = pos 0; event = status (record { status = idle }) })
decode_doc (row r) = none

abbrev pub decode_row : Doc → Result PersistedSession String
decode_row null = err "null"
decode_row (numbered n) = err "number"
decode_row (row r) = ok r

abbrev json : Json world
json = record {
  null = null;
  bool = λ b. null;
  event_to_value = λ e. some (numbered e.sequence);
  event_from_value = decode_doc;
  record_to_value = λ r. some (row r);
  record_from_value = decode_row;
  get_field = λ v name. none;
  insert_field = λ v name w. none;
}

abbrev schema : Schema world
schema = record {
  load_session = λ c. c;
  prompt_image = λ c. false;
  prompt_audio = λ c. false;
  prompt_embedded_context = λ c. false;
  mcp_http = λ c. false;
  mcp_sse = λ c. false;
  list_is_some = λ c. c;
  resume_is_some = λ c. c;
  close_is_some = λ c. false;
  delete_is_some = λ c. false;
  additional_directories_is_some = λ c. false;
  is_end_turn = λ r. r;
  stop_reason_value = λ r. some "end_turn";
  stop_reason_debug = λ r. "EndTurn";
}

-- Ids in unary.
abbrev pub id_at : ℕ → String
id_at zero = "s"
id_at (suc n) = Prim.Native.String.◌++◌ "s" (id_at n)

abbrev platform : Platform
platform = record {
  now_ms = λ m. pos m;
  new_uuid = id_at;
  home = some "/home/me";
  current_dir = none;
  git_branch = λ directory m. none;
}

abbrev pub system : System world
system = record { agents = agents; rows = rows; json = json; schema = schema; platform = platform }

abbrev pub adapters : AdapterRegistry world
adapters =
    record {
      kind = fake;
      descriptor = record { kind = fake; display_name = "Fake"; version = none };
      spawn_session = λ launch m. ok 0;
      is_available = true;
    }
    ∷ []

abbrev pub store : InMemoryStore Doc
store = new_store

abbrev pub request : CreateSessionRequest
request = record {
  agent = fake;
  model = none;
  effort = none;
  working_directory_label = "~";
  initial_prompt = none;
}
