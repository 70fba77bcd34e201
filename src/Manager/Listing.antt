-- ===== src/Manager/Listing.antt =====
-- rust/session-core/src/manager.rs: the methods that only read the sessions.
pub mod Order
pub mod Paths
use slight.Base.{
  ℕ, ◌+◌, String, List, [], ◌∷◌, ◌++◌, map, Option, none, some, Bool, true, false, if◌then◌else◌,
  ◌||◌, leb, length,
}
use slight.Base.Int.{leb_ℤ}
use slight.Base.Text.{◌==◌}
use slight.Base.Sort.{sort_by}
use slight.Base.HashMap.{get, values, len}
use slight.Base.Exec.{Result, ok, err}
use slight.Acp.External.{Externals}
use slight.Acp.Kinds.{AgentKind, as_str}
use slight.Acp.Metadata.{AgentCapabilitiesSummary}
use slight.Acp.Event.{ListedSessionPage}
use slight.Acp.Adapter.{available_kinds}
use slight.Types.Payload.{
  SessionStatus, idle, working, waiting_permission, exited, failed, default_metadata,
}
use slight.Types.Event.{SessionSummary, SessionDetail}
use slight.Types.Request.{SessionError, unknown_session}
use slight.Manager.State.{Session, RecoveredSession, Inner, System, Schema}
use slight.Manager.Open.{list_agent_sessions}

-- `Reverse(last_activity_at_ms)`: the latest activity first.
abbrev pub later_first : SessionSummary → SessionSummary → Bool
later_first a b = leb_ℤ b.last_activity_at_ms a.last_activity_at_ms

unfoldable pub contains : String → List String → Bool
contains x [] = false
contains x (y ∷ ys) = y == x || contains x ys

-- The loop of `recent_working_directories`, and those of `workspace_paths`: new paths join the end
-- until there are `limit` of them.
unfoldable pub add_paths : ℕ → List String → List String → List String
add_paths limit paths [] = paths
add_paths limit paths (p ∷ rest) = elim (contains p paths) [
  | true ↦ add_paths limit paths rest
  | false ↦ elim (leb limit (length (paths ++ p ∷ []))) [
    | true ↦ paths ++ p ∷ []
    | false ↦ add_paths limit (paths ++ p ∷ []) rest
  ]
]

-- The inner loop of `workspace_paths` returned: it found a new path and came to the limit.
abbrev pub reached : ℕ → List String → List String → Bool
reached limit before after =
    if leb (length after) (length before) then false else leb limit (length after)

unfoldable pub is_active : SessionStatus → Bool
is_active idle = true
is_active working = true
is_active waiting_permission = true
is_active exited = false
is_active failed = false

owned_ids : AgentKind → List (SessionSummary × Option String) → List String
owned_ids kind [] = []
owned_ids kind ((summary, none) ∷ rest) = owned_ids kind rest
owned_ids kind ((summary, some id) ∷ rest) =
    let later = owned_ids kind rest in if summary.agent == as_str kind then id ∷ later else later

-- The sessions that one agent lists; none where the listing fails.
pub page_paths : Result ListedSessionPage SessionError → List String
page_paths (ok page) = map (λ s. s.cwd) page.sessions
page_paths (err e) = []

module _ {X : Externals} where
  unfoldable pub all_summaries : Inner X → List SessionSummary
  all_summaries i =
      map (λ s. s.summary) (values i.sessions) ++ map (λ s. s.summary) (values i.recovered)

  unfoldable pub list_sessions : Inner X → List SessionSummary
  list_sessions i = sort_by later_first (all_summaries i)

  -- A `HashSet`, as the list of its members.
  unfoldable pub imported_agent_session_ids : AgentKind → Inner X → List String
  unfolding owned_ids
  imported_agent_session_ids kind i =
      owned_ids kind (map (λ s. (s.summary, s.agent_session_id)) (values i.sessions))
      ++ owned_ids kind (map (λ s. (s.summary, s.agent_session_id)) (values i.recovered))

  unfoldable pub recent_working_directories : ℕ → Inner X → List String
  recent_working_directories limit i =
      add_paths limit [] (map (λ s. s.working_directory_label) (list_sessions i))

  unfoldable pub session_count : Inner X → ℕ
  session_count i = len i.sessions + len i.recovered

  count_active : List (Session X) → ℕ
  count_active [] = 0
  count_active (s ∷ rest) =
      let later = count_active rest in if is_active s.summary.status then 1 + later else later

  unfoldable pub active_session_count : Inner X → ℕ
  unfolding count_active
  active_session_count i = count_active (values i.sessions)

  unfoldable pub capability_summary : Schema X → X.AgentCapabilities → AgentCapabilitiesSummary
  capability_summary schema c = record {
    load_session = schema.load_session c;
    prompt_image = schema.prompt_image c;
    prompt_audio = schema.prompt_audio c;
    prompt_embedded_context = schema.prompt_embedded_context c;
    mcp_http = schema.mcp_http c;
    mcp_sse = schema.mcp_sse c;
    session_list = schema.list_is_some c;
    session_resume = schema.resume_is_some c;
    session_close = schema.close_is_some c;
    session_delete = schema.delete_is_some c;
    session_additional_directories = schema.additional_directories_is_some c;
  }

module _ {X : Externals} (S : System X) where
  live_detail : Session X → SessionDetail X
  live_detail s = record {
    summary = s.summary;
    agent = s.descriptor;
    agent_session_id = s.agent_session_id;
    acp = record {
      protocol_version = s.initialize.protocol_version;
      agent = record {
        name = s.initialize.agent_name;
        title = s.initialize.agent_title;
        version = s.initialize.agent_version;
      };
      auth_methods = s.initialize.auth_methods;
      capabilities = capability_summary S.schema s.initialize.agent_capabilities;
      modes = s.modes;
      config_options = s.config_options;
    };
    running = s.running;
    pending_permission = s.pending_permission;
    recent_events = s.journal;
  }

  recovered_detail : RecoveredSession X → SessionDetail X
  recovered_detail s = record {
    summary = s.summary;
    agent = s.descriptor;
    agent_session_id = s.agent_session_id;
    acp = default_metadata;
    running = false;
    pending_permission = none;
    recent_events = s.journal;
  }

  unfoldable pub inspect_session : String → Inner X → Result (SessionDetail X) SessionError
  unfolding live_detail recovered_detail
  inspect_session id i = elim (get i.sessions id) [
    | some session ↦ ok (live_detail session)
    | none ↦ elim (get i.recovered id) [
      | some session ↦ ok (recovered_detail session)
      | none ↦ err (unknown_session id)
    ]
  ]

  unfoldable pub agent_paths : ℕ → List AgentKind → List String → Inner X → List String × Inner X
  agent_paths limit [] paths i = (paths, i)
  agent_paths limit (kind ∷ rest) paths i =
      let (r, i') = list_agent_sessions S kind none none i in
      let found = add_paths limit paths (page_paths r) in
      let later = agent_paths limit rest found i' in
      if reached limit paths found then (found, i') else later

  unfoldable pub workspace_paths : ℕ → Inner X → List String × Inner X
  workspace_paths limit i =
      agent_paths limit (available_kinds i.adapters) (recent_working_directories limit i) i
