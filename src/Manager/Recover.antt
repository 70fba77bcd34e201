-- ===== src/Manager/Recover.antt =====
-- rust/session-core/src/manager.rs: what a new manager does with the sessions of its store.
pub mod Visible
use slight.Base.{ℕ, suc, String, List, [], ◌∷◌, Option, none, some, true, false, if◌then◌else◌}
use slight.Base.Text.{◌++◌}
use slight.Base.HashMap.{empty, insert}
use slight.Base.Exec.{Result, ok, err}
use slight.Acp.External.{Externals}
use slight.Acp.Kinds.{AgentKind, custom, AgentDescriptor, AcpError, message}
use slight.Acp.Event.{InitializeSummary}
use slight.Acp.Adapter.{AgentAdapter, AdapterRegistry, default_launch}
use slight.Acp.Adapter
use slight.Types.Payload.{SessionStatus, idle}
use slight.Types.Event.{
  SessionSummary, SequencedEvent, SessionRecoveryState, recovered, stale, unavailable,
}
use slight.Store.Rows.{StoredSession, StoredEvent, StoreError}
use slight.Manager.State.{
  RecoveredSession, RehydratedSession, PersistedSession, origin_as_str, Inner, System,
}
use slight.Manager.Labels.{agent_kind_from_str}
use slight.Manager.Open.{negotiated, pkg_name, pkg_version}

abbrev error_text : AcpError → String
error_text (message text) = text

-- `unwrap_or_default` on a list of the store.
abbrev pub or_nil : {A : Type 0} → Result (List A) StoreError → List A
or_nil (ok xs) = xs
or_nil (err e) = []

module _ {V : Type 0} where
  unfoldable pub unreadable_summary : StoredSession V → String → SessionSummary
  unreadable_summary stored reason = record {
    id = stored.session_id;
    title = "Unreadable session";
    agent = "unknown";
    model = none;
    effort = none;
    working_directory_label = "~";
    git_branch = none;
    status = SessionStatus.exited;
    created_at_ms = stored.created_at_ms;
    last_activity_at_ms = stored.updated_at_ms;
    last_sequence = stored.last_sequence;
    recovery = unavailable ("session metadata could not be read: " ++ reason);
    archived = false;
  }

  -- The stored summary, with the sequence number of the row.
  abbrev pub stored_summary : PersistedSession → StoredSession V → SessionSummary
  stored_summary r stored = record r.summary { last_sequence = stored.last_sequence }

module _ {X : Externals} where
  abbrev pub blank : AdapterRegistry X → X.Store → ℕ → ℕ → Inner X
  blank adapters store journal_limit moment = record {
    adapters = adapters;
    store = store;
    sessions = empty;
    subscribers = empty;
    journal_limit = journal_limit;
    recovered = empty;
    moment = moment;
  }

  -- The adapter's descriptor, or one made from the stored name.
  unfoldable pub stored_descriptor : Option (AgentAdapter X) → AgentKind → String → AgentDescriptor
  stored_descriptor none kind name = record { kind = kind; display_name = name; version = none }
  stored_descriptor (some adapter) kind name = adapter.descriptor

  unfoldable pub keep_recovered : String → RecoveredSession X → Inner X → Inner X
  keep_recovered id session i = record i { recovered = insert i.recovered id session }

module _ {X : Externals} (S : System X) where
  unfoldable pub stored_events : String → Inner X → List (StoredEvent X.Value)
  stored_events id i = or_nil (S.rows.events_after i.store id none i.journal_limit)

  -- Rows that do not decode are left out.
  unfoldable pub decode_events : List (StoredEvent X.Value) → List (SequencedEvent X)
  decode_events [] = []
  decode_events (row ∷ rest) =
      let later = decode_events rest in
      elim (S.json.event_from_value row.event) [ none ↦ later | some e ↦ e ∷ later ]

  resume_native :
      AgentAdapter X
      → PersistedSession
      → String
      → InitializeSummary X
      → X.Connection
      → Result (RehydratedSession X) SessionRecoveryState
  resume_native adapter r native_id initialize c =
      if S.schema.resume_is_some initialize.agent_capabilities
      then elim (S.agents.resume_session c native_id r.resolved_working_directory).0 [
        | err e ↦ err (
            stale (
              origin_as_str r.origin
              ++ (" session " ++ (native_id ++ (" is no longer available: " ++ error_text e)))))
        | ok metadata ↦ ok (record {
          descriptor = negotiated adapter.descriptor initialize;
          initialize = initialize;
          connection = (S.agents.resume_session c native_id r.resolved_working_directory).1;
          session_metadata = metadata;
        })
      ]
      else err (unavailable ("agent " ++ (r.summary.agent ++ " does not support session/resume")))

  reconnect :
      AgentAdapter X
      → PersistedSession
      → String
      → X.Connection
      → Result (RehydratedSession X) SessionRecoveryState
  unfolding resume_native
  reconnect adapter r native_id c = elim (S.agents.initialize c pkg_name pkg_version).0 [
    | err e ↦ err (unavailable ("agent handshake failed: " ++ error_text e))
    | ok initialize ↦
        resume_native adapter r native_id initialize (S.agents.initialize c pkg_name pkg_version).1
  ]

  unfoldable pub rehydrate_session :
      AgentAdapter X
      → PersistedSession
      → String
      → ℕ
      → Result (RehydratedSession X) SessionRecoveryState
  unfolding reconnect
  rehydrate_session adapter r native_id moment =
      elim (adapter.spawn_session
        (record default_launch { working_directory = some r.resolved_working_directory }) moment) [
          | err e ↦ err (unavailable ("could not launch agent: " ++ error_text e))
          | ok c ↦ reconnect adapter r native_id c
        ]

  unfoldable pub install_rehydrated_session :
      PersistedSession
      → RehydratedSession X
      → List (SequencedEvent X)
      → SessionSummary
      → Inner X
      → Inner X
  install_rehydrated_session r h journal summary i = record i {
    sessions = insert i.sessions summary.id (record {
      summary = record summary {
        status = idle;
        recovery = recovered;
        last_activity_at_ms = S.platform.now_ms i.moment;
      };
      descriptor = h.descriptor;
      initialize = h.initialize;
      connection = h.connection;
      agent_session_id = some h.session_metadata.agent_session_id;
      origin = r.origin;
      resolved_working_directory = r.resolved_working_directory;
      modes = h.session_metadata.modes;
      config_options = h.session_metadata.config_options;
      journal = journal;
      pending_permission = none;
      running = true;
      exit_reported = false;
      reasoning_started_at_ms = none;
      reasoning_ended_at_ms = none;
    });
    moment = suc i.moment;
  }

  -- Why a readable record cannot be resumed, or its resumed session.
  unfoldable pub rehydration :
      Option (AgentAdapter X)
      → PersistedSession
      → ℕ
      → Result (RehydratedSession X) SessionRecoveryState
  rehydration none r moment =
      err (unavailable ("agent " ++ (r.summary.agent ++ " is not registered on this host")))
  rehydration (some adapter) r moment = elim r.agent_session_id [
    | none ↦ err (unavailable "session has no native agent session id to resume")
    | some native_id ↦ rehydrate_session adapter r native_id moment
  ]

  unfoldable pub recover_unreadable :
      StoredSession X.Value → List (SequencedEvent X) → String → Inner X → Inner X
  recover_unreadable stored journal error i =
      keep_recovered stored.session_id
        (record {
          summary = unreadable_summary stored error;
          descriptor = record { kind = custom "unknown"; display_name = "Unknown"; version = none };
          agent_session_id = none;
          journal = journal;
        })
        i

  unfoldable pub settle :
      StoredSession X.Value
      → List (SequencedEvent X)
      → PersistedSession
      → AgentDescriptor
      → Result (RehydratedSession X) SessionRecoveryState
      → Inner X
      → Inner X
  settle stored journal r descriptor (ok h) i =
      install_rehydrated_session r h journal (stored_summary r stored) i
  settle stored journal r descriptor (err state) i =
      keep_recovered stored.session_id
        (record {
          summary = record (stored_summary r stored) {
            status = SessionStatus.exited;
            recovery = state;
          };
          descriptor = descriptor;
          agent_session_id = r.agent_session_id;
          journal = journal;
        })
        i

  unfoldable pub recover_record :
      StoredSession X.Value → List (SequencedEvent X) → PersistedSession → Inner X → Inner X
  recover_record stored journal r i =
      let kind = agent_kind_from_str r.summary.agent in
      let adapter = Adapter.get i.adapters kind in
      settle stored journal r (stored_descriptor adapter kind r.summary.agent)
        (rehydration adapter r i.moment) (record i { moment = suc i.moment })

  unfoldable pub recover_stored_session : StoredSession X.Value → Inner X → Inner X
  recover_stored_session stored i =
      let journal = decode_events (stored_events stored.session_id i) in
      elim (S.json.record_from_value stored.metadata) [
        | err error ↦ recover_unreadable stored journal error i
        | ok r ↦ recover_record stored journal r i
      ]

  unfoldable pub recover_all : List (StoredSession X.Value) → Inner X → Inner X
  recover_all [] i = i
  recover_all (stored ∷ rest) i = recover_all rest (recover_stored_session stored i)

  -- `SessionManager::new`, at a moment.
  unfoldable pub new_manager : AdapterRegistry X → X.Store → ℕ → ℕ → Inner X
  new_manager adapters store journal_limit moment =
      recover_all (or_nil (S.rows.list_sessions store)) (blank adapters store journal_limit moment)
