-- ===== src/Manager/Steps.antt =====
-- rust/session-core/src/manager.rs: the steps from which the methods are built, `append` and
-- `persist_session`.
pub mod Append
pub mod Delivery
pub mod Known
use slight.Base.{ℕ, suc, String, [], ◌∷◌, ◌++◌, map, none, some, unwrap_or}
use slight.Base.HashMap.{get, adjust}
use slight.Base.Exec.{Result, Exec, ok_or, map_err, pure, lift, gets, stateful, modify, ◌>>=◌, ◌>>◌}
use slight.Acp.External.{Externals}
use slight.Acp.Kinds.{AcpError}
use slight.Types.Event.{SessionEvent, SequencedEvent}
use slight.Types.Request.{SessionError, unknown_session, agent}
use slight.Store.Rows.{StoredEvent, StoredSession}
use slight.Manager.State.{Session, Inner, PersistedSession, System, M}
use slight.Manager.Journal.{sequence_event, push_event}

module _ {X : Externals} where
  -- `self.sessions.get(id).ok_or_else(UnknownSession)`
  unfoldable pub require : String → M X (Session X)
  require id i = lift (ok_or (get i.sessions id) (unknown_session id)) i

  -- `if let Some(session) = self.sessions.get_mut(id) { … }`
  unfoldable pub change : String → (Session X → Session X) → M X (Unit {0})
  change id f = modify λ i. record i { sessions = adjust i.sessions id f }

  -- A reading of the clock or a new random id.
  unfoldable pub observe : {A : Type 0} → (ℕ → A) → M X A
  observe f = stateful λ i. (f i.moment, record i { moment = suc i.moment })

  -- A call of the session's connection, whose error ends the method.
  unfoldable pub call :
      {A : Type 0} → String → (X.Connection → Result A AcpError × X.Connection) → M X A
  call id f = do
    session ← require id
    change id (λ s. record s { connection = (f s.connection).1 })
    lift (map_err agent (f session.connection).0)

  -- The event is sent to every subscriber of the session.
  unfoldable pub publish : String → SequencedEvent X → Inner X → Inner X
  publish id e i = record i {
    subscribers = adjust i.subscribers id (map λ channel. channel ++ e ∷ []);
  }

module _ {X : Externals} (S : System X) where
  stored_session : Session X → StoredSession X.Value
  stored_session session = record {
    session_id = session.summary.id;
    metadata = unwrap_or (S.json.record_to_value persisted) S.json.null;
    last_sequence = session.summary.last_sequence;
    created_at_ms = session.summary.created_at_ms;
    updated_at_ms = session.summary.last_activity_at_ms;
  }
    where
      persisted : PersistedSession
      persisted = record {
        summary = session.summary;
        origin = session.origin;
        agent_session_id = session.agent_session_id;
        resolved_working_directory = session.resolved_working_directory;
      }

  unfoldable pub persist : String → Inner X → Inner X
  unfolding stored_session
  persist id i = elim (get i.sessions id) [
    | none ↦ i
    | some session ↦ record i { store = (S.rows.upsert_session i.store (stored_session session)).1 }
  ]

  unfoldable pub persist_session : String → M X (Unit {0})
  persist_session id = modify (persist id)

  stored_event : SequencedEvent X → StoredEvent X.Value
  stored_event e = record {
    sequence = e.sequence;
    event = unwrap_or (S.json.event_to_value e) S.json.null;
  }

  unfoldable pub store_event : String → SequencedEvent X → Inner X → Inner X
  unfolding stored_event
  store_event id e i = record i { store = (S.rows.append_event i.store id (stored_event e)).1 }

  unfoldable pub append : String → SessionEvent X → M X (SequencedEvent X)
  unfolding sequence_event
  append id event = do
    limit ← gets (λ i. i.journal_limit)
    session ← require id
    now ← observe S.platform.now_ms
    let sequenced = sequence_event session now event
    change id (push_event limit sequenced)
    modify (store_event id sequenced)
    persist_session id
    modify (publish id sequenced)
    pure sequenced
