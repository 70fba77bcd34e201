-- ===== src/Manager/Invariant/Opening.antt =====
-- Opening, importing and subscribing keep the invariant.
use slight.Base.{refl, ℕ, String, Option, none, some, arith, Option-cases, inl, inr, ◌≡◌}
use slight.Base.HashMap.{get, get-insert_inv}
use slight.Base.Exec.{Result, modify, stateful}
use slight.Base.Exec.Keeps.{
  Keeps, Keeps-pure, Keeps-lift, Keeps-modify, Keeps-stateful, keeps_rules,
}
use slight.Acp.External.{Externals}
use slight.Acp.Kinds.{AgentKind, AgentDescriptor, AcpError}
use slight.Acp.Metadata.{SessionMetadata}
use slight.Acp.Adapter.{AgentAdapter, AgentLaunchConfig}
use slight.Acp.Event.{InitializeSummary}
use slight.Types.Event.{SessionSummary}
use slight.Types.Request.{SessionError, CreateSessionRequest, ImportSessionRequest}
use slight.Manager.State.{SessionOrigin, OpenKind, System}
use slight.Manager.Journal.Chain.{EndsAt-empty}
use slight.Manager.Open.{
  find_adapter, from_agent, spawn, list_agent_sessions, bind_session, fresh_session, insert_session,
  send_initial, summary_or, open_session, create_session, import_session,
}
use slight.Manager.Pump.{pump_all}
use slight.Manager.Replay.{subscribe, add_subscriber}
use slight.Manager.Invariant.{IsSound, Inv}
use slight.Manager.Invariant.Methods.{step_rules, send_prompt-Inv}
use slight.Manager.Invariant.Events.{pump_all-Inv}

module _ {X : Externals} where
  Keeps-find_adapter : (kind : AgentKind) → Keeps Inv (find_adapter {X = X} kind)
  unfolding find_adapter
  Keeps-find_adapter kind = record { at = λ i v. (Keeps-lift {P = Inv} _).at i v }

  Keeps-from_agent : {A : Type 0} (r : Result A AcpError) → Keeps Inv (from_agent {X = X} r)
  unfolding from_agent
  Keeps-from_agent r = Keeps-lift _

  Keeps-add_subscriber :
      (id : String) → Keeps Inv (modify {E = SessionError} (add_subscriber {X = X} id))
  unfolding add_subscriber
  Keeps-add_subscriber id = Keeps-modify _ λ i v. record { sound = v.sound }

  fresh_session-IsSound :
      (summary : SessionSummary) (d : AgentDescriptor) (initialize : InitializeSummary X)
      (c : X.Connection) (m : SessionMetadata) (origin : SessionOrigin) (directory : String)
      (limit : ℕ)
      → IsSound limit summary.id (fresh_session summary d initialize c m origin directory)
  unfolding fresh_session
  fresh_session-IsSound summary d initialize c m origin directory limit = record {
    chained = EndsAt-empty summary.last_sequence;
    bounded = omega arith;
    keyed = refl;
    exits = refl;
  }

  -- A new session is sound: its journal is empty.
  Keeps-insert_fresh :
      (id : String) (summary : SessionSummary) (d : AgentDescriptor)
      (initialize : InitializeSummary X) (c : X.Connection) (m : SessionMetadata)
      (origin : SessionOrigin) (directory : String)
      → summary.id ≡ id
      → Keeps Inv (insert_session id (fresh_session summary d initialize c m origin directory))
  unfolding insert_session
  Keeps-insert_fresh id summary d initialize c m origin directory same = Keeps-modify _ λ i v.
      record {
        sound = λ j t e. elim (get-insert_inv i.sessions id j _ t e) [
          | inl (p, q) ↦
              rw (← p, q, ← same)
                (fresh_session-IsSound summary d initialize c m origin directory i.journal_limit)
          | inr q ↦ v.sound j t q
        ];
      }

module _ {X : Externals} (S : System X) where
  Keeps-spawn :
      (adapter : AgentAdapter X) (launch : AgentLaunchConfig) → Keeps Inv (spawn S adapter launch)
  unfolding spawn
  Keeps-spawn adapter launch = search (step_rules, Keeps-from_agent)

  pub list_agent_sessions-Inv :
      (kind : AgentKind) (cwd cursor : Option String)
      → Keeps Inv (list_agent_sessions S kind cwd cursor)
  unfolding list_agent_sessions
  list_agent_sessions-Inv kind cwd cursor =
      search (step_rules, Keeps-from_agent, Keeps-spawn, Keeps-find_adapter) depth 12

  Keeps-bind_session :
      (kind : OpenKind) (initialize : InitializeSummary X) (c : X.Connection) (cwd : String)
      → Keeps Inv (bind_session S kind initialize c cwd)
  unfolding bind_session
  Keeps-bind_session OpenKind.new initialize c cwd = search (step_rules, Keeps-from_agent) depth 8
  Keeps-bind_session (OpenKind.load id) initialize c cwd =
      search (step_rules, Keeps-from_agent) depth 8
  Keeps-bind_session (OpenKind.resume id) initialize c cwd =
      search (step_rules, Keeps-from_agent) depth 8

  Keeps-pump_all : Keeps Inv (stateful {E = SessionError} (pump_all S))
  Keeps-pump_all = Keeps-stateful _ (pump_all-Inv S)

  Keeps-send_initial : (id : String) (prompt : Option String) → Keeps Inv (send_initial S id prompt)
  unfolding send_initial
  Keeps-send_initial id none = search step_rules
  Keeps-send_initial id (some prompt) = search (step_rules, send_prompt-Inv, Keeps-pump_all) depth 8

  Keeps-summary_or : (id : String) (summary : SessionSummary) → Keeps Inv (summary_or S id summary)
  unfolding summary_or
  Keeps-summary_or id summary = record {
    at = λ i v. elim (Option-cases (get i.sessions id)) [
      | inl missing ↦ rw (missing, summary_or) ((Keeps-pure {P = Inv} summary).at i v)
      | inr (s, known) ↦ rw (known, summary_or) ((Keeps-pure {P = Inv} s.summary).at i v)
    ];
  }

  open_session-Inv :
      (kind : AgentKind) (label title : String) (model effort prompt : Option String)
      (open_kind : OpenKind) (origin : SessionOrigin)
      → Keeps Inv (open_session S kind label title model effort prompt open_kind origin)
  unfolding open_session
  open_session-Inv kind label title model effort prompt open_kind origin =
      search
        (
          step_rules, Keeps-find_adapter, Keeps-from_agent, Keeps-spawn, Keeps-bind_session,
          Keeps-send_initial, Keeps-summary_or, Keeps-insert_fresh,
        )
        depth 20

  pub create_session-Inv : (r : CreateSessionRequest) → Keeps Inv (create_session S r)
  unfolding create_session
  create_session-Inv r = search open_session-Inv

  pub import_session-Inv : (r : ImportSessionRequest) → Keeps Inv (import_session S r)
  unfolding import_session
  import_session-Inv r =
      search (step_rules, open_session-Inv, Keeps-pump_all, Keeps-summary_or) depth 8

  pub subscribe-Inv : (id : String) → Keeps Inv (subscribe {X = X} id)
  unfolding subscribe
  subscribe-Inv id = search (keeps_rules, Keeps-add_subscriber) depth 8
