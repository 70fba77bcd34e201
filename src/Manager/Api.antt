-- ===== src/Manager/Api.antt =====
-- rust/session-core/src/manager.rs: the public methods of `SessionManager` that change its state.
-- Each holds the lock for its whole length, so a run of a manager is a list of calls;
-- `workspace_paths` takes it twice, first only to read.
use slight.Base.{ℕ, String, List, [], ◌∷◌, Option, Bool}
use slight.Base.Exec.{stateful, pure, ◌>>◌}
use slight.Acp.External.{Externals}
use slight.Acp.Kinds.{AgentKind}
use slight.Types.Request.{CreateSessionRequest, ImportSessionRequest}
use slight.Manager.State.{Inner, System, M}
use slight.Manager.Turns.{
  send_prompt, cancel, respond_permission, rename_session, archive_session, set_mode,
  set_config_option,
}
use slight.Manager.Pump.{pump_all}
use slight.Manager.Open.{create_session, import_session, list_agent_sessions}
use slight.Manager.Listing.{workspace_paths}
use slight.Manager.Replay.{subscribe}

module _ {X : Externals} (S : System X) where
  unfoldable pub pump_after : M X (Unit {0}) → M X (Unit {0})
  pump_after m = do m; stateful (pump_all S); pure tt

  unfoldable pub send_input : String → String → M X (Unit {0})
  send_input id text = pump_after (send_prompt S id text)

  unfoldable pub cancel_input : String → M X (Unit {0})
  cancel_input id = pump_after (cancel S id)

  unfoldable pub answer_permission : String → String → String → M X (Unit {0})
  answer_permission id permission_id option_id =
      pump_after (respond_permission S id permission_id option_id)

pub data Call : Type 0 where
  creates : CreateSessionRequest → Call
  imports : ImportSessionRequest → Call
  sends : String → String → Call
  cancels : String → Call
  answers : String → String → String → Call
  renames : String → String → Call
  archives : String → Bool → Call
  sets_mode : String → String → Call
  sets_option : String → String → String → Call
  lists_agent : AgentKind → Option String → Option String → Call
  finds_workspaces : ℕ → Call
  subscribes : String → Call
  pumps : Call

module _ {X : Externals} (S : System X) where
  -- The state after a call, whether it succeeds or fails.
  unfoldable pub perform : Call → Inner X → Inner X
  perform (creates request) i = (create_session S request i).1
  perform (imports request) i = (import_session S request i).1
  perform (sends id text) i = (send_input S id text i).1
  perform (cancels id) i = (cancel_input S id i).1
  perform (answers id permission_id option_id) i =
      (answer_permission S id permission_id option_id i).1
  perform (renames id title) i = (rename_session S id title i).1
  perform (archives id archived) i = (archive_session S id archived i).1
  perform (sets_mode id mode_id) i = (set_mode S id mode_id i).1
  perform (sets_option id config_id value_id) i = (set_config_option S id config_id value_id i).1
  perform (lists_agent kind cwd cursor) i = (list_agent_sessions S kind cwd cursor i).1
  perform (finds_workspaces limit) i = (workspace_paths S limit i).1
  perform (subscribes id) i = (subscribe id i).1
  perform pumps i = (pump_all S i).1

  unfoldable pub run : List Call → Inner X → Inner X
  run [] i = i
  run (c ∷ cs) i = run cs (perform c i)
