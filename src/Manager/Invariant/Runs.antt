-- ===== src/Manager/Invariant/Runs.antt =====
-- The invariant along any run of calls, and of a manager started on a store.
use slight.Base.{ℕ, String, List, [], ◌∷◌, none, Bool, true, false, if◌then◌else◌}
use slight.Base.Exec.Keeps.{Keeps, Keeps-pure, Keeps-bind, Keeps-stateful}
use slight.Acp.External.{Externals}
use slight.Acp.Kinds.{AgentKind}
use slight.Manager.State.{Inner, System, M}
use slight.Manager.Listing.{add_paths, page_paths, reached, agent_paths, workspace_paths}
use slight.Manager.Open.{list_agent_sessions}
use slight.Manager.Api.{
  send_input, cancel_input, answer_permission, pump_after, Call, creates, imports, sends, cancels,
  answers, renames, archives, sets_mode, sets_option, lists_agent, finds_workspaces, subscribes,
  pumps, perform, run,
}
use slight.Manager.Invariant.{Inv}
use slight.Manager.Invariant.Methods.{
  send_prompt-Inv, cancel-Inv, respond_permission-Inv, rename_session-Inv, archive_session-Inv,
  set_mode-Inv, set_config_option-Inv,
}
use slight.Manager.Invariant.Events.{pump_all-Inv}
use slight.Manager.Invariant.Opening.{
  create_session-Inv, import_session-Inv, list_agent_sessions-Inv, subscribe-Inv,
}

module _ {X : Externals} where
  either-Inv :
      (b : Bool) (x y : List String × Inner X) → Inv x.1 → Inv y.1 → Inv (if b then x else y).1
  either-Inv true x y hx hy = hx
  either-Inv false x y hx hy = hy

module _ {X : Externals} (S : System X) where
  pump_after-Inv : (m : M X (Unit {0})) → Keeps Inv m → Keeps Inv (pump_after S m)
  unfolding pump_after
  pump_after-Inv m k =
      Keeps-bind m _ k λ _. Keeps-bind _ _ (Keeps-stateful _ (pump_all-Inv S)) λ _. Keeps-pure tt

  agent_paths-Inv :
      (limit : ℕ) (kinds : List AgentKind) (paths : List String) (i : Inner X)
      → Inv i
      → Inv (agent_paths S limit kinds paths i).1
  unfolding agent_paths
  agent_paths-Inv limit [] paths i v = v
  agent_paths-Inv limit (kind ∷ rest) paths i v =
      let (r, i') = list_agent_sessions S kind none none i in
      let kept = (list_agent_sessions-Inv S kind none none).at i v in
      let found = add_paths limit paths (page_paths r) in
      either-Inv (reached limit paths found) (found, i') (agent_paths S limit rest found i') kept
        (agent_paths-Inv limit rest found i' kept)

  -- One call keeps the invariant.
  pub perform-Inv : (c : Call) (i : Inner X) → Inv i → Inv (perform S c i)
  unfolding perform send_input cancel_input answer_permission workspace_paths
  perform-Inv (creates request) i v = (create_session-Inv S request).at i v
  perform-Inv (imports request) i v = (import_session-Inv S request).at i v
  perform-Inv (sends id text) i v = (pump_after-Inv _ (send_prompt-Inv S id text)).at i v
  perform-Inv (cancels id) i v = (pump_after-Inv _ (cancel-Inv S id)).at i v
  perform-Inv (answers id p o) i v = (pump_after-Inv _ (respond_permission-Inv S id p o)).at i v
  perform-Inv (renames id title) i v = (rename_session-Inv S id title).at i v
  perform-Inv (archives id archived) i v = (archive_session-Inv S id archived).at i v
  perform-Inv (sets_mode id mode_id) i v = (set_mode-Inv S id mode_id).at i v
  perform-Inv (sets_option id c o) i v = (set_config_option-Inv S id c o).at i v
  perform-Inv (lists_agent kind cwd cursor) i v = (list_agent_sessions-Inv S kind cwd cursor).at i v
  perform-Inv (finds_workspaces limit) i v = agent_paths-Inv limit _ _ i v
  perform-Inv (subscribes id) i v = (subscribe-Inv S id).at i v
  perform-Inv pumps i v = pump_all-Inv S i v

  -- From a sound manager, whatever the calls, in any order, and whatever the agents do, every live
  -- session stays sound: its journal is consecutive, ends at its last sequence number and keeps
  -- within the limit, it stands under its own id, and it runs until its exit is reported.
  pub run-Inv : (cs : List Call) (i : Inner X) → Inv i → Inv (run S cs i)
  unfolding run
  run-Inv [] i v = v
  run-Inv (c ∷ cs) i v = run-Inv cs (perform S c i) (perform-Inv c i v)
