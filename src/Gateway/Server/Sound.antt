-- ===== src/Gateway/Server/Sound.antt =====
-- What each arm of `dispatch` keeps: a property of the manager that the manager's own methods keep,
-- and any property of the frames that wait.
use slight.Base.{ℕ, String, List, Option, none, some, Bool, ◌≡◌, refl, ◌∙◌}
use slight.Base.Exec.{stateful, Result, ok, err}
use slight.Base.Exec.Keeps.{Keeps, Keeps-stateful, Keeps-modify, keeps_rules}
use slight.Acp.External.{Externals}
use slight.Types.Request.{SessionError}
use slight.Manager.State.{Inner, M}
use slight.Manager.Api.{
  Call, creates, imports, sends, cancels, answers, renames, archives, sets_mode, sets_option,
  lists_agent, finds_workspaces, subscribes, perform,
}
use slight.Base.HashMap.{HashMap}
use slight.Acp.Kinds.{AgentKind}
use slight.Types.Request.{CreateSessionRequest, ImportSessionRequest}
use slight.Manager.Turns.{rename_session, archive_session, set_mode, set_config_option}
use slight.Manager.Replay.{subscribe}
use slight.Manager.Open.{create_session, import_session, list_agent_sessions}
use slight.Gateway.Server.Auth.{AuthContext}
use slight.Manager.Api.{send_input, cancel_input, answer_permission}
use slight.Manager.Listing.{workspace_paths}
use slight.Gateway.Protocol.Frames.{GatewayCommand, Frame}
use slight.Gateway.Protocol.Errors.{ProtocolError}
use slight.Gateway.Protocol.Commands.{CommandName}
use slight.Gateway.Server.State.{
  Gateway, Shared, ConnState, on_manager, reading, on_host, asking_host, meanwhile, on_connection,
}
use slight.Gateway.Server.Handlers.{
  session_error, session_required, params_required, keep_receiver, detached, try_subscribe,
  attach_and_subscribe, list_command, working_directories_command, create_command,
  agent_sessions_command, import_command, attach_command, replay_command, history_command,
  detach_command, input_command, cancel_command, rename_command, archive_command, set_mode_command,
  set_config_option_command, permission_command, inspect_command, status_command, lifecycle_command,
  diagnostics_command, pairing_create_command, pairing_list_command, device_list_command,
  device_revoke_command,
}
use slight.Gateway.Server.Dispatch.{handle, handle_named}

-- What the manager's own calls keep, what happens between two locks, and the clock.
pub record IsKept {X : Externals} {H : Type 0} (g : Gateway X H) (P : Inner X → Type 0)
    : Type 0 where
  pub calls : (c : Call) (i : Inner X) → P i → P (perform g.system c i)
  pub between : (i : Inner X) → P i → P (g.others i)
  pub ticks : (m : ℕ) (i : Inner X) → P i → P (record i { moment = m })

-- What the connection remembers, its subscriptions aside.
abbrev pub memory :
    {X : Externals} → ConnState X → Option AuthContext × Bool × HashMap (Frame X) × List String
memory c = (c.authed, c.welcome_sent, c.completed_commands, c.completed_command_order)

-- The manager has the property, and the queue and the memory are as they were.
pub record IsFine {X : Externals} {H : Type 0} (P : Inner X → Type 0) (before w : Shared X H)
    : Type 0 where
  pub sound : P w.sessions
  pub queued : w.outbound ≡ before.outbound
  pub memorized : memory w.connection ≡ memory before.connection

module _ {X : Externals} {H : Type 0} {P : Inner X → Type 0} {before : Shared X H} where
  Keeps-on_manager :
      {A : Type 0} (f : SessionError → ProtocolError) (m : M X A)
      → Keeps P m
      → Keeps (IsFine P before) (on_manager f m)
  unfolding on_manager
  Keeps-on_manager f m k = record {
    at = λ w v. record {
      sound = k.at w.sessions v.sound;
      queued = v.queued;
      memorized = v.memorized;
    };
  }

  Keeps-reading : {A : Type 0} (f : Inner X → A) → Keeps (IsFine P before) (reading f)
  unfolding reading
  Keeps-reading f = search keeps_rules

  Keeps-on_host :
      {A : Type 0} (f : H → Result A ProtocolError × H) → Keeps (IsFine P before) (on_host f)
  unfolding on_host
  Keeps-on_host f = record {
    at = λ w v. record { sound = v.sound; queued = v.queued; memorized = v.memorized };
  }

  Keeps-asking_host : {A : Type 0} (f : H → A × H) → Keeps (IsFine P before) (asking_host f)
  unfolding asking_host
  Keeps-asking_host f = record {
    at = λ w v. record { sound = v.sound; queued = v.queued; memorized = v.memorized };
  }

  Keeps-meanwhile :
      (others : Inner X → Inner X)
      → ((i : Inner X) → P i → P (others i))
      → Keeps (IsFine P before) (meanwhile others)
  unfolding meanwhile
  Keeps-meanwhile others k =
      Keeps-modify _
        λ w v. record { sound = k w.sessions v.sound; queued = v.queued; memorized = v.memorized }

  Keeps-on_connection :
      (f : ConnState X → ConnState X)
      → ((c : ConnState X) → memory (f c) ≡ memory c)
      → Keeps (IsFine P before) (on_connection f)
  unfolding on_connection
  Keeps-on_connection f same = Keeps-modify _ λ w v. record {
    sound = v.sound;
    queued = v.queued;
    memorized = same w.connection ∙ v.memorized;
  }

memory-keep_receiver :
    {X : Externals} (id : String) (r : Result ℕ ProtocolError) (c : ConnState X)
    → memory (keep_receiver id r c) ≡ memory c
unfolding keep_receiver
memory-keep_receiver id (ok place) c = refl
memory-keep_receiver id (err e) c = refl

memory-detached :
    {X : Externals} (id : Option String) (c : ConnState X) → memory (detached id c) ≡ memory c
unfolding detached
memory-detached none c = refl
memory-detached (some id) c = refl

module _ {X : Externals} {H : Type 0} (g : Gateway X H) {P : Inner X → Type 0}
    (k : IsKept g P) where
  Keeps-create_session : (r : CreateSessionRequest) → Keeps P (create_session g.system r)
  Keeps-create_session r = record { at = unfold perform in k.calls (creates r) }

  Keeps-import_session : (r : ImportSessionRequest) → Keeps P (import_session g.system r)
  Keeps-import_session r = record { at = unfold perform in k.calls (imports r) }

  Keeps-send_input : (id text : String) → Keeps P (send_input g.system id text)
  Keeps-send_input id text = record { at = unfold perform in k.calls (sends id text) }

  Keeps-cancel_input : (id : String) → Keeps P (cancel_input g.system id)
  Keeps-cancel_input id = record { at = unfold perform in k.calls (cancels id) }

  Keeps-answer_permission : (id p o : String) → Keeps P (answer_permission g.system id p o)
  Keeps-answer_permission id p o = record { at = unfold perform in k.calls (answers id p o) }

  Keeps-rename_session : (id title : String) → Keeps P (rename_session g.system id title)
  Keeps-rename_session id title = record { at = unfold perform in k.calls (renames id title) }

  Keeps-archive_session :
      (id : String) (archived : Bool) → Keeps P (archive_session g.system id archived)
  Keeps-archive_session id archived = record {
    at = unfold perform in k.calls (archives id archived);
  }

  Keeps-set_mode : (id mode_id : String) → Keeps P (set_mode g.system id mode_id)
  Keeps-set_mode id mode_id = record { at = unfold perform in k.calls (sets_mode id mode_id) }

  Keeps-set_config_option : (id c o : String) → Keeps P (set_config_option g.system id c o)
  Keeps-set_config_option id c o = record { at = unfold perform in k.calls (sets_option id c o) }

  Keeps-list_agent_sessions :
      (kind : AgentKind) (cwd cursor : Option String)
      → Keeps P (list_agent_sessions g.system kind cwd cursor)
  Keeps-list_agent_sessions kind cwd cursor = record {
    at = unfold perform in k.calls (lists_agent kind cwd cursor);
  }

  Keeps-workspace_paths :
      (limit : ℕ) → Keeps P (stateful {E = SessionError} (workspace_paths g.system limit))
  Keeps-workspace_paths limit =
      Keeps-stateful _ (unfold perform in k.calls (finds_workspaces limit))

  Keeps-subscribe : (id : String) → Keeps P (subscribe {X = X} id)
  Keeps-subscribe id = record { at = unfold perform in k.calls (subscribes id) }

  module _ {before : Shared X H} where
    Keeps-others : Keeps (IsFine P before) (meanwhile g.others)
    Keeps-others = Keeps-meanwhile g.others k.between

    Keeps-session_required :
        (command : GatewayCommand X) → Keeps (IsFine P before) (session_required g command)
    unfolding session_required
    Keeps-session_required command = search keeps_rules

    Keeps-params_required :
        {T : Type 0} (decode : X.Value → Result T String) (command : GatewayCommand X)
        → Keeps (IsFine P before) (params_required g decode command)
    unfolding params_required
    Keeps-params_required decode command = search keeps_rules

    Keeps-try_subscribe : (id : String) → Keeps (IsFine P before) (try_subscribe g id)
    unfolding try_subscribe
    Keeps-try_subscribe id = record {
      at = λ w v.
          (Keeps-on_connection _ (memory-keep_receiver id _)).at _
            ((Keeps-on_manager session_error _ (Keeps-subscribe id)).at w v);
    }

    Keeps-attach_and_subscribe :
        (command : GatewayCommand X) → Keeps (IsFine P before) (attach_and_subscribe g command)
    unfolding attach_and_subscribe
    Keeps-attach_and_subscribe command =
        search
          (keeps_rules, Keeps-reading, Keeps-session_required, Keeps-try_subscribe, Keeps-others)
          depth 16

ruleset handler_rules = (
  keeps_rules, Keeps-on_manager, Keeps-reading, Keeps-on_host, Keeps-asking_host, Keeps-others,
  Keeps-on_connection, memory-detached, Keeps-workspace_paths, Keeps-send_input, Keeps-cancel_input,
  Keeps-answer_permission, Keeps-session_required, Keeps-params_required,
  Keeps-attach_and_subscribe, Keeps-create_session, Keeps-import_session, Keeps-list_agent_sessions,
  Keeps-rename_session, Keeps-archive_session, Keeps-set_mode, Keeps-set_config_option,
)

module _ {X : Externals} {H : Type 0} (g : Gateway X H) {P : Inner X → Type 0}
    (k : IsKept g P) where
  module _ {before : Shared X H} where
    handle-IsFine :
        (name : CommandName) (command : GatewayCommand X)
        → Keeps (IsFine P before) (handle g name command)
    unfolding handle
    handle-IsFine CommandName.session_list command =
        unfold list_command in search handler_rules depth 16
    handle-IsFine CommandName.session_working_directories command =
        unfold working_directories_command in search handler_rules depth 16
    handle-IsFine CommandName.session_create command =
        unfold create_command in search handler_rules depth 16
    handle-IsFine CommandName.agent_sessions_list command =
        unfold agent_sessions_command in search handler_rules depth 16
    handle-IsFine CommandName.agent_session_import command =
        unfold import_command in search handler_rules depth 16
    handle-IsFine CommandName.session_attach command =
        unfold attach_command in search handler_rules depth 16
    handle-IsFine CommandName.session_resume command =
        unfold attach_command in search handler_rules depth 16
    handle-IsFine CommandName.events_replay command =
        unfold replay_command in search handler_rules depth 16
    handle-IsFine CommandName.session_history command =
        unfold history_command in search handler_rules depth 16
    handle-IsFine CommandName.session_detach command =
        unfold detach_command in search handler_rules depth 16
    handle-IsFine CommandName.session_input command =
        unfold input_command in search handler_rules depth 16
    handle-IsFine CommandName.session_cancel command =
        unfold cancel_command in search handler_rules depth 16
    handle-IsFine CommandName.session_rename command =
        unfold rename_command in search handler_rules depth 16
    handle-IsFine CommandName.session_archive command =
        unfold archive_command in search handler_rules depth 16
    handle-IsFine CommandName.session_set_mode command =
        unfold set_mode_command in search handler_rules depth 16
    handle-IsFine CommandName.session_set_config_option command =
        unfold set_config_option_command in search handler_rules depth 16
    handle-IsFine CommandName.session_permission_respond command =
        unfold permission_command in search handler_rules depth 16
    handle-IsFine CommandName.session_inspect command =
        unfold inspect_command in search handler_rules depth 16
    handle-IsFine CommandName.host_status command =
        unfold status_command in search handler_rules depth 16
    handle-IsFine CommandName.host_start command =
        unfold lifecycle_command in search handler_rules depth 16
    handle-IsFine CommandName.host_stop command =
        unfold lifecycle_command in search handler_rules depth 16
    handle-IsFine CommandName.host_shutdown command =
        unfold lifecycle_command in search handler_rules depth 16
    handle-IsFine CommandName.host_restart command =
        unfold lifecycle_command in search handler_rules depth 16
    handle-IsFine CommandName.host_diagnostics command =
        unfold diagnostics_command in search handler_rules depth 16
    handle-IsFine CommandName.host_configuration command =
        unfold status_command in search handler_rules depth 16
    handle-IsFine CommandName.pairing_create command =
        unfold pairing_create_command in search handler_rules depth 16
    handle-IsFine CommandName.pairing_list command =
        unfold pairing_list_command in search handler_rules depth 16
    handle-IsFine CommandName.device_list command =
        unfold device_list_command in search handler_rules depth 16
    handle-IsFine CommandName.device_revoke command =
        unfold device_revoke_command in search handler_rules depth 16

    -- The arm of a text, the unknown ones included.
    pub handle_named-IsFine :
        (name : Option CommandName) (command : GatewayCommand X)
        → Keeps (IsFine P before) (handle_named g name command)
    unfolding handle_named
    handle_named-IsFine none command = search keeps_rules
    handle_named-IsFine (some name) command = handle-IsFine name command
