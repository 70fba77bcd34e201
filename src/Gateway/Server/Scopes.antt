-- ===== src/Gateway/Server/Scopes.antt =====
-- rust/gateway-server/src/server.rs: which commands ask for a scope.
use slight.Base.{String, none, some, true, false, ◌≡◌, refl, ◌∙◌, ◌↔◌, ◌⊎◌, inl, inr, Bool-cases}
use slight.Base.Text.{◌++◌}
use slight.Gateway.Protocol.Errors.{ProtocolError, unauthorized}
use slight.Base.Exec.{ok, err}
use slight.Gateway.Protocol.Commands.{CommandName, wire_name, parse_name}
use slight.Gateway.Server.Auth.{
  read_sessions, send_input, respond_permission, create_session, manage_host, AuthContext, Scope,
  has, command_scope, required_scope, authorize, scope_debug,
}

parse_name-wire_name : (c : CommandName) → parse_name (wire_name c) ≡ some c
unfolding parse_name wire_name
parse_name-wire_name CommandName.session_resume = refl
parse_name-wire_name CommandName.session_list = refl
parse_name-wire_name CommandName.session_working_directories = refl
parse_name-wire_name CommandName.session_create = refl
parse_name-wire_name CommandName.session_attach = refl
parse_name-wire_name CommandName.session_detach = refl
parse_name-wire_name CommandName.session_input = refl
parse_name-wire_name CommandName.session_cancel = refl
parse_name-wire_name CommandName.session_rename = refl
parse_name-wire_name CommandName.session_archive = refl
parse_name-wire_name CommandName.session_set_mode = refl
parse_name-wire_name CommandName.session_set_config_option = refl
parse_name-wire_name CommandName.session_permission_respond = refl
parse_name-wire_name CommandName.session_inspect = refl
parse_name-wire_name CommandName.session_history = refl
parse_name-wire_name CommandName.events_replay = refl
parse_name-wire_name CommandName.agent_sessions_list = refl
parse_name-wire_name CommandName.agent_session_import = refl
parse_name-wire_name CommandName.host_status = refl
parse_name-wire_name CommandName.host_start = refl
parse_name-wire_name CommandName.host_stop = refl
parse_name-wire_name CommandName.host_restart = refl
parse_name-wire_name CommandName.host_configuration = refl
parse_name-wire_name CommandName.host_diagnostics = refl
parse_name-wire_name CommandName.host_shutdown = refl
parse_name-wire_name CommandName.device_list = refl
parse_name-wire_name CommandName.device_revoke = refl
parse_name-wire_name CommandName.pairing_create = refl
parse_name-wire_name CommandName.pairing_list = refl

-- The scope that protocol/gateway-v1.md gives each command; it has no rows for session.history and
-- session.archive, which here are taken with the other reads and the other changes of a session.
unfoldable pub documented_scope : CommandName → Scope
documented_scope CommandName.session_resume = read_sessions
documented_scope CommandName.session_list = read_sessions
documented_scope CommandName.session_working_directories = read_sessions
documented_scope CommandName.session_create = create_session
documented_scope CommandName.session_attach = read_sessions
documented_scope CommandName.session_detach = read_sessions
documented_scope CommandName.session_input = send_input
documented_scope CommandName.session_cancel = send_input
documented_scope CommandName.session_rename = send_input
documented_scope CommandName.session_archive = send_input
documented_scope CommandName.session_set_mode = send_input
documented_scope CommandName.session_set_config_option = send_input
documented_scope CommandName.session_permission_respond = respond_permission
documented_scope CommandName.session_inspect = read_sessions
documented_scope CommandName.session_history = read_sessions
documented_scope CommandName.events_replay = read_sessions
documented_scope CommandName.agent_sessions_list = read_sessions
documented_scope CommandName.agent_session_import = create_session
documented_scope CommandName.host_status = manage_host
documented_scope CommandName.host_start = manage_host
documented_scope CommandName.host_stop = manage_host
documented_scope CommandName.host_restart = manage_host
documented_scope CommandName.host_configuration = manage_host
documented_scope CommandName.host_diagnostics = manage_host
documented_scope CommandName.host_shutdown = manage_host
documented_scope CommandName.device_list = manage_host
documented_scope CommandName.device_revoke = manage_host
documented_scope CommandName.pairing_create = manage_host
documented_scope CommandName.pairing_list = manage_host

command_scope-documented_scope :
    (c : CommandName)
    → (c ≡ CommandName.session_set_config_option × command_scope c ≡ none)
      ⊎ (command_scope c ≡ some (documented_scope c))
unfolding command_scope documented_scope
command_scope-documented_scope CommandName.session_resume = inr refl
command_scope-documented_scope CommandName.session_list = inr refl
command_scope-documented_scope CommandName.session_working_directories = inr refl
command_scope-documented_scope CommandName.session_create = inr refl
command_scope-documented_scope CommandName.session_attach = inr refl
command_scope-documented_scope CommandName.session_detach = inr refl
command_scope-documented_scope CommandName.session_input = inr refl
command_scope-documented_scope CommandName.session_cancel = inr refl
command_scope-documented_scope CommandName.session_rename = inr refl
command_scope-documented_scope CommandName.session_archive = inr refl
command_scope-documented_scope CommandName.session_set_mode = inr refl
command_scope-documented_scope CommandName.session_set_config_option = inl (refl, refl)
command_scope-documented_scope CommandName.session_permission_respond = inr refl
command_scope-documented_scope CommandName.session_inspect = inr refl
command_scope-documented_scope CommandName.session_history = inr refl
command_scope-documented_scope CommandName.events_replay = inr refl
command_scope-documented_scope CommandName.agent_sessions_list = inr refl
command_scope-documented_scope CommandName.agent_session_import = inr refl
command_scope-documented_scope CommandName.host_status = inr refl
command_scope-documented_scope CommandName.host_start = inr refl
command_scope-documented_scope CommandName.host_stop = inr refl
command_scope-documented_scope CommandName.host_restart = inr refl
command_scope-documented_scope CommandName.host_configuration = inr refl
command_scope-documented_scope CommandName.host_diagnostics = inr refl
command_scope-documented_scope CommandName.host_shutdown = inr refl
command_scope-documented_scope CommandName.device_list = inr refl
command_scope-documented_scope CommandName.device_revoke = inr refl
command_scope-documented_scope CommandName.pairing_create = inr refl
command_scope-documented_scope CommandName.pairing_list = inr refl

required_scope-wire_name : (c : CommandName) → required_scope (wire_name c) ≡ command_scope c
unfolding required_scope
required_scope-wire_name c = rw (parse_name-wire_name c, required_scope) refl

abbrev pub lacking : String → Scope → ProtocolError
lacking name s = unauthorized (name ++ (" requires " ++ scope_debug s))

module _ (context : AuthContext) (name : String) where
  authorize_free : required_scope name ≡ none → authorize context name ≡ ok tt
  unfolding authorize
  authorize_free e = rw (e, authorize) refl

  authorize_held :
      (s : Scope)
      → required_scope name ≡ some s
      → has context s ≡ true
      → authorize context name ≡ ok tt
  unfolding authorize
  authorize_held s e h = rw (e, authorize, h) refl

  pub authorize-lacking :
      (s : Scope)
      → required_scope name ≡ some s
      → has context s ≡ false
      → authorize context name ≡ err (lacking name s)
  unfolding authorize
  authorize-lacking s e h = rw (e, authorize, h) refl

-- For every command, either it is session.set_config_option and every device is authorized, or
-- exactly those devices are authorized that hold the scope which protocol/gateway-v1.md gives the
-- command (session.history and session.archive, which it does not list, taken as a read and an
-- input).
pub authorize-documented_scope :
    (context : AuthContext) (c : CommandName)
    → ((c ≡ CommandName.session_set_config_option) × (authorize context (wire_name c) ≡ ok tt))
      ⊎ ((authorize context (wire_name c) ≡ ok tt) ↔ (has context (documented_scope c) ≡ true))
authorize-documented_scope context c =
    let name = wire_name c in
    elim (command_scope-documented_scope c) [
      | inl (same, free) ↦
          inl (same, authorize_free context name (required_scope-wire_name c ∙ free))
      | inr e ↦
          let asked = required_scope-wire_name c ∙ e in
          inr (
            λ h. elim (Bool-cases (has context (documented_scope c))) [
              | inl held ↦ held
              | inr not_held ↦
                  let refused =
                    authorize-lacking context name (documented_scope c) asked not_held in
                  absurd cc
            ],
            λ held. authorize_held context name (documented_scope c) asked held,
          )
    ]
