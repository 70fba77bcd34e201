-- ===== src/Gateway/Server/Auth.antt =====
-- rust/gateway-server/src/auth.rs, and `authorize` of rust/gateway-server/src/server.rs.
use slight.Base.{String, List, [], ◌∷◌, Option, none, some, Bool, true, false, ◌||◌, if◌then◌else◌}
use slight.Base.Text.{◌++◌}
use slight.Base.Exec.{Result, ok, err}
use slight.Gateway.Protocol.Errors.{ProtocolError, unauthorized}
use slight.Gateway.Protocol.Commands.{CommandName, parse_name}

pub data Scope : Type 0 where
  read_sessions send_input respond_permission create_session manage_host : Scope

-- The `Debug` form of a scope.
unfoldable pub scope_debug : Scope → String
scope_debug read_sessions = "ReadSessions"
scope_debug send_input = "SendInput"
scope_debug respond_permission = "RespondPermission"
scope_debug create_session = "CreateSession"
scope_debug manage_host = "ManageHost"

-- The derived equality.
unfoldable pub same_scope : Scope → Scope → Bool
same_scope read_sessions read_sessions = true
same_scope send_input send_input = true
same_scope respond_permission respond_permission = true
same_scope create_session create_session = true
same_scope manage_host manage_host = true
same_scope _ _ = false

-- `scopes` is a `BTreeSet`, as the list of its members.
pub record AuthContext : Type 0 where
  pub device_id : String
  pub device_label : String
  pub scopes : List Scope

unfoldable pub all_scopes : String → String → AuthContext
all_scopes device_id device_label = record {
  device_id = device_id;
  device_label = device_label;
  scopes = read_sessions ∷ send_input ∷ respond_permission ∷ create_session ∷ manage_host ∷ [];
}

unfoldable pub holds : Scope → List Scope → Bool
holds scope [] = false
holds scope (s ∷ scopes) = same_scope s scope || holds scope scopes

abbrev pub has : AuthContext → Scope → Bool
has context scope = holds scope context.scopes

-- The scope that a command asks for.
unfoldable pub command_scope : CommandName → Option Scope
command_scope CommandName.session_list = some read_sessions
command_scope CommandName.session_working_directories = some read_sessions
command_scope CommandName.session_attach = some read_sessions
command_scope CommandName.session_detach = some read_sessions
command_scope CommandName.session_inspect = some read_sessions
command_scope CommandName.session_history = some read_sessions
command_scope CommandName.session_resume = some read_sessions
command_scope CommandName.events_replay = some read_sessions
command_scope CommandName.agent_sessions_list = some read_sessions
command_scope CommandName.session_create = some create_session
command_scope CommandName.agent_session_import = some create_session
command_scope CommandName.session_input = some send_input
command_scope CommandName.session_cancel = some send_input
command_scope CommandName.session_rename = some send_input
command_scope CommandName.session_archive = some send_input
command_scope CommandName.session_set_mode = some send_input
command_scope CommandName.session_permission_respond = some respond_permission
command_scope CommandName.host_status = some manage_host
command_scope CommandName.host_start = some manage_host
command_scope CommandName.host_stop = some manage_host
command_scope CommandName.host_restart = some manage_host
command_scope CommandName.host_configuration = some manage_host
command_scope CommandName.host_diagnostics = some manage_host
command_scope CommandName.host_shutdown = some manage_host
command_scope CommandName.device_list = some manage_host
command_scope CommandName.device_revoke = some manage_host
command_scope CommandName.pairing_create = some manage_host
command_scope CommandName.pairing_list = some manage_host
command_scope _ = none

unfoldable pub required_scope : String → Option Scope
required_scope command = elim (parse_name command) [ none ↦ none | some c ↦ command_scope c ]

unfoldable pub authorize : AuthContext → String → Result (Unit {0}) ProtocolError
authorize context command = elim (required_scope command) [
  | none ↦ ok tt
  | some scope ↦
      if has context scope
      then ok tt
      else err (unauthorized (command ++ (" requires " ++ scope_debug scope)))
]
