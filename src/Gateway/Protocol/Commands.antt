-- ===== src/Gateway/Protocol/Commands.antt =====
-- rust/gateway-protocol/src/commands.rs: the names of the commands and their parameters.
use slight.Base.{ℕ, String, Option, none, some, Bool, if◌then◌else◌}
use slight.Base.Text.{◌==◌}
use slight.Types.Request.{SessionRecovery}

-- The constants of `command_name`.
pub data CommandName : Type 0 where
  session_resume session_list session_working_directories session_create : CommandName
  session_attach session_detach session_input session_cancel : CommandName
  session_rename session_archive session_set_mode session_set_config_option : CommandName
  session_permission_respond session_inspect session_history events_replay : CommandName
  agent_sessions_list agent_session_import host_status host_start : CommandName
  host_stop host_restart host_configuration host_diagnostics : CommandName
  host_shutdown device_list device_revoke pairing_create : CommandName
  pairing_list : CommandName

unfoldable pub wire_name : CommandName → String
wire_name session_resume = "session.resume"
wire_name session_list = "session.list"
wire_name session_working_directories = "session.working_directories"
wire_name session_create = "session.create"
wire_name session_attach = "session.attach"
wire_name session_detach = "session.detach"
wire_name session_input = "session.input"
wire_name session_cancel = "session.cancel"
wire_name session_rename = "session.rename"
wire_name session_archive = "session.archive"
wire_name session_set_mode = "session.set_mode"
wire_name session_set_config_option = "session.set_config_option"
wire_name session_permission_respond = "session.permission.respond"
wire_name session_inspect = "session.inspect"
wire_name session_history = "session.history"
wire_name events_replay = "events.replay"
wire_name agent_sessions_list = "agent.sessions.list"
wire_name agent_session_import = "agent.sessions.import"
wire_name host_status = "host.status"
wire_name host_start = "host.start"
wire_name host_stop = "host.stop"
wire_name host_restart = "host.restart"
wire_name host_configuration = "host.configuration"
wire_name host_diagnostics = "host.diagnostics"
wire_name host_shutdown = "host.shutdown"
wire_name device_list = "device.list"
wire_name device_revoke = "device.revoke"
wire_name pairing_create = "pairing.create"
wire_name pairing_list = "pairing.list"

-- A `match` on the constants: the command that a text names, if it names one.
unfoldable pub parse_name : String → Option CommandName
parse_name s =
    if s == "session.resume"
    then some session_resume
    else if s == "session.list"
    then some session_list
    else if s == "session.working_directories"
    then some session_working_directories
    else if s == "session.create"
    then some session_create
    else if s == "session.attach"
    then some session_attach
    else if s == "session.detach"
    then some session_detach
    else if s == "session.input"
    then some session_input
    else if s == "session.cancel"
    then some session_cancel
    else if s == "session.rename"
    then some session_rename
    else if s == "session.archive"
    then some session_archive
    else if s == "session.set_mode"
    then some session_set_mode
    else if s == "session.set_config_option"
    then some session_set_config_option
    else if s == "session.permission.respond"
    then some session_permission_respond
    else if s == "session.inspect"
    then some session_inspect
    else if s == "session.history"
    then some session_history
    else if s == "events.replay"
    then some events_replay
    else if s == "agent.sessions.list"
    then some agent_sessions_list
    else if s == "agent.sessions.import"
    then some agent_session_import
    else if s == "host.status"
    then some host_status
    else if s == "host.start"
    then some host_start
    else if s == "host.stop"
    then some host_stop
    else if s == "host.restart"
    then some host_restart
    else if s == "host.configuration"
    then some host_configuration
    else if s == "host.diagnostics"
    then some host_diagnostics
    else if s == "host.shutdown"
    then some host_shutdown
    else if s == "device.list"
    then some device_list
    else if s == "device.revoke"
    then some device_revoke
    else if s == "pairing.create"
    then some pairing_create
    else if s == "pairing.list"
    then some pairing_list
    else none

pub record CreateSessionParams : Type 0 where
  pub agent : String
  pub model : Option String
  pub effort : Option String
  pub working_directory_label : String
  pub initial_prompt : Option String

pub record AttachSessionParams : Type 0 where
  pub after_sequence : Option ℕ

pub record SessionHistoryParams : Type 0 where
  pub before_sequence : Option ℕ
  pub limit : Option ℕ

pub record AgentSessionsListParams : Type 0 where
  pub agent : String
  pub working_directory_label : Option String
  pub cursor : Option String

pub record ImportAgentSessionParams : Type 0 where
  pub agent : String
  pub agent_session_id : String
  pub working_directory_label : String
  pub recovery : SessionRecovery
  pub title : Option String

pub record SendInputParams : Type 0 where
  pub text : String

pub record RenameSessionParams : Type 0 where
  pub title : String

pub record ArchiveSessionParams : Type 0 where
  pub archived : Bool

pub record SetSessionModeParams : Type 0 where
  pub mode_id : String

pub record SetSessionConfigOptionParams : Type 0 where
  pub config_id : String
  pub value_id : String

pub record RespondPermissionParams : Type 0 where
  pub permission_id : String
  pub option_id : String

pub record BeginPairingParams : Type 0 where
  pub label : String

pub record RevokeDeviceParams : Type 0 where
  pub device_id : String
