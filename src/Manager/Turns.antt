-- ===== src/Manager/Turns.antt =====
-- rust/session-core/src/manager.rs: the methods that a client's request runs on a live session.
pub mod Permissions
pub mod Prompts
pub mod Titles
pub mod Cancels
pub mod Archives
use slight.Base.{String, List, [], ◌∷◌, Option, none, some, Bool, if◌then◌else◌}
use slight.Base.Text.{◌==◌, trim, is_empty}
use slight.Base.HashMap.{get, adjust}
use slight.Base.Exec.{ok, err, ok_or, pure, raise, lift, modify, ◌>>=◌, ◌>>◌}
use slight.Acp.External.{Externals}
use slight.Acp.Kinds.{user, info}
use slight.Acp.Metadata.{AcpModeState, AcpConfigOption}
use slight.Types.Block.{text_block}
use slight.Types.Payload.{SessionStatus, idle, working, PermissionRequestPayload}
use slight.Types.Event.{
  SessionSummary, SessionEvent, status, message, mode, config_options, diagnostics,
  permission_resolved, snapshot,
}
use slight.Types.Request.{
  unknown_session, not_running, empty_title, no_pending_permission, permission_mismatch,
}
use slight.Manager.State.{Session, RecoveredSession, Inner, System, M}
use slight.Manager.Steps.{require, change, observe, call, persist_session, append}

abbrev pub set_mode_in : String → Option AcpModeState → Option AcpModeState
set_mode_in mode_id none = none
set_mode_in mode_id (some m) = some (record m { current_mode_id = mode_id })

abbrev pub status_event : {X : Externals} → SessionStatus → SessionEvent X
status_event s = status (record { status = s })

module _ {X : Externals} where
  abbrev pub clear_pending : Session X → Session X
  clear_pending s = record s { pending_permission = none }

  abbrev pub clear_reasoning : Session X → Session X
  clear_reasoning s = record s { reasoning_started_at_ms = none; reasoning_ended_at_ms = none }

  abbrev pub set_current_mode : String → Session X → Session X
  set_current_mode mode_id s = record s { modes = set_mode_in mode_id s.modes }

  abbrev pub set_title : String → Session X → Session X
  set_title title s = record s { summary = record s.summary { title = title } }

  abbrev pub set_config_options : List AcpConfigOption → Session X → Session X
  set_config_options options s = record s { config_options = options }

  abbrev pub set_archived : Bool → Session X → Session X
  set_archived archived s = record s { summary = record s.summary { archived = archived } }

  -- `if !session.running { return Err(NotRunning) }`
  unfoldable pub require_running : String → Session X → M X (Unit {0})
  require_running id session = if session.running then pure tt else raise (not_running id)

  -- `pending.id != permission_id`
  unfoldable pub require_permission : String → String → PermissionRequestPayload → M X (Unit {0})
  require_permission id permission_id pending =
      if pending.id == permission_id
      then pure tt
      else raise (permission_mismatch id pending.id permission_id)

module _ {X : Externals} (S : System X) where
  unfoldable pub send_prompt : String → String → M X (Unit {0})
  send_prompt id text = do
    session ← require id
    require_running id session
    call id (λ c. S.agents.prompt c text)
    change id clear_reasoning
    block_id ← observe S.platform.new_uuid
    append S id
        (message (record { role = user; text = text; blocks = text_block block_id text ∷ [] }))
    append S id (status_event working)
    pure tt

  unfoldable pub set_mode : String → String → M X (Unit {0})
  set_mode id mode_id = do
    call id (λ c. S.agents.set_mode c mode_id)
    change id (set_current_mode mode_id)
    append S id (mode (record { current_mode_id = mode_id }))
    pure tt

  unfoldable pub set_config_option : String → String → String → M X (Unit {0})
  set_config_option id config_id value_id = do
    options ← call id (λ c. S.agents.set_config_option c config_id value_id)
    change id (set_config_options options)
    append S id (config_options (record { options = options }))
    pure tt

  unfoldable pub cancel : String → M X (Unit {0})
  cancel id = do
    call id S.agents.cancel
    change id clear_pending
    append S id (diagnostics (record { level = info; message = "cancellation requested" }))
    append S id (status_event idle)
    pure tt

  unfoldable pub respond_permission : String → String → String → M X (Unit {0})
  respond_permission id permission_id option_id = do
    session ← require id
    pending ← lift (ok_or session.pending_permission (no_pending_permission id))
    require_permission id permission_id pending
    call id (λ c. S.agents.respond_permission c option_id)
    change id clear_pending
    append S id (permission_resolved (record { id = pending.id; option_id = option_id }))
    append S id (status_event working)
    pure tt

  -- The tail of `rename_session`, with the trimmed title.
  unfoldable pub rename_to : String → String → M X SessionSummary
  rename_to id title = do
    require id
    change id (set_title title)
    session ← require id
    append S id (
        snapshot
          (record { summary = session.summary; pending_permission = session.pending_permission }))
    renamed ← require id
    pure renamed.summary

  unfoldable pub rename_session : String → String → M X SessionSummary
  rename_session id title =
      let trimmed = trim title in
      if is_empty trimmed then raise empty_title else rename_to id trimmed

  -- The stored row with the field `summary.archived` set, as far as the row has such a field.
  archived_value : X.Value → Bool → X.Value
  archived_value v archived = elim (S.json.get_field v "summary") [
    | none ↦ v
    | some summary ↦ elim (S.json.insert_field summary "archived" (S.json.bool archived)) [
      | none ↦ v
      | some summary' ↦ elim (S.json.insert_field v "summary" summary') [ none ↦ v | some v' ↦ v' ]
    ]
  ]

  unfoldable pub store_archived : String → Bool → Inner X → Inner X
  unfolding archived_value
  store_archived id archived i = elim (S.rows.get_session i.store id) [
    | err e ↦ i
    | ok none ↦ i
    | ok (some stored) ↦ record i {
      store =
          (S.rows.upsert_session i.store
            (record stored { metadata = archived_value stored.metadata archived })).1;
    }
  ]

  unfoldable pub archive_live : String → Bool → Session X → M X SessionSummary
  archive_live id archived session = do
    change id (set_archived archived)
    persist_session S id
    pure (set_archived archived session).summary

  unfoldable pub archive_recovered : String → Bool → RecoveredSession X → M X SessionSummary
  archive_recovered id archived session = do
    let summary = record session.summary { archived = archived }
    modify (λ i. record i {
      recovered =
          adjust i.recovered id
            (λ r. record r { summary = record r.summary { archived = archived } });
    })
    modify (store_archived id archived)
    pure summary

  unfoldable pub archive_session : String → Bool → M X SessionSummary
  archive_session id archived i = elim (get i.sessions id) [
    | some session ↦ archive_live id archived session i
    | none ↦ elim (get i.recovered id) [
      | some session ↦ archive_recovered id archived session i
      | none ↦ raise (unknown_session id) i
    ]
  ]
