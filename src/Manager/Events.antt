-- ===== src/Manager/Events.antt =====
-- rust/session-core/src/manager.rs: `apply_agent_event` and `ensure_exited`.
pub mod Exit
use slight.Base.{
  ℕ, suc, String, List, [], ◌∷◌, map, Option, none, some, Bool, true, false, not, if◌then◌else◌,
  unwrap_or, or_else,
}
use slight.Base.Int.{ℤ}
use slight.Base.Text.{◌++◌, trim, is_empty}
use slight.Base.HashMap.{get}
use slight.Base.Exec.{pure, gets, stateful, ◌>>=◌, ◌>>◌}
use slight.Acp.External.{Externals}
use slight.Acp.Kinds.{MessageRole, assistant, PermissionRequest, info, error}
use slight.Acp.Content.{NormalizedContent, NormalizedToolContent, text_fallback, ToolCallUpdate}
use slight.Acp.Event.{AgentEvent}
use slight.Types.Block.{from_normalized, as_reasoning}
use slight.Types.Payload.{
  SessionStatus, idle, waiting_permission, PermissionRequestPayload, ToolCallContentPayload,
  from_normalized_tool, from_location, ToolCallPayload,
}
use slight.Types.Event.{SessionEvent}
use slight.Manager.State.{Session, Inner, System, M}
use slight.Manager.Steps.{change, observe, append}
use slight.Manager.Turns.{
  clear_reasoning, set_current_mode, set_title, set_config_options, status_event,
}

pub permission_payload : PermissionRequest → PermissionRequestPayload
permission_payload request = record {
  id = request.permission_id;
  title = request.title;
  detail = request.detail;
  tool_call_id = request.tool_call_id;
  options = request.options;
}

-- `Option::flatten`
abbrev pub flatten {ℓ} : {A : Type ℓ} → Option (Option A) → Option A
flatten none = none
flatten (some o) = o

-- Each content block takes a random id, in order; diffs and terminals have none.
pub tool_contents : (ℕ → String) → ℕ → List NormalizedToolContent → List ToolCallContentPayload × ℕ
tool_contents new_uuid m [] = ([], m)
tool_contents new_uuid m (NormalizedToolContent.content b ∷ rest) =
    let (payloads, m') = tool_contents new_uuid (suc m) rest in
    (from_normalized_tool (new_uuid m) (NormalizedToolContent.content b) ∷ payloads, m')
tool_contents new_uuid m (c ∷ rest) =
    let (payloads, m') = tool_contents new_uuid m rest in (from_normalized_tool "" c ∷ payloads, m')

module _ {X : Externals} where
  abbrev pub note_thought : ℤ → Session X → Session X
  note_thought now s = record s {
    reasoning_started_at_ms = or_else s.reasoning_started_at_ms (some now);
    reasoning_ended_at_ms = some now;
  }

  abbrev pub set_pending : PermissionRequestPayload → Session X → Session X
  set_pending payload s = record s { pending_permission = some payload }

  abbrev pub mark_exited : Session X → Session X
  mark_exited s = record s { running = false; exit_reported = true }

  -- The title of an agent's update, unless it is cleared, absent or blank.
  unfoldable pub adopt_title : Option String → Session X → Session X
  adopt_title none s = s
  adopt_title (some title) s = if is_empty (trim title) then s else set_title title s

  unfoldable pub reasoning_timing : Option (Session X) → Option ℤ × Option ℤ
  reasoning_timing none = (none, none)
  reasoning_timing (some s) = (s.reasoning_started_at_ms, s.reasoning_ended_at_ms)

  unfoldable pub should_report : Option (Session X) → Bool
  should_report none = false
  should_report (some s) = not s.exit_reported

  pub tool_payload : ToolCallUpdate X → List ToolCallContentPayload → ToolCallPayload X
  tool_payload update contents = record {
    id = update.tool_call_id;
    title = update.title;
    kind = update.kind;
    status = update.status;
    detail = update.detail;
    content = contents;
    locations = map from_location update.locations;
    raw_input = update.raw_input;
    raw_output = update.raw_output;
  }

module _ {X : Externals} (S : System X) where
  unfoldable pub observe_contents : List NormalizedToolContent → M X (List ToolCallContentPayload)
  observe_contents contents = stateful λ i.
      let (payloads, m) = tool_contents S.platform.new_uuid i.moment contents in
      (payloads, record i { moment = m })

  unfoldable pub stop_reason_string : X.StopReason → String
  stop_reason_string reason = unwrap_or (S.schema.stop_reason_value reason) "end_turn"

  unfoldable pub on_message : String → MessageRole → NormalizedContent → M X (Unit {0})
  on_message id role content = do
    block_id ← observe S.platform.new_uuid
    append S id (
        SessionEvent.message (record {
          role = role;
          text = text_fallback content;
          blocks = from_normalized block_id content ∷ [];
        }))
    pure tt

  -- The clock is read only where the session is there.
  unfoldable pub thought_time : String → Inner X → M X (Unit {0})
  thought_time id i = elim (get i.sessions id) [
    | none ↦ pure tt
    | some _ ↦ do now ← observe S.platform.now_ms; change id (note_thought now)
  ]

  unfoldable pub on_thought : String → NormalizedContent → M X (Unit {0})
  on_thought id content = do
    i ← gets (λ i. i)
    thought_time id i
    block_id ← observe S.platform.new_uuid
    append S id (
        SessionEvent.message (record {
          role = assistant;
          text = text_fallback content;
          blocks = as_reasoning (from_normalized block_id content) ∷ [];
        }))
    pure tt

  unfoldable pub on_permission : String → PermissionRequest → M X (Unit {0})
  on_permission id request = do
    let payload = permission_payload request
    change id (set_pending payload)
    append S id (SessionEvent.permission_request payload)
    append S id (status_event waiting_permission)
    pure tt

  unfoldable pub report_stop : String → X.StopReason → M X (Unit {0})
  report_stop id reason = if S.schema.is_end_turn reason then pure tt else do
    append S id (
        SessionEvent.diagnostics
          (record { level = info; message = "turn ended: " ++ S.schema.stop_reason_debug reason }))
    pure tt

  unfoldable pub on_turn_ended : String → X.StopReason → M X (Unit {0})
  on_turn_ended id reason = do
    session ← gets (λ i. get i.sessions id)
    let timing = reasoning_timing session
    change id clear_reasoning
    append S id (status_event idle)
    append S id (
        SessionEvent.turn_ended (record {
          stop_reason = stop_reason_string reason;
          reasoning_started_at_ms = timing.0;
          reasoning_ended_at_ms = timing.1;
        }))
    report_stop id reason

  -- The two events with which a session ends.
  unfoldable pub report_exit : String → Option ℤ → String → M X (Unit {0})
  report_exit id code reason = do
    change id mark_exited
    append S id (SessionEvent.exit (record { code = code; reason = reason }))
    append S id (status_event SessionStatus.exited)
    pure tt

  unfoldable pub apply_agent_event : String → AgentEvent X → M X (Unit {0})
  apply_agent_event id (AgentEvent.message role content) = on_message id role content
  apply_agent_event id (AgentEvent.thought content) = on_thought id content
  apply_agent_event id (AgentEvent.tool_call update) = do
    contents ← observe_contents update.content
    append S id (SessionEvent.tool_call (tool_payload update contents))
    pure tt
  apply_agent_event id (AgentEvent.plan plan) = do
    append S id (SessionEvent.plan (record { entries = plan.entries }))
    pure tt
  apply_agent_event id (AgentEvent.available_commands commands) = do
    append S id (SessionEvent.commands (record { commands = commands }))
    pure tt
  apply_agent_event id (AgentEvent.config_options options) = do
    change id (set_config_options options)
    append S id (SessionEvent.config_options (record { options = options }))
    pure tt
  apply_agent_event id (AgentEvent.session_info update) = do
    let title = flatten update.title
    change id (adopt_title title)
    append S id (
        SessionEvent.session_info
          (record { title = title; updated_at = flatten update.updated_at }))
    pure tt
  apply_agent_event id (AgentEvent.usage u) = do
    append S id (SessionEvent.usage (record { used = u.used; size = u.size; cost = u.cost }))
    pure tt
  apply_agent_event id (AgentEvent.mode mode_id) = do
    change id (set_current_mode mode_id)
    append S id (SessionEvent.mode (record { current_mode_id = mode_id }))
    pure tt
  apply_agent_event id (AgentEvent.permission_request request) = on_permission id request
  apply_agent_event id (AgentEvent.diagnostics level message) = do
    append S id (SessionEvent.diagnostics (record { level = level; message = message }))
    pure tt
  apply_agent_event id (AgentEvent.turn_ended reason) = on_turn_ended id reason
  apply_agent_event id (AgentEvent.exited code reason) = report_exit id code reason
  apply_agent_event id (AgentEvent.failed message) = do
    append S id (SessionEvent.diagnostics (record { level = error; message = message }))
    append S id (status_event SessionStatus.failed)
    pure tt

  unfoldable pub ensure_exited : String → M X (Unit {0})
  ensure_exited id = do
    session ← gets (λ i. get i.sessions id)
    if should_report session then report_exit id none "agent_exited" else pure tt
