-- ===== src/Manager/Invariant/Events.antt =====
-- An agent's events, and `pump_all`, keep the invariant.
use slight.Base.{
  refl, String, List, [], ◌∷◌, Option, none, some, Bool, true, false, Option-cases, inl, inr,
  Bool-cases, ◌≡◌,
}
use slight.Base.Int.{ℤ}
use slight.Base.HashMap.{get, get-map_values_inv, map_values}
use slight.Base.Text.{trim, is_empty}
use slight.Base.Exec.Keeps.{Keeps, Keeps-pure, Keeps-stateful}
use slight.Acp.External.{Externals}
use slight.Acp.Kinds.{MessageRole, PermissionRequest}
use slight.Acp.Content.{NormalizedContent, NormalizedToolContent}
use slight.Acp.Event.{AgentEvent}
use slight.Types.Payload.{PermissionRequestPayload}
use slight.Manager.State.{Session, Inner, System}
use slight.Manager.Steps.{change}
use slight.Manager.Events.{
  note_thought, set_pending, mark_exited, adopt_title, observe_contents, on_message, thought_time,
  on_thought, on_permission, report_stop, on_turn_ended, report_exit, apply_agent_event,
  ensure_exited,
}
use slight.Manager.Pump.{
  Collected, drain_session, collect, apply_events, end_unless, apply_collected, pump_all,
}
use slight.Manager.Invariant.{Inv, IsSound-core, core, Keeps-quiet, Keeps-change}
use slight.Manager.Invariant.Methods.{turn_rules}

module _ {X : Externals} where
  Keeps-note_thought : (id : String) (now : ℤ) → Keeps Inv (change id (note_thought {X = X} now))
  Keeps-note_thought id now = Keeps-quiet id _ λ s. refl

  Keeps-set_pending :
      (id : String) (p : PermissionRequestPayload) → Keeps Inv (change id (set_pending {X = X} p))
  Keeps-set_pending id p = Keeps-quiet id _ λ s. refl

  core-adopt_title : (title : Option String) (s : Session X) → core s ≡ core (adopt_title title s)
  unfolding adopt_title
  core-adopt_title none s = refl
  core-adopt_title (some title) s = elim (Bool-cases (is_empty (trim title))) [
    | inl blank ↦ rw blank refl
    | inr shown ↦ rw shown refl
  ]

  Keeps-adopt_title :
      (id : String) (title : Option String) → Keeps Inv (change id (adopt_title {X = X} title))
  Keeps-adopt_title id title = Keeps-quiet id _ (core-adopt_title title)

  -- An exit is reported and ends the session in one change.
  Keeps-mark_exited : (id : String) → Keeps Inv (change id (mark_exited {X = X}))
  Keeps-mark_exited id = Keeps-change id _ λ limit s h. record {
    chained = h.chained;
    bounded = h.bounded;
    keyed = h.keyed;
    exits = refl;
  }

ruleset event_rules =
    (turn_rules, Keeps-note_thought, Keeps-set_pending, Keeps-adopt_title, Keeps-mark_exited)

module _ {X : Externals} (S : System X) where
  observe_contents-Inv : (cs : List NormalizedToolContent) → Keeps Inv (observe_contents S cs)
  unfolding observe_contents
  observe_contents-Inv cs = Keeps-stateful _ λ i v. record { sound = v.sound }

  on_message-Inv :
      (id : String) (role : MessageRole) (c : NormalizedContent)
      → Keeps Inv (on_message S id role c)
  unfolding on_message
  on_message-Inv id role c = search event_rules depth 12

  thought_time-Inv : (id : String) (i : Inner X) → Keeps Inv (thought_time S id i)
  unfolding thought_time
  thought_time-Inv id i = elim (Option-cases (get i.sessions id)) [
    | inl missing ↦ rw (missing, thought_time) (Keeps-pure tt)
    | inr (s, known) ↦ rw (known, thought_time) (search event_rules depth 12)
  ]

  on_thought-Inv : (id : String) (c : NormalizedContent) → Keeps Inv (on_thought S id c)
  unfolding on_thought
  on_thought-Inv id c = search (event_rules, thought_time-Inv) depth 12

  on_permission-Inv : (id : String) (r : PermissionRequest) → Keeps Inv (on_permission S id r)
  unfolding on_permission
  on_permission-Inv id r = search event_rules depth 12

  report_stop-Inv : (id : String) (r : X.StopReason) → Keeps Inv (report_stop S id r)
  unfolding report_stop
  report_stop-Inv id r = search event_rules depth 12

  on_turn_ended-Inv : (id : String) (r : X.StopReason) → Keeps Inv (on_turn_ended S id r)
  unfolding on_turn_ended
  on_turn_ended-Inv id r = search (event_rules, report_stop-Inv) depth 12

  report_exit-Inv :
      (id : String) (code : Option ℤ) (reason : String) → Keeps Inv (report_exit S id code reason)
  unfolding report_exit
  report_exit-Inv id code reason = search event_rules depth 12

  apply_agent_event-Inv :
      (id : String) (event : AgentEvent X) → Keeps Inv (apply_agent_event S id event)
  unfolding apply_agent_event
  apply_agent_event-Inv id (AgentEvent.message role content) = on_message-Inv id role content
  apply_agent_event-Inv id (AgentEvent.thought content) = on_thought-Inv id content
  apply_agent_event-Inv id (AgentEvent.tool_call update) =
      search (event_rules, observe_contents-Inv) depth 12
  apply_agent_event-Inv id (AgentEvent.permission_request request) = on_permission-Inv id request
  apply_agent_event-Inv id (AgentEvent.turn_ended reason) = on_turn_ended-Inv id reason
  apply_agent_event-Inv id (AgentEvent.exited code reason) = report_exit-Inv id code reason
  apply_agent_event-Inv id _ = search event_rules depth 12

  ensure_exited-Inv : (id : String) → Keeps Inv (ensure_exited S id)
  unfolding ensure_exited
  ensure_exited-Inv id = search (event_rules, report_exit-Inv) depth 12

  apply_events-Inv :
      (id : String) (events : List (AgentEvent X)) (i : Inner X)
      → Inv i
      → Inv (apply_events S id events i).1
  unfolding apply_events
  apply_events-Inv id [] i v = v
  apply_events-Inv id (event ∷ rest) i v =
      apply_events-Inv id rest (apply_agent_event S id event i).1
        ((apply_agent_event-Inv id event).at i v)

  end_unless-Inv :
      (running : Bool) (id : String) (i : Inner X) → Inv i → Inv (end_unless S running id i)
  unfolding end_unless
  end_unless-Inv true id i v = v
  end_unless-Inv false id i v = (ensure_exited-Inv id).at i v

  apply_collected-Inv :
      (cs : List (Collected X)) (i : Inner X) → Inv i → Inv (apply_collected S cs i).1
  unfolding apply_collected
  apply_collected-Inv [] i v = v
  apply_collected-Inv ((id, events, running) ∷ rest) i v =
      apply_collected-Inv rest (end_unless S running id (apply_events S id events i).1)
        (end_unless-Inv running id (apply_events S id events i).1 (apply_events-Inv id events i v))

  drained-Inv :
      (i : Inner X) → Inv i → Inv (record i { sessions = map_values i.sessions (drain_session S) })
  unfolding drain_session
  drained-Inv i v = record {
    sound = λ id s e.
        let (t, known, same) = get-map_values_inv i.sessions id (drain_session S) s e in
        rw same (IsSound-core i.journal_limit id t (drain_session S t) refl (v.sound id t known));
  }

  pub pump_all-Inv : (i : Inner X) → Inv i → Inv (pump_all S i).1
  unfolding pump_all
  pump_all-Inv i v =
      apply_collected-Inv (collect S i.sessions.entries)
        (record i { sessions = map_values i.sessions (drain_session S) }) (drained-Inv i v)
