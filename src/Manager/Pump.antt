-- ===== src/Manager/Pump.antt =====
-- rust/session-core/src/manager.rs: `pump_all`.
pub mod Succeeds
pub mod Count
use slight.Base.{ℕ, suc, ◌+◌, String, List, [], ◌∷◌, Bool, true, false, ◌&&◌, if◌then◌else◌}
use slight.Base.HashMap.{map_values}
use slight.Base.Exec.{is_ok}
use slight.Acp.External.{Externals}
use slight.Acp.Event.{AgentEvent}
use slight.Manager.State.{Session, Inner, System}
use slight.Manager.Events.{apply_agent_event, ensure_exited}

abbrev pub is_nil {ℓ} : {A : Type ℓ} → List A → Bool
is_nil [] = true
is_nil (x ∷ xs) = false

-- What one session gave: its id, the events drained, and whether its agent still runs.
abbrev pub Collected : Externals → Type 0
Collected X = String × List (AgentEvent X) × Bool

module _ {X : Externals} (S : System X) where
  abbrev pub drained_events : Session X → List (AgentEvent X)
  drained_events s = (S.agents.drain s.connection).0

  abbrev pub still_running : Session X → Bool
  still_running s = (S.agents.is_running (S.agents.drain s.connection).1).0

  unfoldable pub drain_session : Session X → Session X
  drain_session s = record s {
    connection = (S.agents.is_running (S.agents.drain s.connection).1).1;
  }

  -- A session with nothing to say whose agent runs is left out.
  unfoldable pub collect : List (String × Session X) → List (Collected X)
  collect [] = []
  collect ((id, s) ∷ rest) =
      let later = collect rest in
      if is_nil (drained_events s) && still_running s
      then later
      else (id, drained_events s, still_running s) ∷ later

  -- The events of one session, counting those that were applied.
  unfoldable pub apply_events : String → List (AgentEvent X) → Inner X → ℕ × Inner X
  apply_events id [] i = (0, i)
  apply_events id (event ∷ rest) i =
      let (r, i') = apply_agent_event S id event i in
      let (n, i'') = apply_events id rest i' in (if is_ok r then suc n else n, i'')

  unfoldable pub end_unless : Bool → String → Inner X → Inner X
  end_unless true id i = i
  end_unless false id i = (ensure_exited S id i).1

  unfoldable pub apply_collected : List (Collected X) → Inner X → ℕ × Inner X
  apply_collected [] i = (0, i)
  apply_collected ((id, events, running) ∷ rest) i =
      let (n, i') = apply_events id events i in
      let (m, i'') = apply_collected rest (end_unless running id i') in (n + m, i'')

  unfoldable pub pump_all : Inner X → ℕ × Inner X
  pump_all i =
      apply_collected (collect i.sessions.entries)
        (record i { sessions = map_values i.sessions drain_session })
