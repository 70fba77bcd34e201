-- ===== src/Manager/Pump/Count.antt =====
-- rust/session-core/src/manager.rs: the number that `pump_all` returns.
use mathlib.Core.List.{append_assoc}
use slight.Base.{
  ℕ, suc, ◌+◌, String, ◌≡◌, refl, sym, ap, ◌∙◌, List, [], ◌∷◌, ◌++◌, Bool, true, false, ◌&&◌,
  length, arith, if◌then◌else◌,
}
use slight.Base.HashMap.{get-entry, map_values, contains_key-map_values}
use slight.Acp.External.{Externals}
use slight.Acp.Event.{AgentEvent}
use slight.Manager.State.{Session, Inner, System}
use slight.Manager.Events.{apply_agent_event}
use slight.Manager.Pump.{
  Collected, is_nil, drained_events, still_running, drain_session, collect, apply_events,
  end_unless, apply_collected, pump_all,
}
use slight.Manager.Pump.Succeeds.{is_live, apply_agent_event-Succeeds, ensure_exited-Succeeds}

module _ {X : Externals} (S : System X) where
  -- All that the agents have to say.
  abbrev pub drained_total : List (String × Session X) → ℕ
  drained_total [] = 0
  drained_total ((id, s) ∷ rest) = length (drained_events S s) + drained_total rest

  abbrev AreLive : List (Collected X) → Inner X → Type 0
  AreLive [] i = Unit {0}
  AreLive ((id, events, running) ∷ rest) i = (is_live id i ≡ true) × AreLive rest i

  AreLive-same :
      (cs : List (Collected X)) (i j : Inner X)
      → ((id : String) → is_live id j ≡ is_live id i)
      → AreLive cs i
      → AreLive cs j
  AreLive-same [] i j same h = tt
  AreLive-same ((id, events, running) ∷ rest) i j same h =
      (same id ∙ h.0, AreLive-same rest i j same h.1)

  apply_events-counts :
      (id : String) (events : List (AgentEvent X)) (i : Inner X)
      → is_live id i ≡ true
      → ((apply_events S id events i).0 ≡ length events)
        × ((j : String) → is_live j (apply_events S id events i).1 ≡ is_live j i)
  unfolding apply_events
  apply_events-counts id [] i h = (refl, λ j. refl)
  apply_events-counts id (event ∷ rest) i h =
      let k = apply_agent_event-Succeeds S id event in
      let i' = (apply_agent_event S id event i).1 in
      let (count, same) = apply_events-counts id rest i' (k.stays i h id ∙ h) in
      (rw (k.at i h) (ap suc count), λ j. same j ∙ k.stays i h j)

  end_unless-live :
      (running : Bool) (id : String) (i : Inner X)
      → is_live id i ≡ true
      → (j : String) → is_live j (end_unless S running id i) ≡ is_live j i
  unfolding end_unless
  end_unless-live true id i h j = refl
  end_unless-live false id i h j = (ensure_exited-Succeeds S id).stays i h j

  abbrev collected_total : List (Collected X) → ℕ
  collected_total [] = 0
  collected_total ((id, events, running) ∷ rest) = length events + collected_total rest

  apply_collected-counts :
      (cs : List (Collected X)) (i : Inner X)
      → AreLive cs i
      → (apply_collected S cs i).0 ≡ collected_total cs
  unfolding apply_collected
  apply_collected-counts [] i h = refl
  apply_collected-counts ((id, events, running) ∷ rest) i h =
      let (count, same) = apply_events-counts id events i h.0 in
      let i' = (apply_events S id events i).1 in
      let still = end_unless-live running id i' (same id ∙ h.0) in
      let later =
        apply_collected-counts rest (end_unless S running id i')
          (AreLive-same rest i (end_unless S running id i') (λ j. still j ∙ same j) h.1) in
      rw (count, later) refl

  module _ (id : String) (cs : List (Collected X)) where
    quiet-total :
        (es : List (AgentEvent X)) (running : Bool)
        → collected_total (if is_nil es && running then cs else (id, es, running) ∷ cs)
          ≡ length es + collected_total cs
    quiet-total [] true = omega arith
    quiet-total [] false = refl
    quiet-total (e ∷ es) running = refl

    quiet-AreLive :
        (es : List (AgentEvent X)) (running : Bool) (i : Inner X)
        → is_live id i ≡ true
        → AreLive cs i
        → AreLive (if is_nil es && running then cs else (id, es, running) ∷ cs) i
    quiet-AreLive [] true i h k = k
    quiet-AreLive [] false i h k = (h, k)
    quiet-AreLive (e ∷ es) running i h k = (h, k)

  collect-total : (l : List (String × Session X)) → collected_total (collect S l) ≡ drained_total l
  unfolding collect
  collect-total [] = refl
  collect-total ((id, s) ∷ rest) =
      quiet-total id (collect S rest) (drained_events S s) (still_running S s)
      ∙ ap (λ n. length (drained_events S s) + n) (collect-total rest)

  collect-AreLive :
      (before l : List (String × Session X)) (i : Inner X)
      → i.sessions.entries ≡ before ++ l
      → AreLive (collect S l) i
  unfolding collect
  collect-AreLive before [] i e = tt
  collect-AreLive before ((id, s) ∷ rest) i e =
      quiet-AreLive id (collect S rest) (drained_events S s) (still_running S s) i
        (get-entry before rest id s i.sessions e)
        (collect-AreLive (before ++ (id, s) ∷ []) rest i
          (e ∙ sym (append_assoc before ((id, s) ∷ []) rest)))

  -- pump_all returns the number of all the events that the agents of the live sessions had to say:
  -- none of them fails to apply.
  pub pump_all-counts : (i : Inner X) → (pump_all S i).0 ≡ drained_total i.sessions.entries
  unfolding pump_all
  pump_all-counts i =
      let j = record i { sessions = map_values i.sessions (drain_session S) } in
      apply_collected-counts (collect S i.sessions.entries) j (
        AreLive-same (collect S i.sessions.entries) i j
          (λ id. contains_key-map_values i.sessions id (drain_session S))
          (collect-AreLive [] i.sessions.entries i refl))
      ∙ collect-total i.sessions.entries
