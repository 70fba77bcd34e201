-- ===== src/Manager/Pump/Succeeds.antt =====
-- rust/session-core/src/manager.rs: an event of the agent of a live session is always applied.
use slight.Base.{
  ℕ, String, ◌≡◌, refl, ◌∙◌, Bool, true, false, if◌then◌else◌, some, inl, inr, Option-cases,
}
use slight.Base.HashMap.{get, contains_key, contains_key-adjust}
use slight.Base.Exec.{Result, ok, err, is_ok, pure, gets, lift, ◌>>=◌}
use slight.Acp.External.{Externals}
use slight.Base.Int.{ℤ}
use slight.Base.{List, Option}
use slight.Acp.Kinds.{MessageRole, PermissionRequest}
use slight.Acp.Content.{NormalizedContent, NormalizedToolContent}
use slight.Acp.Event.{AgentEvent}
use slight.Types.Event.{SessionEvent}
use slight.Manager.State.{Session, Inner, System, M}
use slight.Manager.Steps.{change, observe, append}
use slight.Manager.Steps.Append.{append_known, stamped, sessions-appended}
use slight.Manager.Events.{
  on_message, on_thought, thought_time, on_permission, on_turn_ended, report_stop, report_exit,
  observe_contents, apply_agent_event, ensure_exited,
}

module _ {X : Externals} where
  abbrev pub is_live : String → Inner X → Bool
  is_live id i = contains_key i.sessions id

  -- Where the session is there, the method returns a value, and no session comes or goes.
  pub record Succeeds (id : String) {A : Type 0} (m : M X A) : Type 0 where
    pub at : (i : Inner X) → is_live id i ≡ true → is_ok (m i).0 ≡ true
    pub stays : (i : Inner X) → is_live id i ≡ true → (j : String) → is_live j (m i).1 ≡ is_live j i

  module _ (id : String) where
    pub Succeeds-pure : {A : Type 0} (a : A) → Succeeds id (pure {S = Inner X} a)
    unfolding ◌>>=◌
    Succeeds-pure a = record { at = λ i h. refl; stays = λ i h j. refl }

    pub Succeeds-gets : {A : Type 0} (f : Inner X → A) → Succeeds id (gets f)
    unfolding ◌>>=◌
    Succeeds-gets f = record { at = λ i h. refl; stays = λ i h j. refl }

    pub Succeeds-observe : {A : Type 0} (f : ℕ → A) → Succeeds id (observe f)
    unfolding observe ◌>>=◌
    Succeeds-observe f = record { at = λ i h. refl; stays = λ i h j. refl }

    pub Succeeds-change : (k : String) (f : Session X → Session X) → Succeeds id (change k f)
    unfolding change ◌>>=◌
    Succeeds-change k f = record {
      at = λ i h. refl;
      stays = λ i h j. contains_key-adjust i.sessions k j f;
    }

    pub Succeeds-if :
        {A : Type 0} (test : Bool) (this other : M X A)
        → Succeeds id this
        → Succeeds id other
        → Succeeds id (if test then this else other)
    Succeeds-if true this other h k = h
    Succeeds-if false this other h k = k

    continued :
        {A B : Type 0} (r : Result A _) (f : A → M X B) (i : Inner X)
        → ((a : A) → Succeeds id (f a))
        → is_ok r ≡ true
        → is_live id i ≡ true
        → (is_ok ((lift r >>= f) i).0 ≡ true)
          × ((j : String) → is_live j ((lift r >>= f) i).1 ≡ is_live j i)
    unfolding ◌>>=◌
    continued (ok a) f i k h live = ((k a).at i live, (k a).stays i live)
    continued (err e) f i k h live = cc

    pub Succeeds-bind :
        {A B : Type 0} (m : M X A) (f : A → M X B)
        → Succeeds id m
        → ((a : A) → Succeeds id (f a))
        → Succeeds id (m >>= f)
    unfolding ◌>>=◌
    Succeeds-bind m f k l = record {
      at = λ i h. (continued (m i).0 f (m i).1 l (k.at i h) (k.stays i h id ∙ h)).0;
      stays = λ i h j.
          (continued (m i).0 f (m i).1 l (k.at i h) (k.stays i h id ∙ h)).1 j ∙ k.stays i h j;
    }

module _ {X : Externals} (S : System X) (id : String) where
  known : (i : Inner X) → is_live id i ≡ true → (s : Session X) × (get i.sessions id ≡ some s)
  known i h = elim (Option-cases (get i.sessions id)) [ inl e ↦ cc | inr e ↦ e ]

  pub Succeeds-append : (event : SessionEvent X) → Succeeds id (append S id event)
  Succeeds-append event = record {
    at = λ i h. let (s, e) = known i h in rw (append_known S id event i s e) refl;
    stays = λ i h j.
        let (s, e) = known i h in
        rw (append_known S id event i s e, sessions-appended S id (stamped S s event i) i)
          (contains_key-adjust i.sessions id j _);
  }

ruleset success_rules = (
  Succeeds-if, Succeeds-bind, Succeeds-pure, Succeeds-gets, Succeeds-observe, Succeeds-change,
  Succeeds-append,
)

module _ {X : Externals} (S : System X) (id : String) where
  observe_contents-Succeeds :
      (cs : List NormalizedToolContent) → Succeeds id (observe_contents S cs)
  unfolding observe_contents ◌>>=◌
  observe_contents-Succeeds cs = record { at = λ i h. refl; stays = λ i h j. refl }

  on_message-Succeeds :
      (role : MessageRole) (c : NormalizedContent) → Succeeds id (on_message S id role c)
  unfolding on_message
  on_message-Succeeds role c = search success_rules depth 12

  thought_time-Succeeds : (i : Inner X) → Succeeds id (thought_time S id i)
  unfolding thought_time
  thought_time-Succeeds i = elim (Option-cases (get i.sessions id)) [
    | inl missing ↦ rw (missing, thought_time) (Succeeds-pure id tt)
    | inr (s, there) ↦ rw (there, thought_time) (search success_rules depth 12)
  ]

  on_thought-Succeeds : (c : NormalizedContent) → Succeeds id (on_thought S id c)
  unfolding on_thought
  on_thought-Succeeds c = search (success_rules, thought_time-Succeeds) depth 12

  on_permission-Succeeds : (r : PermissionRequest) → Succeeds id (on_permission S id r)
  unfolding on_permission
  on_permission-Succeeds r = search success_rules depth 12

  report_stop-Succeeds : (r : X.StopReason) → Succeeds id (report_stop S id r)
  unfolding report_stop
  report_stop-Succeeds r = search success_rules depth 12

  on_turn_ended-Succeeds : (r : X.StopReason) → Succeeds id (on_turn_ended S id r)
  unfolding on_turn_ended
  on_turn_ended-Succeeds r = search (success_rules, report_stop-Succeeds) depth 12

  report_exit-Succeeds :
      (code : Option ℤ) (reason : String) → Succeeds id (report_exit S id code reason)
  unfolding report_exit
  report_exit-Succeeds code reason = search success_rules depth 12

  pub apply_agent_event-Succeeds :
      (event : AgentEvent X) → Succeeds id (apply_agent_event S id event)
  unfolding apply_agent_event
  apply_agent_event-Succeeds (AgentEvent.message role content) = on_message-Succeeds role content
  apply_agent_event-Succeeds (AgentEvent.thought content) = on_thought-Succeeds content
  apply_agent_event-Succeeds (AgentEvent.tool_call update) =
      search (success_rules, observe_contents-Succeeds) depth 12
  apply_agent_event-Succeeds (AgentEvent.permission_request request) =
      on_permission-Succeeds request
  apply_agent_event-Succeeds (AgentEvent.turn_ended reason) = on_turn_ended-Succeeds reason
  apply_agent_event-Succeeds (AgentEvent.exited code reason) = report_exit-Succeeds code reason
  apply_agent_event-Succeeds _ = search success_rules depth 12

  pub ensure_exited-Succeeds : Succeeds id (ensure_exited S id)
  unfolding ensure_exited
  ensure_exited-Succeeds = search (success_rules, report_exit-Succeeds) depth 12
