-- ===== src/Manager/Turns/Prompts.antt =====
-- rust/session-core/src/manager.rs: `send_prompt` on every branch.
use slight.Base.{
  String, ◌≡◌, refl, ap, ◌∙◌, [], ◌∷◌, none, some, true, false, inl, inr, Option-cases, Bool-cases,
}
use slight.Base.HashMap.{get}
use slight.Base.Exec.{Result, ok, err, map_err, Result-cases, pure, ◌>>=◌, ◌>>◌}
use slight.Acp.External.{Externals}
use slight.Acp.Kinds.{AcpError, user}
use slight.Types.Block.{text_block}
use slight.Types.Payload.{working}
use slight.Types.Event.{message}
use slight.Types.Request.{SessionError, unknown_session, not_running, agent}
use slight.Manager.State.{Session, Inner, System}
use slight.Manager.Journal.{next_sequence, status_after}
use slight.Manager.Steps.{require, change, observe, call, append}
use slight.Manager.Steps.Known.{call_known, session-call, session-change, append_twice}
use slight.Manager.Turns.{send_prompt, require_running, status_event, clear_reasoning}

module _ {X : Externals} (S : System X) where
  -- The outcomes of a prompt, each with the state that it leaves.
  pub data Prompted (id text : String) (i : Inner X) (r : Result (Unit {0}) SessionError × Inner X)
      : Type 0 where
    not_there : get i.sessions id ≡ none → r ≡ (err (unknown_session id), i) → Prompted id text i r
    ended :
        (s : Session X)
        → get i.sessions id ≡ some s
        → s.running ≡ false
        → r ≡ (err (not_running id), i)
        → Prompted id text i r
    -- The agent does not take the prompt: no event is appended, no status changes.
    refused :
        (s : Session X) (e : AcpError)
        → get i.sessions id ≡ some s
        → s.running ≡ true
        → (S.agents.prompt s.connection text).0 ≡ err e
        → r.0 ≡ err (agent e)
        → get r.1.sessions id
          ≡ some (record s { connection = (S.agents.prompt s.connection text).1 })
        → Prompted id text i r
    -- The agent takes it: the message and the status are appended, and the session works.
    taken :
        (s t : Session X)
        → get i.sessions id ≡ some s
        → s.running ≡ true
        → (S.agents.prompt s.connection text).0 ≡ ok tt
        → r.0 ≡ ok tt
        → get r.1.sessions id ≡ some t
        → t.pending_permission ≡ s.pending_permission
        → t.summary.status ≡ working
        → t.summary.last_sequence ≡ next_sequence (next_sequence s.summary.last_sequence)
        → Prompted id text i r

  module _ (id text : String) (i : Inner X) where
    running-Prompted :
        (s : Session X)
        → get i.sessions id ≡ some s
        → s.running ≡ true
        → Prompted id text i (send_prompt S id text i)
    unfolding send_prompt require require_running change observe status_after ◌>>=◌
    running-Prompted s h p =
        let f : X.Connection → Result (Unit {0}) AcpError × X.Connection =
          λ c. S.agents.prompt c text in
        let j = (call id f i).1 in
        elim (Result-cases (f s.connection).0) [
          | inr (e, refusal) ↦
              let first : (call id f i).0 ≡ err (agent e) =
                ap (λ r. r.0) (call_known id i s h f) ∙ ap (map_err agent) refusal in
              let whole : send_prompt S id text i ≡ (err (agent e), j) = rw (h, p, first) refl in
              rw whole (refused s e h p refusal refl (session-call id i s h f))
          | inl (a, accepted) ↦
              let first : (call id f i).0 ≡ ok a =
                ap (λ r. r.0) (call_known id i s h f) ∙ ap (map_err agent) accepted in
              let s' = record s { connection = (f s.connection).1 } in
              let k = (change id clear_reasoning j).1 in
              let block_id = S.platform.new_uuid k.moment in
              let l = (observe S.platform.new_uuid k).1 in
              let sent =
                message
                  (record { role = user; text = text; blocks = text_block block_id text ∷ [] }) in
              let (done, (t, known, same, state, count, _)) =
                append_twice S id sent (status_event working) l (clear_reasoning s')
                  (session-change id j s' (session-call id i s h f) clear_reasoning) in
              let whole : send_prompt S id text i
                  ≡ (append S id sent >> (append S id (status_event working) >> pure tt)) l =
                rw (h, p, first) refl in
              rw whole (taken s t h p accepted done known same state count)
        ]

  -- A prompt for an unknown session, or one that has ended, fails and changes nothing; where the
  -- agent refuses it, the session keeps all but its connection; where the agent takes it, the last
  -- sequence number advances by two and the session works, with its permission request as before.
  pub send_prompt-Prompted :
      (id text : String) (i : Inner X) → Prompted id text i (send_prompt S id text i)
  unfolding send_prompt require require_running ◌>>=◌
  send_prompt-Prompted id text i = elim (Option-cases (get i.sessions id)) [
    | inl h ↦ not_there h (rw h refl)
    | inr (s, h) ↦ elim (Bool-cases s.running) [
      | inl p ↦ running-Prompted id text i s h p
      | inr p ↦ ended s h p (rw (h, p) refl)
    ]
  ]
