-- ===== src/Manager/Turns/Cancels.antt =====
-- rust/session-core/src/manager.rs: `cancel` on every branch.
use slight.Base.{String, ◌≡◌, refl, ap, ◌∙◌, none, some, inl, inr, Option-cases}
use slight.Base.HashMap.{get}
use slight.Base.Exec.{Result, ok, err, map_err, Result-cases, pure, ◌>>=◌, ◌>>◌}
use slight.Acp.External.{Externals}
use slight.Acp.Kinds.{AcpError, info}
use slight.Types.Payload.{idle}
use slight.Types.Event.{diagnostics}
use slight.Types.Request.{SessionError, unknown_session, agent}
use slight.Manager.State.{Session, Inner, System}
use slight.Manager.Journal.{next_sequence, status_after}
use slight.Manager.Steps.{require, change, call, append}
use slight.Manager.Steps.Known.{call_known, session-call, session-change, append_twice}
use slight.Manager.Turns.{cancel, status_event, clear_pending}

module _ {X : Externals} (S : System X) where
  -- The outcomes of a cancellation, each with the state that it leaves.
  pub data Cancelled (id : String) (i : Inner X) (r : Result (Unit {0}) SessionError × Inner X)
      : Type 0 where
    not_there : get i.sessions id ≡ none → r ≡ (err (unknown_session id), i) → Cancelled id i r
    refused :
        (s : Session X) (e : AcpError)
        → get i.sessions id ≡ some s
        → (S.agents.cancel s.connection).0 ≡ err e
        → r.0 ≡ err (agent e)
        → get r.1.sessions id ≡ some (record s { connection = (S.agents.cancel s.connection).1 })
        → Cancelled id i r
    -- Also where the session has ended: `running` is not asked.
    cancelled :
        (s t : Session X)
        → get i.sessions id ≡ some s
        → (S.agents.cancel s.connection).0 ≡ ok tt
        → r.0 ≡ ok tt
        → get r.1.sessions id ≡ some t
        → t.pending_permission ≡ none
        → t.summary.status ≡ idle
        → t.summary.last_sequence ≡ next_sequence (next_sequence s.summary.last_sequence)
        → t.exit_reported ≡ s.exit_reported
        → Cancelled id i r

  known-Cancelled :
      (id : String) (i : Inner X) (s : Session X)
      → get i.sessions id ≡ some s
      → Cancelled id i (cancel S id i)
  unfolding cancel change status_after ◌>>=◌
  known-Cancelled id i s h =
      let f = S.agents.cancel in
      let j = (call id f i).1 in
      elim (Result-cases (f s.connection).0) [
        | inr (e, refusal) ↦
            let first : (call id f i).0 ≡ err (agent e) =
              ap (λ r. r.0) (call_known id i s h f) ∙ ap (map_err agent) refusal in
            let whole : cancel S id i ≡ (err (agent e), j) = rw first refl in
            rw whole (refused s e h refusal refl (session-call id i s h f))
        | inl (a, accepted) ↦
            let first : (call id f i).0 ≡ ok a =
              ap (λ r. r.0) (call_known id i s h f) ∙ ap (map_err agent) accepted in
            let s' = record s { connection = (f s.connection).1 } in
            let k = (change id clear_pending j).1 in
            let note = diagnostics (record { level = info; message = "cancellation requested" }) in
            let (done, (t, known, closed, state, count, told)) =
              append_twice S id note (status_event idle) k (clear_pending s')
                (session-change id j s' (session-call id i s h f) clear_pending) in
            let whole : cancel S id i
                ≡ (append S id note >> (append S id (status_event idle) >> pure tt)) k =
              rw first refl in
            rw whole (cancelled s t h accepted done known closed state count told)
      ]

  -- Cancelling an unknown session fails and changes nothing; where the agent refuses, the session
  -- keeps all but its connection; where the agent takes it, the open permission request is
  -- dropped, the last sequence number advances by two and the status is idle, also for a session
  -- that has ended, whose reported exit stays.
  pub cancel-Cancelled : (id : String) (i : Inner X) → Cancelled id i (cancel S id i)
  unfolding cancel call require ◌>>=◌
  cancel-Cancelled id i = elim (Option-cases (get i.sessions id)) [
    | inl h ↦ not_there h (rw h refl)
    | inr (s, h) ↦ known-Cancelled id i s h
  ]
