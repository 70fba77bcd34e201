-- ===== src/Manager/Turns/Permissions.antt =====
-- rust/session-core/src/manager.rs: `respond_permission` on every branch, and the answers that can
-- follow one.
use slight.Base.{
  String, ◌≡◌, refl, ap, ◌∙◌, none, some, true, false, inl, inr, Option-cases, Bool-cases,
}
use slight.Base.Text.{◌==◌, eq_iff}
use slight.Base.HashMap.{get}
use slight.Base.Exec.{Result, ok, err, map_err, Result-cases, pure, ◌>>=◌, ◌>>◌}
use slight.Acp.External.{Externals}
use slight.Acp.Kinds.{AcpError}
use slight.Types.Payload.{working, PermissionRequestPayload}
use slight.Types.Event.{permission_resolved}
use slight.Types.Request.{
  SessionError, unknown_session, no_pending_permission, permission_mismatch, agent,
}
use slight.Manager.State.{Session, Inner, System}
use slight.Manager.Journal.{next_sequence, status_after}
use slight.Manager.Steps.{require, change, call, append}
use slight.Manager.Steps.Known.{call_known, session-call, session-change, append_twice}
use slight.Manager.Turns.{respond_permission, require_permission, status_event, clear_pending}

module _ {X : Externals} (S : System X) where
  -- The outcomes of an answer to a permission request, each with the state that it leaves.
  pub data Answer (id permission_id option_id : String) (i : Inner X)
      (r : Result (Unit {0}) SessionError × Inner X) : Type 0 where
    not_there :
        get i.sessions id ≡ none
        → r ≡ (err (unknown_session id), i)
        → Answer id permission_id option_id i r
    nothing_asked :
        (s : Session X)
        → get i.sessions id ≡ some s
        → s.pending_permission ≡ none
        → r ≡ (err (no_pending_permission id), i)
        → Answer id permission_id option_id i r
    other_asked :
        (s : Session X) (pending : PermissionRequestPayload)
        → get i.sessions id ≡ some s
        → s.pending_permission ≡ some pending
        → pending.id == permission_id ≡ false
        → r ≡ (err (permission_mismatch id pending.id permission_id), i)
        → Answer id permission_id option_id i r
    -- The agent does not take the answer: the request stays open.
    refused :
        (s : Session X) (pending : PermissionRequestPayload) (e : AcpError)
        → get i.sessions id ≡ some s
        → s.pending_permission ≡ some pending
        → pending.id ≡ permission_id
        → (S.agents.respond_permission s.connection option_id).0 ≡ err e
        → r.0 ≡ err (agent e)
        → get r.1.sessions id
          ≡ some (record s { connection = (S.agents.respond_permission s.connection option_id).1 })
        → Answer id permission_id option_id i r
    -- The agent takes it: the request is closed, the session works again, two events are appended.
    answered :
        (s t : Session X) (pending : PermissionRequestPayload)
        → get i.sessions id ≡ some s
        → s.pending_permission ≡ some pending
        → pending.id ≡ permission_id
        → (S.agents.respond_permission s.connection option_id).0 ≡ ok tt
        → r.0 ≡ ok tt
        → get r.1.sessions id ≡ some t
        → t.pending_permission ≡ none
        → t.summary.status ≡ working
        → t.summary.last_sequence ≡ next_sequence (next_sequence s.summary.last_sequence)
        → Answer id permission_id option_id i r

  module _ (id permission_id option_id : String) (i : Inner X) where
    accepted-Answer :
        (s : Session X) (pending : PermissionRequestPayload)
        → get i.sessions id ≡ some s
        → s.pending_permission ≡ some pending
        → pending.id == permission_id ≡ true
        → Answer id permission_id option_id i (respond_permission S id permission_id option_id i)
    unfolding respond_permission require require_permission change status_after ◌>>=◌
    accepted-Answer s pending h p q =
        let f : X.Connection → Result (Unit {0}) AcpError × X.Connection =
          λ c. S.agents.respond_permission c option_id in
        let same : pending.id ≡ permission_id = (eq_iff pending.id permission_id).0 q in
        elim (Result-cases (f s.connection).0) [
          | inr (e, refusal) ↦
              let first : (call id f i).0 ≡ err (agent e) =
                ap (λ r. r.0) (call_known id i s h f) ∙ ap (map_err agent) refusal in
              let whole : respond_permission S id permission_id option_id i
                  ≡ (err (agent e), (call id f i).1) =
                rw (h, p, q, first) refl in
              rw whole (refused s pending e h p same refusal refl (session-call id i s h f))
          | inl (a, taken) ↦
              let first : (call id f i).0 ≡ ok a =
                ap (λ r. r.0) (call_known id i s h f) ∙ ap (map_err agent) taken in
              let j = (call id f i).1 in
              let s' = record s { connection = (f s.connection).1 } in
              let resolved =
                permission_resolved (record { id = pending.id; option_id = option_id }) in
              let k = (change id clear_pending j).1 in
              let (done, (t, known, closed, state, count, _)) =
                append_twice S id resolved (status_event working) k (clear_pending s')
                  (session-change id j s' (session-call id i s h f) clear_pending) in
              let whole : respond_permission S id permission_id option_id i
                  ≡ (append S id resolved >> (append S id (status_event working) >> pure tt)) k =
                rw (h, p, q, first) refl in
              rw whole (answered s t pending h p same taken done known closed state count)
        ]

    asked-Answer :
        (s : Session X)
        → get i.sessions id ≡ some s
        → Answer id permission_id option_id i (respond_permission S id permission_id option_id i)
    unfolding respond_permission require require_permission ◌>>=◌
    asked-Answer s h = elim (Option-cases s.pending_permission) [
      | inl p ↦ nothing_asked s h p (rw (h, p) refl)
      | inr (pending, p) ↦ elim (Bool-cases (pending.id == permission_id)) [
        | inl q ↦ accepted-Answer s pending h p q
        | inr q ↦ other_asked s pending h p q (rw (h, p, q) refl)
      ]
    ]

  -- An answer to a permission request has one of five outcomes: the session is unknown, has no
  -- open request, or has another one, and nothing changes; the agent refuses the answer, and the
  -- request stays open; or the agent takes it, and the request is closed, the last sequence number
  -- advances by two and the session works again.
  pub respond_permission-Answer :
      (id permission_id option_id : String) (i : Inner X)
      → Answer id permission_id option_id i (respond_permission S id permission_id option_id i)
  unfolding respond_permission require ◌>>=◌
  respond_permission-Answer id permission_id option_id i = elim (Option-cases (get i.sessions id)) [
    | inl h ↦ not_there h (rw h refl)
    | inr (s, h) ↦ asked-Answer id permission_id option_id i s h
  ]

  nothing_asked_lem :
      (id permission_id option_id : String) (i : Inner X) (s : Session X)
      → get i.sessions id ≡ some s
      → s.pending_permission ≡ none
      → respond_permission S id permission_id option_id i ≡ (err (no_pending_permission id), i)
  unfolding respond_permission require ◌>>=◌
  nothing_asked_lem id permission_id option_id i s h p = rw (h, p) refl

  -- A permission request is answered at most once: right after an answer that succeeded, every
  -- further answer for that session fails with NoPendingPermission and changes nothing.
  pub respond_permission_once :
      (id permission_id option_id : String) (i : Inner X)
      → (respond_permission S id permission_id option_id i).0 ≡ ok tt
      → (permission_id' option_id' : String)
      → let j = (respond_permission S id permission_id option_id i).1 in
        respond_permission S id permission_id' option_id' j ≡ (err (no_pending_permission id), j)
  respond_permission_once id permission_id option_id i success permission_id' option_id' =
      elim (respond_permission-Answer id permission_id option_id i) [
        | not_there h e ↦ cc
        | nothing_asked s h p e ↦ cc
        | other_asked s pending h p q e ↦ cc
        | refused s pending e h p q refusal failure known ↦ cc
        | answered s t pending h p q taken done known closed state count ↦
            nothing_asked_lem id permission_id' option_id' _ t known closed
      ]
