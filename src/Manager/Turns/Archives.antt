-- ===== src/Manager/Turns/Archives.antt =====
-- rust/session-core/src/manager.rs: `archive_session` on every branch.
use slight.Base.{String, Bool, ◌≡◌, refl, none, some, inl, inr, arith, Option-cases}
use slight.Base.HashMap.{get, adjust, get-adjust_same}
use slight.Base.Exec.{Result, ok, err, ◌>>=◌}
use slight.Acp.External.{Externals}
use slight.Types.Event.{SessionSummary}
use slight.Types.Request.{SessionError, unknown_session}
use slight.Manager.State.{Session, RecoveredSession, Inner, System}
use slight.Manager.Steps.{change, persist, persist_session}
use slight.Manager.Turns.{
  archive_session, archive_live, archive_recovered, store_archived, set_archived,
}

module _ {X : Externals} (S : System X) where
  -- The outcomes of a change of the archived flag, each with the state that it leaves.
  pub data Archived (id : String) (archived : Bool) (i : Inner X)
      (r : Result SessionSummary SessionError × Inner X) : Type 0 where
    not_there :
        get i.sessions id ≡ none
        → get i.recovered id ≡ none
        → r ≡ (err (unknown_session id), i)
        → Archived id archived i r
    live_one :
        (s : Session X)
        → get i.sessions id ≡ some s
        → r.0 ≡ ok (record s.summary { archived = archived })
        → get r.1.sessions id ≡ some (set_archived archived s)
        → r.1.recovered ≡ i.recovered
        → Archived id archived i r
    recovered_one :
        (s t : RecoveredSession X)
        → get i.sessions id ≡ none
        → get i.recovered id ≡ some s
        → r.0 ≡ ok t.summary
        → get r.1.recovered id ≡ some t
        → t.summary ≡ record s.summary { archived = archived }
        → t.journal ≡ s.journal
        → r.1.sessions ≡ i.sessions
        → Archived id archived i r

  module _ (id : String) (i : Inner X) where
    sessions-persist : (persist S id i).sessions ≡ i.sessions
    unfolding persist
    sessions-persist = ground arith

    recovered-persist : (persist S id i).recovered ≡ i.recovered
    unfolding persist
    recovered-persist = ground arith

    sessions-store_archived :
        (archived : Bool) → (store_archived S id archived i).sessions ≡ i.sessions
    unfolding store_archived
    sessions-store_archived archived = ground arith

    recovered-store_archived :
        (archived : Bool) → (store_archived S id archived i).recovered ≡ i.recovered
    unfolding store_archived
    recovered-store_archived archived = ground arith

  -- Archiving or restoring a session sets that flag of its summary, live or unrecovered, and
  -- returns the summary that is kept, while the sessions of the other kind stay as they are; for
  -- an unknown session it fails and changes nothing.
  pub archive_session-Archived :
      (id : String) (archived : Bool) (i : Inner X)
      → Archived id archived i (archive_session S id archived i)
  unfolding archive_session archive_live archive_recovered change persist_session ◌>>=◌
  archive_session-Archived id archived i = elim (Option-cases (get i.sessions id)) [
    | inr (s, h) ↦
        let j = record i { sessions = adjust i.sessions id (set_archived archived) } in
        live_one s h (rw (h, archive_session) refl)
          (rw (h, archive_session, sessions-persist id j)
            (get-adjust_same i.sessions id (set_archived archived) s h))
          (rw (h, archive_session) (recovered-persist id j))
    | inl h ↦ elim (Option-cases (get i.recovered id)) [
      | inl k ↦ not_there h k (rw (h, k, archive_session) refl)
      | inr (s, k) ↦
          let f : RecoveredSession X → RecoveredSession X =
            λ r. record r { summary = record r.summary { archived = archived } } in
          let j = record i { recovered = adjust i.recovered id f } in
          recovered_one s (f s) h k (rw (h, k, archive_session) refl)
            (rw (h, k, archive_session, recovered-store_archived id j archived)
              (get-adjust_same i.recovered id f s k))
            refl refl (rw (h, k, archive_session) (sessions-store_archived id j archived))
    ]
  ]
