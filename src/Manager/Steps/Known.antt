-- ===== src/Manager/Steps/Known.antt =====
-- The steps of a method on a session that is there.
use slight.Base.{String, some, ◌≡◌, refl, ap}
use slight.Base.HashMap.{get, adjust, get-adjust_same}
use slight.Base.Exec.{Result, ok, map_err, pure, ◌>>=◌, ◌>>◌}
use slight.Acp.External.{Externals}
use slight.Acp.Kinds.{AcpError}
use slight.Types.Event.{SessionEvent}
use slight.Types.Request.{agent}
use slight.Manager.State.{Session, Inner, System}
use slight.Manager.Journal.{next_sequence, status_after, push_event, sequence_event}
use slight.Manager.Steps.{require, change, call, append}
use slight.Manager.Steps.Append.{stamped, append_known, session-append}

module _ {X : Externals} where
  module _ (id : String) (i : Inner X) (s : Session X) (h : get i.sessions id ≡ some s) where
    pub call_known :
        {A : Type 0} (f : X.Connection → Result A AcpError × X.Connection)
        → call id f i ≡ (
          map_err agent (f s.connection).0,
          record i {
            sessions = adjust i.sessions id (λ t. record t { connection = (f t.connection).1 });
          },
        )
    unfolding call require change ◌>>=◌
    call_known f = rw h refl

    pub session-call :
        {A : Type 0} (f : X.Connection → Result A AcpError × X.Connection)
        → get (call id f i).1.sessions id ≡ some (record s { connection = (f s.connection).1 })
    session-call f =
        rw (call_known f)
          (get-adjust_same i.sessions id (λ t. record t { connection = (f t.connection).1 }) s h)

    pub session-change :
        (f : Session X → Session X) → get (change id f i).1.sessions id ≡ some (f s)
    unfolding change ◌>>=◌
    session-change f = get-adjust_same i.sessions id f s h

module _ {X : Externals} (S : System X) where
  -- Two events in a row, as most requests end.
  pub append_twice :
      (id : String) (first second : SessionEvent X) (i : Inner X) (s : Session X)
      → get i.sessions id ≡ some s
      → let r = (append S id first >> (append S id second >> pure tt)) i in
        (r.0 ≡ ok tt)
        × ((t : Session X) × (get r.1.sessions id ≡ some t)
            × (t.pending_permission ≡ s.pending_permission)
            × (t.summary.status ≡ status_after second (status_after first s.summary.status))
            × (t.summary.last_sequence ≡ next_sequence (next_sequence s.summary.last_sequence))
            × (t.exit_reported ≡ s.exit_reported))
  unfolding ◌>>=◌ sequence_event
  append_twice id first second i s h =
      let j = (append S id first i).1 in
      let t = push_event i.journal_limit (stamped S s first i) s in
      let known : get j.sessions id ≡ some t = session-append S id first i s h in
      let once : (append S id first i).0 ≡ ok (stamped S s first i) =
        ap (λ r. r.0) (append_known S id first i s h) in
      let again : (append S id second j).0 ≡ ok (stamped S t second j) =
        ap (λ r. r.0) (append_known S id second j t known) in
      let last = push_event j.journal_limit (stamped S t second j) t in
      rw (once, again)
        (
          refl,
          (
            last,
            session-append S id second j t known,
            unfold push_event in refl,
            unfold push_event in refl,
            unfold push_event in refl,
            unfold push_event in refl,
          ),
        )
