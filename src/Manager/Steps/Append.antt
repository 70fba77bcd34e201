-- ===== src/Manager/Steps/Append.antt =====
-- What `append` does, as one equation for each part of the state.
use slight.Base.{suc, String, ◌≡◌, refl, [], ◌∷◌, ◌++◌, map, none, some, true, arith}
use slight.Base.Text.{◌==◌, eq_iff}
use slight.Base.HashMap.{get, adjust, get-adjust}
use slight.Base.Exec.{ok, err, ◌>>=◌}
use slight.Acp.External.{Externals}
use slight.Types.Event.{SessionEvent, SequencedEvent}
use slight.Types.Request.{unknown_session}
use slight.Manager.State.{Session, Inner, System}
use slight.Manager.Journal.{sequence_event, push_event}
use slight.Manager.Steps.{
  require, change, observe, persist, persist_session, store_event, publish, append,
}

module _ {X : Externals} (S : System X) where
  -- The sequenced event that `append` makes for a session.
  abbrev pub stamped : Session X → SessionEvent X → Inner X → SequencedEvent X
  stamped s event i = sequence_event s (S.platform.now_ms i.moment) event

  -- The state after a successful `append`.
  pub appended : String → SequencedEvent X → Inner X → Inner X
  appended id e i = publish id e (
      persist S id (
        store_event S id e (record i {
          sessions = adjust i.sessions id (push_event i.journal_limit e);
          moment = suc i.moment;
        })))

  pub append_known :
      (id : String) (event : SessionEvent X) (i : Inner X) (s : Session X)
      → get i.sessions id ≡ some s
      → append S id event i ≡ (ok (stamped s event i), appended id (stamped s event i) i)
  unfolding append require change observe persist_session appended ◌>>=◌
  append_known id event i s h = rw h refl

  pub append_unknown :
      (id : String) (event : SessionEvent X) (i : Inner X)
      → get i.sessions id ≡ none
      → append S id event i ≡ (err (unknown_session id), i)
  unfolding append require ◌>>=◌
  append_unknown id event i h = rw h refl

  module _ (id : String) (e : SequencedEvent X) (i : Inner X) where
    pub sessions-appended :
        (appended id e i).sessions ≡ adjust i.sessions id (push_event i.journal_limit e)
    unfolding appended publish persist store_event
    sessions-appended = ground arith

    pub limit-appended : (appended id e i).journal_limit ≡ i.journal_limit
    unfolding appended publish persist store_event
    limit-appended = ground arith

    pub subscribers-appended :
        (appended id e i).subscribers ≡ adjust i.subscribers id (map λ channel. channel ++ e ∷ [])
    unfolding appended publish persist store_event
    subscribers-appended = ground arith

    pub recovered-appended : (appended id e i).recovered ≡ i.recovered
    unfolding appended publish persist store_event
    recovered-appended = ground arith

  -- The session after an `append`.
  pub session-append :
      (id : String) (event : SessionEvent X) (i : Inner X) (s : Session X)
      → get i.sessions id ≡ some s
      → get (append S id event i).1.sessions id
        ≡ some (push_event i.journal_limit (stamped s event i) s)
  session-append id event i s h =
      let e = stamped s event i in
      let f = push_event i.journal_limit e in
      let same : id == id ≡ true = (eq_iff id id).1 refl in
      rw
        (
          append_known id event i s h,
          sessions-appended id e i,
          get-adjust i.sessions id id f,
          same,
          h,
        )
        refl
