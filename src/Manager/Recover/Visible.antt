-- ===== src/Manager/Recover/Visible.antt =====
-- rust/session-core/src/manager.rs: no stored session is lost at the start.
use slight.Base.{
  ℕ, suc, inl, inr, String, List, [], ◌∷◌, ◌++◌, Option, is_some, true, ◌||◌, ◌≡◌, refl, arith,
}
use slight.Base.Text.{eq_iff}
use slight.Base.HashMap.{get, get-insert}
use slight.Base.Exec.{Result, ok, err, is_ok, Result-cases}
use slight.Acp.External.{Externals}
use slight.Acp.Kinds.{AgentDescriptor}
use slight.Acp.Adapter.{AdapterRegistry}
use slight.Types.Event.{SequencedEvent, SessionRecoveryState}
use slight.Store.Rows.{StoredSession}
use slight.Manager.State.{RehydratedSession, PersistedSession, Inner, System}
use slight.Manager.Replay.{attach}
use slight.Manager.Recover.{
  keep_recovered, install_rehydrated_session, settle, recover_record, recover_unreadable,
  recover_stored_session, recover_all, or_nil, new_manager, blank,
}

module _ {X : Externals} where
  -- The session is live, or stands among those that could not be recovered.
  abbrev pub IsKnown : String → Inner X → Type 0
  IsKnown id i = (is_some (get i.sessions id) || is_some (get i.recovered id)) ≡ true

  attach_known :
      (id : String) (after : Option ℕ) (i : Inner X)
      → IsKnown id i
      → is_ok (attach id after i) ≡ true
  unfolding attach
  attach_known id after i h = ground arith

module _ {X : Externals} (S : System X) where
  module _ (row : StoredSession X.Value) (journal : List (SequencedEvent X)) (r : PersistedSession)
      (d : AgentDescriptor) where
    settle_keeps :
        (o : Result (RehydratedSession X) SessionRecoveryState) (i : Inner X) (id : String)
        → IsKnown id i
        → IsKnown id (settle S row journal r d o i)
    unfolding settle install_rehydrated_session keep_recovered
    settle_keeps (ok h) i id k = rw (get-insert i.sessions r.summary.id id) (ground arith)
    settle_keeps (err state) i id k = rw (get-insert i.recovered row.session_id id) (ground arith)

    settle_makes :
        (o : Result (RehydratedSession X) SessionRecoveryState) (i : Inner X)
        → r.summary.id ≡ row.session_id
        → IsKnown row.session_id (settle S row journal r d o i)
    unfolding settle install_rehydrated_session keep_recovered
    settle_makes (ok h) i same =
        rw (get-insert i.sessions r.summary.id row.session_id)
          (ground (arith, (eq_iff r.summary.id row.session_id).1 same))
    settle_makes (err state) i same =
        rw (get-insert i.recovered row.session_id row.session_id)
          (ground (arith, (eq_iff row.session_id row.session_id).1 refl))

  unreadable_keeps :
      (row : StoredSession X.Value) (journal : List (SequencedEvent X)) (error : String)
      (i : Inner X) (id : String)
      → IsKnown id i
      → IsKnown id (recover_unreadable S row journal error i)
  unfolding recover_unreadable keep_recovered
  unreadable_keeps row journal error i id k =
      rw (get-insert i.recovered row.session_id id) (ground arith)

  unreadable_makes :
      (row : StoredSession X.Value) (journal : List (SequencedEvent X)) (error : String)
      (i : Inner X)
      → IsKnown row.session_id (recover_unreadable S row journal error i)
  unfolding recover_unreadable keep_recovered
  unreadable_makes row journal error i =
      rw (get-insert i.recovered row.session_id row.session_id)
        (ground (arith, (eq_iff row.session_id row.session_id).1 refl))

  recover_keeps :
      (row : StoredSession X.Value) (i : Inner X) (id : String)
      → IsKnown id i
      → IsKnown id (recover_stored_session S row i)
  unfolding recover_stored_session recover_record
  recover_keeps row i id k = elim (Result-cases (S.json.record_from_value row.metadata)) [
    | inl (r, q) ↦
        rw (q, recover_stored_session)
          (settle_keeps row _ r _ _ (record i { moment = suc i.moment }) id k)
    | inr (error, q) ↦ rw (q, recover_stored_session) (unreadable_keeps row _ error i id k)
  ]

  recover_makes :
      (row : StoredSession X.Value) (i : Inner X)
      → ((r : PersistedSession)
          → S.json.record_from_value row.metadata ≡ ok r
          → r.summary.id ≡ row.session_id)
      → IsKnown row.session_id (recover_stored_session S row i)
  unfolding recover_stored_session recover_record
  recover_makes row i keyed = elim (Result-cases (S.json.record_from_value row.metadata)) [
    | inl (r, q) ↦
        rw (q, recover_stored_session)
          (settle_makes row _ r _ _ (record i { moment = suc i.moment }) (keyed r q))
    | inr (error, q) ↦ rw (q, recover_stored_session) (unreadable_makes row _ error i)
  ]

  recover_all_keeps :
      (rows : List (StoredSession X.Value)) (i : Inner X) (id : String)
      → IsKnown id i
      → IsKnown id (recover_all S rows i)
  unfolding recover_all
  recover_all_keeps [] i id k = k
  recover_all_keeps (row ∷ rest) i id k =
      recover_all_keeps rest (recover_stored_session S row i) id (recover_keeps row i id k)

  recover_all_makes :
      (before after : List (StoredSession X.Value)) (row : StoredSession X.Value) (i : Inner X)
      → ((r : PersistedSession)
          → S.json.record_from_value row.metadata ≡ ok r
          → r.summary.id ≡ row.session_id)
      → IsKnown row.session_id (recover_all S (before ++ row ∷ after) i)
  unfolding recover_all
  recover_all_makes [] after row i keyed =
      recover_all_keeps after (recover_stored_session S row i) row.session_id
        (recover_makes row i keyed)
  recover_all_makes (first ∷ rest) after row i keyed =
      recover_all_makes rest after row (recover_stored_session S first i) keyed

  -- A new manager answers attach for every row of its store whose record, where it can be read,
  -- carries the row's id: whether the agent resumes the session or not, is registered or not, and
  -- whether the record can be read or not.
  pub new_manager-attach :
      (adapters : AdapterRegistry X) (store : X.Store) (limit moment : ℕ)
      (before after : List (StoredSession X.Value)) (row : StoredSession X.Value) (seen : Option ℕ)
      → or_nil (S.rows.list_sessions store) ≡ before ++ row ∷ after
      → ((r : PersistedSession)
          → S.json.record_from_value row.metadata ≡ ok r
          → r.summary.id ≡ row.session_id)
      → is_ok (attach row.session_id seen (new_manager S adapters store limit moment)) ≡ true
  unfolding new_manager
  new_manager-attach adapters store limit moment before after row seen rows keyed =
      attach_known row.session_id seen _
        (rw rows (recover_all_makes before after row (blank adapters store limit moment) keyed))
