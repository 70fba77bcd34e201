-- ===== src/Manager/Turns/Titles.antt =====
-- rust/session-core/src/manager.rs: `rename_session` on every branch.
use slight.Base.{String, ◌≡◌, refl, ap, none, some, true, false, inl, inr, Option-cases, Bool-cases}
use slight.Base.Text.{trim, is_empty}
use slight.Base.HashMap.{get}
use slight.Base.Exec.{Result, ok, err, ◌>>=◌}
use slight.Acp.External.{Externals}
use slight.Types.Event.{SessionSummary, snapshot}
use slight.Types.Request.{SessionError, unknown_session, empty_title}
use slight.Manager.State.{Session, Inner, System}
use slight.Manager.Journal.{next_sequence, push_event, sequence_event, status_after}
use slight.Manager.Steps.{require, change, append}
use slight.Manager.Steps.Append.{append_known, session-append, stamped}
use slight.Manager.Steps.Known.{session-change}
use slight.Manager.Turns.{rename_session, rename_to, set_title}

module _ {X : Externals} (S : System X) where
  -- The outcomes of a new title, each with the state that it leaves.
  pub data Renamed (id title : String) (i : Inner X)
      (r : Result SessionSummary SessionError × Inner X) : Type 0 where
    blank_title : is_empty (trim title) ≡ true → r ≡ (err empty_title, i) → Renamed id title i r
    not_there :
        is_empty (trim title) ≡ false
        → get i.sessions id ≡ none
        → r ≡ (err (unknown_session id), i)
        → Renamed id title i r
    renamed :
        (s t : Session X)
        → is_empty (trim title) ≡ false
        → get i.sessions id ≡ some s
        → r.0 ≡ ok t.summary
        → get r.1.sessions id ≡ some t
        → t.summary.title ≡ trim title
        → t.summary.status ≡ s.summary.status
        → t.summary.last_sequence ≡ next_sequence s.summary.last_sequence
        → Renamed id title i r

  known-Renamed :
      (id title : String) (i : Inner X) (s : Session X)
      → is_empty (trim title) ≡ false
      → get i.sessions id ≡ some s
      → Renamed id title i (rename_session S id title i)
  unfolding rename_session rename_to require status_after sequence_event ◌>>=◌
  known-Renamed id title i s p h =
      let j = (change id (set_title (trim title)) i).1 in
      let s' = set_title (trim title) s in
      let known : get j.sessions id ≡ some s' = session-change id i s h (set_title (trim title)) in
      let event =
        snapshot (record { summary = s'.summary; pending_permission = s'.pending_permission }) in
      let k = (append S id event j).1 in
      let t = push_event j.journal_limit (stamped S s' event j) s' in
      let after : get k.sessions id ≡ some t = session-append S id event j s' known in
      let made : (append S id event j).0 ≡ ok (stamped S s' event j) =
        ap (λ r. r.0) (append_known S id event j s' known) in
      let whole : rename_session S id title i ≡ (ok t.summary, k) =
        unfold change in rw (p, h, known, made, after) refl in
      rw whole (
        renamed s t p h refl after (unfold push_event in refl) (unfold push_event in refl)
          (unfold push_event in refl))

  -- A blank title, or an unknown session, fails and changes nothing; any other title is trimmed
  -- and set, the summary that is returned is the one kept, its last sequence number advances by
  -- one and its status stays.
  pub rename_session-Renamed :
      (id title : String) (i : Inner X) → Renamed id title i (rename_session S id title i)
  unfolding rename_session rename_to require ◌>>=◌
  rename_session-Renamed id title i = elim (Bool-cases (is_empty (trim title))) [
    | inl p ↦ blank_title p (rw p refl)
    | inr p ↦ elim (Option-cases (get i.sessions id)) [
      | inl h ↦ not_there p h (rw (p, h) refl)
      | inr (s, h) ↦ known-Renamed id title i s p h
    ]
  ]
