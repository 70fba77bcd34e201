-- ===== src/Manager/Steps/Delivery.antt =====
-- rust/session-core/src/manager.rs: what one `append` leaves behind for its session, the other
-- sessions and the subscribers.
use mathlib.Core.Option
use slight.Base.{
  ℕ, ◌+◌, ◌-◌, String, ◌≡◌, refl, ap, ◌∙◌, [], ◌∷◌, ◌++◌, map, some, if◌then◌else◌, Bool, true,
  false, length, drop, length-append, arith,
}
use slight.Base.Text.{◌==◌, eq_iff}
use slight.Base.HashMap.{HashMap, get, get-adjust}
use slight.Base.Exec.{ok}
use slight.Acp.External.{Externals}
use slight.Types.Event.{SessionEvent, SequencedEvent}
use slight.Manager.State.{Session, Inner, System}
use slight.Manager.Journal.{push_event, sequence_event, next_sequence, status_after}
use slight.Manager.Journal.Chain.{trim_front-drop}
use slight.Manager.Steps.{append}
use slight.Manager.Steps.Append.{
  stamped, append_known, session-append, sessions-appended, subscribers-appended,
}

module _ {X : Externals} where
  journal-push_event :
      (limit : ℕ) (e : SequencedEvent X) (s : Session X)
      → (push_event limit e s).journal ≡ drop (length s.journal + 1 - limit) (s.journal ++ e ∷ [])
  unfolding push_event
  journal-push_event limit e s =
      let count : length (s.journal ++ e ∷ []) ≡ length s.journal + 1 =
        omega (arith, length-append s.journal (e ∷ [])) in
      trim_front-drop limit (s.journal ++ e ∷ [])
      ∙ ap (λ n. drop (n - limit) (s.journal ++ e ∷ [])) count

  same_key :
      (b : Bool) (id other : String) (f : Session X → Session X) (m : HashMap (Session X))
      (s : Session X)
      → (b ≡ true → id ≡ other)
      → get m id ≡ some s
      → (if b then Option.map f (get m other) else get m other)
        ≡ (if b then some (f s) else get m other)
  same_key true id other f m s same h = rw (← same refl, h) refl
  same_key false id other f m s same h = refl

module _ {X : Externals} (S : System X) where
  -- Appending to a live session returns the event under the next sequence number; the journal is
  -- then the newest of the old events and the new one, up to the limit, the summary has its number
  -- and its status, every subscriber of that session and of no other has it at the end of its
  -- channel, and the other sessions are as before.
  pub append-delivers :
      (id other : String) (event : SessionEvent X) (i : Inner X) (s : Session X)
      → get i.sessions id ≡ some s
      → let e = stamped S s event i in
        let j = (append S id event i).1 in
        ((append S id event i).0 ≡ ok e)
        × (e.sequence ≡ next_sequence s.summary.last_sequence)
        × ((s' : Session X) × (get j.sessions id ≡ some s')
            × (s'.journal ≡ drop (length s.journal + 1 - i.journal_limit) (s.journal ++ e ∷ []))
            × (s'.summary.last_sequence ≡ e.sequence)
            × (s'.summary.status ≡ status_after event s.summary.status)
            × (get j.sessions other ≡ (if id == other then some s' else get i.sessions other)))
        × (get j.subscribers other ≡ (
            if id == other
            then Option.map (map λ channel. channel ++ e ∷ []) (get i.subscribers other)
            else get i.subscribers other))
  unfolding sequence_event
  append-delivers id other event i s h =
      let e = stamped S s event i in
      let f = push_event i.journal_limit e in
      let others : get (append S id event i).1.sessions other
          ≡ (if id == other then some (f s) else get i.sessions other) =
        rw (append_known S id event i s h, sessions-appended S id e i)
          (get-adjust i.sessions id other f
            ∙ same_key (id == other) id other f i.sessions s (λ p. (eq_iff id other).0 p) h) in
      (
        ap (λ r. r.0) (append_known S id event i s h),
        refl,
        (
          f s,
          session-append S id event i s h,
          journal-push_event i.journal_limit e s,
          unfold push_event in refl,
          unfold push_event in refl,
          others,
        ),
        rw (append_known S id event i s h, subscribers-appended S id e i)
            (get-adjust i.subscribers id other (map λ channel. channel ++ e ∷ [])),
      )
