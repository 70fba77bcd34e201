-- ===== src/Manager/Replay/Complete.antt =====
-- What a client that attaches after a sequence number is given.
use slight.Base.{
  ℕ, ◌+◌, ◌≤◌, ◌<◌, ◌≡◌, refl, ap, String, List, ◌∷◌, some, true, false, inl, inr, arith, length,
  Bool-cases, ltb,
}
use slight.Base.HashMap.{get}
use slight.Base.Exec.{ok}
use slight.Acp.External.{Externals}
use slight.Types.Event.{SequencedEvent}
use slight.Types.Request.{AttachResult}
use slight.Manager.State.{Session, Inner}
use slight.Manager.Invariant.{Inv}
use slight.Manager.Journal.Chain.{EndsAt}
use slight.Manager.Replay.{attach, attach_to, needs_resync, saturating_suc, oldest_sequence}
use slight.Manager.Replay.Numbers.{
  Numbered, EndsAt-Numbered, replay_after_all, replay_after-Numbered,
}

module _ {X : Externals} where
  -- The two answers to a client that has seen every event up to `after`.
  pub data Replays (after last : ℕ) (journal : List (SequencedEvent X)) (r : AttachResult X)
      : Type 0 where
    -- Nothing is missing: the replay is the numbers after `after`, up to the last.
    complete :
        r.resync_required ≡ false
        → Numbered (after + 1) r.replayed
        → after + length r.replayed ≡ last
        → Replays after last journal r
    -- The next event has left the journal: the client is told, and is given all that is kept.
    resync :
        (oldest : ℕ)
        → r.resync_required ≡ true
        → r.oldest_available_sequence ≡ some oldest
        → after + 1 < oldest
        → r.replayed ≡ journal
        → Replays after last journal r

  attach_to-Replays :
      (s : Session X) (e : SequencedEvent X) (es : List (SequencedEvent X)) (after : ℕ)
      → EndsAt s.summary.last_sequence (e ∷ es)
      → length (e ∷ es) ≤ s.summary.last_sequence
      → after ≤ s.summary.last_sequence
      → Replays after s.summary.last_sequence (e ∷ es) (attach_to s.summary (e ∷ es) (some after))
  unfolding attach_to needs_resync oldest_sequence
  attach_to-Replays s e es after h fits seen =
      let (numbered, total, small) = EndsAt-Numbered s.summary.last_sequence e es h fits in
      elim (Bool-cases (ltb (saturating_suc after) e.sequence)) [
        | inl lost ↦
            let gap : after + 1 < e.sequence = ground arith in
            resync e.sequence lost refl gap
              (replay_after_all after e.sequence (e ∷ es) numbered (omega arith))
        | inr kept ↦
            let near : e.sequence ≤ after + 1 = ground arith in
            let (tail, count) =
              replay_after-Numbered after e.sequence (e ∷ es) numbered near (omega arith) in
            complete kept tail (omega arith)
      ]

  -- Attaching to a live session of a sound manager, where its journal is not empty and its counter
  -- has not wrapped, after a number that the session has reached: the client gets every event it
  -- has not seen, with no gap and no repetition, or is told that the next one is gone and is given
  -- all that is kept.
  pub attach-Replays :
      (i : Inner X) (id : String) (s : Session X) (e : SequencedEvent X)
      (es : List (SequencedEvent X)) (after : ℕ)
      → Inv i
      → get i.sessions id ≡ some s
      → s.journal ≡ e ∷ es
      → length s.journal ≤ s.summary.last_sequence
      → after ≤ s.summary.last_sequence
      → (r : AttachResult X) × (attach id (some after) i ≡ ok r)
        × (r.latest_sequence ≡ s.summary.last_sequence)
        × Replays after s.summary.last_sequence s.journal r
  unfolding attach
  attach-Replays i id s e es after v known shape fits seen =
      let whole = (v.sound id s known).chained in
      (
        attach_to s.summary (e ∷ es) (some after),
        rw (known, attach) (ap ok (ap (λ js. attach_to s.summary js (some after)) shape)),
        unfold attach_to in refl,
        rw shape (attach_to-Replays s e es after (rw shape at whole) (rw shape at fits) seen),
      )
