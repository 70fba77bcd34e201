-- ===== src/Manager/Replay/Numbers.antt =====
-- Journals with consecutive numbers, under the filters of `attach` and `history`.
use slight.Base.{ℕ, ◌+◌, ◌%◌, ◌^◌, ◌≤◌, ◌<◌, ◌≡◌, refl, List, [], ◌∷◌, arith, length}
use slight.Acp.External.{Externals}
use slight.Types.Event.{SequencedEvent}
use slight.Manager.Journal.Chain.{FollowsFrom, last_from, EndsAt}
use slight.Manager.Replay.{replay_after}

module _ {X : Externals} where
  -- The numbers are `b`, `b + 1`, and so on.
  abbrev pub Numbered : ℕ → List (SequencedEvent X) → Type 0
  Numbered b [] = Unit {0}
  Numbered b (e ∷ es) = (e.sequence ≡ b) × Numbered (b + 1) es

  -- Where the counter does not wrap inside the journal, following is counting.
  FollowsFrom-Numbered :
      (b : ℕ) (es : List (SequencedEvent X))
      → b + length es < 2 ^ 64
      → FollowsFrom b es
      → Numbered (b + 1) es × (last_from b es ≡ b + length es)
  FollowsFrom-Numbered b [] small f = (tt, omega arith)
  FollowsFrom-Numbered b (e ∷ es) small f =
      let here : e.sequence ≡ b + 1 = omega (arith, f.0) in
      let (rest, ends) = FollowsFrom-Numbered (b + 1) es (omega arith) (rw here at f.1) in
      ((here, rest), rw here (omega (arith, ends)))

  last_from-mod :
      (b : ℕ) (es : List (SequencedEvent X))
      → b < 2 ^ 64
      → FollowsFrom b es
      → last_from b es ≡ (b + length es) % 2 ^ 64
  last_from-mod b [] small f = omega arith
  last_from-mod b (e ∷ es) small f =
      let ends = last_from-mod e.sequence es (omega (arith, f.0)) f.1 in omega (arith, ends, f.0)

  -- A journal no longer than its last number counts up to it.
  pub EndsAt-Numbered :
      (last : ℕ) (e : SequencedEvent X) (es : List (SequencedEvent X))
      → EndsAt last (e ∷ es)
      → length (e ∷ es) ≤ last
      → Numbered e.sequence (e ∷ es) × (e.sequence + length (e ∷ es) ≡ last + 1) × (last < 2 ^ 64)
  EndsAt-Numbered last e es h fits =
      let below : e.sequence < 2 ^ 64 = omega (arith, h.follows.0) in
      let ends = last_from-mod e.sequence es below h.follows.1 in
      let (rest, total) =
        FollowsFrom-Numbered e.sequence es (omega (arith, ends, h.ends)) h.follows.1 in
      ((refl, rest), omega (arith, total, h.ends), omega (arith, ends, h.ends))

  pub replay_after_all :
      (from b : ℕ) (js : List (SequencedEvent X))
      → Numbered b js
      → from < b
      → replay_after from js ≡ js
  unfolding replay_after
  replay_after_all from b [] n h = refl
  replay_after_all from b (e ∷ es) n h = ground (arith, replay_after_all from (b + 1) es n.1)

  -- Replaying from inside the journal gives the numbers after it, to the end.
  pub replay_after-Numbered :
      (from b : ℕ) (js : List (SequencedEvent X))
      → Numbered b js
      → b ≤ from + 1
      → from < b + length js
      → Numbered (from + 1) (replay_after from js)
        × (from + 1 + length (replay_after from js) ≡ b + length js)
  unfolding replay_after
  replay_after-Numbered from b [] n low high = (tt, omega arith)
  replay_after-Numbered from b (e ∷ es) n low high =
      ground
        (arith, replay_after_all from (b + 1) es n.1, replay_after-Numbered from (b + 1) es n.1)
