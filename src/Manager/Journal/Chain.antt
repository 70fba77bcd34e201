-- ===== src/Manager/Journal/Chain.antt =====
-- The sequence numbers of a journal: each event follows the one before it.
use slight.Base.{
  ℕ, suc, ◌-◌, ◌≤◌, ◌≡◌, refl, List, [], ◌∷◌, ◌++◌, Bool-cases, inl, inr, arith, ltb, length, drop,
}
use slight.Acp.External.{Externals}
use slight.Types.Event.{SequencedEvent}
use slight.Manager.Journal.{next_sequence, trim_front}

module _ {X : Externals} where
  -- `FollowsFrom a js`: the first number of `js` is the next after `a`, and so on.
  abbrev pub FollowsFrom : ℕ → List (SequencedEvent X) → Type 0
  FollowsFrom a [] = Unit {0}
  FollowsFrom a (e ∷ es) = (e.sequence ≡ next_sequence a) × FollowsFrom e.sequence es

  -- The last number of a journal that follows `a`.
  abbrev pub last_from : ℕ → List (SequencedEvent X) → ℕ
  last_from a [] = a
  last_from a (e ∷ es) = last_from e.sequence es

  -- The journal's numbers are consecutive and end at `last`.
  pub record EndsAt (last : ℕ) (journal : List (SequencedEvent X)) : Type 0 where
    pub start : ℕ
    pub follows : FollowsFrom start journal
    pub ends : last_from start journal ≡ last

  FollowsFrom-snoc :
      (a : ℕ) (js : List (SequencedEvent X)) (e : SequencedEvent X)
      → FollowsFrom a js
      → e.sequence ≡ next_sequence (last_from a js)
      → FollowsFrom a (js ++ e ∷ [])
  FollowsFrom-snoc a [] e f h = (h, tt)
  FollowsFrom-snoc a (j ∷ js) e f h = (f.0, FollowsFrom-snoc j.sequence js e f.1 h)

  last_from-snoc :
      (a : ℕ) (js : List (SequencedEvent X)) (e : SequencedEvent X)
      → last_from a (js ++ e ∷ []) ≡ e.sequence
  last_from-snoc a [] e = refl
  last_from-snoc a (j ∷ js) e = last_from-snoc j.sequence js e

  pub EndsAt-snoc :
      (last : ℕ) (js : List (SequencedEvent X)) (e : SequencedEvent X)
      → EndsAt last js
      → e.sequence ≡ next_sequence last
      → EndsAt e.sequence (js ++ e ∷ [])
  EndsAt-snoc last js e h q = record {
    start = h.start;
    follows = FollowsFrom-snoc h.start js e h.follows (rw h.ends q);
    ends = last_from-snoc h.start js e;
  }

  EndsAt-tail :
      (last : ℕ) (e : SequencedEvent X) (js : List (SequencedEvent X))
      → EndsAt last (e ∷ js)
      → EndsAt last js
  EndsAt-tail last e js h = record { start = e.sequence; follows = h.follows.1; ends = h.ends }

  pub EndsAt-trim_front :
      (limit last : ℕ) (js : List (SequencedEvent X))
      → EndsAt last js
      → EndsAt last (trim_front limit js)
  unfolding trim_front
  EndsAt-trim_front limit last [] h = h
  EndsAt-trim_front limit last (e ∷ js) h = elim (Bool-cases (ltb limit (length (e ∷ js)))) [
    | inl over ↦ rw over (EndsAt-trim_front limit last js (EndsAt-tail last e js h))
    | inr fits ↦ rw fits h
  ]

  pub EndsAt-empty : (last : ℕ) → EndsAt last []
  EndsAt-empty last = record { start = last; follows = tt; ends = refl }

  -- The loop leaves the newest `limit` events.
  pub trim_front-drop :
      (limit : ℕ) (js : List (SequencedEvent X)) → trim_front limit js ≡ drop (length js - limit) js
  unfolding trim_front
  trim_front-drop limit [] = let none_over : 0 - limit ≡ 0 = omega arith in rw none_over refl
  trim_front-drop limit (e ∷ js) = elim (Bool-cases (ltb limit (length (e ∷ js)))) [
    | inl over ↦
        let step : suc (length js) - limit ≡ suc (length js - limit) = ground arith in
        rw (over, step) (trim_front-drop limit js)
    | inr fits ↦ let step : suc (length js) - limit ≡ 0 = ground arith in rw (fits, step) refl
  ]

  pub length-trim_front :
      (limit : ℕ) (js : List (SequencedEvent X)) → length (trim_front limit js) ≤ limit
  unfolding trim_front
  length-trim_front limit [] = omega arith
  length-trim_front limit (e ∷ js) = ground (arith, length-trim_front limit js)
