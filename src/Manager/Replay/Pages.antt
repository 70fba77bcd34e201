-- ===== src/Manager/Replay/Pages.antt =====
-- The pages of `history`, from the newest back to the oldest.
use slight.Base.{
  ℕ, zero, suc, ◌+◌, ◌-◌, ◌≤◌, ◌≡◌, refl, sym, ap, ◌∙◌, min, String, List, [], ◌∷◌, ◌++◌, Option,
  some, arith, length, drop, take, take-append-drop, length-drop, length-take, ltb, unwrap_or,
  dec_lt,
}
use slight.Base.HashMap.{get}
use slight.Base.Exec.{ok}
use slight.Acp.External.{Externals}
use slight.Types.Event.{SequencedEvent}
use slight.Manager.State.{Session, Inner}
use slight.Manager.Invariant.{Inv}
use slight.Manager.Journal.Chain.{EndsAt}
use slight.Manager.Replay.{history, history_of, eligible, page_limit, u64_max}
use slight.Manager.Replay.Numbers.{Numbered, EndsAt-Numbered}

module _ {X : Externals} where
  take-nil : (n : ℕ) → ◌≡◌ {A = List (SequencedEvent X)} (take n []) []
  take-nil zero = refl
  take-nil (suc n) = refl

  drop-nil : (n : ℕ) → ◌≡◌ {A = List (SequencedEvent X)} (drop n []) []
  drop-nil zero = refl
  drop-nil (suc n) = refl

  -- Below a boundary stands a prefix of the journal.
  eligible-Numbered :
      (boundary b : ℕ) (js : List (SequencedEvent X))
      → Numbered b js
      → eligible boundary js ≡ take (boundary - b) js
  unfolding eligible
  eligible-Numbered boundary b [] n = sym (take-nil (boundary - b))
  eligible-Numbered boundary b (e ∷ es) n =
      let rest = eligible-Numbered boundary (b + 1) es n.1 in
      elim (dec_lt e.sequence boundary) [
        | yes below ↦
            let more : boundary - b ≡ suc (boundary - (b + 1)) = omega (arith, n.0) in
            rw more (ground (arith, rest))
        | no above ↦
            let none_left : boundary - b ≡ 0 = omega (arith, n.0) in
            let none_after : boundary - (b + 1) ≡ 0 = omega (arith, n.0) in
            rw none_left (ground (arith, rw none_after at rest))
      ]

  take-take : (m n : ℕ) (js : List (SequencedEvent X)) → m ≤ n → take m (take n js) ≡ take m js
  take-take zero n js h = refl
  take-take (suc m) zero js h = absurd (omega arith)
  take-take (suc m) (suc n) [] h = refl
  take-take (suc m) (suc n) (e ∷ es) h = ap (◌∷◌ e) (take-take m n es (omega arith))

  -- The event at a place of a numbered list.
  drop-Numbered :
      (n m b : ℕ) (js : List (SequencedEvent X)) (f : SequencedEvent X)
      (fs : List (SequencedEvent X))
      → Numbered b js
      → drop n (take m js) ≡ f ∷ fs
      → f.sequence ≡ b + n
  drop-Numbered zero zero b js f fs num e = cc
  drop-Numbered (suc n) zero b js f fs num e = cc
  drop-Numbered zero (suc m) b [] f fs num e = cc
  drop-Numbered (suc n) (suc m) b [] f fs num e = cc
  drop-Numbered zero (suc m) b (j ∷ js) f fs num e = ground arith
  drop-Numbered (suc n) (suc m) b (j ∷ js) f fs num e =
      omega (arith, drop-Numbered n m (b + 1) js f fs num.1 e)

  -- What stands before the first event of a page is all that is older than it.
  older_events :
      (boundary start b : ℕ) (js : List (SequencedEvent X)) (f : SequencedEvent X)
      (fs : List (SequencedEvent X))
      → Numbered b js
      → start ≤ length (eligible boundary js)
      → drop start (eligible boundary js) ≡ f ∷ fs
      → take start (eligible boundary js) ≡ eligible f.sequence js
  older_events boundary start b js f fs num fits e =
      let prefix = eligible-Numbered boundary b js num in
      let first : f.sequence ≡ b + start =
        drop-Numbered start (boundary - b) b js f fs num (rw prefix at e) in
      let inside : start ≤ boundary - b =
        omega (arith, ap length prefix, length-take (boundary - b) js) in
      let place : start ≡ f.sequence - b = omega (arith, first) in
      ap (take start) prefix
      ∙ take-take start (boundary - b) js inside
      ∙ ap (λ n. take n js) place
      ∙ sym (eligible-Numbered f.sequence b js num)

  pages_of :
      (last boundary k : ℕ) (js : List (SequencedEvent X)) (f : SequencedEvent X)
      (fs : List (SequencedEvent X))
      → EndsAt last js
      → length js ≤ last
      → drop (length (eligible boundary js) - k) (eligible boundary js) ≡ f ∷ fs
      → take (length (eligible boundary js) - k) (eligible boundary js) ≡ eligible f.sequence js
  unfolding eligible
  pages_of last boundary k [] f fs h fits page = cc (drop-nil (0 - k))
  pages_of last boundary k (e ∷ es) f fs h fits page =
      older_events boundary (length (eligible boundary (e ∷ es)) - k) e.sequence (e ∷ es) f fs
        (EndsAt-Numbered last e es h fits).0 (omega arith) page

  -- A page of the history of a live session of a sound manager, where its counter has not wrapped
  -- and the page is not empty, is as long as the limit (clamped to 1..200) and the journal allow;
  -- it stands directly after all the events before its first one, and has_more says whether there
  -- are such.
  pub history_pages :
      (i : Inner X) (id : String) (s : Session X) (before : Option ℕ) (limit : ℕ)
      (f : SequencedEvent X) (fs : List (SequencedEvent X))
      → Inv i
      → get i.sessions id ≡ some s
      → length s.journal ≤ s.summary.last_sequence
      → (history_of 200 s.summary s.journal before limit).events ≡ f ∷ fs
      → let r = history_of 200 s.summary s.journal before limit in
        let asked = eligible (unwrap_or before u64_max) s.journal in
        (history id before limit i ≡ ok r)
        × (asked ≡ eligible f.sequence s.journal ++ r.events)
        × (length r.events ≡ min (page_limit 200 limit) (length asked))
        × (r.has_more ≡ ltb 0 (length (eligible f.sequence s.journal)))
  unfolding history history_of
  history_pages i id s before limit f fs v known fits page =
      let asked = eligible (unwrap_or before u64_max) s.journal in
      let start = length asked - page_limit 200 limit in
      let older =
        pages_of s.summary.last_sequence (unwrap_or before u64_max) (page_limit 200 limit) s.journal
          f fs (v.sound id s known).chained fits page in
      let size : length (eligible f.sequence s.journal) ≡ start =
        omega (arith, ap length older, length-take start asked) in
      (
        rw (known, history) refl,
        sym (take-append-drop start asked) ∙ ap (λ xs. xs ++ drop start asked) older,
        omega (arith, length-drop start asked),
        ap (ltb 0) (sym size),
      )
