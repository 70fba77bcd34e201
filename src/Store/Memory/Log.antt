-- ===== src/Store/Memory/Log.antt =====
-- rust/session-store/src/lib.rs: what an `InMemoryStore` gives back of the events written to it.
use slight.Base.{
  ℕ, zero, suc, ◌<◌, String, ◌≡◌, refl, List, [], ◌∷◌, ◌++◌, filter, Option, take, unwrap_or,
  dec_lt, length, if◌then◌else◌, true, arith, ap, ◌∙◌,
}
use slight.Base.Text.{◌==◌, eq_iff}
use slight.Base.HashMap.{get-insert}
use slight.Base.Exec.{ok}
use slight.Store.Rows.{StoredEvent}
use slight.Store.Memory.{
  InMemoryStore, log_of, append_event, events_after, latest_sequence, last_sequence_of,
}

module _ {V : Type 0} where
  log-append_event :
      (st : InMemoryStore V) (id other : String) (e : StoredEvent V)
      → log_of (append_event st id e).1 other
        ≡ (if id == other then log_of st other ++ e ∷ [] else log_of st other)
  unfolding log_of append_event
  log-append_event st id other e =
      ground (arith, get-insert st.events id other (log_of st id ++ e ∷ []), eq_iff id other)

  newer-snoc :
      (from : ℕ) (es : List (StoredEvent V)) (e : StoredEvent V)
      → from < e.sequence
      → filter (λ d. dec_lt from d.sequence) (es ++ e ∷ [])
        ≡ filter (λ d. dec_lt from d.sequence) es ++ e ∷ []
  newer-snoc from [] e h = ground arith
  newer-snoc from (d ∷ es) e h = ground (arith, newer-snoc from es e h)

  take-snoc :
      (n : ℕ) (es : List (StoredEvent V)) (e : StoredEvent V)
      → length (take n es) < n
      → take n (es ++ e ∷ []) ≡ take n es ++ e ∷ []
  take-snoc zero es e h = absurd (omega arith)
  take-snoc (suc zero) [] e h = refl
  take-snoc (suc (suc n)) [] e h = refl
  take-snoc (suc n) (d ∷ es) e h = ap (λ rest. d ∷ rest) (take-snoc n es e (omega arith))

  last-snoc :
      (es : List (StoredEvent V)) (e : StoredEvent V) → last_sequence_of (es ++ e ∷ []) ≡ e.sequence
  unfolding last_sequence_of
  last-snoc [] e = refl
  last-snoc (d ∷ []) e = refl
  last-snoc (d ∷ f ∷ es) e = last-snoc (f ∷ es) e

  -- An event appended to an in-memory store is the last of those read back after an earlier
  -- number, as far as the limit leaves room for it, and its number is then the latest.
  pub append_event-events_after :
      (st : InMemoryStore V) (id : String) (e : StoredEvent V) (after : Option ℕ) (limit : ℕ)
      (old : List (StoredEvent V))
      → events_after st id after limit ≡ ok old
      → length old < limit
      → unwrap_or after 0 < e.sequence
      → (events_after (append_event st id e).1 id after limit ≡ ok (old ++ e ∷ []))
        × (latest_sequence (append_event st id e).1 id ≡ ok e.sequence)
  unfolding events_after latest_sequence
  append_event-events_after st id e after limit old read room newer =
      let from = unwrap_or after 0 in
      let log = log_of st id in
      let same : id == id ≡ true = (eq_iff id id).1 refl in
      let written : log_of (append_event st id e).1 id ≡ log ++ e ∷ [] =
        rw (log-append_event st id id e, same) refl in
      let taken : take limit (filter (λ d. dec_lt from d.sequence) log) ≡ old = cc read in
      let longer : take limit (filter (λ d. dec_lt from d.sequence) (log ++ e ∷ []))
          ≡ old ++ e ∷ [] =
        ap (take limit) (newer-snoc from log e newer)
        ∙ take-snoc limit (filter (λ d. dec_lt from d.sequence) log) e (rw taken room)
        ∙ ap (λ es. es ++ e ∷ []) taken in
      (rw written (ap ok longer), rw written (ap ok (last-snoc log e)))
