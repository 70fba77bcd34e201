-- ===== src/Store/Memory.antt =====
-- rust/session-store/src/lib.rs: `InMemoryStore`.
pub mod Log
use slight.Base.{ℕ, String, List, [], ◌∷◌, ◌++◌, filter, Option, Bool, take, unwrap_or, dec_lt}
use slight.Base.Int.{leb_ℤ}
use slight.Base.Sort.{sort_by}
use slight.Base.HashMap.{HashMap, empty, get, insert, values}
use slight.Base.Exec.{Result, ok}
use slight.Store.Rows.{StoredSession, StoredEvent, StoreError}

pub record InMemoryStore (V : Type 0) : Type 0 where
  pub sessions : HashMap (StoredSession V)
  pub events : HashMap (List (StoredEvent V))

module _ {V : Type 0} where
  abbrev pub new_store : InMemoryStore V
  new_store = record { sessions = empty; events = empty }

  unfoldable pub upsert_session :
      InMemoryStore V → StoredSession V → Result Unit StoreError × InMemoryStore V
  upsert_session st row = (ok tt, record st { sessions = insert st.sessions row.session_id row })

  unfoldable pub get_session :
      InMemoryStore V → String → Result (Option (StoredSession V)) StoreError
  get_session st id = ok (get st.sessions id)

  abbrev pub older_first : StoredSession V → StoredSession V → Bool
  older_first a b = leb_ℤ a.created_at_ms b.created_at_ms

  unfoldable pub list_sessions : InMemoryStore V → Result (List (StoredSession V)) StoreError
  list_sessions st = ok (sort_by older_first (values st.sessions))

  -- The events of a session, in the order of their writing.
  unfoldable pub log_of : InMemoryStore V → String → List (StoredEvent V)
  log_of st id = unwrap_or (get st.events id) []

  unfoldable pub append_event :
      InMemoryStore V → String → StoredEvent V → Result Unit StoreError × InMemoryStore V
  append_event st id event =
      (ok tt, record st { events = insert st.events id (log_of st id ++ event ∷ []) })

  unfoldable pub events_after :
      InMemoryStore V → String → Option ℕ → ℕ → Result (List (StoredEvent V)) StoreError
  events_after st id after limit =
      ok (take limit (filter (λ e. dec_lt (unwrap_or after 0) e.sequence) (log_of st id)))

  unfoldable pub last_sequence_of : List (StoredEvent V) → ℕ
  last_sequence_of [] = 0
  last_sequence_of (e ∷ []) = e.sequence
  last_sequence_of (e ∷ f ∷ rest) = last_sequence_of (f ∷ rest)

  unfoldable pub latest_sequence : InMemoryStore V → String → Result ℕ StoreError
  unfolding last_sequence_of
  latest_sequence st id = ok (last_sequence_of (log_of st id))
