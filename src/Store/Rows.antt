-- ===== src/Store/Rows.antt =====
-- rust/session-store/src/lib.rs: the stored rows and the trait `SessionStore`.
use slight.Base.{ℕ, String, List, Option}
use slight.Base.Int.{ℤ}
use slight.Base.Exec.{Result}
use slight.Acp.External.{Externals}

pub data StoreError : Type 0 where
  not_found serialization other : String → StoreError

-- `last_sequence` is a `u64`.
pub record StoredSession (Value : Type 0) : Type 0 where
  pub session_id : String
  pub metadata : Value
  pub last_sequence : ℕ
  pub created_at_ms : ℤ
  pub updated_at_ms : ℤ

pub record StoredEvent (Value : Type 0) : Type 0 where
  pub sequence : ℕ
  pub event : Value

-- The trait `SessionStore`. A method on `&mut self` gives the store back beside its result.
pub record SessionStore (X : Externals) : Type 0 where
  pub upsert_session : X.Store → StoredSession X.Value → Result Unit StoreError × X.Store
  pub get_session : X.Store → String → Result (Option (StoredSession X.Value)) StoreError
  pub list_sessions : X.Store → Result (List (StoredSession X.Value)) StoreError
  pub append_event : X.Store → String → StoredEvent X.Value → Result Unit StoreError × X.Store
  pub events_after :
      X.Store → String → Option ℕ → ℕ → Result (List (StoredEvent X.Value)) StoreError
  pub latest_sequence : X.Store → String → Result ℕ StoreError
