-- ===== src/Manager/Replay.antt =====
-- rust/session-core/src/manager.rs: `attach`, `history` and `subscribe`. A session that could not be
-- recovered answers from its own journal.
pub mod Numbers
pub mod Complete
pub mod Pages
use slight.Base.{
  ℕ, ◌+◌, ◌-◌, ◌^◌, min, max, String, List, [], ◌∷◌, ◌++◌, Option, none, some, Bool, true, false,
  if◌then◌else◌, filter, map, ltb, length, drop, head?, unwrap_or, dec_lt,
}
use slight.Base.HashMap.{get, insert, contains_key}
use slight.Base.Exec.{Result, ok, err, pure, raise, gets, modify, ◌>>=◌, ◌>>◌}
use slight.Acp.External.{Externals}
use slight.Types.Event.{SessionSummary, SequencedEvent}
use slight.Types.Request.{SessionError, AttachResult, HistoryResult, unknown_session}
use slight.Manager.State.{Inner, M}

abbrev pub u64_max : ℕ
u64_max = 2 ^ 64 - 1

-- `saturating_add(1)` on a `u64`.
abbrev pub saturating_suc : ℕ → ℕ
saturating_suc n = min (n + 1) u64_max

-- `matches!((after, oldest), (Some(a), Some(o)) if a.saturating_add(1) < o)`
unfoldable pub needs_resync : Option ℕ → Option ℕ → Bool
needs_resync (some after) (some oldest) = ltb (saturating_suc after) oldest
needs_resync _ _ = false

-- `limit.clamp(1, most)`
abbrev pub page_limit : ℕ → ℕ → ℕ
page_limit most limit = min (max limit 1) most

module _ {X : Externals} where
  unfoldable pub oldest_sequence : List (SequencedEvent X) → Option ℕ
  oldest_sequence [] = none
  oldest_sequence (e ∷ es) = some e.sequence

  unfoldable pub replay_after : ℕ → List (SequencedEvent X) → List (SequencedEvent X)
  replay_after from = filter λ e. dec_lt from e.sequence

  unfoldable pub attach_to : SessionSummary → List (SequencedEvent X) → Option ℕ → AttachResult X
  attach_to summary journal after = record {
    summary = summary;
    replayed = replay_after (unwrap_or after 0) journal;
    latest_sequence = summary.last_sequence;
    oldest_available_sequence = oldest_sequence journal;
    resync_required = needs_resync after (oldest_sequence journal);
  }

  unfoldable pub eligible : ℕ → List (SequencedEvent X) → List (SequencedEvent X)
  eligible boundary = filter λ e. dec_lt e.sequence boundary

  -- `most` is 200 for a live session and 100 for one that could not be recovered.
  unfoldable pub history_of :
      ℕ → SessionSummary → List (SequencedEvent X) → Option ℕ → ℕ → HistoryResult X
  history_of most summary journal before limit =
      let events = eligible (unwrap_or before u64_max) journal in
      let start = length events - page_limit most limit in
      record {
        summary = summary;
        events = drop start events;
        latest_sequence = summary.last_sequence;
        oldest_available_sequence = oldest_sequence journal;
        has_more = ltb 0 start;
      }

  unfoldable pub attach : String → Option ℕ → Inner X → Result (AttachResult X) SessionError
  attach id after i = elim (get i.sessions id) [
    | some session ↦ ok (attach_to session.summary session.journal after)
    | none ↦ elim (get i.recovered id) [
      | some session ↦ ok (attach_to session.summary session.journal after)
      | none ↦ err (unknown_session id)
    ]
  ]

  unfoldable pub history : String → Option ℕ → ℕ → Inner X → Result (HistoryResult X) SessionError
  history id before limit i = elim (get i.sessions id) [
    | some session ↦ ok (history_of 200 session.summary session.journal before limit)
    | none ↦ elim (get i.recovered id) [
      | some session ↦ ok (history_of 100 session.summary session.journal before limit)
      | none ↦ err (unknown_session id)
    ]
  ]

  -- A new, empty channel joins those of the session; the receiver is its place in their list.
  unfoldable pub add_subscriber : String → Inner X → Inner X
  add_subscriber id i =
      let channels = unwrap_or (get i.subscribers id) [] in
      record i { subscribers = insert i.subscribers id (channels ++ [] ∷ []) }

  unfoldable pub subscribe : String → M X ℕ
  subscribe id = do
    known ← gets (λ i. contains_key i.sessions id)
    if known then pure tt else raise (unknown_session id)
    place ← gets (λ i. length (unwrap_or (get i.subscribers id) []))
    modify (add_subscriber id)
    pure place
