-- ===== src/Manager/Journal.antt =====
-- rust/session-core/src/manager.rs: the pure part of `append`, from the lookup of the session to
-- the trimmed journal.
pub mod Chain
use slight.Base.{ℕ, ◌+◌, ◌%◌, ◌^◌, List, [], ◌∷◌, ◌++◌, if◌then◌else◌, ltb, length}
use slight.Base.Int.{ℤ}
use slight.Acp.External.{Externals}
use slight.Types.Payload.{SessionStatus}
use slight.Types.Event.{SessionEvent, SequencedEvent, status}
use slight.Manager.State.{Session}

-- `+= 1` on a `u64`, in a release build.
abbrev pub next_sequence : ℕ → ℕ
next_sequence n = (n + 1) % 2 ^ 64

module _ {X : Externals} where
  -- `while journal.len() > limit { journal.pop_front(); }`
  unfoldable pub trim_front : ℕ → List (SequencedEvent X) → List (SequencedEvent X)
  trim_front limit [] = []
  trim_front limit (e ∷ es) =
      let rest = trim_front limit es in if ltb limit (length (e ∷ es)) then rest else e ∷ es

  -- A status event also sets the status of the summary.
  unfoldable pub status_after : SessionEvent X → SessionStatus → SessionStatus
  status_after (status payload) old = payload.status
  status_after _ old = old

  unfoldable pub sequence_event : Session X → ℤ → SessionEvent X → SequencedEvent X
  sequence_event session now event = record {
    sequence = next_sequence session.summary.last_sequence;
    timestamp_ms = now;
    event = event;
  }

  unfoldable pub push_event : ℕ → SequencedEvent X → Session X → Session X
  unfolding status_after
  push_event limit e session = record session {
    summary = record summary {
      last_sequence = e.sequence;
      last_activity_at_ms = e.timestamp_ms;
      status = status_after e.event summary.status;
    };
    journal = trim_front limit (journal ++ e ∷ []);
  }
    where
      open session use {summary, journal}
