-- ===== src/Examples/Stored.antt =====
-- The theorems about stored sessions, at an in-memory store with one row.
use slight.Base.{◌≡◌, refl, [], ◌∷◌, ◌++◌, none, true, arith}
use slight.Base.Int.{pos}
use slight.Base.HashMap.{get, insert}
use slight.Base.Sort.{sort_by}
use slight.Base.Exec.{ok, is_ok}
use slight.Store.Rows.{StoredSession, StoredEvent}
use slight.Store.Memory
use slight.Store.Memory.{InMemoryStore, append_event, events_after, latest_sequence, log_of}
use slight.Store.Memory.Log.{append_event-events_after}
use slight.Manager.Replay.{attach}
use slight.Manager.Recover.{new_manager}
use slight.Manager.Recover.Visible.{new_manager-attach}
use slight.Examples.World.{Doc, null, numbered, system, adapters, store}

abbrev unreadable : StoredSession Doc
unreadable = record {
  session_id = "x";
  metadata = null;
  last_sequence = 0;
  created_at_ms = pos 1;
  updated_at_ms = pos 2;
}

abbrev stored : InMemoryStore Doc
stored = (Memory.upsert_session store unreadable).1

abbrev written : StoredEvent Doc
written = record { sequence = 1; event = numbered 1 }

-- The row cannot be read, and yet the session is there.
new_manager-attach_example : is_ok (attach "x" none (new_manager system adapters stored 2 0)) ≡ true
unfolding Memory.list_sessions Memory.upsert_session sort_by insert
new_manager-attach_example =
    new_manager-attach system adapters stored 2 0 [] [] unreadable none refl (λ r q. cc)

append_event-events_after_example :
    (events_after (append_event store "x" written).1 "x" none 5 ≡ ok ([] ++ written ∷ []))
    × (latest_sequence (append_event store "x" written).1 "x" ≡ ok 1)
unfolding events_after log_of get
append_event-events_after_example =
    append_event-events_after store "x" written none 5 [] refl (omega arith) (omega arith)
