-- ===== src/Examples/Sessions.antt =====
-- The theorems about live sessions, at a manager with one session.
use slight.Base.{
  ℕ, ◌≡◌, refl, List, [], ◌∷◌, ◌++◌, none, some, true, false, inl, inr, arith, length, ltb, dec_lt,
}
use slight.Base.Int.{pos}
use slight.Base.HashMap.{empty, get, insert, get-empty, get-insert_inv}
use slight.Base.Exec.{ok}
use slight.Acp.Kinds.{fake}
use slight.Types.Payload.{idle}
use slight.Types.Event.{SequencedEvent, status, live}
use slight.Types.Request.{AttachResult}
use slight.Manager.State.{Session, SessionOrigin, Inner}
use slight.Manager.Replay.{attach, history_of, eligible}
use slight.Manager.Replay.Complete.{Replays, attach-Replays}
use slight.Manager.Replay.Pages.{history_pages}
use slight.Manager.Recover.{blank}
use slight.Manager.Api.{Call, creates, sends, answers, pumps, run}
use slight.Manager.Invariant.{Inv}
use slight.Manager.Invariant.Runs.{run-Inv}
use slight.Examples.World.{world, system, adapters, store, request, hello}

abbrev event : ℕ → SequencedEvent world
event n = record { sequence = n; timestamp_ms = pos n; event = status (record { status = idle }) }

-- The journal has lost the first event.
abbrev pub one : Session world
one = record {
  summary = record {
    id = "a";
    title = "t";
    agent = "fake";
    model = none;
    effort = none;
    working_directory_label = "~";
    git_branch = none;
    status = idle;
    created_at_ms = pos 0;
    last_activity_at_ms = pos 3;
    last_sequence = 3;
    recovery = live;
    archived = false;
  };
  descriptor = record { kind = fake; display_name = "Fake"; version = none };
  initialize = hello;
  connection = 0;
  agent_session_id = some "native";
  origin = SessionOrigin.new;
  resolved_working_directory = "/home/me";
  modes = none;
  config_options = [];
  journal = event 2 ∷ event 3 ∷ [];
  pending_permission = none;
  running = true;
  exit_reported = false;
  reasoning_started_at_ms = none;
  reasoning_ended_at_ms = none;
}

abbrev pub manager : Inner world
manager = record (blank adapters store 2 9) { sessions = insert empty "a" one }

pub manager-Inv : Inv manager
manager-Inv = record {
  sound = λ id s e. elim (get-insert_inv empty "a" id one s e) [
    | inl (p, q) ↦
        rw (← p, q)
          (record {
            chained = record { start = 1; follows = (refl, (refl, tt)); ends = refl };
            bounded = omega arith;
            keyed = refl;
            exits = refl;
          })
    | inr q ↦ cc (get-empty {V = Session world} id, q)
  ];
}

pub manager_get : get manager.sessions "a" ≡ some one
unfolding get insert
manager_get = refl

attach-Replays_example :
    (r : AttachResult world) × (attach "a" (some 1) manager ≡ ok r)
    × (r.latest_sequence ≡ 3)
    × Replays 1 3 (event 2 ∷ event 3 ∷ []) r
attach-Replays_example =
    attach-Replays manager "a" one (event 2) (event 3 ∷ []) 1 manager-Inv manager_get refl
      (omega arith) (omega arith)

history_pages_example :
    let r = history_of 200 one.summary one.journal none 1 in
    let asked = eligible 18446744073709551615 one.journal in
    (slight.Manager.Replay.history "a" none 1 manager ≡ ok r)
    × (asked ≡ eligible 3 one.journal ++ r.events)
    × (length r.events ≡ Prim.Native.Nat.min 1 (length asked))
    × (r.has_more ≡ ltb 0 (length (eligible 3 one.journal)))
unfolding history_of eligible dec_lt
history_pages_example =
    history_pages manager "a" one none 1 (event 3) [] manager-Inv manager_get (omega arith) refl

abbrev script : List Call
script = creates request ∷ sends "s" "hello" ∷ answers "s" "p" "yes" ∷ pumps ∷ []

run-Inv_example : Inv (run system script manager)
run-Inv_example = run-Inv system script manager manager-Inv
