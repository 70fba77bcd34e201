-- ===== src/Examples/Requests.antt =====
-- The theorems about requests, events and listings, at a manager with one session.
use mathlib.Core.List.{Perm}
use slight.Base.{
  true, ◌+◌, ◌-◌, ◌≤◌, max, ◌≡◌, refl, [], ◌∷◌, ◌++◌, map, some, none, false, not, ◌&&◌, arith,
  length, drop,
}
use slight.Base.HashMap.{empty, insert, get, adjust, values}
use slight.Base.Sort.{sort_by}
use slight.Base.Exec.{ok, err, ◌>>=◌}
use slight.Acp.Kinds.{AgentKind, as_str}
use slight.Types.Payload.{SessionStatus, PermissionRequestPayload}
use slight.Types.Request.{no_pending_permission}
use slight.Manager.State.{Session, Inner}
use slight.Manager.Journal.{next_sequence, status_after}
use slight.Manager.Steps.{
  require, change, observe, call, persist, persist_session, store_event, publish, append,
}
use slight.Manager.Steps.Append.{stamped}
use slight.Manager.Steps.Delivery.{append-delivers}
use slight.Manager.Turns.{respond_permission, require_permission, send_prompt, status_event}
use slight.Manager.Turns.Permissions.{Answer, respond_permission-Answer, respond_permission_once}
use slight.Manager.Turns.Prompts.{Prompted, send_prompt-Prompted}
use slight.Manager.Events.{report_exit, ensure_exited}
use slight.Manager.Events.Exit.{report_exit_once, ensure_exited_once}
use slight.Manager.Listing.{
  all_summaries, list_sessions, contains, recent_working_directories, add_paths,
}
use slight.Manager.Listing.Order.{IsLatestFirst, list_sessions_lem}
use slight.Manager.Listing.Paths.{
  IsDistinct, recent_working_directories_lem, recent_working_directories_all,
}
use slight.Manager.Labels.{agent_kind_from_str}
use slight.Manager.Labels.Names.{agent_kind_from_str-as_str}
use slight.Manager.Pump.{pump_all}
use slight.Manager.Pump.Count.{drained_total, pump_all-counts}
use slight.Manager.Turns.{rename_session, cancel, archive_session}
use slight.Manager.Turns.Archives.{Archived, archive_session-Archived}
use slight.Manager.Turns.Cancels.{Cancelled, cancel-Cancelled}
use slight.Manager.Turns.Titles.{Renamed, rename_session-Renamed}
use slight.Examples.World.{world, system}
use slight.Examples.Sessions.{manager, manager_get, one}

abbrev request : PermissionRequestPayload
request = record { id = "p"; title = "Run"; detail = none; tool_call_id = none; options = [] }

abbrev one_asking : Session world
one_asking = record one { pending_permission = some request }

abbrev asking : Inner world
asking = record manager { sessions = insert empty "a" one_asking }

append-delivers_example :
    let event = status_event SessionStatus.working in
    let e = stamped system one event manager in
    let j = (append system "a" event manager).1 in
    ((append system "a" event manager).0 ≡ ok e)
    × (e.sequence ≡ next_sequence 3)
    × ((s' : Session world) × (get j.sessions "a" ≡ some s')
        × (s'.journal
            ≡ drop (length one.journal + 1 - manager.journal_limit) (one.journal ++ e ∷ []))
        × (s'.summary.last_sequence ≡ e.sequence)
        × (s'.summary.status ≡ status_after event one.summary.status)
        × (get j.sessions "b" ≡ get manager.sessions "b"))
    × (get j.subscribers "b" ≡ get manager.subscribers "b")
append-delivers_example =
    append-delivers system "a" "b" (status_event SessionStatus.working) manager one manager_get

respond_permission-Answer_example :
    Answer system "a" "p" "yes" asking (respond_permission system "a" "p" "yes" asking)
respond_permission-Answer_example = respond_permission-Answer system "a" "p" "yes" asking

respond_permission_once_example :
    let j = (respond_permission system "a" "p" "yes" asking).1 in
    respond_permission system "a" "p" "no" j ≡ (err (no_pending_permission "a"), j)
unfolding respond_permission require require_permission change call append observe persist_session
    publish persist store_event ◌>>=◌ get insert adjust
respond_permission_once_example = respond_permission_once system "a" "p" "yes" asking refl "p" "no"

send_prompt-Prompted_example :
    Prompted system "a" "hello" manager (send_prompt system "a" "hello" manager)
send_prompt-Prompted_example = send_prompt-Prompted system "a" "hello" manager

report_exit_once_example :
    let j = (report_exit system "a" none "gone" manager).1 in
    ((report_exit system "a" none "gone" manager).0 ≡ ok tt)
    × ((t : Session world) × (get j.sessions "a" ≡ some t)
        × (t.summary.status ≡ SessionStatus.exited)
        × (t.summary.last_sequence ≡ 5))
    × (ensure_exited system "a" j ≡ (ok tt, j))
report_exit_once_example = report_exit_once system "a" none "gone" manager one manager_get

ensure_exited_once_example :
    let j = (ensure_exited system "a" manager).1 in ensure_exited system "a" j ≡ (ok tt, j)
ensure_exited_once_example = ensure_exited_once system "a" manager

list_sessions_lem_example :
    Perm (list_sessions manager) (
      map (λ s. s.summary) (values manager.sessions)
      ++ map (λ s. s.summary) (values manager.recovered))
    × IsLatestFirst (list_sessions manager)
list_sessions_lem_example = list_sessions_lem manager

recent_working_directories_lem_example :
    let found = recent_working_directories 2 manager in
    let labels = map (λ s. s.working_directory_label) (list_sessions manager) in
    IsDistinct found
    × (length found ≤ max 2 1)
    × ((contains "~" found && not (contains "~" labels)) ≡ false)
recent_working_directories_lem_example = recent_working_directories_lem 2 manager "~"

recent_working_directories_all_example :
    contains "~" (recent_working_directories 2 manager)
    ≡ contains "~" (map (λ s. s.working_directory_label) (list_sessions manager))
unfolding recent_working_directories list_sessions all_summaries sort_by add_paths contains insert
recent_working_directories_all_example = recent_working_directories_all 2 manager "~" (omega arith)

agent_kind_from_str-as_str_example :
    (agent_kind_from_str "gemini" ≡ AgentKind.custom "gemini")
    × (as_str (agent_kind_from_str "codex") ≡ "codex")
unfolding as_str
agent_kind_from_str-as_str_example =
    agent_kind_from_str-as_str (AgentKind.custom "gemini") "codex" (refl, refl, refl)

pump_all-counts_example :
    (pump_all system manager).0 ≡ drained_total system manager.sessions.entries
pump_all-counts_example = pump_all-counts system manager

rename_session-Renamed_example :
    Renamed system "a" " new " manager (rename_session system "a" " new " manager)
rename_session-Renamed_example = rename_session-Renamed system "a" " new " manager

cancel-Cancelled_example : Cancelled system "a" asking (cancel system "a" asking)
cancel-Cancelled_example = cancel-Cancelled system "a" asking

archive_session-Archived_example :
    Archived system "a" true manager (archive_session system "a" true manager)
archive_session-Archived_example = archive_session-Archived system "a" true manager
