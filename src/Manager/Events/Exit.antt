-- ===== src/Manager/Events/Exit.antt =====
-- rust/session-core/src/manager.rs: the report of a session's end, by its agent or by `ensure_exited`.
use slight.Base.{String, ◌≡◌, refl, Option, none, some, false, inl, inr, Option-cases, Bool-cases}
use slight.Base.Int.{ℤ}
use slight.Base.HashMap.{get}
use slight.Base.Exec.{ok, ◌>>=◌}
use slight.Acp.External.{Externals}
use slight.Types.Payload.{SessionStatus}
use slight.Types.Event.{SessionEvent}
use slight.Manager.State.{Session, Inner, System}
use slight.Manager.Journal.{next_sequence, status_after}
use slight.Manager.Steps.{change}
use slight.Manager.Steps.Known.{session-change, append_twice}
use slight.Manager.Turns.{status_event}
use slight.Manager.Events.{mark_exited, should_report, report_exit, ensure_exited}

module _ {X : Externals} (S : System X) where
  reported_nothing :
      (id : String) (i : Inner X)
      → should_report (get i.sessions id) ≡ false
      → ensure_exited S id i ≡ (ok tt, i)
  unfolding ensure_exited ◌>>=◌
  reported_nothing id i h = rw h refl

  -- Where the agent's end is reported on a live session, its status is exited, its last sequence
  -- number advances by two, and ensure_exited has nothing left to report.
  pub report_exit_once :
      (id : String) (code : Option ℤ) (reason : String) (i : Inner X) (s : Session X)
      → get i.sessions id ≡ some s
      → let j = (report_exit S id code reason i).1 in
        ((report_exit S id code reason i).0 ≡ ok tt)
        × ((t : Session X) × (get j.sessions id ≡ some t)
            × (t.summary.status ≡ SessionStatus.exited)
            × (t.summary.last_sequence ≡ next_sequence (next_sequence s.summary.last_sequence)))
        × (ensure_exited S id j ≡ (ok tt, j))
  unfolding report_exit change status_after should_report ◌>>=◌
  report_exit_once id code reason i s h =
      let k = (change id mark_exited i).1 in
      let exit = SessionEvent.exit (record { code = code; reason = reason }) in
      let (done, (t, known, same, state, count, told)) =
        append_twice S id exit (status_event SessionStatus.exited) k (mark_exited s)
          (session-change id i s h mark_exited) in
      (done, (t, known, state, count), reported_nothing id _ (rw (known, told) refl))

  -- A second ensure_exited changes nothing, whether or not the session is known.
  pub ensure_exited_once :
      (id : String) (i : Inner X)
      → let j = (ensure_exited S id i).1 in ensure_exited S id j ≡ (ok tt, j)
  unfolding should_report
  ensure_exited_once id i = elim (Option-cases (get i.sessions id)) [
    | inl h ↦ let quiet = reported_nothing id i (rw h refl) in rw quiet quiet
    | inr (s, h) ↦ elim (Bool-cases s.exit_reported) [
      | inl p ↦ let quiet = reported_nothing id i (rw (h, p) refl) in rw quiet quiet
      | inr p ↦
          let loud : ensure_exited S id i ≡ report_exit S id none "agent_exited" i =
            unfold ensure_exited in unfold ◌>>=◌ in rw (h, p) refl in
          rw loud (report_exit_once id none "agent_exited" i s h).2
    ]
  ]
