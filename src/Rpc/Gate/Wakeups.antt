-- ===== src/Rpc/Gate/Wakeups.antt =====
-- rust/acp-types/src/session.rs: no wake-up of the worker is lost.
use slight.Base.{none, Bool, true, false, not, ◌||◌, ◌≡◌, refl, arith, Option-cases, inl, inr}
use slight.Rpc.Handlers.{RequestPermissionOutcome}
use slight.Rpc.Gate.{
  PermissionGateState, begin, finish, decide, cancel_gate, close, notify_all, wait_once, Step,
  begins, waits, finishes, decides, cancels, closes, Reachable, new, next,
}

-- A worker that sleeps has no answer to find.
record IsAwaited (s : PermissionGateState) : Type 0 where
  pub unanswered : s.asleep ≡ true → s.decision ≡ none
  pub uncalled : s.asleep ≡ true → s.cancelled ≡ false
  pub unclosed : s.asleep ≡ true → s.closed ≡ false

not_or : (a b : Bool) → not (a || b) ≡ true → (a ≡ false) × (b ≡ false)
not_or true b e = absurd cc
not_or false b e = (refl, ground (arith, e))

wait_once-IsAwaited : (s : PermissionGateState) → IsAwaited (wait_once s).1
unfolding wait_once
wait_once-IsAwaited s = elim (Option-cases s.decision) [
  | inr (o, e) ↦
      rw (e, wait_once)
        (record {
          unanswered = λ a. absurd cc;
          uncalled = λ a. absurd cc;
          unclosed = λ a. absurd cc;
        })
  | inl nothing ↦
      rw (nothing, wait_once)
        (record {
          unanswered = λ a. ground (arith, nothing);
          uncalled = λ a. (not_or s.cancelled s.closed a).0;
          unclosed = λ a. (not_or s.cancelled s.closed a).1;
        })
]

decide-IsAwaited :
    (o : RequestPermissionOutcome) (s : PermissionGateState)
    → IsAwaited s
    → IsAwaited (decide o s).1
unfolding decide notify_all
decide-IsAwaited o s v = record {
  unanswered = λ a. ground (arith, v.unanswered);
  uncalled = λ a. ground (arith, v.uncalled);
  unclosed = λ a. ground (arith, v.unclosed);
}

cancel_gate-IsAwaited : (s : PermissionGateState) → IsAwaited s → IsAwaited (cancel_gate s)
unfolding cancel_gate notify_all
cancel_gate-IsAwaited s v = record {
  unanswered = λ a. ground (arith, v.unanswered);
  uncalled = λ a. ground (arith, v.uncalled);
  unclosed = λ a. ground (arith, v.unclosed);
}

Step-IsAwaited : (s t : PermissionGateState) → Step s t → IsAwaited s → IsAwaited t
unfolding begin finish close notify_all
Step-IsAwaited _ _ (begins s) v = record {
  unanswered = v.unanswered;
  uncalled = v.uncalled;
  unclosed = v.unclosed;
}
Step-IsAwaited _ _ (waits s) v = wait_once-IsAwaited s
Step-IsAwaited _ _ (finishes s) v = record {
  unanswered = λ a. refl;
  uncalled = λ a. refl;
  unclosed = v.unclosed;
}
Step-IsAwaited _ _ (decides o s) v = decide-IsAwaited o s v
Step-IsAwaited _ _ (cancels s) v = cancel_gate-IsAwaited s v
Step-IsAwaited _ _ (closes s) v = record {
  unanswered = λ a. absurd cc;
  uncalled = λ a. absurd cc;
  unclosed = λ a. absurd cc;
}

Reachable-IsAwaited : (s : PermissionGateState) → Reachable s → IsAwaited s
Reachable-IsAwaited _ new = record {
  unanswered = λ a. refl;
  uncalled = λ a. refl;
  unclosed = λ a. refl;
}
Reachable-IsAwaited _ (next s t r step) = Step-IsAwaited s t step (Reachable-IsAwaited s r)

-- At a gate that any steps of the worker and the other threads have led to, a worker that sleeps
-- on the condition variable would find nothing if it looked again: no decision, no cancellation
-- and no closing of the gate is left that it was not woken for.
pub wakeups_kept :
    (s : PermissionGateState) → Reachable s → s.asleep ≡ true → (wait_once s).0 ≡ none
unfolding wait_once
wakeups_kept s r sleeps =
    let v = Reachable-IsAwaited s r in
    rw (v.unanswered sleeps, wait_once, v.uncalled sleeps, v.unclosed sleeps) refl
