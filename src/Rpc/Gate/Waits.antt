-- ===== src/Rpc/Gate/Waits.antt =====
-- rust/acp-types/src/session.rs: an answer is for the request that waits, and wakes it.
use slight.Base.{
  List, [], ◌∷◌, none, some, true, false, ◌≡◌, refl, if◌then◌else◌, arith, ◌∙◌, Option-cases, inl,
  inr,
}
use slight.Rpc.Handlers.{RequestPermissionOutcome, cancelled}
use slight.Rpc.Gate.{
  PermissionGateState, begin, finish, decide, cancel_gate, close, wait_once, Step, begins, waits,
  finishes, decides, cancels, closes, Reachable, new, next, notify_all,
}

-- A gate at which no request is open holds no answer.
pub record IsClean (s : PermissionGateState) : Type 0 where
  pub undecided : s.pending ≡ false → s.decision ≡ none
  pub uncancelled : s.pending ≡ false → s.cancelled ≡ false

wait_once-IsClean : (s : PermissionGateState) → IsClean s → IsClean (wait_once s).1
unfolding wait_once
wait_once-IsClean s v = elim (Option-cases s.decision) [
  | inl nothing ↦
      rw (nothing, wait_once) (record { undecided = v.undecided; uncancelled = v.uncancelled })
  | inr (o, e) ↦ rw (e, wait_once) (record { undecided = λ _. refl; uncancelled = v.uncancelled })
]

decide-IsClean :
    (o : RequestPermissionOutcome) (s : PermissionGateState) → IsClean s → IsClean (decide o s).1
unfolding decide
decide-IsClean o s v = record {
  undecided = λ e. ground (arith, v.undecided);
  uncancelled = λ e. ground (arith, v.uncancelled);
}

cancel_gate-IsClean : (s : PermissionGateState) → IsClean s → IsClean (cancel_gate s)
unfolding cancel_gate
cancel_gate-IsClean s v = record {
  undecided = λ e. ground (arith, v.undecided);
  uncancelled = λ e. ground (arith, v.uncancelled);
}

Step-IsClean : (s t : PermissionGateState) → Step s t → IsClean s → IsClean t
unfolding begin finish close
Step-IsClean _ _ (begins s) v = record { undecided = λ e. absurd cc; uncancelled = λ e. absurd cc }
Step-IsClean _ _ (waits s) v = wait_once-IsClean s v
Step-IsClean _ _ (finishes s) v = record { undecided = λ e. refl; uncancelled = λ e. refl }
Step-IsClean _ _ (decides o s) v = decide-IsClean o s v
Step-IsClean _ _ (cancels s) v = cancel_gate-IsClean s v
Step-IsClean _ _ (closes s) v = record { undecided = v.undecided; uncancelled = v.uncancelled }

Reachable-IsClean : (s : PermissionGateState) → Reachable s → IsClean s
Reachable-IsClean _ new = record { undecided = λ e. refl; uncancelled = λ e. refl }
Reachable-IsClean _ (next s t r step) = Step-IsClean s t step (Reachable-IsClean s r)

-- At a gate that any steps of the worker and the other threads have led to, where no request is
-- open, a request that begins finds no earlier decision or cancellation: the worker sleeps, or,
-- once the gate is closed, has it cancelled.
pub begin_waits :
    (s : PermissionGateState)
    → Reachable s
    → s.pending ≡ false
    → (wait_once (begin s)).0 ≡ (if s.closed then some cancelled else none)
unfolding begin wait_once
begin_waits s r idle =
    let v = Reachable-IsClean s r in rw (v.undecided idle, wait_once, v.uncancelled idle) refl

-- What other threads may do before the worker wakes.
pub data Meddling : Type 0 where
  cancelling closing : Meddling

unfoldable pub meddle : List Meddling → PermissionGateState → PermissionGateState
meddle [] s = s
meddle (cancelling ∷ rest) s = meddle rest (cancel_gate s)
meddle (closing ∷ rest) s = meddle rest (close s)

decision-cancel_gate : (s : PermissionGateState) → (cancel_gate s).decision ≡ s.decision
unfolding cancel_gate
decision-cancel_gate s = ground arith

decision-meddle :
    (ms : List Meddling) (s : PermissionGateState) → (meddle ms s).decision ≡ s.decision
unfolding meddle
decision-meddle [] s = refl
decision-meddle (cancelling ∷ ms) s = decision-meddle ms (cancel_gate s) ∙ decision-cancel_gate s
decision-meddle (closing ∷ ms) s = decision-meddle ms (close s) ∙ unfold close in refl

decision-decide :
    (o : RequestPermissionOutcome) (s : PermissionGateState)
    → s.pending ≡ true
    → (decide o s).1.decision ≡ some o
unfolding decide
decision-decide o s e = ground (arith, e)

asleep-meddle :
    (ms : List Meddling) (s : PermissionGateState) → s.asleep ≡ false → (meddle ms s).asleep ≡ false
unfolding meddle cancel_gate close notify_all
asleep-meddle [] s e = e
asleep-meddle (cancelling ∷ ms) s e = asleep-meddle ms (cancel_gate s) (ground (arith, e))
asleep-meddle (closing ∷ ms) s e = asleep-meddle ms (close s) refl

asleep-decide :
    (o : RequestPermissionOutcome) (s : PermissionGateState)
    → s.pending ≡ true
    → (decide o s).1.asleep ≡ false
unfolding decide notify_all
asleep-decide o s e = ground (arith, e)

-- Where a permission request is open and is decided, the worker is awake, also if it slept on the
-- condition variable, and stays so, and its next look at the gate gives that decision, whatever
-- cancellations and closings come before it.
pub decide_wakes :
    (o : RequestPermissionOutcome) (ms : List Meddling) (s : PermissionGateState)
    → s.pending ≡ true
    → let t = meddle ms (decide o s).1 in (t.asleep ≡ false) × ((wait_once t).0 ≡ some o)
unfolding wait_once
decide_wakes o ms s e = (
  asleep-meddle ms (decide o s).1 (asleep-decide o s e),
  rw (decision-meddle ms (decide o s).1 ∙ decision-decide o s e, wait_once) refl,
)
