-- ===== src/Rpc/Gate.antt =====
-- rust/acp-types/src/session.rs: `PermissionGate`, where the worker of a session waits for the answer
-- to a permission request. Every method holds the lock; `wait` gives it up while it sleeps on the
-- condition variable `signal`, which is here the one worker's being asleep: `notify_all` ends it.
pub mod Waits
pub mod Wakeups
use slight.Base.{
  String, List, [], ◌∷◌, Option, none, some, Bool, true, false, not, ◌||◌, ◌≡◌, if◌then◌else◌,
}
use slight.Base.Exec.{Result, ok, err}
use slight.Acp.Kinds.{AcpError}
use slight.Rpc.Handlers.{RequestPermissionOutcome, cancelled}

pub record PermissionGateState : Type 0 where
  pub pending : Bool
  pub decision : Option RequestPermissionOutcome
  pub cancelled : Bool
  pub closed : Bool
  -- The worker sleeps on `signal`.
  pub asleep : Bool

abbrev pub new_gate : PermissionGateState
new_gate = record {
  pending = false;
  decision = none;
  cancelled = false;
  closed = false;
  asleep = false;
}

unfoldable pub notify_all : PermissionGateState → PermissionGateState
notify_all s = record s { asleep = false }

unfoldable pub begin : PermissionGateState → PermissionGateState
begin s = record s { pending = true }

unfoldable pub finish : PermissionGateState → PermissionGateState
finish s = record s { pending = false; decision = none; cancelled = false }

unfoldable pub decide :
    RequestPermissionOutcome
    → PermissionGateState
    → Result (Unit {0}) AcpError × PermissionGateState
unfolding notify_all
decide outcome s =
    if s.pending
    then (ok tt, notify_all (record s { decision = some outcome }))
    else (err (AcpError.message "no permission request is pending"), s)

unfoldable pub cancel_gate : PermissionGateState → PermissionGateState
unfolding notify_all
cancel_gate s = if s.pending then notify_all (record s { cancelled = true }) else s

unfoldable pub close : PermissionGateState → PermissionGateState
unfolding notify_all
close s = notify_all (record s { closed = true })

-- One round of the loop of `wait`, by a worker that is awake, was woken or, as a condition variable
-- allows, wakes for no reason: the outcome, or none where it goes to sleep.
unfoldable pub wait_once :
    PermissionGateState → Option RequestPermissionOutcome × PermissionGateState
wait_once s = elim s.decision [
  | some outcome ↦ (some outcome, record s { decision = none; asleep = false })
  | none ↦
      let released = s.cancelled || s.closed in
      (if released then some cancelled else none, record s { asleep = not released })
]

-- The steps of the worker and of the other threads, in any order.
pub data Step : PermissionGateState → PermissionGateState → Type 0 where
  begins : (s : PermissionGateState) → Step s (begin s)
  waits : (s : PermissionGateState) → Step s (wait_once s).1
  finishes : (s : PermissionGateState) → Step s (finish s)
  decides : (o : RequestPermissionOutcome) (s : PermissionGateState) → Step s (decide o s).1
  cancels : (s : PermissionGateState) → Step s (cancel_gate s)
  closes : (s : PermissionGateState) → Step s (close s)

pub data Reachable : PermissionGateState → Type 0 where
  new : Reachable new_gate
  next : (s t : PermissionGateState) → Reachable s → Step s t → Reachable t
