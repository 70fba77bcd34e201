-- ===== src/Gateway/Server/Connection/Served.antt =====
-- rust/gateway-server/src/server.rs: what stays true over the turns of a connection's loop.
use slight.Base.{
  ℕ, List, [], ◌∷◌, Bool, true, false, refl, if◌then◌else◌, arith, ap, is_some, Option-cases,
  Bool-cases, inl, inr,
}
use slight.Base.Members.{among, distinct}
use slight.Base.Exec.{Result-cases}
use slight.Base.HashMap.{get-empty}
use slight.Base.Exec.{Result, ok, err}
use slight.Acp.External.{Externals}
use slight.Manager.State.{Inner}
use slight.Manager.Invariant.{Inv, Inv-same}
use slight.Manager.Invariant.Runs.{perform-Inv}
use slight.Gateway.Protocol.Frames.{Frame}
use slight.Gateway.Server.State.{Gateway, Shared, new_connection}
use slight.Gateway.Server.Sound.{IsKept}
use slight.Gateway.Server.Cache.{IsCache}
use slight.Gateway.Server.Replies.{IsServed, process_frame-Replies}
use slight.Gateway.Server.Process.{dispatch_incoming, decode_payload}
use slight.Gateway.Server.Connection.{
  Message, SocketError, Socket, Loop, Turn, drain, heartbeat_interval, heartbeat, beat, write_queue,
  take_message, serve, turn_of, turns,
}

-- A manager's invariant is kept by its calls and the clock, so it is kept where what happens
-- between two locks keeps it.
pub Inv-IsKept :
    {X : Externals} {H : Type 0} (g : Gateway X H)
    → ((i : Inner X) → Inv i → Inv (g.others i))
    → IsKept g Inv
Inv-IsKept g between = record {
  calls = perform-Inv g.system;
  between = between;
  ticks = λ m i v. Inv-same i (record i { moment = m }) refl refl v;
}

module _ {X : Externals} where
  unfoldable pub EachKeeps : (Inner X → Type 0) → List (Turn X) → Type 0
  EachKeeps P [] = Unit {0}
  EachKeeps P (turn ∷ ts) = ((i : Inner X) → P i → P (turn.others i)) × EachKeeps P ts

  pub IsCache-new_connection : IsCache (new_connection {X = X})
  unfolding among distinct
  IsCache-new_connection = record {
    bounded = omega arith;
    listed = λ k. ap is_some (get-empty k);
    once = refl;
    acks = λ k f e. absurd (ground (arith, get-empty {V = Frame X} k));
  }

module _ {X : Externals} {H : Type 0} (g : Gateway X H) (P : Inner X → Type 0) where
  drain-IsServed : (w : Shared X H) → IsServed P w → IsServed P (drain g w)
  unfolding drain
  drain-IsServed w v = record {
    sound = v.sound;
    cached = record {
      bounded = v.cached.bounded;
      listed = v.cached.listed;
      once = v.cached.once;
      acks = v.cached.acks;
    };
  }

module _ {X : Externals} {H K : Type 0} (g : Gateway X H) (P : Inner X → Type 0) where
  either-IsServed :
      (test : Bool) (l l' : Loop X H K)
      → IsServed P l.shared
      → IsServed P l'.shared
      → IsServed P (if test then l else l').shared
  either-IsServed true l l' v v' = v
  either-IsServed false l l' v v' = v'

  heartbeat-IsServed :
      (turn : Turn X) (l : Loop X H K)
      → IsServed P l.shared
      → IsServed P (heartbeat g turn l).shared
  unfolding heartbeat beat
  heartbeat-IsServed turn l v = elim (Option-cases (heartbeat_interval g)) [
    | inl off ↦ rw (off, heartbeat) v
    | inr (interval, on) ↦
        rw (on, heartbeat, beat)
          (either-IsServed _ _ l (record { sound = v.sound; cached = v.cached }) v)
  ]

  module _ (s : Socket K) where
    serve-IsServed :
        (turn : Turn X) (l : Loop X H K)
        → IsServed P l.shared
        → IsServed P (serve g s turn l).1.shared
    unfolding serve write_queue
    serve-IsServed turn l v =
        let v' =
          heartbeat-IsServed turn (record l { shared = drain g l.shared })
            (drain-IsServed g P l.shared v) in
        record { sound = v'.sound; cached = v'.cached }

    module _ (k : IsKept g P) where
      dispatch_incoming-IsServed :
          (payload : List ℕ) (w : Shared X H)
          → IsServed P w
          → IsServed P (dispatch_incoming g payload w)
      unfolding dispatch_incoming
      dispatch_incoming-IsServed payload w v = elim (Result-cases (decode_payload g payload)) [
        | inl (f, e) ↦ rw (e, dispatch_incoming) (process_frame-Replies g P k f w v).0
        | inr (fault, e) ↦ rw (e, dispatch_incoming) (record { sound = v.sound; cached = v.cached })
      ]

      take_message-IsServed :
          (m : Result Message SocketError) (w : Shared X H)
          → IsServed P w
          → IsServed P (take_message g s m w).1
      unfolding take_message
      take_message-IsServed (ok (Message.text payload)) w v = dispatch_incoming-IsServed payload w v
      take_message-IsServed (ok (Message.binary payload)) w v =
          dispatch_incoming-IsServed payload w v
      take_message-IsServed (ok Message.control) w v = v
      take_message-IsServed (ok Message.close) w v = v
      take_message-IsServed (err e) w v = v

      going-IsServed :
          (going : Bool) (turn : Turn X) (l : Loop X H K)
          → IsServed P l.shared
          → IsServed P (if going then serve g s turn l else (false, l)).1.shared
      going-IsServed true turn l v = serve-IsServed turn l v
      going-IsServed false turn l v = v

      running-IsServed :
          (shutdown : Bool) (l l' : Bool × Loop X H K)
          → IsServed P l.1.shared
          → IsServed P l'.1.shared
          → IsServed P (if shutdown then l else l').1.shared
      running-IsServed true l l' v v' = v
      running-IsServed false l l' v v' = v'

      turn_of-IsServed :
          (turn : Turn X) (l : Loop X H K)
          → ((i : Inner X) → P i → P (turn.others i))
          → IsServed P l.shared
          → IsServed P (turn_of g s turn l).1.shared
      unfolding turn_of
      turn_of-IsServed turn l others v =
          let w = record l.shared { sessions = turn.others l.shared.sessions } in
          running-IsServed turn.shutdown (false, l) _ v
            (going-IsServed _ turn _ (
              take_message-IsServed (s.read l.socket).0 w
                (record { sound = others l.shared.sessions v.sound; cached = v.cached })))

      -- Where the manager's calls, what happens between two locks, the clock and the other threads
      -- keep a property of the manager, every number of turns of a connection's loop keeps it,
      -- whatever the socket gives and takes; and the connection goes on to remember at most 256
      -- requests, each once and with its own acknowledgement.
      pub turns-IsServed :
          (ts : List (Turn X)) (l : Loop X H K)
          → EachKeeps P ts
          → IsServed P l.shared
          → IsServed P (turns g s ts l).1.shared
      unfolding turns EachKeeps
      turns-IsServed [] l h v = v
      turns-IsServed (turn ∷ ts) l h v =
          let next = turn_of-IsServed turn l h.0 v in
          elim (Bool-cases (turn_of g s turn l).0) [
            | inl going ↦ rw (going, turns) (turns-IsServed ts (turn_of g s turn l).1 h.1 next)
            | inr ended ↦ rw (ended, turns) next
          ]
