-- ===== src/Gateway/Server/Answers.antt =====
-- rust/gateway-server/src/server.rs: what `process_frame` answers, and what it keeps.
use slight.Base.{
  ◌≤◌, String, List, [], ◌∷◌, ◌++◌, Option, none, some, Bool, true, false, ◌≡◌, refl, sym, ◌∙◌, ap,
  subst, length, if◌then◌else◌,
}
use slight.Base.Members.{among, distinct}
use slight.Base.HashMap.{HashMap, get, contains_key}
use slight.Base.Exec.{Result, ok, err}
use slight.Acp.External.{Externals}
use slight.Manager.State.{Inner}
use slight.Gateway.Protocol.Frames.{Frame, GatewayCommand, ack_of_value, ack_unit, ack_of_error}
use slight.Gateway.Protocol.Errors.{ProtocolError, unauthenticated}
use slight.Gateway.Protocol.Commands.{parse_name}
use slight.Gateway.Server.Auth.{AuthContext}
use slight.Gateway.Server.State.{Gateway, Shared, ConnState, push}
use slight.Gateway.Server.Handlers.{Reply, unit, body}
use slight.Gateway.Server.Sound.{IsKept, IsFine, memory, handle_named-IsFine}
use slight.Gateway.Server.Dispatch.{
  completed_command_limit, ack_error, handle_named, reply_frame, dispatch,
}
use slight.Gateway.Server.Cache.{
  Acknowledges, IsCache, get-remember_command, session-remember_command, remember_command-IsCache,
}
use slight.Gateway.Server.Process.{answer, authorized, fresh_or_repeated, process_command}

module _ {X : Externals} where
  abbrev OverMemory : Option AuthContext × Bool × HashMap (Frame X) × List String → Type 0
  OverMemory m =
      (length m.3 ≤ completed_command_limit)
      × ((k : String) → contains_key m.2 k ≡ among k m.3)
      × (distinct m.3 ≡ true)
      × ((k : String) (f : Frame X) → get m.2 k ≡ some f → Acknowledges k f)

  IsCache-memory : (c d : ConnState X) → memory c ≡ memory d → IsCache c → IsCache d
  IsCache-memory c d e v =
      let (bounded, listed, once, acks) =
        subst OverMemory e (v.bounded, v.listed, v.once, v.acks) in
      record { bounded = bounded; listed = listed; once = once; acks = acks }

  ack_error-Acknowledges :
      (id : String) (e : ProtocolError) → Acknowledges {X = X} id (ack_error id e)
  unfolding ack_error ack_of_error
  ack_error-Acknowledges id e = (_, refl, refl)

module _ {X : Externals} {H : Type 0} where
  -- One acknowledgement of the request waits at the end of the queue, the manager has the
  -- property, and the connection remembers well; a request that was let in is remembered.
  pub record IsAnswered (P : Inner X → Type 0) (id : String) (w w' : Shared X H) : Type 0 where
    pub frame : Frame X
    pub sound : P w'.sessions
    pub queued : w'.outbound ≡ w.outbound ++ frame ∷ []
    pub acknowledged : Acknowledges id frame
    pub cached : IsCache w'.connection
    pub welcomed : w'.connection.welcome_sent ≡ w.connection.welcome_sent
    pub remembered :
        w.connection.welcome_sent ≡ true → get w'.connection.completed_commands id ≡ some frame

  answer-IsAnswered :
      (P : Inner X → Type 0) (id : String) (f : Frame X) (w v : Shared X H)
      → IsFine P w v
      → IsCache w.connection
      → get w.connection.completed_commands id ≡ none
      → Acknowledges id f
      → IsAnswered P id w (answer id f v)
  answer-IsAnswered P id f w v fine cache fresh a =
      let cache' = IsCache-memory w.connection v.connection (sym fine.memorized) cache in
      let fresh' : get v.connection.completed_commands id ≡ none =
        ap (λ m. get m.2 id) fine.memorized ∙ fresh in
      unfold answer in
      record {
        frame = f;
        sound = fine.sound;
        queued = ap (λ q. q ++ f ∷ []) fine.queued;
        acknowledged = a;
        cached = remember_command-IsCache id f v.connection cache' a;
        welcomed =
            ap (λ s. s.0) (session-remember_command id f v.connection cache')
            ∙ ap (λ m. m.1) fine.memorized;
        remembered = λ _. get-remember_command id f v.connection cache' fresh';
      }

module _ {X : Externals} {H : Type 0} (g : Gateway X H) where
  reply_frame-Acknowledges :
      (id : String) (r : Result (Reply X) ProtocolError) → Acknowledges id (reply_frame g id r)
  unfolding reply_frame ack_unit ack_of_value
  reply_frame-Acknowledges id (ok unit) = (_, refl, refl)
  reply_frame-Acknowledges id (ok (body r)) = (_, refl, refl)
  reply_frame-Acknowledges id (err e) = ack_error-Acknowledges id e

  module _ (P : Inner X → Type 0) (k : IsKept g P) where
    authorized-IsAnswered :
        (c : GatewayCommand X) (r : Result (Unit {0}) ProtocolError) (w : Shared X H)
        → P w.sessions
        → IsCache w.connection
        → get w.connection.completed_commands c.request_id ≡ none
        → IsAnswered P c.request_id w (authorized g c r w)
    unfolding authorized dispatch
    authorized-IsAnswered c (ok _) w p v fresh =
        let fine =
          (handle_named-IsFine g k (parse_name c.command) c).at w
            (record { sound = p; queued = refl; memorized = refl }) in
        answer-IsAnswered P c.request_id _ w _ fine v fresh
          (reply_frame-Acknowledges c.request_id (handle_named g (parse_name c.command) c w).0)
    authorized-IsAnswered c (err e) w p v fresh =
        answer-IsAnswered P c.request_id (ack_error c.request_id e) w w
          (record { sound = p; queued = refl; memorized = refl }) v fresh
          (ack_error-Acknowledges c.request_id e)

    fresh_or_repeated-IsAnswered :
        (c : GatewayCommand X) (o : Option (Frame X)) (w : Shared X H)
        → P w.sessions
        → IsCache w.connection
        → get w.connection.completed_commands c.request_id ≡ o
        → IsAnswered P c.request_id w (fresh_or_repeated g c o w)
    unfolding fresh_or_repeated
    fresh_or_repeated-IsAnswered c none w p v e = authorized-IsAnswered c _ w p v e
    fresh_or_repeated-IsAnswered c (some f) w p v e = record {
      frame = f;
      sound = p;
      queued = refl;
      acknowledged = v.acks c.request_id f e;
      cached = v;
      welcomed = refl;
      remembered = λ _. e;
    }

    gated-IsAnswered :
        (welcome_sent : Bool) (c : GatewayCommand X) (w : Shared X H)
        → P w.sessions
        → IsCache w.connection
        → w.connection.welcome_sent ≡ welcome_sent
        → IsAnswered P c.request_id w (
            if welcome_sent
            then fresh_or_repeated g c (get w.connection.completed_commands c.request_id) w
            else push (ack_error c.request_id (unauthenticated "hello required")) w)
    gated-IsAnswered true c w p v e = fresh_or_repeated-IsAnswered c _ w p v refl
    gated-IsAnswered false c w p v e = record {
      frame = ack_error c.request_id (unauthenticated "hello required");
      sound = p;
      queued = refl;
      acknowledged = ack_error-Acknowledges c.request_id (unauthenticated "hello required");
      cached = v;
      welcomed = refl;
      remembered = λ yes. absurd cc;
    }

    pub process_command-IsAnswered :
        (c : GatewayCommand X) (w : Shared X H)
        → P w.sessions
        → IsCache w.connection
        → IsAnswered P c.request_id w (process_command g c w)
    unfolding process_command
    process_command-IsAnswered c w p v = gated-IsAnswered w.connection.welcome_sent c w p v refl
