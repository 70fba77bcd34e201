-- ===== src/Gateway/Server/Gates.antt =====
-- rust/gateway-server/src/server.rs: what a frame cannot reach: before the hello, without the scope,
-- and twice under one request id.
use slight.Base.{
  List, [], ◌∷◌, ◌++◌, Option, none, some, Bool, true, false, ◌≡◌, refl, ◌∙◌, ap, if◌then◌else◌,
  ◌||◌, unwrap_or, arith,
}
use slight.Base.HashMap.{HashMap, get}
use slight.Acp.External.{Externals}
use slight.Manager.State.{Inner}
use slight.Gateway.Protocol.Frames.{Frame, GatewayCommand}
use slight.Gateway.Protocol.Errors.{unauthenticated}
use slight.Gateway.Server.Auth.{all_scopes, AuthContext, Scope, has, required_scope, authorize}
use slight.Gateway.Server.State.{Gateway, Shared, ConnState, Receiver, push}
use slight.Gateway.Server.Scopes.{lacking, authorize-lacking}
use slight.Gateway.Server.Dispatch.{ack_error}
use slight.Gateway.Server.Cache.{Acknowledges, IsCache, session-remember_command}
use slight.Gateway.Server.Answers.{process_command-IsAnswered}
use slight.Gateway.Server.Process.{
  answer, authorized, fresh_or_repeated, process_command, unexpected, process_frame,
}

module _ {X : Externals} where
  unfoldable pub is_hello : Frame X → Bool
  is_hello (Frame.hello _) = true
  is_hello (Frame.welcome _) = false
  is_hello (Frame.command _) = false
  is_hello (Frame.ack _) = false
  is_hello (Frame.event _) = false
  is_hello (Frame.ping _) = false
  is_hello (Frame.pong _) = false
  is_hello (Frame.resync_required _) = false
  is_hello (Frame.error _) = false

  unfoldable pub any_hello : List (Frame X) → Bool
  unfolding is_hello
  any_hello [] = false
  any_hello (f ∷ fs) = is_hello f || any_hello fs

module _ {X : Externals} {H : Type 0} where
  -- All but the queue.
  abbrev pub beyond_queue : Shared X H → Inner X × H × ConnState X
  beyond_queue w = (w.sessions, w.host, w.connection)

  -- What a command may change, the memory of its answer aside.
  abbrev pub touched : Shared X H → Inner X × H × HashMap Receiver
  touched w = (w.sessions, w.host, w.connection.subscriptions)

module _ {X : Externals} {H : Type 0} (g : Gateway X H) where
  unfoldable pub process_all : List (Frame X) → Shared X H → Shared X H
  process_all [] w = w
  process_all (f ∷ fs) w = process_all fs (process_frame g f w)

  closed_command :
      (welcome_sent : Bool) (c : GatewayCommand X) (w : Shared X H)
      → welcome_sent ≡ false
      → beyond_queue (
          if welcome_sent
          then fresh_or_repeated g c (get w.connection.completed_commands c.request_id) w
          else push (ack_error c.request_id (unauthenticated "hello required")) w)
        ≡ beyond_queue w
  closed_command true c w e = absurd cc
  closed_command false c w e = refl

  closed_frame :
      (f : Frame X) (w : Shared X H)
      → is_hello f ≡ false
      → w.connection.welcome_sent ≡ false
      → beyond_queue (process_frame g f w) ≡ beyond_queue w
  unfolding process_frame process_command unexpected is_hello
  closed_frame (Frame.hello _) w h e = absurd cc
  closed_frame (Frame.command c) w h e = closed_command w.connection.welcome_sent c w e
  closed_frame (Frame.ping _) w h e = refl
  closed_frame (Frame.pong _) w h e = refl
  closed_frame (Frame.welcome _) w h e = refl
  closed_frame (Frame.ack _) w h e = refl
  closed_frame (Frame.event _) w h e = refl
  closed_frame (Frame.resync_required _) w h e = refl
  closed_frame (Frame.error _) w h e = refl

  -- Before a connection was welcomed, any frames without a hello leave the manager, the host and
  -- the connection as they were.
  pub process_all_before_hello :
      (fs : List (Frame X)) (w : Shared X H)
      → any_hello fs ≡ false
      → w.connection.welcome_sent ≡ false
      → beyond_queue (process_all fs w) ≡ beyond_queue w
  unfolding process_all any_hello
  process_all_before_hello [] w h e = refl
  process_all_before_hello (f ∷ fs) w h e =
      let first = closed_frame f w (ground (arith, h)) e in
      process_all_before_hello fs (process_frame g f w) (ground (arith, h))
        (ap (λ r. r.2.welcome_sent) first ∙ e)
      ∙ first

  repeated_command :
      (welcome_sent : Bool) (o : Option (Frame X)) (c : GatewayCommand X) (w : Shared X H)
      (r : Frame X)
      → welcome_sent ≡ true
      → o ≡ some r
      → (if welcome_sent
          then fresh_or_repeated g c o w
          else push (ack_error c.request_id (unauthenticated "hello required")) w)
        ≡ push r w
  repeated_command true (some f) c w r e h = unfold fresh_or_repeated in cc
  repeated_command true none c w r e h = absurd cc
  repeated_command false o c w r e h = absurd cc

  -- After the hello, on a connection that remembers its answers well, a command is answered by one
  -- acknowledgement of its request id, and a second command with that id gets the same
  -- acknowledgement and changes nothing else, whatever it asks for.
  pub process_command_once :
      (c again : GatewayCommand X) (w : Shared X H)
      → w.connection.welcome_sent ≡ true
      → IsCache w.connection
      → again.request_id ≡ c.request_id
      → let w' = process_command g c w in
        (r : Frame X) × (w'.outbound ≡ w.outbound ++ r ∷ [])
        × Acknowledges c.request_id r
        × (process_command g again w' ≡ push r w')
  unfolding process_command
  process_command_once c again w e v same =
      let a =
        process_command-IsAnswered g (λ _. Unit {0})
          (record { calls = λ c i u. tt; between = λ i u. tt; ticks = λ m i u. tt }) c w tt v in
      (
        a.frame,
        a.queued,
        a.acknowledged,
        repeated_command _ _ again _ a.frame (a.welcomed ∙ e)
            (ap (get (process_command g c w).connection.completed_commands) same ∙ a.remembered e),
      )

  refused_command :
      (c : GatewayCommand X) (o : Option (Frame X)) (context : AuthContext) (s : Scope)
      (w : Shared X H)
      → IsCache w.connection
      → w.connection.authed ≡ some context
      → required_scope c.command ≡ some s
      → has context s ≡ false
      → touched (fresh_or_repeated g c o w) ≡ touched w
  unfolding fresh_or_repeated authorized answer
  refused_command c (some f) context s w v e need lacks = refl
  refused_command c none context s w v e need lacks =
      let frame = ack_error c.request_id (lacking c.command s) in
      ap
        (λ a. touched (
          authorized g c
            (authorize (unwrap_or a (all_scopes "unauthenticated" "unauthenticated")) c.command) w))
        e
      ∙ ap (λ r. touched (authorized g c r w)) (authorize-lacking context c.command s need lacks)
      ∙ ap (λ t. (w.sessions, w.host, t.2))
          (session-remember_command c.request_id frame w.connection v)

  gated_command :
      (welcome_sent : Bool) (c : GatewayCommand X) (o : Option (Frame X)) (w : Shared X H)
      → touched (fresh_or_repeated g c o w) ≡ touched w
      → touched (
          if welcome_sent
          then fresh_or_repeated g c o w
          else push (ack_error c.request_id (unauthenticated "hello required")) w)
        ≡ touched w
  gated_command true c o w h = h
  gated_command false c o w h = refl

  -- On a connection that remembers well, a command whose scope the device does not hold leaves the
  -- manager, the host and the subscriptions as they were.
  pub process_command_unauthorized :
      (c : GatewayCommand X) (context : AuthContext) (s : Scope) (w : Shared X H)
      → IsCache w.connection
      → w.connection.authed ≡ some context
      → required_scope c.command ≡ some s
      → has context s ≡ false
      → touched (process_command g c w) ≡ touched w
  unfolding process_command
  process_command_unauthorized c context s w v e need lacks =
      gated_command w.connection.welcome_sent c _ w (refused_command c _ context s w v e need lacks)
