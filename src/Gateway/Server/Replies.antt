-- ===== src/Gateway/Server/Replies.antt =====
-- rust/gateway-server/src/server.rs: the reply to each kind of frame, and what stays true while a
-- connection is served.
use slight.Base.{
  List, [], ◌∷◌, ◌++◌, Bool, true, false, ◌≡◌, refl, inl, inr, ◌⊎◌, if◌then◌else◌, eqb,
}
use slight.Base.Exec.{Result, ok, err}
use slight.Acp.External.{Externals}
use slight.Manager.State.{Inner}
use slight.Gateway.Protocol.Frames.{
  Frame, ClientHello, ServerWelcome, PongFrame, GatewayProtocolError, protocol_version,
}
use slight.Gateway.Protocol.Errors.{ProtocolError, invalid_version, error_code, to_wire}
use slight.Gateway.Server.Auth.{AuthContext}
use slight.Gateway.Server.State.{Gateway, Shared, push}
use slight.Gateway.Server.Sound.{IsKept}
use slight.Gateway.Server.Dispatch.{build_welcome}
use slight.Gateway.Server.Cache.{Acknowledges, IsCache}
use slight.Gateway.Server.Answers.{process_command-IsAnswered}
use slight.Gateway.Server.Process.{welcomed, process_hello, unexpected, error_frame, process_frame}

module _ {X : Externals} where
  -- The queue has one more frame at its end.
  abbrev pub One : (Frame X → Type 0) → List (Frame X) → List (Frame X) → Type 0
  One Is queue queue' = (r : Frame X) × (queue' ≡ queue ++ r ∷ []) × Is r

  abbrev pub IsUnexpected : Frame X → Type 0
  IsUnexpected r = (e : GatewayProtocolError) × (r ≡ Frame.error e) × (e.code ≡ "invalid_command")

  -- What a frame is replied with: a pong with nothing.
  unfoldable pub Replies : Frame X → List (Frame X) → List (Frame X) → Type 0
  Replies (Frame.hello _) = One λ r.
      ((s : ServerWelcome) × (r ≡ Frame.welcome s))
      ⊎ ((e : GatewayProtocolError) × (r ≡ Frame.error e))
  Replies (Frame.command c) = One (Acknowledges c.request_id)
  Replies (Frame.ping p) = One λ r. (q : PongFrame) × (r ≡ Frame.pong q) × (q.nonce ≡ p.nonce)
  Replies (Frame.pong _) = λ queue queue'. queue' ≡ queue
  Replies (Frame.welcome _) = One IsUnexpected
  Replies (Frame.ack _) = One IsUnexpected
  Replies (Frame.event _) = One IsUnexpected
  Replies (Frame.resync_required _) = One IsUnexpected
  Replies (Frame.error _) = One IsUnexpected

module _ {X : Externals} {H : Type 0} where
  -- The manager has the property and the connection remembers well.
  pub record IsServed (P : Inner X → Type 0) (w : Shared X H) : Type 0 where
    pub sound : P w.sessions
    pub cached : IsCache w.connection

module _ {X : Externals} {H : Type 0} (g : Gateway X H) (P : Inner X → Type 0)
    (k : IsKept g P) where
  welcomed-IsServed :
      (hello : ClientHello) (r : Result AuthContext ProtocolError) (w : Shared X H)
      → IsServed P w
      → IsServed P (welcomed g hello r w)
        × Replies (Frame.hello hello) w.outbound (welcomed g hello r w).outbound
  unfolding welcomed build_welcome error_frame Replies
  welcomed-IsServed hello (ok context) w v = (
    record {
      sound = k.ticks _ w.sessions v.sound;
      cached = record {
        bounded = v.cached.bounded;
        listed = v.cached.listed;
        once = v.cached.once;
        acks = v.cached.acks;
      };
    },
    (_, refl, inl (_, refl)),
  )
  welcomed-IsServed hello (err e) w v =
      (record { sound = v.sound; cached = v.cached }, (_, refl, inr (_, refl)))

  versioned-IsServed :
      (same : Bool) (hello : ClientHello) (w : Shared X H)
      → IsServed P w
      → let w' =
          if same
          then welcomed g hello
              (g.admin.authenticate w.host hello).0
              (record w { host = (g.admin.authenticate w.host hello).1 })
          else push (error_frame g (invalid_version hello.protocol_version protocol_version)) w in
        IsServed P w' × Replies (Frame.hello hello) w.outbound w'.outbound
  unfolding Replies error_frame
  versioned-IsServed true hello w v =
      welcomed-IsServed hello _ _ (record { sound = v.sound; cached = v.cached })
  versioned-IsServed false hello w v =
      (record { sound = v.sound; cached = v.cached }, (_, refl, inr (_, refl)))

  unexpected-IsServed :
      (f : Frame X) (w : Shared X H)
      → IsServed P w
      → IsServed P (unexpected g f w) × One IsUnexpected w.outbound (unexpected g f w).outbound
  unfolding unexpected error_frame to_wire error_code
  unexpected-IsServed f w v =
      (record { sound = v.sound; cached = v.cached }, (_, refl, (_, refl, refl)))

  -- Where the manager's calls, what happens between two locks and the clock keep a property of the
  -- manager, and the connection remembers well, every frame keeps both; a hello gets one welcome
  -- or error, a command one acknowledgement of its request id, a ping one pong with its nonce, a
  -- pong nothing, and any other frame one error with the code invalid_command.
  pub process_frame-Replies :
      (f : Frame X) (w : Shared X H)
      → IsServed P w
      → IsServed P (process_frame g f w) × Replies f w.outbound (process_frame g f w).outbound
  unfolding process_frame process_hello Replies
  process_frame-Replies (Frame.hello hello) w v =
      versioned-IsServed (eqb hello.protocol_version protocol_version) hello w v
  process_frame-Replies (Frame.command c) w v =
      let a = process_command-IsAnswered g P k c w v.sound v.cached in
      (record { sound = a.sound; cached = a.cached }, (a.frame, a.queued, a.acknowledged))
  process_frame-Replies (Frame.ping p) w v =
      (record { sound = v.sound; cached = v.cached }, (_, refl, (_, refl, refl)))
  process_frame-Replies (Frame.pong _) w v = (v, refl)
  process_frame-Replies (Frame.welcome f) w v = unexpected-IsServed (Frame.welcome f) w v
  process_frame-Replies (Frame.ack f) w v = unexpected-IsServed (Frame.ack f) w v
  process_frame-Replies (Frame.event f) w v = unexpected-IsServed (Frame.event f) w v
  process_frame-Replies (Frame.resync_required f) w v =
      unexpected-IsServed (Frame.resync_required f) w v
  process_frame-Replies (Frame.error f) w v = unexpected-IsServed (Frame.error f) w v
