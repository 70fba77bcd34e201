-- ===== src/Gateway/Server/Connection/Stream.antt =====
-- rust/session-core/src/manager.rs and rust/gateway-server/src/server.rs: the events of a session on
-- their way from `append` to the queue of a connection that has subscribed.
use mathlib.Core.Option
use slight.Base.{
  ℕ, ◌≤◌, ◌<◌, zero, suc, String, List, [], ◌∷◌, ◌++◌, map, Option, none, some, true, ◌≡◌, refl,
  sym, ◌∙◌, ap, length, drop, drop-append_le, drop_all, unwrap_or, arith,
}
use mathlib.Core.List.{append_assoc}
use slight.Base.Text.{◌==◌, eq_iff}
use slight.Base.HashMap.{get}
use slight.Acp.External.{Externals}
use slight.Types.Event.{SessionEvent, SequencedEvent}
use slight.Manager.State.{Session, Inner}
use slight.Manager.Steps.{append}
use slight.Manager.Steps.Append.{stamped}
use slight.Manager.Steps.Delivery.{append-delivers}
use slight.Gateway.Protocol.Frames.{Frame}
use slight.Gateway.Server.State.{Gateway, Receiver, Shared}
use slight.Gateway.Server.Connection.{
  channel_at, channel_of, unread, receive_all, event_frames, receive, drain,
}

module _ {X : Externals} where
  -- The channel is there, and no more was received than was sent.
  pub record IsOpen (i : Inner X) (id : String) (r : Receiver) : Type 0 where
    pub there : r.place < length (unwrap_or (get i.subscribers id) [])
    pub behind : r.received ≤ length (channel_of i id r)

  channel_at-snoc :
      (n : ℕ) (e : SequencedEvent X) (channels : List (List (SequencedEvent X)))
      → n < length channels
      → channel_at n (map (λ channel. channel ++ e ∷ []) channels) ≡ channel_at n channels ++ e ∷ []
  unfolding channel_at
  channel_at-snoc n e [] h = absurd (omega arith)
  channel_at-snoc zero e (channel ∷ channels) h = refl
  channel_at-snoc (suc n) e (channel ∷ channels) h = channel_at-snoc n e channels (omega arith)

  unwrap_or-map :
      (e : SequencedEvent X) (o : Option (List (List (SequencedEvent X))))
      → unwrap_or (Option.map (map λ channel. channel ++ e ∷ []) o) []
        ≡ map (λ channel. channel ++ e ∷ []) (unwrap_or o [])
  unwrap_or-map e none = refl
  unwrap_or-map e (some o) = refl

  -- Nothing waits once everything was received.
  unread-receive_all :
      (i : Inner X) (id : String) (r : Receiver) → unread i id (receive_all i id r) ≡ []
  unfolding unread receive_all channel_of
  unread-receive_all i id r = drop_all _ (channel_of i id r) (omega arith)

module _ {X : Externals} {H : Type 0} (g : Gateway X H) where
  channel_of-append :
      (id : String) (event : SessionEvent X) (i : Inner X) (s : Session X) (r : Receiver)
      → get i.sessions id ≡ some s
      → IsOpen i id r
      → channel_of (append g.system id event i).1 id r
        ≡ channel_of i id r ++ stamped g.system s event i ∷ []
  unfolding channel_of
  channel_of-append id event i s r known open_ =
      let sent = append-delivers g.system id id event i s known in
      let same : id == id ≡ true = (eq_iff id id).1 refl in
      rw (sent.3, same, unwrap_or-map (stamped g.system s event i) (get i.subscribers id))
        (channel_at-snoc r.place (stamped g.system s event i) _ open_.there)

  unread-append :
      (id : String) (event : SessionEvent X) (i : Inner X) (s : Session X) (r : Receiver)
      → get i.sessions id ≡ some s
      → IsOpen i id r
      → unread (append g.system id event i).1 id r
        ≡ unread i id r ++ stamped g.system s event i ∷ []
  unfolding unread
  unread-append id event i s r known open_ =
      ap (drop r.received) (channel_of-append id event i s r known open_)
      ∙ drop-append_le r.received (channel_of i id r) _ open_.behind

  -- A subscription among the others: its frames are together and in order, and it is left with
  -- nothing to receive.
  Received : Inner X → String → Receiver → List (Frame X) × List (String × Receiver) → Type 0
  Received i id r (frames, subscriptions) =
      (before after : List (Frame X)) × (earlier later : List (String × Receiver)) × (r' : Receiver)
      × (frames ≡ before ++ (event_frames g id (unread i id r) ++ after))
      × (subscriptions ≡ earlier ++ (id, r') ∷ later)
      × (r'.place ≡ r.place)
      × (unread i id r' ≡ [])

  receive-Received :
      (i : Inner X) (first rest : List (String × Receiver)) (id : String) (r : Receiver)
      → Received i id r (receive g i (first ++ (id, r) ∷ rest))
  unfolding receive Received
  receive-Received i [] rest id r = (
    [],
    (receive g i rest).0,
    [],
    (receive g i rest).1,
    receive_all i id r,
    refl,
    refl,
    unfold receive_all in refl,
    unread-receive_all i id r,
  )
  receive-Received i ((j, q) ∷ first) rest id r =
      let (before, after, earlier, later, r', frames, subscriptions, place, nothing) =
        receive-Received i first rest id r in
      let sent = event_frames g j (unread i j q) in
      (
        sent ++ before,
        after,
        (j, receive_all i j q) ∷ earlier,
        later,
        r',
        ap (λ l. sent ++ l) frames
            ∙ sym (append_assoc sent before (event_frames g id (unread i id r) ++ after)),
        ap (λ l. (j, receive_all i j q) ∷ l) subscriptions,
        place,
        nothing,
      )

  -- Where a connection is subscribed to a live session through a channel that is there, and an
  -- event is appended to the session and the subscriptions are then drained, the queue has, after
  -- what it had, every event that was not yet received, in order and then the new one, with
  -- nothing of another session between them; the subscription keeps its channel and has nothing
  -- left to receive.
  pub drain-append :
      (w : Shared X H) (id : String) (event : SessionEvent X) (s : Session X) (r : Receiver)
      (first rest : List (String × Receiver))
      → get w.sessions.sessions id ≡ some s
      → w.connection.subscriptions.entries ≡ first ++ (id, r) ∷ rest
      → IsOpen w.sessions id r
      → let e = stamped g.system s event w.sessions in
        let i = (append g.system id event w.sessions).1 in
        let w' = drain g (record w { sessions = i }) in
        (before after : List (Frame X)) × (earlier later : List (String × Receiver))
        × (r' : Receiver) × (w'.outbound
            ≡ w.outbound
              ++ (before ++ (event_frames g id (unread w.sessions id r ++ e ∷ []) ++ after)))
        × (w'.connection.subscriptions.entries ≡ earlier ++ (id, r') ∷ later)
        × (r'.place ≡ r.place)
        × (unread i id r' ≡ [])
  unfolding drain Received
  drain-append w id event s r first rest known subscribed open_ =
      let i = (append g.system id event w.sessions).1 in
      let (before, after, earlier, later, r', frames, subscriptions, place, nothing) =
        receive-Received i first rest id r in
      let new = unread-append id event w.sessions s r known open_ in
      (
        before,
        after,
        earlier,
        later,
        r',
        ap (λ l. w.outbound ++ l)
            (ap (λ l. (receive g i l).0) subscribed
              ∙ frames
              ∙ ap (λ l. before ++ (event_frames g id l ++ after)) new),
        ap (λ l. (receive g i l).1) subscribed ∙ subscriptions,
        place,
        nothing,
      )
