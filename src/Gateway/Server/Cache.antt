-- ===== src/Gateway/Server/Cache.antt =====
-- rust/gateway-server/src/server.rs: the answers that a connection remembers.
use slight.Base.{
  ◌≤◌, ◌<◌, String, List, [], ◌∷◌, ◌++◌, Option, none, some, Bool, true, false, ◌≡◌, refl, sym, ◌∙◌,
  ap, length, length-append, arith, Bool-cases, inl, inr, is_some, dec_lt,
}
use slight.Base.Text.{eq_iff}
use slight.Base.Members.{among, distinct, among-snoc, distinct-snoc}
use slight.Base.HashMap.{
  HashMap, get, contains_key, insert, remove, get-insert, get-insert_inv, get-remove,
}
use slight.Acp.External.{Externals}
use slight.Gateway.Protocol.Frames.{Frame, GatewayAck}
use slight.Gateway.Server.Auth.{AuthContext}
use slight.Gateway.Server.State.{ConnState, Receiver}
use slight.Gateway.Server.Dispatch.{completed_command_limit, forget_oldest, remember_command}

module _ {X : Externals} where
  -- The frame is an acknowledgement of that request.
  abbrev pub Acknowledges : String → Frame X → Type 0
  Acknowledges id frame = (a : GatewayAck X) × (frame ≡ Frame.ack a) × (a.request_id ≡ id)

  -- The rest of a connection's state.
  abbrev pub standing : ConnState X → Bool × Option AuthContext × HashMap Receiver
  standing c = (c.welcome_sent, c.authed, c.subscriptions)

  -- The order lists each remembered request once, at most 256 of them, and each is remembered with
  -- its own acknowledgement.
  pub record IsCache (c : ConnState X) : Type 0 where
    pub bounded : length c.completed_command_order ≤ completed_command_limit
    pub listed :
        (k : String) → contains_key c.completed_commands k ≡ among k c.completed_command_order
    pub once : distinct c.completed_command_order ≡ true
    pub acks : (k : String) (f : Frame X) → get c.completed_commands k ≡ some f → Acknowledges k f

  forget_oldest_few :
      (order : List String) (c : ConnState X)
      → length order ≤ 256
      → forget_oldest order c ≡ record c { completed_command_order = order }
  unfolding forget_oldest
  forget_oldest_few [] c h = refl
  forget_oldest_few (k ∷ order) c h = ground arith

  forget_oldest_full :
      (oldest : String) (order : List String) (c : ConnState X)
      → length order ≡ 256
      → forget_oldest (oldest ∷ order) c ≡ record c {
        completed_commands = remove c.completed_commands oldest;
        completed_command_order = order;
      }
  forget_oldest_full oldest order c h =
      unfold forget_oldest in
      ground (
        arith,
        forget_oldest_few order
            (record c { completed_commands = remove c.completed_commands oldest }) (omega arith),
      )

  -- What `remember_command` makes of an id that is new: it is added, and where the limit is
  -- passed the oldest goes.
  data Remembers (id : String) (f : Frame X) (c d : ConnState X) : Type 0 where
    room :
        length c.completed_command_order < 256
        → d ≡ record c {
          completed_commands = insert c.completed_commands id f;
          completed_command_order = c.completed_command_order ++ id ∷ [];
        }
        → Remembers id f c d
    full :
        (oldest : String) (order : List String)
        → c.completed_command_order ≡ oldest ∷ order
        → length order ≡ 255
        → d ≡ record c {
          completed_commands = remove (insert c.completed_commands id f) oldest;
          completed_command_order = order ++ id ∷ [];
        }
        → Remembers id f c d

  forget_oldest-Remembers :
      (order : List String) (id : String) (f : Frame X) (c : ConnState X)
      → c.completed_command_order ≡ order
      → length order ≤ 256
      → Remembers id f c (
          forget_oldest
            (order ++ id ∷ [])
            (record c { completed_commands = insert c.completed_commands id f }))
  forget_oldest-Remembers [] id f c e h =
      room (rw e (omega arith)) (forget_oldest_few (id ∷ []) _ (omega arith) ∙ rw e refl)
  forget_oldest-Remembers (oldest ∷ order) id f c e h = elim (dec_lt (length order) 255) [
    | yes few ↦ room (rw e (omega arith)) (
        forget_oldest_few ((oldest ∷ order) ++ id ∷ []) _
          (omega (arith, length-append order (id ∷ [])))
        ∙ rw e refl)
    | no many ↦ full oldest order e (omega arith) (
        forget_oldest_full oldest (order ++ id ∷ []) _
          (omega (arith, length-append order (id ∷ []))))
  ]

  remember_command-Remembers :
      (id : String) (f : Frame X) (c : ConnState X)
      → IsCache c
      → contains_key c.completed_commands id ≡ false
      → Remembers id f c (remember_command id f c)
  unfolding remember_command
  remember_command-Remembers id f c v fresh =
      rw fresh (forget_oldest-Remembers c.completed_command_order id f c refl v.bounded)

  module _ (id : String) (f : Frame X) (c : ConnState X) where
    listed_full :
        (oldest : String) (order : List String) (k : String)
        → contains_key c.completed_commands k ≡ among k (oldest ∷ order)
        → distinct (oldest ∷ order) ≡ true
        → among id (oldest ∷ order) ≡ false
        → contains_key (remove (insert c.completed_commands id f) oldest) k
          ≡ among k (order ++ id ∷ [])
    unfolding distinct among
    listed_full oldest order k here first absent = ground (
      arith,
      get-remove (insert c.completed_commands id f) oldest k,
      get-insert c.completed_commands id k f,
      among-snoc k id order,
      eq_iff oldest k,
      eq_iff id oldest,
    )

    once_full :
        (oldest : String) (order : List String)
        → distinct (oldest ∷ order) ≡ true
        → among id (oldest ∷ order) ≡ false
        → distinct (order ++ id ∷ []) ≡ true
    unfolding distinct among
    once_full oldest order first absent = ground (arith, distinct-snoc id order)

    acks_full :
        (oldest k : String) (g : Frame X)
        → get (remove (insert c.completed_commands id f) oldest) k ≡ some g
        → get (insert c.completed_commands id f) k ≡ some g
    acks_full oldest k g h = ground (arith, get-remove (insert c.completed_commands id f) oldest k)

    acks_added :
        IsCache c
        → Acknowledges id f
        → (k : String) (g : Frame X) → get (insert c.completed_commands id f) k ≡ some g
        → Acknowledges k g
    acks_added v a k g h = elim (get-insert_inv c.completed_commands id k f g h) [
      | inl (same, q) ↦ rw (← same, q) a
      | inr old ↦ v.acks k g old
    ]

    remembered-IsCache :
        (d : ConnState X)
        → Remembers id f c d
        → IsCache c
        → among id c.completed_command_order ≡ false
        → Acknowledges id f
        → IsCache d
    remembered-IsCache d (room few e) v fresh a = rw e (record {
      bounded = omega (arith, length-append c.completed_command_order (id ∷ []));
      listed = λ k. ground (
        arith,
        v.listed k,
        among-snoc k id c.completed_command_order,
        get-insert c.completed_commands id k f,
      );
      once = ground (arith, v.once, distinct-snoc id c.completed_command_order);
      acks = acks_added v a;
    })
    remembered-IsCache d (full oldest order p q e) v fresh a =
        let first : distinct (oldest ∷ order) ≡ true = rw (← p) v.once in
        let absent : among id (oldest ∷ order) ≡ false = rw (← p) fresh in
        rw e (record {
          bounded = omega (arith, length-append order (id ∷ []));
          listed = λ k.
              let here : contains_key c.completed_commands k ≡ among k (oldest ∷ order) =
                rw (← p) (v.listed k) in
              listed_full oldest order k here first absent;
          once = once_full oldest order first absent;
          acks = λ k g h. acks_added v a k g (acks_full oldest k g h);
        })

    get_full :
        (oldest : String) (order : List String)
        → among id (oldest ∷ order) ≡ false
        → get (remove (insert c.completed_commands id f) oldest) id ≡ some f
    unfolding among
    get_full oldest order absent = ground (
      arith,
      get-remove (insert c.completed_commands id f) oldest id,
      get-insert c.completed_commands id id f,
      eq_iff id id,
    )

    get-Remembers :
        (d : ConnState X)
        → Remembers id f c d
        → among id c.completed_command_order ≡ false
        → get d.completed_commands id ≡ some f
    get-Remembers d (room few e) fresh =
        rw e (ground (arith, get-insert c.completed_commands id id f, eq_iff id id))
    get-Remembers d (full oldest order p q e) fresh =
        let absent : among id (oldest ∷ order) ≡ false = rw (← p) fresh in
        rw e (get_full oldest order absent)

    session-Remembers : (d : ConnState X) → Remembers id f c d → standing d ≡ standing c
    session-Remembers d (room few e) = rw e refl
    session-Remembers d (full oldest order p q e) = rw e refl

    -- A new id: its answer is there afterwards.
    pub get-remember_command :
        IsCache c
        → get c.completed_commands id ≡ none
        → get (remember_command id f c).completed_commands id ≡ some f
    get-remember_command v fresh =
        get-Remembers _ (remember_command-Remembers id f c v (ap is_some fresh))
          (sym (v.listed id) ∙ ap is_some fresh)

    pub session-remember_command : IsCache c → standing (remember_command id f c) ≡ standing c
    session-remember_command v = elim (Bool-cases (contains_key c.completed_commands id)) [
      | inl old ↦ unfold remember_command in rw old refl
      | inr fresh ↦ session-Remembers _ (remember_command-Remembers id f c v fresh)
    ]

    pub remember_command-IsCache : IsCache c → Acknowledges id f → IsCache (remember_command id f c)
    remember_command-IsCache v a = elim (Bool-cases (contains_key c.completed_commands id)) [
      | inl old ↦ unfold remember_command in rw old v
      | inr fresh ↦
          remembered-IsCache _ (remember_command-Remembers id f c v fresh) v
            (sym (v.listed id) ∙ fresh) a
    ]
