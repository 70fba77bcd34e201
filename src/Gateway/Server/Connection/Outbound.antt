-- ===== src/Gateway/Server/Connection/Outbound.antt =====
-- rust/gateway-server/src/server.rs: the queue of a connection is written in order.
use slight.Base.{String, List, [], ◌∷◌, ◌++◌, ◌≡◌, refl, inl, inr, Bool-cases}
use slight.Base.Exec.{ok, err, Result-cases}
use slight.Acp.External.{Externals}
use slight.Gateway.Protocol.Frames.{Frame}
use slight.Gateway.Server.State.{Gateway}
use slight.Gateway.Server.Connection.{
  Socket, is_would_block, Progress, drained, blocked, failed, write_all,
}

module _ {X : Externals} {H : Type 0} (g : Gateway X H) where
  -- The messages of a queue, those that cannot be encoded left out.
  unfoldable pub messages : List (Frame X) → List String
  messages [] = []
  messages (frame ∷ rest) = elim (g.json.encode_frame frame) [
    | ok message ↦ message ∷ messages rest
    | err _ ↦ messages rest
  ]

  -- What was passed to the socket and what is left, by how far it came.
  unfoldable pub Accounts : List (Frame X) → Progress → List String → List (Frame X) → Type 0
  unfolding messages
  Accounts queue drained written left = (left ≡ []) × (written ≡ messages queue)
  Accounts queue blocked written left =
      (before : List String) × (m : String) × (after : List String) × (written ≡ before ++ m ∷ [])
      × (messages left ≡ m ∷ after)
      × (before ++ m ∷ after ≡ messages queue)
  Accounts queue failed written left = written ++ messages left ≡ messages queue

  Accounts-write :
      (p : Progress) (message : String) (frame : Frame X) (queue left : List (Frame X))
      (written : List String)
      → messages (frame ∷ queue) ≡ message ∷ messages queue
      → Accounts queue p written left
      → Accounts (frame ∷ queue) p (message ∷ written) left
  unfolding Accounts
  Accounts-write drained message frame queue left written e (h, h') = (h, rw (e, h') refl)
  Accounts-write blocked message frame queue left written e (before, m, after, w, l, h) =
      (message ∷ before, m, after, rw w refl, l, rw (e, ← h) refl)
  Accounts-write failed message frame queue left written e h = rw (e, ← h) refl

  Accounts-skip :
      (p : Progress) (frame : Frame X) (queue left : List (Frame X)) (written : List String)
      → messages (frame ∷ queue) ≡ messages queue
      → Accounts queue p written left
      → Accounts (frame ∷ queue) p written left
  unfolding Accounts
  Accounts-skip drained frame queue left written e (h, h') = (h, rw (e, h') refl)
  Accounts-skip blocked frame queue left written e (before, m, after, w, l, h) =
      (before, m, after, w, l, rw (e, ← h) refl)
  Accounts-skip failed frame queue left written e h = rw (e, ← h) refl

  -- The messages that the writing of a queue passes to the socket are a first part of the queue's
  -- messages, in order, those frames left out that cannot be encoded: where the queue is drained,
  -- all of them, and nothing is left; where it fails, those up to the one that failed, the rest
  -- being left; where it blocks, those up to the one that blocked, which is also the first that is
  -- left, so that it will be passed to the socket again.
  pub write_all-Accounts :
      {K : Type 0} (s : Socket K) (queue : List (Frame X)) (k : K)
      → let v = write_all g s queue k in Accounts queue v.progress v.written v.left
  unfolding write_all Accounts
  write_all-Accounts s [] k = (refl, refl)
  write_all-Accounts s (frame ∷ rest) k = elim (Result-cases (g.json.encode_frame frame)) [
    | inr (fault, e) ↦
        rw (e, write_all)
          (Accounts-skip _ frame rest _ _ (rw (e, messages) refl) (write_all-Accounts s rest k))
    | inl (message, e) ↦ elim (Result-cases (s.write k message).0) [
      | inl (_, taken) ↦
          rw (e, write_all, taken)
            (Accounts-write _ message frame rest _ _ (rw (e, messages) refl)
              (write_all-Accounts s rest (s.write k message).1))
      | inr (fault, refused) ↦ elim (Bool-cases (is_would_block fault)) [
        | inl wait ↦
            rw (e, write_all, refused, wait)
              ([], message, messages rest, refl, rw (e, messages) refl, rw (e, messages) refl)
        | inr fatal ↦ rw (e, write_all, refused, fatal) (rw (e, messages) refl)
      ]
    ]
  ]
