-- ===== src/Rpc/Client/Deferred.antt =====
-- rust/acp-types/src/client.rs: the requests of the agent that are answered later.
use slight.Base.{ℕ, List, [], ◌∷◌, false, ◌≡◌, refl, arith, Bool-cases, Option-cases, inl, inr}
use slight.Base.Exec.{err, Result-cases, ◌>>=◌}
use slight.Rpc.Wire.{Peer, Codec, RequestId, Outgoing, encode_line}
use slight.Rpc.Transport.{write_encoded}
use slight.Rpc.Client.{
  unknown_deferred_request, ClientHandler, Schema, AcpClient, holds_id, remove_id, take_deferred,
  send_raw, send,
}

holds_id-remove_id :
    (id : RequestId) (ids : List RequestId) → holds_id id (remove_id id ids) ≡ false
unfolding holds_id remove_id
holds_id-remove_id id [] = refl
holds_id-remove_id id (i ∷ ids) = ground (arith, holds_id-remove_id id ids)

module _ {P : Peer} {S : Type 0} where
  -- Whether it was there or not, it is not there afterwards.
  pub take_deferred-holds_id :
      (id : RequestId) (c : AcpClient P S) → holds_id id (take_deferred id c).1.deferred ≡ false
  take_deferred-holds_id id c = elim (Bool-cases (holds_id id c.deferred)) [
    | inl there ↦ unfold take_deferred in rw there (holds_id-remove_id id c.deferred)
    | inr gone ↦ unfold take_deferred in rw gone gone
  ]

  pub take_deferred_gone :
      (id : RequestId) (c : AcpClient P S)
      → holds_id id c.deferred ≡ false
      → take_deferred id c ≡ (err (unknown_deferred_request id), c)
  take_deferred_gone id c gone = unfold take_deferred in rw gone refl

module _ {P : Peer} {S : Type 0} (C : Codec P) (M : Schema P) (H : ClientHandler P S) where
  send_raw-deferred :
      (frame : List ℕ) (c : AcpClient P S) → (send_raw C M H frame c).1.deferred ≡ c.deferred
  unfolding send_raw
  send_raw-deferred frame c = elim (Option-cases (M.write_all c.output (write_encoded frame))) [
    | inl fine ↦ rw (fine, send_raw) refl
    | inr (text, fails) ↦ rw (fails, send_raw) refl
  ]

  pub send-deferred :
      (message : Outgoing P) (c : AcpClient P S) → (send C M H message c).1.deferred ≡ c.deferred
  unfolding send ◌>>=◌
  send-deferred message c = elim (Result-cases (encode_line C message)) [
    | inl (frame, e) ↦ rw (e, send) (send_raw-deferred frame c)
    | inr (fault, e) ↦ rw (e, send) refl
  ]
