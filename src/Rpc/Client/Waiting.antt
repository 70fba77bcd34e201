-- ===== src/Rpc/Client/Waiting.antt =====
-- rust/acp-types/src/client.rs: waiting for a response ends, and keeps what it was not waiting for.
use slight.Base.{
  ℕ, zero, suc, ◌<◌, List, [], ◌∷◌, ◌++◌, Option, none, some, Bool, true, false, ◌≡◌, refl, sym,
  ◌∙◌, ap, ◌⊎◌, inl, inr, not, ◌&&◌, length, arith, if◌then◌else◌, subst,
}
use mathlib.Core.List.{append_assoc, append-nil}
use slight.Base.Exec.{Result, ok, err, map_err}
use slight.Rpc.Wire.{Peer, Codec, RequestId, AcpMessage}
use slight.Rpc.Client.{
  ClientError, ClientHandler, Schema, AcpClient, protocol, same_id, next_message, orphan, wait_on,
  wait_for_response,
}
use slight.Rpc.Client.Receiving.{has_fuel, fueled, next_message-IsStep}

-- No response in the list has the id.
unfoldable pub none_for : {V : Type 0} → RequestId → List (RequestId × V) → Bool
none_for id [] = true
none_for id ((got, outcome) ∷ rest) = not (same_id got id) && none_for id rest

module _ {P : Peer} {S : Type 0} (C : Codec P) (M : Schema P) (H : ClientHandler P S) where
  -- What is returned, and the orphans that joined those there were.
  Waited :
      RequestId
      → List (RequestId × Result P.Value P.Error)
      → Result P.Value (ClientError P) × AcpClient P S
      → Type 0
  Waited id orphans r =
      (fueled r.0 ≡ true)
      × ((new : List (RequestId × Result P.Value P.Error)) × (r.1.orphan_responses ≡ orphans ++ new)
          × (none_for id new ≡ true))

  map_err-fueled :
      (outcome : Result P.Value P.Error) → fueled {P = P} (map_err protocol outcome) ≡ true
  unfolding fueled has_fuel
  map_err-fueled (ok v) = refl
  map_err-fueled (err e) = refl

  unchanged :
      (id : RequestId) (orphans : List (RequestId × Result P.Value P.Error))
      (r : Result P.Value (ClientError P) × AcpClient P S)
      → fueled r.0 ≡ true
      → r.1.orphan_responses ≡ orphans
      → Waited id orphans r
  unfolding Waited none_for
  unchanged id orphans r runs same = (runs, ([], same ∙ sym (append-nil orphans), refl))

  -- A response to another request joins the orphans first.
  joined :
      (id got : RequestId) (outcome : Result P.Value P.Error)
      (orphans : List (RequestId × Result P.Value P.Error))
      (r : Result P.Value (ClientError P) × AcpClient P S)
      → same_id got id ≡ false
      → Waited id (orphans ++ (got, outcome) ∷ []) r
      → Waited id orphans r
  unfolding Waited none_for
  joined id got outcome orphans r other (runs, (new, e, none_new)) = (
    runs,
    (
      (got, outcome) ∷ new,
      e ∙ append_assoc orphans ((got, outcome) ∷ []) new,
      ground (arith, other, none_new),
    ),
  )

  either-Waited :
      (same : Bool) (id : RequestId) (orphans : List (RequestId × Result P.Value P.Error))
      (r r' : Result P.Value (ClientError P) × AcpClient P S)
      → Waited id orphans r
      → (same ≡ false → Waited id orphans r')
      → Waited id orphans (if same then r else r')
  either-Waited true id orphans r r' h h' = h
  either-Waited false id orphans r r' h h' = h' refl

  taken :
      {o : Result (Option (AcpMessage P)) (ClientError P)} {m : AcpMessage P} {less : Type 0}
      → (o ≡ ok none) ⊎ less
      → o ≡ ok (some m)
      → less
  taken (inl nothing) e = absurd cc
  taken (inr less) e = less

  module _ (fuel : ℕ) (id : RequestId) (c : AcpClient P S) where
    waited :
        (r : Result (Option (AcpMessage P)) (ClientError P))
        → (next_message C M H c).0 ≡ r
        → ((d : AcpClient P S)
            → length d.input < length c.input
            → Waited id d.orphan_responses (wait_on C M H fuel id d))
        → Waited id c.orphan_responses (wait_on C M H (suc fuel) id c)
    unfolding wait_on orphan fueled has_fuel
    waited (err fault) e again =
        let step = next_message-IsStep C M H c in
        rw (e, wait_on) (unchanged id _ _ (sym (ap fueled e) ∙ step.runs) step.same_orphans)
    waited (ok none) e again =
        let step = next_message-IsStep C M H c in
        rw (e, wait_on) (unchanged id _ _ refl step.same_orphans)
    waited (ok (some (AcpMessage.response got outcome))) e again =
        let step = next_message-IsStep C M H c in
        let d = (next_message C M H c).1 in
        rw (e, wait_on)
          (either-Waited (same_id got id) id _ _ _
            (unchanged id _ _ (map_err-fueled outcome) step.same_orphans)
            λ other.
              subst (λ os. Waited id os (wait_on C M H fuel id (orphan got outcome d)))
                step.same_orphans
                (joined id got outcome d.orphan_responses _ other
                  (again (orphan got outcome d) (taken step.shorter e))))
    waited (ok (some (AcpMessage.request i q))) e again =
        let step = next_message-IsStep C M H c in
        let d = (next_message C M H c).1 in
        rw (e, wait_on)
          (subst (λ os. Waited id os (wait_on C M H fuel id d)) step.same_orphans
            (again d (taken step.shorter e)))
    waited (ok (some (AcpMessage.notification n))) e again =
        let step = next_message-IsStep C M H c in
        let d = (next_message C M H c).1 in
        rw (e, wait_on)
          (subst (λ os. Waited id os (wait_on C M H fuel id d)) step.same_orphans
            (again d (taken step.shorter e)))

  wait_on-Waited :
      (fuel : ℕ) (id : RequestId) (c : AcpClient P S)
      → length c.input < fuel
      → Waited id c.orphan_responses (wait_on C M H fuel id c)
  wait_on-Waited zero id c less = absurd (omega arith)
  wait_on-Waited (suc fuel) id c less =
      waited fuel id c (next_message C M H c).0 refl
        λ d smaller. wait_on-Waited fuel id d (omega (arith, less, smaller))

  -- From every state of the client, waiting for a response ends with a value or an error of the
  -- program, the model's fuel being enough; the orphans that there were are kept in their order,
  -- and those that join them behind are none of them for the id that is waited for.
  pub wait_for_response_lem :
      (id : RequestId) (c : AcpClient P S)
      → let r = wait_for_response C M H id c in
        (fueled r.0 ≡ true)
        × ((new : List (RequestId × Result P.Value P.Error)) × (r.1.orphan_responses
              ≡ c.orphan_responses ++ new)
            × (none_for id new ≡ true))
  unfolding wait_for_response Waited
  wait_for_response_lem id c = wait_on-Waited (suc (length c.input)) id c (omega arith)
