-- ===== src/Rpc/Client/Receiving.antt =====
-- rust/acp-types/src/client.rs: a step of the client takes from the input, unless it finds the end.
use slight.Base.{
  ℕ, ◌<◌, List, Option, none, some, Bool, true, false, ◌≡◌, refl, sym, ◌∙◌, ap, ◌⊎◌, inl, inr,
  length, Option-cases,
}
use slight.Base.Exec.{Result, ok, err, Result-cases, ◌>>=◌}
use slight.Rpc.Wire.{
  Peer, Codec, RequestId, WireError, Outgoing, AcpMessage, encode_line, classify_inbound,
}
use slight.Rpc.Transport.{recv_inbound, read_frame, write_encoded}
use slight.Rpc.Transport.Frames.{read_frame-IsRead}
use slight.Rpc.Client.{
  ClientError, HandlerOutcome, ClientHandler, Schema, AcpClient, out_of_fuel, send_raw, send,
  defer_id, handled, service, received, next_message, respond, defer,
}

module _ {P : Peer} where
  unfoldable pub has_fuel : ClientError P → Bool
  has_fuel out_of_fuel = false
  has_fuel (ClientError.wire _) = true
  has_fuel (ClientError.protocol _) = true
  has_fuel ClientError.closed = true
  has_fuel ClientError.not_initialized = true
  has_fuel (ClientError.unknown_session _) = true
  has_fuel (ClientError.unsupported_capability _) = true
  has_fuel (ClientError.decode _) = true
  has_fuel (ClientError.unsupported_protocol _) = true
  has_fuel (ClientError.unknown_deferred_request _) = true

  unfoldable pub fueled : {A : Type 0} → Result A (ClientError P) → Bool
  unfolding has_fuel
  fueled (ok a) = true
  fueled (err e) = has_fuel e

module _ {P : Peer} {S : Type 0} where
  -- A step that does not read and does not touch the orphans.
  record IsQuiet {A : Type 0} (c : AcpClient P S) (r : Result A (ClientError P) × AcpClient P S)
      : Type 0 where
    pub runs : fueled r.0 ≡ true
    pub same_input : r.1.input ≡ c.input
    pub same_orphans : r.1.orphan_responses ≡ c.orphan_responses

module _ {P : Peer} {S : Type 0} (C : Codec P) (M : Schema P) (H : ClientHandler P S) where
  send_raw-IsQuiet : (frame : List ℕ) (c : AcpClient P S) → IsQuiet c (send_raw C M H frame c)
  unfolding send_raw fueled has_fuel
  send_raw-IsQuiet frame c = elim (Option-cases (M.write_all c.output (write_encoded frame))) [
    | inl fine ↦
        rw (fine, send_raw) (record { runs = refl; same_input = refl; same_orphans = refl })
    | inr (text, fails) ↦
        rw (fails, send_raw) (record { runs = refl; same_input = refl; same_orphans = refl })
  ]

  send-IsQuiet : (message : Outgoing P) (c : AcpClient P S) → IsQuiet c (send C M H message c)
  unfolding send ◌>>=◌ fueled has_fuel
  send-IsQuiet message c = elim (Result-cases (encode_line C message)) [
    | inl (frame, e) ↦ rw (e, send) (send_raw-IsQuiet frame c)
    | inr (fault, e) ↦ rw (e, send) (record { runs = refl; same_input = refl; same_orphans = refl })
  ]

  handled-IsQuiet :
      (id : RequestId) (o : HandlerOutcome P) (c : AcpClient P S) → IsQuiet c (handled C M H id o c)
  unfolding handled defer_id fueled
  handled-IsQuiet id (respond (ok value)) c = send-IsQuiet (Outgoing.result id value) c
  handled-IsQuiet id (respond (err error)) c = send-IsQuiet (Outgoing.error id error) c
  handled-IsQuiet id defer c = record { runs = refl; same_input = refl; same_orphans = refl }

  service-IsQuiet : (m : AcpMessage P) (c : AcpClient P S) → IsQuiet c (service C M H m c)
  unfolding service fueled
  service-IsQuiet (AcpMessage.request id request) c =
      let h =
        handled-IsQuiet id (H.handle_request c.handler id request).0
          (record c { handler = (H.handle_request c.handler id request).1 }) in
      record { runs = h.runs; same_input = h.same_input; same_orphans = h.same_orphans }
  service-IsQuiet (AcpMessage.notification n) c = record {
    runs = refl;
    same_input = refl;
    same_orphans = refl;
  }
  service-IsQuiet (AcpMessage.response id outcome) c = record {
    runs = refl;
    same_input = refl;
    same_orphans = refl;
  }

  received-IsQuiet :
      (o : Option (AcpMessage P)) (c : AcpClient P S) → IsQuiet c (received C M H o c)
  unfolding received ◌>>=◌ fueled
  received-IsQuiet none c = record { runs = refl; same_input = refl; same_orphans = refl }
  received-IsQuiet (some m) c =
      let q = service-IsQuiet m c in
      elim (Result-cases (service C M H m c).0) [
        | inl (u, e) ↦
            rw (e, received)
              (record { runs = refl; same_input = q.same_input; same_orphans = q.same_orphans })
        | inr (fault, e) ↦
            rw (e, received)
              (record {
                runs = sym (ap fueled e) ∙ q.runs;
                same_input = q.same_input;
                same_orphans = q.same_orphans;
              })
      ]

  record IsReceived (input : List ℕ) : Type 0 where
    pub outcome : Result (Option (AcpMessage P)) WireError
    pub rest : List ℕ
    pub given : recv_inbound C input ≡ some (outcome, rest)
    pub shorter : (outcome ≡ ok none) ⊎ (length rest < length input)

  IsReceived-frame :
      (o : Result (Option (List ℕ)) WireError) (input rest : List ℕ)
      → read_frame C input ≡ some (o, rest)
      → (o ≡ ok none) ⊎ (length rest < length input)
      → IsReceived input
  unfolding recv_inbound
  IsReceived-frame (err e) input rest given (inl q) = absurd cc
  IsReceived-frame (err e) input rest given (inr less) = record {
    outcome = err e;
    rest = rest;
    given = rw (given, recv_inbound) refl;
    shorter = inr less;
  }
  IsReceived-frame (ok none) input rest given less = record {
    outcome = ok none;
    rest = rest;
    given = rw (given, recv_inbound) refl;
    shorter = inl refl;
  }
  IsReceived-frame (ok (some line)) input rest given (inl q) = absurd cc
  IsReceived-frame (ok (some line)) input rest given (inr less) = record {
    outcome = elim (classify_inbound C line) [ ok message ↦ ok (some message) | err e ↦ err e ];
    rest = rest;
    given = rw (given, recv_inbound) refl;
    shorter = inr less;
  }

  recv_inbound-IsReceived : (input : List ℕ) → IsReceived input
  recv_inbound-IsReceived input =
      let r = read_frame-IsRead C input in
      IsReceived-frame r.outcome input r.rest r.given
        (elim r.shorter [ inl (_, _, q) ↦ inl q | inr less ↦ inr less ])

  -- A step that takes from the input, unless it finds the end.
  pub record IsStep (c : AcpClient P S)
      (r : Result (Option (AcpMessage P)) (ClientError P) × AcpClient P S) : Type 0 where
    pub runs : fueled r.0 ≡ true
    pub same_orphans : r.1.orphan_responses ≡ c.orphan_responses
    pub shorter : (r.0 ≡ ok none) ⊎ (length r.1.input < length c.input)

  stepped :
      (o : Result (Option (AcpMessage P)) WireError) (rest : List ℕ) (c : AcpClient P S)
      → recv_inbound C c.input ≡ some (o, rest)
      → (o ≡ ok none) ⊎ (length rest < length c.input)
      → IsStep c (next_message C M H c)
  unfolding next_message fueled has_fuel
  stepped (err e) rest c given (inl q) = absurd cc
  stepped (err e) rest c given (inr less) =
      rw (given, next_message) (record { runs = refl; same_orphans = refl; shorter = inr less })
  stepped (ok none) rest c given less =
      rw (given, next_message)
        (unfold received in record { runs = refl; same_orphans = refl; shorter = inl refl })
  stepped (ok (some m)) rest c given (inl q) = absurd cc
  stepped (ok (some m)) rest c given (inr less) =
      let q = received-IsQuiet (some m) (record c { input = rest }) in
      rw (given, next_message)
        (record {
          runs = q.runs;
          same_orphans = q.same_orphans;
          shorter = inr (rw q.same_input less);
        })

  pub next_message-IsStep : (c : AcpClient P S) → IsStep c (next_message C M H c)
  next_message-IsStep c =
      let r = recv_inbound-IsReceived c.input in stepped r.outcome r.rest c r.given r.shorter
