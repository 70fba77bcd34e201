-- ===== src/Rpc/Calls/Gates.antt =====
-- rust/acp-types/src/client.rs: what a call refuses, and that a request is answered once.
use slight.Base.{String, Bool, true, false, ◌≡◌, refl, ◌∙◌, ap, ◌⊎◌, inl, inr, Bool-cases}
use slight.Base.Members.{among}
use slight.Base.Exec.{Result, err, Result-cases, continue, ◌>>=◌, ◌>>◌}
use slight.Rpc.Wire.{Peer, Codec, RequestId, Outgoing}
use slight.Rpc.Client.{
  ClientError, not_initialized, unknown_session, unsupported_capability, unknown_deferred_request,
  ClientHandler, Schema, AcpClient, AgentCapabilities, I, holds_id, take_deferred,
  ensure_initialized, ensure_supported, supports, send,
}
use slight.Rpc.Client.Deferred.{take_deferred-holds_id, take_deferred_gone, send-deferred}
use slight.Rpc.Calls.{
  ensure_known, new_session, list_sessions, load_session, resume_session, set_config_option, prompt,
  respond_result, respond_error,
}

module _ {P : Peer} {S : Type 0} where
  -- A call that failed and left the client as it was, or passed its gate.
  abbrev pub Passes :
      {A : Type 0} → AcpClient P S → Type 0 → Result A (ClientError P) × AcpClient P S → Type 0
  Passes c gate r = ((e : ClientError P) × (r ≡ (err e, c))) ⊎ ((c.initialized ≡ true) × gate)

  initialized_gate :
      {A : Type 0} (rest : I P S A) (c : AcpClient P S)
      → Passes c (Unit {0}) ((ensure_initialized >> rest) c)
  unfolding ensure_initialized ◌>>=◌
  initialized_gate rest c = elim (Bool-cases c.initialized) [
    | inl e ↦ inr (e, tt)
    | inr e ↦ inl (not_initialized, rw (e, ensure_initialized) refl)
  ]

  supported_gate :
      {A : Type 0} (test : AgentCapabilities → Bool) (name : String) (rest : I P S A)
      (c : AcpClient P S)
      → Passes c
          (supports test c ≡ true)
          ((ensure_initialized >> (ensure_supported test name >> rest)) c)
  unfolding ensure_initialized ensure_supported ◌>>=◌
  supported_gate test name rest c = elim (Bool-cases c.initialized) [
    | inr e ↦ inl (not_initialized, rw (e, ensure_initialized) refl)
    | inl e ↦ elim (Bool-cases (supports test c)) [
      | inl h ↦ inr (e, h)
      | inr h ↦
          inl (unsupported_capability name, rw (e, ensure_initialized, h, ensure_supported) refl)
    ]
  ]

  known_gate :
      {A : Type 0} (id : String) (rest : I P S A) (c : AcpClient P S)
      → Passes c (among id c.sessions ≡ true) ((ensure_initialized >> (ensure_known id >> rest)) c)
  unfolding ensure_initialized ensure_known ◌>>=◌
  known_gate id rest c = elim (Bool-cases c.initialized) [
    | inr e ↦ inl (not_initialized, rw (e, ensure_initialized) refl)
    | inl e ↦ elim (Bool-cases (among id c.sessions)) [
      | inl h ↦ inr (e, h)
      | inr h ↦ inl (unknown_session id, rw (e, ensure_initialized, h, ensure_known) refl)
    ]
  ]

module _ {P : Peer} {S : Type 0} (C : Codec P) (M : Schema P) (H : ClientHandler P S) where
  -- Each of the six calls that ask the agent for something either fails with the client, its
  -- output included, as it was, or finds the connection initialized and its own requirement met:
  -- list_sessions that the agent advertises list, load_session that it advertises load_session,
  -- resume_session that it advertises resume, prompt that the session was opened, and the other
  -- two nothing more.
  pub calls_gated :
      (c : AcpClient P S) (id text option : String) (params : P.Value)
      → Passes c (Unit {0}) (new_session C M H text c)
        × Passes c (supports (λ a. a.list) c ≡ true) (list_sessions C M H params c)
        × Passes c (supports (λ a. a.load_session) c ≡ true) (load_session C M H id text c)
        × Passes c (supports (λ a. a.resume) c ≡ true) (resume_session C M H id text c)
        × Passes c (Unit {0}) (set_config_option C M H id option text c)
        × Passes c (among id c.sessions ≡ true) (prompt C M H id text c)
  unfolding new_session list_sessions load_session resume_session set_config_option prompt
  calls_gated c id text option params = (
    initialized_gate _ c,
    supported_gate _ _ _ c,
    supported_gate _ _ _ c,
    supported_gate _ _ _ c,
    initialized_gate _ c,
    known_gate id _ c,
  )

  -- After any attempt to answer, the request is not deferred.
  answered :
      (id : RequestId) (message : Outgoing P) (c : AcpClient P S)
      → holds_id id ((take_deferred id >> send C M H message) c).1.deferred ≡ false
  unfolding ◌>>=◌
  answered id message c =
      let gone = take_deferred-holds_id id c in
      elim (Result-cases (take_deferred id c).0) [
        | inl (u, e) ↦
            rw (e, continue)
              (ap (holds_id id) (send-deferred C M H message (take_deferred id c).1) ∙ gone)
        | inr (fault, e) ↦ rw (e, continue) gone
      ]

  refused_answer :
      (id : RequestId) (message : Outgoing P) (c : AcpClient P S)
      → holds_id id c.deferred ≡ false
      → (take_deferred id >> send C M H message) c ≡ (err (unknown_deferred_request id), c)
  unfolding ◌>>=◌
  refused_answer id message c gone = rw (take_deferred_gone id c gone) refl

  -- Either answer, after an attempt that left the request no longer deferred.
  refused_both :
      (id : RequestId) (value : P.Value) (error : P.Error) (c : AcpClient P S)
      → holds_id id c.deferred ≡ false
      → (respond_result C M H id value c ≡ (err (unknown_deferred_request id), c))
        × (respond_error C M H id error c ≡ (err (unknown_deferred_request id), c))
  unfolding respond_result respond_error
  refused_both id value error c gone = (
    refused_answer id (Outgoing.result id value) c gone,
    refused_answer id (Outgoing.error id error) c gone,
  )

  -- After an attempt to answer a deferred request, with a result or with an error, whether the
  -- request was deferred or not and whether the writing failed or not, every further answer to it,
  -- a result or an error, is refused and changes nothing.
  pub respond_once :
      (id : RequestId) (value other : P.Value) (error fault : P.Error) (c : AcpClient P S)
      → let c' = (respond_result C M H id value c).1 in
        let c'' = (respond_error C M H id error c).1 in
        ((respond_result C M H id other c' ≡ (err (unknown_deferred_request id), c'))
          × (respond_error C M H id fault c' ≡ (err (unknown_deferred_request id), c')))
        × ((respond_result C M H id other c'' ≡ (err (unknown_deferred_request id), c''))
            × (respond_error C M H id fault c'' ≡ (err (unknown_deferred_request id), c'')))
  unfolding respond_result respond_error
  respond_once id value other error fault c = (
    refused_both id other fault _ (answered id (Outgoing.result id value) c),
    refused_both id other fault _ (answered id (Outgoing.error id error) c),
  )
