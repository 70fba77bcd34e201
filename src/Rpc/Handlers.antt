-- ===== src/Rpc/Handlers.antt =====
-- rust/acp-types/src/client.rs: the two handlers that answer an agent at once.
pub mod Offers
use slight.Base.{
  String, List, [], ◌∷◌, Option, none, some, Bool, true, false, or_else, head?, if◌then◌else◌,
}
use slight.Base.Text.{◌==◌}
use slight.Base.Exec.{ok, err}
use slight.Rpc.Wire.{Peer, AgentToClientRequest}
use slight.Rpc.Client.{HandlerOutcome, respond, ClientHandler}

pub data WireOptionKind : Type 0 where
  allow_once allow_always reject_once reject_always other : WireOptionKind

pub record WireOption : Type 0 where
  pub option_id : String
  pub kind : WireOptionKind

pub data RequestPermissionOutcome : Type 0 where
  cancelled : RequestPermissionOutcome
  selected : String → RequestPermissionOutcome

unfoldable pub allows : WireOptionKind → Bool
allows WireOptionKind.allow_once = true
allows WireOptionKind.allow_always = true
allows WireOptionKind.reject_once = false
allows WireOptionKind.reject_always = false
allows WireOptionKind.other = false

-- `find`
unfoldable pub find_option : (WireOption → Bool) → List WireOption → Option WireOption
find_option test [] = none
find_option test (o ∷ options) = if test o then some o else find_option test options

unfoldable pub preferred : Option String → List WireOption → Option WireOption
unfolding find_option
preferred none options = none
preferred (some id) options = find_option (λ o. o.option_id == id) options

unfoldable pub select : Option String → List WireOption → RequestPermissionOutcome
unfolding preferred find_option allows
select preferred_option_id options =
    elim (or_else (preferred preferred_option_id options)
      (or_else (find_option (λ o. allows o.kind) options) (head? options))) [
        | none ↦ RequestPermissionOutcome.cancelled
        | some option ↦ RequestPermissionOutcome.selected option.option_id
      ]

-- The options of a request, the value of an outcome, and the error of an unknown method.
pub record Answers (P : Peer) : Type 0 where
  pub options : P.RequestPermissionRequest → List WireOption
  pub permission_outcome_value : RequestPermissionOutcome → P.Value
  pub method_not_found : P.Error

module _ {P : Peer} (A : Answers P) where
  unfoldable pub auto_approve : Option String → AgentToClientRequest P → HandlerOutcome P
  unfolding select
  auto_approve preferred_option_id (AgentToClientRequest.request_permission r) =
      respond (ok (A.permission_outcome_value (select preferred_option_id (A.options r))))
  auto_approve preferred_option_id (AgentToClientRequest.other _ _) =
      respond (err A.method_not_found)

  unfoldable pub deny_all : AgentToClientRequest P → HandlerOutcome P
  deny_all (AgentToClientRequest.request_permission _) =
      respond (ok (A.permission_outcome_value RequestPermissionOutcome.cancelled))
  deny_all (AgentToClientRequest.other _ _) = respond (err A.method_not_found)

  -- `AutoApproveHandler`, whose state is the preferred option, and `DenyAllHandler`.
  abbrev pub auto_approve_handler : ClientHandler P (Option String)
  auto_approve_handler = record {
    handle_request = λ preferred id request. (auto_approve preferred request, preferred);
    handle_notification = λ preferred n. preferred;
  }

  abbrev pub deny_all_handler : ClientHandler P (Unit {0})
  deny_all_handler = record {
    handle_request = λ u id request. (deny_all request, u);
    handle_notification = λ u n. u;
  }
