-- ===== src/Manager/Invariant/Methods.antt =====
-- Every method on a live session keeps the invariant, whether it succeeds or fails.
use slight.Base.{refl, String, List, Bool, arith, Option-cases, inl, inr}
use slight.Base.HashMap.{get}
use slight.Base.Exec.Keeps.{
  Keeps, Keeps-pure, Keeps-raise, Keeps-lift, Keeps-if, Keeps-modify, Keeps-stateful, Keeps-bind,
  keeps_rules,
}
use slight.Acp.External.{Externals}
use slight.Acp.Metadata.{AcpConfigOption}
use slight.Types.Payload.{PermissionRequestPayload}
use slight.Types.Event.{SessionSummary}
use slight.Types.Request.{unknown_session}
use slight.Manager.State.{Session, RecoveredSession, Inner, System}
use slight.Manager.Steps.{change}
use slight.Manager.Turns.{
  clear_pending, clear_reasoning, set_current_mode, set_title, set_config_options, set_archived,
  require_running, require_permission, send_prompt, set_mode, set_config_option, cancel,
  respond_permission, rename_to, rename_session, archive_live, archive_recovered, store_archived,
  archive_session,
}
use slight.Manager.Invariant.{
  Inv, Inv-same, Keeps-require, Keeps-quiet, Keeps-observe, Keeps-call, Keeps-append,
  Keeps-persist_session,
}

module _ {X : Externals} where
  pub Keeps-clear_pending : (id : String) → Keeps Inv (change id (clear_pending {X = X}))
  Keeps-clear_pending id = Keeps-quiet id _ λ s. refl

  pub Keeps-clear_reasoning : (id : String) → Keeps Inv (change id (clear_reasoning {X = X}))
  Keeps-clear_reasoning id = Keeps-quiet id _ λ s. refl

  pub Keeps-set_current_mode :
      (id mode_id : String) → Keeps Inv (change id (set_current_mode {X = X} mode_id))
  Keeps-set_current_mode id mode_id = Keeps-quiet id _ λ s. refl

  pub Keeps-set_title : (id title : String) → Keeps Inv (change id (set_title {X = X} title))
  Keeps-set_title id title = Keeps-quiet id _ λ s. refl

  pub Keeps-set_config_options :
      (id : String) (options : List AcpConfigOption)
      → Keeps Inv (change id (set_config_options {X = X} options))
  Keeps-set_config_options id options = Keeps-quiet id _ λ s. refl

  pub Keeps-set_archived :
      (id : String) (archived : Bool) → Keeps Inv (change id (set_archived {X = X} archived))
  Keeps-set_archived id archived = Keeps-quiet id _ λ s. refl

  pub Keeps-require_running : (id : String) (s : Session X) → Keeps Inv (require_running id s)
  unfolding require_running
  Keeps-require_running id s = search keeps_rules

  pub Keeps-require_permission :
      (id permission_id : String) (p : PermissionRequestPayload)
      → Keeps Inv (require_permission {X = X} id permission_id p)
  unfolding require_permission
  Keeps-require_permission id permission_id p = search keeps_rules

pub ruleset step_rules =
    (keeps_rules, Keeps-require, Keeps-observe, Keeps-call, Keeps-append, Keeps-persist_session)

pub ruleset turn_rules = (
  step_rules, Keeps-clear_pending, Keeps-clear_reasoning, Keeps-set_current_mode, Keeps-set_title,
  Keeps-set_config_options, Keeps-set_archived, Keeps-require_running, Keeps-require_permission,
)

module _ {X : Externals} (S : System X) where
  pub send_prompt-Inv : (id text : String) → Keeps Inv (send_prompt S id text)
  unfolding send_prompt
  send_prompt-Inv id text = search turn_rules depth 12

  pub set_mode-Inv : (id mode_id : String) → Keeps Inv (set_mode S id mode_id)
  unfolding set_mode
  set_mode-Inv id mode_id = search turn_rules depth 12

  pub set_config_option-Inv :
      (id config_id value_id : String) → Keeps Inv (set_config_option S id config_id value_id)
  unfolding set_config_option
  set_config_option-Inv id config_id value_id = search turn_rules depth 12

  pub cancel-Inv : (id : String) → Keeps Inv (cancel S id)
  unfolding cancel
  cancel-Inv id = search turn_rules depth 12

  pub respond_permission-Inv :
      (id permission_id option_id : String)
      → Keeps Inv (respond_permission S id permission_id option_id)
  unfolding respond_permission
  respond_permission-Inv id permission_id option_id = search turn_rules depth 12

  rename_to-Inv : (id title : String) → Keeps Inv (rename_to S id title)
  unfolding rename_to
  rename_to-Inv id title = search turn_rules depth 12

  pub rename_session-Inv : (id title : String) → Keeps Inv (rename_session S id title)
  unfolding rename_session
  rename_session-Inv id title = search (turn_rules, rename_to-Inv)

  archive_live-Inv :
      (id : String) (archived : Bool) (s : Session X) → Keeps Inv (archive_live S id archived s)
  unfolding archive_live
  archive_live-Inv id archived s = search turn_rules depth 12

  store_archived-Inv :
      (id : String) (archived : Bool) (i : Inner X) → Inv i → Inv (store_archived S id archived i)
  unfolding store_archived
  store_archived-Inv id archived i v =
      Inv-same i (store_archived S id archived i) (ground arith) (ground arith) v

  archive_recovered-Inv :
      (id : String) (archived : Bool) (s : RecoveredSession X)
      → Keeps Inv (archive_recovered S id archived s)
  unfolding archive_recovered
  archive_recovered-Inv id archived s =
      Keeps-bind _ _ (Keeps-modify _ λ i v. record { sound = v.sound })
        λ _. Keeps-bind _ _ (Keeps-modify _ (store_archived-Inv id archived)) λ _. Keeps-pure _

  pub archive_session-Inv :
      (id : String) (archived : Bool) → Keeps Inv (archive_session S id archived)
  unfolding archive_session
  archive_session-Inv id archived = record {
    at = λ i v. elim (Option-cases (get i.sessions id)) [
      | inr (s, e) ↦ rw (e, archive_session) ((archive_live-Inv id archived s).at i v)
      | inl e ↦ elim (Option-cases (get i.recovered id)) [
        | inr (s, f) ↦ rw (e, f, archive_session) ((archive_recovered-Inv id archived s).at i v)
        | inl f ↦
            rw (e, f, archive_session)
              ((Keeps-raise {A = SessionSummary} {P = Inv} (unknown_session id)).at i v)
      ]
    ];
  }
