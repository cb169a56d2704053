-- ===== src/Rbac/Actions.antt =====
-- `isAuthAction` knows exactly the texts of the listed actions.
use cloud_commitment_portfol.Base.{
  ◌≡◌, refl, ap, ◌∙◌, ◌↔◌, inl, inr, some, some_inj, List, [], ◌∷◌, find?, Bool-cases,
}
use cloud_commitment_portfol.Base.Text.{Text, text_eq, text_eq_iff}
use cloud_commitment_portfol.Rbac.{AuthAction, auth_actions, action_text, auth_action_of}

find?-holds :
    (value : Text) (actions : List AuthAction) {action : AuthAction}
    → find? (λ a. text_eq value (action_text a)) actions ≡ some action
    → value ≡ action_text action
find?-holds value [] h = absurd (cc)
find?-holds value (a ∷ actions) h = elim (Bool-cases (text_eq value (action_text a))) [
  | inl e ↦ (text_eq_iff value (action_text a)).0 e ∙ ap action_text (some_inj (rw e at h))
  | inr e ↦ find?-holds value actions (rw e at h)
]

named : (action : AuthAction) → auth_action_of (action_text action) ≡ some action
unfolding auth_action_of
named AuthAction.tenant_profile_read = refl
named AuthAction.cloud_accounts_read = refl
named AuthAction.cloud_accounts_create_update = refl
named AuthAction.cloud_accounts_deactivate = refl
named AuthAction.users_read_manage = refl
named AuthAction.api_keys_read_manage = refl
named AuthAction.api_keys_read_rotate = refl
named AuthAction.imports_read = refl
named AuthAction.imports_write = refl
named AuthAction.price_tables_read = refl
named AuthAction.price_tables_create_activate = refl
named AuthAction.forecast_models_read = refl
named AuthAction.forecast_models_write = refl
named AuthAction.forecast_runs_read = refl
named AuthAction.forecast_runs_run = refl
named AuthAction.scenarios_read_write = refl
named AuthAction.optimizer_policies_read = refl
named AuthAction.optimizer_policies_write = refl
named AuthAction.optimizer_runs_read = refl
named AuthAction.optimizer_runs_run = refl
named AuthAction.recommendations_read = refl
named AuthAction.recommendations_request_approval = refl
named AuthAction.recommendations_approve_reject = refl
named AuthAction.approvals_read = refl
named AuthAction.reports_read = refl
named AuthAction.backtests_read_run = refl
named AuthAction.audit_log_read = refl
named AuthAction.notifications_read = refl
named AuthAction.notification_preferences_write = refl
named AuthAction.tenant_settings_write = refl
named AuthAction.ecosystem_adapters_configure = refl

-- A text names an action exactly if it is that action's text; so no two actions share a text.
pub auth_action_of_iff :
    (value : Text) (action : AuthAction)
    → (auth_action_of value ≡ some action) ↔ (value ≡ action_text action)
unfolding auth_action_of
auth_action_of_iff value action =
    (find?-holds value auth_actions, λ e. ap auth_action_of e ∙ named action)
