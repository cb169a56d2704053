-- ===== src/Rbac.antt =====
-- core/tenant/rbac.ts, core/tenant/request-context.ts and core/tenant/protected-route-actions.ts:
-- who may do what, and which action each protected route asks for.
pub mod Separation
pub mod Actions
pub mod Routes
mod Tests
use mathlib.Core.Option.{Option, none, some}
use cloud_commitment_portfol.Base.{
  Bool, true, false, ◌&&◌, List, [], ◌∷◌, map, find?, if◌then◌else◌,
}
use cloud_commitment_portfol.Base.Text.{Text, codes, text_eq}
use cloud_commitment_portfol.Base.Json.{Json}
use cloud_commitment_portfol.Optimizer.Policy.{as_text?}

-- `AuthAction`.
pub data AuthAction : Type 0 where
  tenant_profile_read cloud_accounts_read cloud_accounts_create_update cloud_accounts_deactivate
        users_read_manage api_keys_read_manage api_keys_read_rotate imports_read imports_write
        price_tables_read price_tables_create_activate forecast_models_read forecast_models_write
        forecast_runs_read forecast_runs_run scenarios_read_write optimizer_policies_read
        optimizer_policies_write optimizer_runs_read optimizer_runs_run recommendations_read
        recommendations_request_approval recommendations_approve_reject approvals_read reports_read
        backtests_read_run audit_log_read notifications_read notification_preferences_write
        tenant_settings_write ecosystem_adapters_configure :
      AuthAction

pub data PolicyDecision : Type 0 where
  allow_p1 allow_future_p2 allow_future_p3 deny : PolicyDecision

pub data UserRole : Type 0 where
  tenant_admin finops_analyst finance_approver read_only_auditor : UserRole

pub data ActorType : Type 0 where
  user api_key : ActorType

abbrev pub RolePolicy : Type 0
RolePolicy = AuthAction → PolicyDecision

unfoldable pub tenant_admin_policy : RolePolicy
tenant_admin_policy tenant_profile_read = allow_p1
tenant_admin_policy cloud_accounts_read = allow_p1
tenant_admin_policy cloud_accounts_create_update = allow_p1
tenant_admin_policy cloud_accounts_deactivate = allow_p1
tenant_admin_policy users_read_manage = allow_p1
tenant_admin_policy api_keys_read_manage = allow_p1
tenant_admin_policy api_keys_read_rotate = allow_p1
tenant_admin_policy imports_read = allow_p1
tenant_admin_policy imports_write = allow_p1
tenant_admin_policy price_tables_read = allow_p1
tenant_admin_policy price_tables_create_activate = allow_p1
tenant_admin_policy forecast_models_read = allow_p1
tenant_admin_policy forecast_models_write = allow_p1
tenant_admin_policy forecast_runs_read = allow_p1
tenant_admin_policy forecast_runs_run = allow_p1
tenant_admin_policy scenarios_read_write = allow_p1
tenant_admin_policy optimizer_policies_read = allow_p1
tenant_admin_policy optimizer_policies_write = allow_p1
tenant_admin_policy optimizer_runs_read = allow_p1
tenant_admin_policy optimizer_runs_run = allow_p1
tenant_admin_policy recommendations_read = allow_p1
tenant_admin_policy recommendations_request_approval = allow_p1
tenant_admin_policy recommendations_approve_reject = allow_p1
tenant_admin_policy approvals_read = allow_p1
tenant_admin_policy reports_read = allow_p1
tenant_admin_policy backtests_read_run = allow_p1
tenant_admin_policy audit_log_read = allow_p1
tenant_admin_policy notifications_read = allow_p1
tenant_admin_policy notification_preferences_write = allow_p1
tenant_admin_policy tenant_settings_write = allow_p1
tenant_admin_policy ecosystem_adapters_configure = allow_p1

unfoldable pub finops_analyst_policy : RolePolicy
finops_analyst_policy tenant_profile_read = allow_p1
finops_analyst_policy cloud_accounts_read = allow_p1
finops_analyst_policy cloud_accounts_create_update = allow_p1
finops_analyst_policy cloud_accounts_deactivate = deny
finops_analyst_policy users_read_manage = deny
finops_analyst_policy api_keys_read_manage = deny
finops_analyst_policy api_keys_read_rotate = deny
finops_analyst_policy imports_read = allow_p1
finops_analyst_policy imports_write = allow_p1
finops_analyst_policy price_tables_read = allow_p1
finops_analyst_policy price_tables_create_activate = deny
finops_analyst_policy forecast_models_read = allow_p1
finops_analyst_policy forecast_models_write = allow_p1
finops_analyst_policy forecast_runs_read = allow_p1
finops_analyst_policy forecast_runs_run = allow_p1
finops_analyst_policy scenarios_read_write = allow_p1
finops_analyst_policy optimizer_policies_read = allow_p1
finops_analyst_policy optimizer_policies_write = deny
finops_analyst_policy optimizer_runs_read = allow_p1
finops_analyst_policy optimizer_runs_run = allow_p1
finops_analyst_policy recommendations_read = allow_p1
finops_analyst_policy recommendations_request_approval = allow_p1
finops_analyst_policy recommendations_approve_reject = deny
finops_analyst_policy approvals_read = deny
finops_analyst_policy reports_read = allow_p1
finops_analyst_policy backtests_read_run = allow_p1
finops_analyst_policy audit_log_read = deny
finops_analyst_policy notifications_read = allow_p1
finops_analyst_policy notification_preferences_write = allow_p1
finops_analyst_policy tenant_settings_write = deny
finops_analyst_policy ecosystem_adapters_configure = deny

unfoldable pub finance_approver_policy : RolePolicy
finance_approver_policy tenant_profile_read = allow_future_p2
finance_approver_policy cloud_accounts_read = allow_future_p2
finance_approver_policy cloud_accounts_create_update = deny
finance_approver_policy cloud_accounts_deactivate = deny
finance_approver_policy users_read_manage = deny
finance_approver_policy api_keys_read_manage = deny
finance_approver_policy api_keys_read_rotate = deny
finance_approver_policy imports_read = allow_future_p2
finance_approver_policy imports_write = deny
finance_approver_policy price_tables_read = allow_future_p2
finance_approver_policy price_tables_create_activate = deny
finance_approver_policy forecast_models_read = allow_future_p2
finance_approver_policy forecast_models_write = deny
finance_approver_policy forecast_runs_read = allow_future_p2
finance_approver_policy forecast_runs_run = deny
finance_approver_policy scenarios_read_write = allow_p1
finance_approver_policy optimizer_policies_read = allow_future_p2
finance_approver_policy optimizer_policies_write = deny
finance_approver_policy optimizer_runs_read = allow_future_p2
finance_approver_policy optimizer_runs_run = deny
finance_approver_policy recommendations_read = allow_p1
finance_approver_policy recommendations_request_approval = deny
finance_approver_policy recommendations_approve_reject = allow_p1
finance_approver_policy approvals_read = allow_p1
finance_approver_policy reports_read = allow_future_p2
finance_approver_policy backtests_read_run = allow_p1
finance_approver_policy audit_log_read = deny
finance_approver_policy notifications_read = allow_p1
finance_approver_policy notification_preferences_write = allow_p1
finance_approver_policy tenant_settings_write = deny
finance_approver_policy ecosystem_adapters_configure = deny

unfoldable pub read_only_auditor_policy : RolePolicy
read_only_auditor_policy tenant_profile_read = allow_future_p2
read_only_auditor_policy cloud_accounts_read = allow_future_p2
read_only_auditor_policy cloud_accounts_create_update = deny
read_only_auditor_policy cloud_accounts_deactivate = deny
read_only_auditor_policy users_read_manage = deny
read_only_auditor_policy api_keys_read_manage = deny
read_only_auditor_policy api_keys_read_rotate = deny
read_only_auditor_policy imports_read = allow_future_p2
read_only_auditor_policy imports_write = deny
read_only_auditor_policy price_tables_read = allow_future_p2
read_only_auditor_policy price_tables_create_activate = deny
read_only_auditor_policy forecast_models_read = allow_future_p2
read_only_auditor_policy forecast_models_write = deny
read_only_auditor_policy forecast_runs_read = allow_future_p2
read_only_auditor_policy forecast_runs_run = deny
read_only_auditor_policy scenarios_read_write = allow_p1
read_only_auditor_policy optimizer_policies_read = allow_future_p2
read_only_auditor_policy optimizer_policies_write = deny
read_only_auditor_policy optimizer_runs_read = allow_future_p2
read_only_auditor_policy optimizer_runs_run = deny
read_only_auditor_policy recommendations_read = allow_future_p2
read_only_auditor_policy recommendations_request_approval = deny
read_only_auditor_policy recommendations_approve_reject = deny
read_only_auditor_policy approvals_read = deny
read_only_auditor_policy reports_read = allow_future_p2
read_only_auditor_policy backtests_read_run = allow_p1
read_only_auditor_policy audit_log_read = allow_p1
read_only_auditor_policy notifications_read = allow_p1
read_only_auditor_policy notification_preferences_write = deny
read_only_auditor_policy tenant_settings_write = deny
read_only_auditor_policy ecosystem_adapters_configure = deny

unfoldable pub api_key_action_policy : RolePolicy
api_key_action_policy tenant_profile_read = allow_p1
api_key_action_policy cloud_accounts_read = allow_p1
api_key_action_policy cloud_accounts_create_update = allow_p1
api_key_action_policy cloud_accounts_deactivate = deny
api_key_action_policy users_read_manage = deny
api_key_action_policy api_keys_read_manage = deny
api_key_action_policy api_keys_read_rotate = deny
api_key_action_policy imports_read = allow_p1
api_key_action_policy imports_write = allow_p1
api_key_action_policy price_tables_read = allow_p1
api_key_action_policy price_tables_create_activate = deny
api_key_action_policy forecast_models_read = allow_p1
api_key_action_policy forecast_models_write = allow_p1
api_key_action_policy forecast_runs_read = allow_p1
api_key_action_policy forecast_runs_run = allow_p1
api_key_action_policy scenarios_read_write = deny
api_key_action_policy optimizer_policies_read = deny
api_key_action_policy optimizer_policies_write = deny
api_key_action_policy optimizer_runs_read = allow_p1
api_key_action_policy optimizer_runs_run = allow_p1
api_key_action_policy recommendations_read = allow_p1
api_key_action_policy recommendations_request_approval = allow_p1
api_key_action_policy recommendations_approve_reject = deny
api_key_action_policy approvals_read = deny
api_key_action_policy reports_read = allow_p1
api_key_action_policy backtests_read_run = allow_p1
api_key_action_policy audit_log_read = deny
api_key_action_policy notifications_read = deny
api_key_action_policy notification_preferences_write = deny
api_key_action_policy tenant_settings_write = deny
api_key_action_policy ecosystem_adapters_configure = deny

-- `ROLE_ACTION_POLICY`.
unfoldable pub role_action_policy : UserRole → RolePolicy
unfolding tenant_admin_policy finops_analyst_policy finance_approver_policy read_only_auditor_policy
role_action_policy tenant_admin = tenant_admin_policy
role_action_policy finops_analyst = finops_analyst_policy
role_action_policy finance_approver = finance_approver_policy
role_action_policy read_only_auditor = read_only_auditor_policy

-- `AUTH_ACTIONS`, in the order of the source.
abbrev pub auth_actions : List AuthAction
auth_actions =
    tenant_profile_read ∷ cloud_accounts_read ∷ cloud_accounts_create_update
    ∷ cloud_accounts_deactivate ∷ users_read_manage ∷ api_keys_read_manage ∷ api_keys_read_rotate
    ∷ imports_read ∷ imports_write ∷ price_tables_read ∷ price_tables_create_activate
    ∷ forecast_models_read ∷ forecast_models_write ∷ forecast_runs_read ∷ forecast_runs_run
    ∷ scenarios_read_write ∷ optimizer_policies_read ∷ optimizer_policies_write
    ∷ optimizer_runs_read ∷ optimizer_runs_run ∷ recommendations_read
    ∷ recommendations_request_approval ∷ recommendations_approve_reject ∷ approvals_read
    ∷ reports_read ∷ backtests_read_run ∷ audit_log_read ∷ notifications_read
    ∷ notification_preferences_write ∷ tenant_settings_write ∷ ecosystem_adapters_configure ∷ []

unfoldable pub action_text : AuthAction → Text
action_text tenant_profile_read = codes "tenant_profile.read"
action_text cloud_accounts_read = codes "cloud_accounts.read"
action_text cloud_accounts_create_update = codes "cloud_accounts.create_update"
action_text cloud_accounts_deactivate = codes "cloud_accounts.deactivate"
action_text users_read_manage = codes "users.read_manage"
action_text api_keys_read_manage = codes "api_keys.read_manage"
action_text api_keys_read_rotate = codes "api_keys.read_rotate"
action_text imports_read = codes "imports.read"
action_text imports_write = codes "imports.write"
action_text price_tables_read = codes "price_tables.read"
action_text price_tables_create_activate = codes "price_tables.create_activate"
action_text forecast_models_read = codes "forecast_models.read"
action_text forecast_models_write = codes "forecast_models.write"
action_text forecast_runs_read = codes "forecast_runs.read"
action_text forecast_runs_run = codes "forecast_runs.run"
action_text scenarios_read_write = codes "scenarios.read_write"
action_text optimizer_policies_read = codes "optimizer_policies.read"
action_text optimizer_policies_write = codes "optimizer_policies.write"
action_text optimizer_runs_read = codes "optimizer_runs.read"
action_text optimizer_runs_run = codes "optimizer_runs.run"
action_text recommendations_read = codes "recommendations.read"
action_text recommendations_request_approval = codes "recommendations.request_approval"
action_text recommendations_approve_reject = codes "recommendations.approve_reject"
action_text approvals_read = codes "approvals.read"
action_text reports_read = codes "reports.read"
action_text backtests_read_run = codes "backtests.read_run"
action_text audit_log_read = codes "audit_log.read"
action_text notifications_read = codes "notifications.read"
action_text notification_preferences_write = codes "notification_preferences.write"
action_text tenant_settings_write = codes "tenant_settings.write"
action_text ecosystem_adapters_configure = codes "ecosystem_adapters.configure"

-- `isAuthAction`: the action that the text names.
unfoldable pub auth_action_of : Text → Option AuthAction
unfolding action_text text_eq
auth_action_of value = find? (λ action. text_eq value (action_text action)) auth_actions

unfoldable pub is_api_key_role : UserRole → Bool
is_api_key_role tenant_admin = false
is_api_key_role finops_analyst = true
is_api_key_role finance_approver = false
is_api_key_role read_only_auditor = false

unfoldable pub is_allow_p1 : PolicyDecision → Bool
is_allow_p1 allow_p1 = true
is_allow_p1 allow_future_p2 = false
is_allow_p1 allow_future_p3 = false
is_allow_p1 deny = false

-- What `canPerformAuthAction` answers for an action of the list.
unfoldable pub allows : UserRole → ActorType → AuthAction → Bool
unfolding is_api_key_role is_allow_p1 api_key_action_policy role_action_policy
allows role api_key action = is_api_key_role role && is_allow_p1 (api_key_action_policy action)
allows role user action = is_allow_p1 (role_action_policy role action)

abbrev allows_known : UserRole → ActorType → Option AuthAction → Bool
allows_known role actor none = false
allows_known role actor (some action) = allows role actor action

abbrev text_action : Option Text → Option AuthAction
text_action none = none
text_action (some value) = auth_action_of value

-- `canPerformAuthAction`; `action` is unknown data, so it may be no text at all.
unfoldable pub can_perform_auth_action : UserRole → Option Json → ActorType → Bool
unfolding allows auth_action_of
can_perform_auth_action role action actor = allows_known role actor (text_action (as_text? action))
