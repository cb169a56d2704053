-- ===== src/Rbac/Separation.antt =====
-- Separation of duties in the permission matrix.
use cloud_commitment_portfol.Base.{◌≡◌, refl, ◌⊎◌, ◌↔◌, true, arith}
use cloud_commitment_portfol.Rbac.{
  AuthAction, UserRole, ActorType, user, api_key, tenant_admin, finops_analyst, finance_approver,
  allows, tenant_profile_read, cloud_accounts_read, cloud_accounts_create_update,
  cloud_accounts_deactivate, users_read_manage, api_keys_read_manage, api_keys_read_rotate,
  imports_read, imports_write, price_tables_read, price_tables_create_activate,
  forecast_models_read, forecast_models_write, forecast_runs_read, forecast_runs_run,
  scenarios_read_write, optimizer_policies_read, optimizer_policies_write, optimizer_runs_read,
  optimizer_runs_run, recommendations_read, recommendations_request_approval,
  recommendations_approve_reject, approvals_read, reports_read, backtests_read_run, audit_log_read,
  notifications_read, notification_preferences_write, tenant_settings_write,
  ecosystem_adapters_configure,
}

-- Who may decide on an approval: a signed-in tenant administrator or finance approver, and nobody
-- else; in particular no API key.
pub approve_iff :
    (role : UserRole) (actor : ActorType)
    → (allows role actor recommendations_approve_reject ≡ true)
      ↔ ((actor ≡ user) × ((role ≡ tenant_admin) ⊎ (role ≡ finance_approver)))
unfolding allows
approve_iff role actor = ground arith

-- A role that may both ask for an approval and decide on one is that of the tenant administrator,
-- who decides signed in.
pub request_and_approve :
    (role : UserRole) (actor actor' : ActorType)
    → allows role actor recommendations_request_approval ≡ true
    → allows role actor' recommendations_approve_reject ≡ true
    → (role ≡ tenant_admin) × (actor' ≡ user)
unfolding allows
request_and_approve role actor actor' h k = ground arith

-- An API key may do nothing that a signed-in analyst may not do, and nothing in another role.
pub api_key_within_analyst :
    (role : UserRole) (action : AuthAction)
    → allows role api_key action ≡ true
    → (role ≡ finops_analyst) × (allows finops_analyst user action ≡ true)
unfolding allows
api_key_within_analyst role tenant_profile_read h = ground arith
api_key_within_analyst role cloud_accounts_read h = ground arith
api_key_within_analyst role cloud_accounts_create_update h = ground arith
api_key_within_analyst role cloud_accounts_deactivate h = ground arith
api_key_within_analyst role users_read_manage h = ground arith
api_key_within_analyst role api_keys_read_manage h = ground arith
api_key_within_analyst role api_keys_read_rotate h = ground arith
api_key_within_analyst role imports_read h = ground arith
api_key_within_analyst role imports_write h = ground arith
api_key_within_analyst role price_tables_read h = ground arith
api_key_within_analyst role price_tables_create_activate h = ground arith
api_key_within_analyst role forecast_models_read h = ground arith
api_key_within_analyst role forecast_models_write h = ground arith
api_key_within_analyst role forecast_runs_read h = ground arith
api_key_within_analyst role forecast_runs_run h = ground arith
api_key_within_analyst role scenarios_read_write h = ground arith
api_key_within_analyst role optimizer_policies_read h = ground arith
api_key_within_analyst role optimizer_policies_write h = ground arith
api_key_within_analyst role optimizer_runs_read h = ground arith
api_key_within_analyst role optimizer_runs_run h = ground arith
api_key_within_analyst role recommendations_read h = ground arith
api_key_within_analyst role recommendations_request_approval h = ground arith
api_key_within_analyst role recommendations_approve_reject h = ground arith
api_key_within_analyst role approvals_read h = ground arith
api_key_within_analyst role reports_read h = ground arith
api_key_within_analyst role backtests_read_run h = ground arith
api_key_within_analyst role audit_log_read h = ground arith
api_key_within_analyst role notifications_read h = ground arith
api_key_within_analyst role notification_preferences_write h = ground arith
api_key_within_analyst role tenant_settings_write h = ground arith
api_key_within_analyst role ecosystem_adapters_configure h = ground arith

-- A tenant administrator may do everything that is listed.
pub tenant_admin_allows : (action : AuthAction) → allows tenant_admin user action ≡ true
unfolding allows
tenant_admin_allows tenant_profile_read = refl
tenant_admin_allows cloud_accounts_read = refl
tenant_admin_allows cloud_accounts_create_update = refl
tenant_admin_allows cloud_accounts_deactivate = refl
tenant_admin_allows users_read_manage = refl
tenant_admin_allows api_keys_read_manage = refl
tenant_admin_allows api_keys_read_rotate = refl
tenant_admin_allows imports_read = refl
tenant_admin_allows imports_write = refl
tenant_admin_allows price_tables_read = refl
tenant_admin_allows price_tables_create_activate = refl
tenant_admin_allows forecast_models_read = refl
tenant_admin_allows forecast_models_write = refl
tenant_admin_allows forecast_runs_read = refl
tenant_admin_allows forecast_runs_run = refl
tenant_admin_allows scenarios_read_write = refl
tenant_admin_allows optimizer_policies_read = refl
tenant_admin_allows optimizer_policies_write = refl
tenant_admin_allows optimizer_runs_read = refl
tenant_admin_allows optimizer_runs_run = refl
tenant_admin_allows recommendations_read = refl
tenant_admin_allows recommendations_request_approval = refl
tenant_admin_allows recommendations_approve_reject = refl
tenant_admin_allows approvals_read = refl
tenant_admin_allows reports_read = refl
tenant_admin_allows backtests_read_run = refl
tenant_admin_allows audit_log_read = refl
tenant_admin_allows notifications_read = refl
tenant_admin_allows notification_preferences_write = refl
tenant_admin_allows tenant_settings_write = refl
tenant_admin_allows ecosystem_adapters_configure = refl
