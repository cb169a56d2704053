-- ===== src/Rbac/Routes.antt =====
-- core/tenant/protected-route-actions.ts: the table of protected routes. A path holds `{id}` where
-- the route takes an identifier.
use cloud_commitment_portfol.Base.{◌&&◌, Bool, true, false, List, [], ◌∷◌}
use cloud_commitment_portfol.Base.Text.{Text, codes}
use cloud_commitment_portfol.Rbac.{
  AuthAction, user, read_only_auditor, allows, api_keys_read_manage, api_keys_read_rotate,
  approvals_read, audit_log_read, backtests_read_run, cloud_accounts_create_update,
  cloud_accounts_deactivate, cloud_accounts_read, ecosystem_adapters_configure,
  forecast_models_read, forecast_models_write, forecast_runs_read, forecast_runs_run, imports_read,
  imports_write, notification_preferences_write, notifications_read, optimizer_policies_read,
  optimizer_policies_write, optimizer_runs_read, optimizer_runs_run, price_tables_create_activate,
  price_tables_read, recommendations_approve_reject, recommendations_read,
  recommendations_request_approval, reports_read, scenarios_read_write, tenant_profile_read,
  users_read_manage,
}

pub data Method : Type 0 where
  get post patch put delete : Method

pub record ProtectedEndpointAction : Type 0 where
  pub method : Method
  pub path : Text
  pub action : AuthAction

abbrev endpoint : Method → Text → AuthAction → ProtectedEndpointAction
endpoint method path action = record { method = method; path = path; action = action }

-- `PROTECTED_ENDPOINT_ACTIONS`.
unfoldable pub protected_endpoint_actions : List ProtectedEndpointAction
protected_endpoint_actions =
    endpoint get (codes "/tenants/me") tenant_profile_read
    ∷ endpoint get (codes "/api/users") users_read_manage
    ∷ endpoint post (codes "/api/users") users_read_manage
    ∷ endpoint patch (codes "/api/users/{id}") users_read_manage
    ∷ endpoint put (codes "/api/users/{id}/credentials/password") users_read_manage
    ∷ endpoint get (codes "/api/api-keys") api_keys_read_manage
    ∷ endpoint post (codes "/api/api-keys/rotate") api_keys_read_rotate
    ∷ endpoint post (codes "/api/cloud-accounts") cloud_accounts_create_update
    ∷ endpoint get (codes "/api/cloud-accounts") cloud_accounts_read
    ∷ endpoint patch (codes "/api/cloud-accounts/{id}") cloud_accounts_create_update
    ∷ endpoint post (codes "/api/cloud-accounts/{id}/deactivate") cloud_accounts_deactivate
    ∷ endpoint post (codes "/api/imports") imports_write
    ∷ endpoint get (codes "/api/imports") imports_read
    ∷ endpoint get (codes "/api/imports/{id}") imports_read
    ∷ endpoint post (codes "/api/price-tables") price_tables_create_activate
    ∷ endpoint post (codes "/api/price-tables/{id}/activate") price_tables_create_activate
    ∷ endpoint get (codes "/api/price-tables") price_tables_read
    ∷ endpoint get (codes "/api/forecast-models") forecast_models_read
    ∷ endpoint post (codes "/api/forecast-models") forecast_models_write
    ∷ endpoint get (codes "/api/forecast-runs") forecast_runs_read
    ∷ endpoint post (codes "/api/forecast-runs") forecast_runs_run
    ∷ endpoint get (codes "/api/forecast-runs/{id}") forecast_runs_read
    ∷ endpoint get (codes "/api/scenarios") scenarios_read_write
    ∷ endpoint post (codes "/api/scenarios") scenarios_read_write
    ∷ endpoint get (codes "/api/scenarios/{id}") scenarios_read_write
    ∷ endpoint get (codes "/api/optimizer-policies") optimizer_policies_read
    ∷ endpoint post (codes "/api/optimizer-policies") optimizer_policies_write
    ∷ endpoint patch (codes "/api/optimizer-policies/{id}") optimizer_policies_write
    ∷ endpoint post (codes "/api/optimizer-runs") optimizer_runs_run
    ∷ endpoint get (codes "/api/optimizer-runs/{id}") optimizer_runs_read
    ∷ endpoint get (codes "/api/recommendations") recommendations_read
    ∷ endpoint get (codes "/api/recommendations/{id}") recommendations_read
    ∷ endpoint post (codes "/api/recommendations/{id}/request-approval")
        recommendations_request_approval
    ∷ endpoint get (codes "/api/approvals") approvals_read
    ∷ endpoint get (codes "/api/approvals/{id}") approvals_read
    ∷ endpoint post (codes "/api/approvals/{id}/approve") recommendations_approve_reject
    ∷ endpoint post (codes "/api/approvals/{id}/reject") recommendations_approve_reject
    ∷ endpoint get (codes "/api/backtests") backtests_read_run
    ∷ endpoint post (codes "/api/backtests") backtests_read_run
    ∷ endpoint get (codes "/api/backtests/{id}") backtests_read_run
    ∷ endpoint get (codes "/api/reports/{source_type}/{source_id}") reports_read
    ∷ endpoint get (codes "/api/audit-log") audit_log_read
    ∷ endpoint get (codes "/api/integrations/status") ecosystem_adapters_configure
    ∷ endpoint get (codes "/api/notifications") notifications_read
    ∷ endpoint post (codes "/api/notifications/{id}/read") notifications_read
    ∷ endpoint get (codes "/api/settings/notifications") notification_preferences_write
    ∷ endpoint put (codes "/api/settings/notifications") notification_preferences_write
    ∷ endpoint post (codes "/api/integrations/test-event") ecosystem_adapters_configure
    ∷ []

unfoldable pub is_write : Method → Bool
is_write get = false
is_write post = true
is_write patch = true
is_write put = true
is_write delete = true

-- A route that changes something and that the matrix lets a signed-in read-only auditor call.
abbrev pub auditor_may_write : ProtectedEndpointAction → Bool
auditor_may_write e = is_write e.method && allows read_only_auditor user e.action
