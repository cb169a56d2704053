-- ===== src/Rbac/Tests.antt =====
-- The permission matrix at concrete roles and actions.
use cloud_commitment_portfol.Base.{◌≡◌, refl, true, [], ◌∷◌, map, filter}
use cloud_commitment_portfol.Base.Text.{Text, codes}
use cloud_commitment_portfol.Rbac.{
  user, api_key, tenant_admin, finops_analyst, allows, imports_write,
  recommendations_request_approval, recommendations_approve_reject,
}
use cloud_commitment_portfol.Rbac.Routes.{
  Method, post, ProtectedEndpointAction, protected_endpoint_actions, is_write, auditor_may_write,
}
use cloud_commitment_portfol.Rbac.Separation.{request_and_approve, api_key_within_analyst}

admin_requests : allows tenant_admin user recommendations_request_approval ≡ true
unfolding allows
admin_requests = refl

admin_approves : allows tenant_admin user recommendations_approve_reject ≡ true
unfolding allows
admin_approves = refl

auditor_write_paths :
    map {B = Method × Text}
      (λ (e : ProtectedEndpointAction). (e.method, e.path))
      (filter auditor_may_write protected_endpoint_actions)
    ≡ (post, codes "/api/scenarios")
      ∷ (post, codes "/api/backtests")
      ∷ (post, codes "/api/notifications/{id}/read")
      ∷ []
unfolding protected_endpoint_actions is_write allows
auditor_write_paths = refl

request_and_approve_example : (tenant_admin ≡ tenant_admin) × (user ≡ user)
request_and_approve_example =
    request_and_approve tenant_admin user user admin_requests admin_approves

key_imports : allows finops_analyst api_key imports_write ≡ true
unfolding allows
key_imports = refl

within_analyst_example :
    (finops_analyst ≡ finops_analyst) × (allows finops_analyst user imports_write ≡ true)
within_analyst_example = api_key_within_analyst finops_analyst imports_write key_imports
