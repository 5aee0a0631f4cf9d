-- ===== src/Tenancy/Routes.antt =====
-- internal/server/route_authz.go and RequireRole of internal/tenancy/middleware.go: the roles that the
-- management routes ask for. A request that passes is handed to the route's handler.
use mock_agents.Prelude.{
  Bool, true, false, not, ◌&&◌, String, Option, none, some, [], ◌∷◌, if◌then◌else◌, str_eq, Assoc,
  at_key, lookup, ◌≡◌, ap,
}
use mock_agents.Tenancy.{role_viewer, role_editor, role_admin, role_platform, at_least}

abbrev pub role_open : String
role_open = ""

abbrev pub management_route_floors : Assoc String
management_route_floors =
    at_key "GET /api/v1/health" role_open
    ∷ at_key "GET /api/v1/agents" role_open
    ∷ at_key "GET /api/v1/agents/{name}" role_open
    ∷ at_key "POST /api/v1/agents/{name}/reload" role_editor
    ∷ at_key "POST /api/v1/agents" role_editor
    ∷ at_key "PUT /api/v1/agents/{name}" role_editor
    ∷ at_key "DELETE /api/v1/agents/{name}" role_editor
    ∷ at_key "GET /api/v1/tenants" role_platform
    ∷ at_key "POST /api/v1/tenants" role_platform
    ∷ at_key "DELETE /api/v1/tenants/{id}" role_platform
    ∷ at_key "GET /api/v1/tenants/{id}/keys" role_editor
    ∷ at_key "POST /api/v1/tenants/{id}/keys" role_admin
    ∷ at_key "POST /api/v1/tenants/{id}/keys/rotate" role_admin
    ∷ at_key "PATCH /api/v1/keys/{id}" role_admin
    ∷ at_key "POST /api/v1/keys/{id}/rotate" role_admin
    ∷ at_key "POST /api/v1/keys/me/rotate" role_viewer
    ∷ at_key "POST /api/v1/keys/me/burn" role_viewer
    ∷ at_key "DELETE /api/v1/keys/{id}" role_admin
    ∷ at_key "GET /api/v1/audit" role_admin
    ∷ at_key "GET /api/v1/logs" role_open
    ∷ at_key "GET /api/v1/logs/{id}" role_open
    ∷ at_key "DELETE /api/v1/logs" role_open
    ∷ at_key "GET /api/v1/logs/stream" role_open
    ∷ at_key "GET /api/v1/logs/stream/metrics" role_admin
    ∷ at_key "GET /api/v1/costs" role_viewer
    ∷ at_key "GET /api/v1/pipelines" role_viewer
    ∷ at_key "GET /api/v1/pipelines/{name}" role_viewer
    ∷ at_key "PUT /api/v1/pipelines/{name}" role_editor
    ∷ at_key "POST /api/v1/config/validate" role_editor
    ∷ at_key "GET /api/v1/quota" role_viewer
    ∷ at_key "PUT /api/v1/tenants/{id}/quota" role_platform
    ∷ []

pub record Principal : Type 0 where
  pub tenant_id : String
  pub key_id : String
  pub role : String

-- Whether the handler runs, or what the request is denied with: 401 or 403.
pub data Access : Type 0 where
  served : Access
  unauthorized : Access
  forbidden : Access

-- `none` is a request without a principal.
unfoldable pub require_role : String → Option Principal → Access
require_role required none = unauthorized
require_role required (some p) = if at_least p.role required then served else forbidden

abbrev pub gated : Bool → String → Option Principal → Access
gated multi_tenant floor p =
    if multi_tenant && not (str_eq floor role_open) then require_role floor p else served

-- The access to a mounted route; `none` is the panic of a route without a floor, when it is mounted.
unfoldable pub mount_managed : Bool → String → Option (Option Principal → Access)
mount_managed multi_tenant pattern = elim (lookup pattern management_route_floors) [
  | none ↦ none
  | some floor ↦ some (gated multi_tenant floor)
]

-- A mounted route that has a floor serves, in multi-tenant mode, exactly the callers whose role is
-- at least the floor.
pub gated_lem :
    (floor : String) (p : Principal)
    → str_eq floor role_open ≡ false
    → gated true floor (some p) ≡ (if at_least p.role floor then served else forbidden)
unfolding require_role
gated_lem floor p floored = ap (λ b. if not b then require_role floor (some p) else served) floored
