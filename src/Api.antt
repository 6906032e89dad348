-- ===== src/Api.antt =====
-- The routes of apps/api/src: the controllers' methods behind the middleware that app.module.ts
-- puts before every route, and a run of requests.
pub mod Keeps
pub mod Invariants
pub mod Logins
pub mod Session
pub mod Provisions
pub mod Protection
use oc.Base.{ℕ, String, Option, List, [], ◌∷◌}
use oc.Base.Exec.{Exec, pure, ◌>>=◌}
use oc.Contracts.{AuthContext, CreateCompanyRequest, CreateCompanyResponse}
use oc.Database.{SqlDriver, service_executor}
use oc.Audit.Enumeration.{EnumerationPolicy}
use oc.Auth.Jose.{Jose}
use oc.Auth.Keys.{KeyEnv}
use oc.Auth.App.{App, on_world}
use oc.Auth.Login.{Body, LoginReply, login}
use oc.Companies.{create_company}
use oc.Health.{HealthResponse, live, ready}
use oc.Tenant.Middleware.{Request, serve}
use oc.TenantAccess.{TenantAccessResponse, get_tenant_admin_access}

-- A route with its body or its path's parameter, and the clock where the handler reads it:
-- POST /api/auth/login, POST /api/admin/companies, GET /api/tenant/companies/:companyId/admin-access,
-- GET /health/live and GET /health/ready
pub data Call : Type 0 where
  post_login : Body → (now : ℕ) → Call
  post_company : CreateCompanyRequest → Call
  get_admin_access : (company_id : String) → Call
  get_live : Call
  get_ready : (now : ℕ) → Call

pub data Response : Type 0 where
  logged_in : LoginReply → Response
  created : CreateCompanyResponse → Response
  access : TenantAccessResponse → Response
  health : HealthResponse → Response

module _ {W PrivateKey PublicKey : Type 0} (sha256 : String → String)
    (jose : Jose PrivateKey PublicKey) (env : KeyEnv) (trust_proxy : Option String)
    (policy : EnumerationPolicy) (driver : SqlDriver W) where
  -- `CompaniesController.create`, for a body of the type that the method declares
  unfoldable pub companies_create :
      CreateCompanyRequest
      → Option AuthContext
      → Exec (App W PrivateKey PublicKey) CreateCompanyResponse
  companies_create request store = on_world (create_company driver store request)

  -- `TenantAccessController.getTenantAdminAccess`
  unfoldable pub tenant_admin_access :
      String → Option AuthContext → Exec (App W PrivateKey PublicKey) TenantAccessResponse
  tenant_admin_access company_id store =
      on_world (get_tenant_admin_access (service_executor driver) policy store company_id)

  -- the controllers' methods
  unfoldable pub answer : Call → Option AuthContext → Exec (App W PrivateKey PublicKey) Response
  unfolding companies_create tenant_admin_access
  answer (post_login body now) store = do
    reply ← login sha256 jose env driver body now
    pure (logged_in reply)
  answer (post_company body) store = do
    response ← companies_create body store
    pure (created response)
  answer (get_admin_access company_id) store = do
    response ← tenant_admin_access company_id store
    pure (access response)
  answer get_live store = pure (health live)
  answer (get_ready now) store = do response ← ready jose env driver now; pure (health response)

  unfoldable pub respond : Request → Call → Exec (App W PrivateKey PublicKey) Response
  respond request call = serve jose env trust_proxy request (answer call)

  -- the state after requests, served one after the other
  unfoldable pub after :
      List (Request × Call) → App W PrivateKey PublicKey → App W PrivateKey PublicKey
  unfolding respond
  after [] app = app
  after ((request, call) ∷ calls) app = after calls (respond request call app).1
