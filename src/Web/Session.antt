-- ===== src/Web/Session.antt =====
-- apps/web/src/app/auth/auth.store.ts, tenant-admin.guard.ts, tenant-http.interceptor.ts and
-- app.routes.ts: who the client takes the user to be, and where it lets the user go.
pub mod Routing
use oc.Base.{String, Option, none, some, Bool, List, [], ◌∷◌, ◌==◌, ◌&&◌, is_some, if◌then◌else◌}
use oc.Base.Text.{truthy}
use oc.Contracts.{RoleCode, LoginResponse, includes_super_admin}

-- `AuthState`
pub record AuthState : Type 0 where
  pub user_id : Option String
  pub company_id : Option String
  pub roles : List RoleCode

-- the store's first state
abbrev pub signed_out : AuthState
signed_out = record { user_id = none; company_id = none; roles = [] }

abbrev pub is_authenticated : AuthState → Bool
is_authenticated state = is_some state.user_id

abbrev pub is_super_admin : AuthState → Bool
is_super_admin state = includes_super_admin state.roles

unfoldable pub can_provision_tenants : AuthState → Bool
can_provision_tenants state = is_authenticated state && is_super_admin state

-- `setState(next)`
unfoldable pub set_state : AuthState → AuthState → AuthState
set_state next state = next

unfoldable pub apply_login_authority : LoginResponse → AuthState → AuthState
apply_login_authority authority state = record {
  user_id = some authority.user_id;
  company_id = none;
  roles = authority.roles;
}

-- The answer of a guard: pass, or go to another URL.
pub data GuardResult : Type 0 where
  pass : GuardResult
  redirect : String → GuardResult

unfoldable pub tenant_admin_guard : AuthState → GuardResult
unfolding can_provision_tenants
tenant_admin_guard auth = if can_provision_tenants auth then pass else redirect "/login"

-- `headers.set`: the value replaces those of the name.
unfoldable pub set_header : String → String → List (String × String) → List (String × String)
set_header name value [] = (name, value) ∷ []
set_header name value ((n, v) ∷ headers) =
    let rest = set_header name value headers in
    if n == name then (name, value) ∷ headers else (n, v) ∷ rest

-- The headers with which a request is sent on
unfoldable pub tenant_http_interceptor : AuthState → List (String × String) → List (String × String)
unfolding set_header
tenant_http_interceptor auth headers = elim (auth.company_id) [
  | none ↦ headers
  | some company_id ↦
      if truthy company_id then set_header "X-Company-ID" company_id headers else headers
]

pub data Page : Type 0 where
  admin_shell login_page : Page

-- what the guard of the route "" leads to
abbrev pub guarded : GuardResult → Page
guarded pass = admin_shell
guarded (redirect url) = login_page

-- `routes`: the page of a path, after redirections
unfoldable pub page_at : AuthState → String → Page
unfolding tenant_admin_guard
page_at auth path =
    if path == ""
    then guarded (tenant_admin_guard auth)
    else if path == "login"
    then login_page
    else guarded (tenant_admin_guard auth)
