-- ===== src/Web/Session/Routing.antt =====
-- app.routes.ts with tenant-admin.guard.ts: who gets to see the provisioning page.
use oc.Base.{
  String, Option, some, none, true, false, ◌≡◌, refl, ◌≢◌, ◌↔◌, arith, eq_iff, ◌==◌, ◌&&◌, is_some,
}
use oc.Contracts.{LoginResponse, includes_super_admin}
use oc.Web.Session.{
  AuthState, can_provision_tenants, apply_login_authority, tenant_admin_guard, page_at, admin_shell,
}

-- A path leads to the provisioning page exactly if it is not the login's and the store holds a user
-- with super_admin among the roles.
pub page_at-admin_shell :
    (auth : AuthState) (path : String)
    → (page_at auth path ≡ admin_shell)
      ↔ ((path ≢ "login") × (auth.user_id ≢ none) × (includes_super_admin auth.roles ≡ true))
unfolding page_at tenant_admin_guard can_provision_tenants
page_at-admin_shell auth path = (
  λ h.
      let can : can_provision_tenants auth ≡ true = ground arith in
      ((λ e. absurd (cc (rw e at h))), (λ e. absurd (cc (rw e at can))), ground arith),
  λ k.
      let (elsewhere, known, super) = k in
      let can : can_provision_tenants auth ≡ true = has_user auth.user_id known super in
      let other : (path == "login") ≡ false = ground (arith, eq_iff path "login") in ground arith,
)
  where
    has_user :
        (o : Option String)
        → o ≢ none
        → includes_super_admin auth.roles ≡ true
        → (is_some o && includes_super_admin auth.roles) ≡ true
    has_user none known super = absurd (known refl)
    has_user (some u) known super = super

-- After a login the provisioning page opens exactly if the authority's roles hold super_admin,
-- whatever the store held before.
pub page_at-apply_login_authority :
    (authority : LoginResponse) (auth : AuthState)
    → (page_at (apply_login_authority authority auth) "" ≡ admin_shell)
      ↔ (includes_super_admin authority.roles ≡ true)
unfolding page_at tenant_admin_guard can_provision_tenants apply_login_authority
page_at-apply_login_authority authority auth = (λ h. ground arith, λ h. rw h refl)
