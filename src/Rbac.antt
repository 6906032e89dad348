-- ===== src/Rbac.antt =====
-- apps/api/src/rbac/rbac.service.ts
pub mod Laws
use oc.Base.{String, Option, none, some, Bool, true, false, List, [], ◌∷◌, not, ◌||◌, ◌==◌}
use oc.Base.{if◌then◌else◌}
use oc.Base.Text.{truthy}
use oc.Base.Exec.{Result, ok, err, forbidden}
use oc.Contracts.{
  AuthContext, RoleCode, super_admin, tenant, TenantRole, tenant_admin, editor, reader,
}

pub data Permission : Type 0 where
  admin record_read record_write record_delete : Permission

-- ROLE_PERMISSIONS
abbrev pub role_permissions : TenantRole → List Permission
role_permissions tenant_admin = admin ∷ record_read ∷ record_write ∷ record_delete ∷ []
role_permissions editor = record_read ∷ record_write ∷ []
role_permissions reader = record_read ∷ []

-- `===` on permissions
unfoldable pub permission_eq : Permission → Permission → Bool
permission_eq admin admin = true
permission_eq record_read record_read = true
permission_eq record_write record_write = true
permission_eq record_delete record_delete = true
permission_eq _ _ = false

unfoldable pub includes_permission : List Permission → Permission → Bool
unfolding permission_eq
includes_permission [] p = false
includes_permission (q ∷ qs) p = permission_eq q p || includes_permission qs p

-- the callback of `context.roles.some`. Every tenant role of the contracts has permissions, so the
-- `?? false` of a role outside them has no case.
unfoldable pub role_allows : RoleCode → Permission → Bool
unfolding includes_permission
role_allows super_admin p = true
role_allows (tenant r) p = includes_permission (role_permissions r) p

unfoldable pub some_role_allows : List RoleCode → Permission → Bool
some_role_allows [] p = false
some_role_allows (r ∷ rs) p = role_allows r p || some_role_allows rs p

-- `!context.companyId || context.companyId !== companyId`
abbrev pub is_cross_tenant : Option String → String → Bool
is_cross_tenant none company_id = true
is_cross_tenant (some c) company_id = not (truthy c) || not (c == company_id)

unfoldable pub assert_tenant_permission : AuthContext → String → Permission → Result (Unit {0})
assert_tenant_permission context company_id permission =
    if context.is_super_admin
    then ok tt
    else if is_cross_tenant context.company_id company_id
    then err (forbidden "Cross-tenant access is forbidden.")
    else if some_role_allows context.roles permission
    then ok tt
    else err (forbidden "Insufficient tenant role permission.")
