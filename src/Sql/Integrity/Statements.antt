-- ===== src/Sql/Integrity/Statements.antt =====
-- Every statement of the API keeps the constraints.
use oc.Base.{◌≡◌, sym}
use mathlib.Core.Path.{subst}
use oc.Sql.Schema.{Tables}
use oc.Sql.Policy.{Dialect}
use oc.Sql.Writes.{Kept, nothing, company, admin, roles, audit_event, protection, bootstrap}
use oc.Sql.Integrity.{IsIntact}
use oc.Sql.Integrity.Keeps.{
  with_company-IsIntact, with_admin-IsIntact, with_audit_event-IsIntact, with_protection-IsIntact,
}
use oc.Sql.Integrity.Roles.{with_tenant_admin-IsIntact, with_update-IsIntact}

moved : {dialect : Dialect} {t t' : Tables} → t' ≡ t → IsIntact dialect t → IsIntact dialect t'
moved {dialect} e h = subst (IsIntact dialect) (sym e) h

-- whatever the session context is
pub IsIntact-Kept : (dialect : Dialect) → Kept dialect (IsIntact dialect)
IsIntact-Kept dialect m t t' (nothing e) h = moved e h
IsIntact-Kept dialect m t t' (company name free e) h =
    moved e (with_company-IsIntact dialect t h m name free)
IsIntact-Kept dialect m t t' (admin company_id email known free e) h =
    moved e (with_admin-IsIntact dialect t h m company_id email known free)
IsIntact-Kept dialect m t t' (roles user_id company_id user known free e) h =
    moved e (with_tenant_admin-IsIntact user_id company_id dialect t h user known free)
IsIntact-Kept dialect m t t' (audit_event row fits e) h =
    moved e (with_audit_event-IsIntact dialect t h m row fits)
IsIntact-Kept dialect m t t' (protection p fits e) h =
    moved e (with_protection-IsIntact dialect t h m p fits)
IsIntact-Kept dialect m t t' (bootstrap session user_id e) h =
    moved e (with_update-IsIntact dialect m session user_id t h)
