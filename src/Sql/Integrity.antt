-- ===== src/Sql/Integrity.antt =====
-- The constraints of db/sqlserver/schema/001_core.sql on the columns of Sql.Schema, as a predicate on
-- the tables.

pub mod Keeps
pub mod Roles
pub mod Statements
use oc.Base.{ℕ, ◌<◌, Bool, true, ◌≡◌, not, is_some, ◌&&◌, ◌||◌, ◌==◌, eqb}
use oc.Contracts.{role_eq}
use oc.Database.Statements.{ProtectionRow}
use oc.Sql.Schema.{Company, Role, User, UserRole, AuditEvent, Tables}
use oc.Sql.Policy.{Dialect}
use oc.Sql.Run.{exists}
use oc.Sql.Rows.{company_exists, user_exists, null_or, same_user_role}
use oc.Sql.Each.{Each, Distinct}

-- PK_companies and UQ_companies_name
abbrev pub company_clash : Dialect → Company → Company → Bool
company_clash dialect new c = dialect.same_text c.name new.name || c.id == new.id

-- PK_users and UQ_users_email
abbrev pub user_clash : Dialect → User → User → Bool
user_clash dialect new u = dialect.same_text u.email new.email || u.id == new.id

-- PK_roles and UQ_roles_code
abbrev pub role_clash : Role → Role → Bool
role_clash a b = eqb a.id b.id || role_eq a.code b.code

-- UX_user_roles_global_role
abbrev pub same_global_role : UserRole → UserRole → Bool
same_global_role a b =
    not (is_some a.company_id)
    && not (is_some b.company_id)
    && a.user_id == b.user_id
    && eqb a.role_id b.role_id

abbrev pub role_exists : Tables → ℕ → Bool
role_exists t r = exists (λ (x : Role). eqb x.id r) t.roles

-- FK_users_companies and CK_users_company_scope
abbrev pub UserFits : Tables → User → Type 0
UserFits t u =
    (null_or (company_exists t) u.company_id ≡ true)
    × ((is_some u.company_id || u.is_global_admin) ≡ true)

-- FK_user_roles_users, FK_user_roles_roles and FK_user_roles_companies
abbrev pub UserRoleFits : Tables → UserRole → Type 0
UserRoleFits t r =
    (user_exists t r.user_id ≡ true)
    × (role_exists t r.role_id ≡ true)
    × (null_or (company_exists t) r.company_id ≡ true)

-- FK_audit_events_companies and FK_audit_events_actor
abbrev pub AuditEventFits : Tables → AuditEvent → Type 0
AuditEventFits t e =
    (null_or (company_exists t) e.event.company_id ≡ true)
    × (null_or (user_exists t) e.event.actor_user_id ≡ true)

-- CK_ip_protection_events_counts
abbrev pub ProtectionFits : ProtectionRow → Type 0
ProtectionFits p = (0 < p.denied_attempt_count) × (0 < p.window_seconds)

pub record IsIntact (dialect : Dialect) (t : Tables) : Type 0 where
  pub companies : Distinct (company_clash dialect) t.companies
  pub roles : Distinct role_clash t.roles
  pub users : Distinct (user_clash dialect) t.users
  pub tenant_roles : Distinct same_user_role t.user_roles
  pub global_roles : Distinct same_global_role t.user_roles
  pub users_fit : Each (UserFits t) t.users
  pub user_roles_fit : Each (UserRoleFits t) t.user_roles
  pub audit_events_fit : Each (AuditEventFits t) t.audit_events
  pub protections_fit : Each ProtectionFits t.ip_protection_events
