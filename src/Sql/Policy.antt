-- ===== src/Sql/Policy.antt =====
-- db/sqlserver/schema/002_rls.sql: the predicates of TenantSecurityPolicy. A comparison with NULL
-- lets no row pass.
use oc.Base.{String, Option, none, some, Bool, true, false, ◌&&◌, ◌||◌, ◌==◌, if◌then◌else◌}
use oc.Sql.Schema.{Session}

-- What T-SQL decides and the texts only name: which texts cast to UNIQUEIDENTIFIER, LOWER, and which
-- texts a unique index takes for the same, under the collation and with trailing spaces ignored.
pub record Dialect : Type 0 where
  pub is_uniqueidentifier : String → Bool
  pub lower : String → String
  pub same_text : String → String → Bool

-- `=` of nullable values, read as a condition
abbrev pub sql_eq : Option String → Option String → Bool
sql_eq none b = false
sql_eq (some a) none = false
sql_eq (some a) (some b) = a == b

module _ (dialect : Dialect) where
  abbrev pub try_cast : Option String → Option String
  try_cast none = none
  try_cast (some s) = if dialect.is_uniqueidentifier s then some s else none

  -- dbo.fn_tenant_predicate
  unfoldable pub tenant_predicate : Session → Option String → Bool
  tenant_predicate s company_id =
      sql_eq company_id (try_cast s.company_id) || sql_eq s.user_role (some "super_admin")

  abbrev pub is_null : Option String → Bool
  is_null none = true
  is_null (some _) = false

  -- dbo.fn_tenant_or_global_principal_filter
  unfoldable pub tenant_or_global_principal_filter : Session → Option String → Bool
  tenant_or_global_principal_filter s company_id =
      (is_null company_id && s.global_principal_login)
      || sql_eq company_id (try_cast s.company_id)
      || sql_eq s.user_role (some "super_admin")
