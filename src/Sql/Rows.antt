-- ===== src/Sql/Rows.antt =====
-- The parts of the SQL texts of apps/api/src that no policy enters: joins, conditions, new rows.
use oc.Base.{ℕ, ◌+◌, String, Option, none, some, Bool, true, false, List, [], ◌∷◌, ◌++◌}
use oc.Base.{map, not, is_some, ◌&&◌, ◌==◌, eqb, leb, if◌then◌else◌}
use oc.Base.Text.{utf16_length}
use oc.Base.Exec.{Exec, ok, other, throw}
use oc.Contracts.{tenant, tenant_admin, role_eq}
use oc.Database.Statements.{QueryResult, GlobalUserCredentialRow}
use oc.Sql.Schema.{
  RoleScope, global_scope, tenant_scope, Company, Role, User, UserRole, AuditEvent, Tables, Session,
  Server,
}
use oc.Sql.Policy.{sql_eq}
use oc.Sql.Run.{Moment, select, exists, done}

abbrev pub is_global : RoleScope → Bool
is_global global_scope = true
is_global tenant_scope = false

abbrev pub company_exists : Tables → String → Bool
company_exists t c = exists (λ (x : Company). x.id == c) t.companies

abbrev pub user_exists : Tables → String → Bool
user_exists t u = exists (λ (x : User). x.id == u) t.users

-- a nullable value that is NULL or passes
abbrev pub null_or : (String → Bool) → Option String → Bool
null_or p none = true
null_or p (some s) = p s

-- NVARCHAR(n) holds n UTF-16 units. A longer value is refused, also where the server would cut spaces
-- off its end.
unfoldable pub fits : ℕ → String → Bool
fits n s = leb (utf16_length s) n

-- the join of findGlobalUserRows, from the innermost table out
unfoldable pub credential_roles : User → UserRole → List Role → List GlobalUserCredentialRow
credential_roles u ur [] = []
credential_roles u ur (r ∷ rs) =
    let rest = credential_roles u ur rs in
    if eqb r.id ur.role_id && is_global r.scope
    then record { user_id = u.id; password_hash = u.password_hash; role_code = r.code } ∷ rest
    else rest

unfoldable pub credential_user_roles :
    User → List UserRole → List Role → List GlobalUserCredentialRow
credential_user_roles u [] roles = []
credential_user_roles u (ur ∷ urs) roles =
    let rest = credential_user_roles u urs roles in
    if ur.user_id == u.id && not (is_some ur.company_id)
    then credential_roles u ur roles ++ rest
    else rest

abbrev pub is_unused_bootstrap : String → User → Bool
is_unused_bootstrap hash u =
    sql_eq u.bootstrap_access_token_hash (some hash) && not (is_some u.bootstrap_access_used_at)

-- the UPDATE of bootstrap-access.service.ts on one row
abbrev pub use_bootstrap : ℕ → User → User
use_bootstrap now u = record u {
  bootstrap_access_used_at = some now;
  force_credential_rotation = true;
}

abbrev pub new_admin : Moment → String → String → User
new_admin m company_id email = record {
  id = m.fresh_id;
  company_id = some company_id;
  email = email;
  password_hash = none;
  bootstrap_access_token_hash = some m.fresh_token;
  bootstrap_access_used_at = none;
  is_global_admin = false;
  force_credential_rotation = true;
}

unfoldable pub tenant_admin_role_rows : String → String → List Role → List UserRole
tenant_admin_role_rows user_id company_id roles =
    map (λ (r : Role). record { user_id = user_id; role_id = r.id; company_id = some company_id })
      (select (λ (r : Role). role_eq r.code (tenant tenant_admin)) roles)

-- UX_user_roles_tenant_role
abbrev pub same_user_role : UserRole → UserRole → Bool
same_user_role a b =
    a.user_id == b.user_id && eqb a.role_id b.role_id && sql_eq a.company_id b.company_id

-- a failed constraint, policy or conversion
abbrev pub refuse : {A : Type 0} → Exec Server A
refuse = throw (other "SQL error")

abbrev pub commit_rows : {A : Type 0} → Tables → List A → ℕ → Exec Server (QueryResult A)
commit_rows t rows n s = (ok (done rows n), record s { tables = t })

abbrev pub has_conflict : List UserRole → List UserRole → Bool
has_conflict old new = exists (λ r. exists (same_user_role r) old) new

abbrev pub is_recent_denial : ℕ → String → ℕ → AuditEvent → Bool
is_recent_denial now ip window e =
    sql_eq e.event.source_ip (some ip)
    && e.event.event_type == "cross_tenant_denied"
    && leb now (e.created_at + window)

abbrev pub set_session : Session → Exec Server (QueryResult (Unit {0}))
set_session session s = (ok (done [] 0), record s { session = session })
